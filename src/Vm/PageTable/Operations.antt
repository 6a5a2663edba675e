-- ===== src/Vm/PageTable/Operations.antt =====
-- Each operation of the page table is the same operation on the function that the table represents.
use omniagent_os.Base.{
  ℕ, ◌+◌, ◌-◌, ◌%◌, ◌^◌, ◌<◌, ◌≡◌, refl, sym, ap, ◌∙◌, false, Option, none, some, ◌==◌,
  if◌then◌else◌, length, arith, Bool-cases, inl, inr, err,
}
use omniagent_os.Vm.Addr.{is_canonical}
use omniagent_os.Vm.PageTable.{
  PageTable, Place, root, entry, follow, upper, index_from_addr, is_page, MapError, UnmapError,
  already_mapped, map_page, unmap, translate, translate_at, update_flags,
}
use omniagent_os.Vm.PageTable.Walks.{held, entry-cases}
use omniagent_os.Vm.PageTable.Pages.{page-down}
use omniagent_os.Vm.PageTable.Mapping.{Represents, leaf}
use omniagent_os.Vm.PageTable.Refining.{
  Matches, map_spec, unmap_spec, update_spec, translate_spec, map_at-used, map_at-free,
  unmap_at-Matches, update_at-Matches,
}

module _ (t : PageTable) (m : ℕ → ℕ) (virt : ℕ) (r : Represents t m) (b : virt < 2 ^ 64) where
  rejected_lem : {R : Type 0} (x : R) → Matches (length t.intermediate_tables + 3) (x, t) (x, m)
  rejected_lem x = (refl, r, omega arith)

  -- `map` stores the entry of a free page, refuses a page in use, and rejects an address that is
  -- not canonical or not aligned, as the function it represents does; it makes at most three tables.
  pub map_page-map_spec :
      (phys flags : ℕ)
      → length t.intermediate_tables + 3 < 2 ^ 40
      → Matches
          (length t.intermediate_tables + 3)
          (map_page t virt phys flags)
          (map_spec m virt phys flags)
  unfolding map_page
  map_page-map_spec phys flags few = elim (Bool-cases (is_page virt)) [
    | inr n ↦ simp n (rejected_lem (err MapError.invalid_address))
    | inl c ↦ simp c (elim (entry-cases (m virt)) [
      | inl z ↦ simp z (map_at-free t m virt r b c phys flags z few)
      | inr n ↦
          let used : (m virt == 0) ≡ false = ground (arith, n) in
          simp used
            (simp (map_at-used t m virt r b c phys flags n) (rejected_lem (err already_mapped)))
    ])
  ]

  pub unmap-unmap_spec :
      Matches (length t.intermediate_tables + 3) (unmap t virt) (unmap_spec m virt)
  unfolding unmap
  unmap-unmap_spec = elim (Bool-cases (is_page virt)) [
    | inr n ↦ simp n (rejected_lem (err UnmapError.invalid_address))
    | inl c ↦ simp c (unmap_at-Matches t m virt r b c)
  ]

  pub update_flags-update_spec :
      (flags : ℕ)
      → Matches
          (length t.intermediate_tables + 3)
          (update_flags t virt flags)
          (update_spec m virt flags)
  unfolding update_flags
  update_flags-update_spec flags = elim (Bool-cases (is_page virt)) [
    | inr n ↦ simp n (rejected_lem (err MapError.invalid_address))
    | inl c ↦ simp c (update_at-Matches t m virt r b c flags)
  ]

  pub translate-translate_spec : translate t virt ≡ translate_spec m virt
  unfolding translate
  translate-translate_spec = elim (Bool-cases (is_canonical virt)) [
    | inr n ↦ simp n refl
    | inl c ↦
        let (page, same, last) = page-down virt c in
        let view : leaf t virt ≡ m (virt - virt % 4096) =
          sym (
            ap (λ l. held t (follow l t root) (index_from_addr (virt - virt % 4096) 3)) same
            ∙ ap (λ k. held t (follow (upper virt) t root) k) last)
          ∙ r.view (virt - virt % 4096) (omega (arith, b)) page in
        simp c (at (follow (upper virt) t root) refl view)
  ]
    where
      at :
          (o : Option Place)
          → follow (upper virt) t root ≡ o
          → leaf t virt ≡ m (virt - virt % 4096)
          → translate_at t virt (index_from_addr virt 3) o ≡ (
              if m (virt - virt % 4096) == 0
              then none
              else some (m (virt - virt % 4096) - m (virt - virt % 4096) % 4096 + virt % 4096))
      at none f v =
          let free : m (virt - virt % 4096) ≡ 0 =
            sym v ∙ ap (λ o. held t o (index_from_addr virt 3)) f in
          simp free refl
      at (some p) f v =
          let here : entry t p (index_from_addr virt 3) ≡ m (virt - virt % 4096) =
            sym (ap (λ o. held t o (index_from_addr virt 3)) f) ∙ v in
          simp here refl
