-- ===== src/Vm/PageTable/Refining.antt =====
-- The operations on the function that a page table represents, and the last step of each of the
-- operations on the table, at the entry of the page.
use omniagent_os.Base.{
  ℕ, ◌+◌, ◌-◌, ◌%◌, ◌^◌, ◌≤◌, ◌<◌, ◌≡◌, ◌≢◌, refl, sym, ap, ◌∙◌, subst, true, false, Option, none,
  some, ◌==◌, if◌then◌else◌, length, arith, inl, inr, Option-cases, Result, ok, err,
}
use omniagent_os.Vm.Addr.{is_canonical}
use omniagent_os.Vm.PageTable.{
  PageTable, Place, root, entry, put, ensure, follow, upper, index_from_addr, is_page, page_entry,
  MapError, UnmapError, already_mapped, not_mapped, map_at, unmap_at, update_at,
}
use omniagent_os.Vm.PageTable.Entries.{length-put}
use omniagent_os.Vm.PageTable.Walks.{held, ensure-follow, entry-cases}
use omniagent_os.Vm.PageTable.Ensuring.{ensure-Ensured}
use omniagent_os.Vm.PageTable.Pages.{upper-IsIndices}
use omniagent_os.Vm.PageTable.Mapping.{
  Represents, assign, put-Represents, ensure-Represents, length-upper,
}

-- The operations, on a function from the addresses of pages to entries.
abbrev pub map_spec : (ℕ → ℕ) → ℕ → ℕ → ℕ → Result (Unit {0}) MapError × (ℕ → ℕ)
map_spec m virt phys flags =
    if is_page virt
    then (if m virt == 0
        then (ok tt, assign m virt (page_entry phys flags))
        else (err already_mapped, m))
    else (err MapError.invalid_address, m)

abbrev pub unmap_spec : (ℕ → ℕ) → ℕ → Result ℕ UnmapError × (ℕ → ℕ)
unmap_spec m virt =
    if is_page virt
    then (if m virt == 0
        then (err not_mapped, m)
        else (ok (m virt - m virt % 4096), assign m virt 0))
    else (err UnmapError.invalid_address, m)

abbrev pub update_spec : (ℕ → ℕ) → ℕ → ℕ → Result (Unit {0}) MapError × (ℕ → ℕ)
update_spec m virt flags =
    if is_page virt
    then (if m virt == 0
        then (err MapError.invalid_address, m)
        else (ok tt, assign m virt (page_entry (m virt) flags)))
    else (err MapError.invalid_address, m)

abbrev pub translate_spec : (ℕ → ℕ) → ℕ → Option ℕ
translate_spec m virt =
    let e = m (virt - virt % 4096) in
    if is_canonical virt then (if e == 0 then none else some (e - e % 4096 + virt % 4096)) else none

-- The same result, a table that represents the new function, and no more tables than `n`.
abbrev pub Matches : {R : Type 0} → ℕ → R × PageTable → R × (ℕ → ℕ) → Type 0
Matches n x y = (x.0 ≡ y.0) × Represents x.1 y.1 × (length x.1.intermediate_tables ≤ n)

Matches-eq :
    {R : Type 0} (n : ℕ) (x x' : R × PageTable) (y y' : R × (ℕ → ℕ))
    → x ≡ x'
    → y ≡ y'
    → Matches n x' y'
    → Matches n x y
Matches-eq n x x' y y' e f h =
    subst (λ a. Matches n a y) (sym e) (subst (λ b. Matches n x' b) (sym f) h)

module _ (t : PageTable) (m : ℕ → ℕ) (virt : ℕ) (r : Represents t m) (b : virt < 2 ^ 64)
    (c : is_page virt ≡ true) where
  unchanged_lem : {R : Type 0} (x : R) → Matches (length t.intermediate_tables + 3) (x, t) (x, m)
  unchanged_lem x = (refl, r, omega arith)

  written_lem :
      {R : Type 0} (x : R) (p : Place) (e : ℕ)
      → follow (upper virt) t root ≡ some p
      → Matches
          (length t.intermediate_tables + 3)
          (x, put t p (index_from_addr virt 3) e)
          (x, assign m virt e)
  written_lem x p e f = (
    refl,
    put-Represents t m virt e p r b c f,
    omega (arith, length-put t p (index_from_addr virt 3) e),
  )

  view_lem :
      (p : Place)
      → follow (upper virt) t root ≡ some p
      → entry t p (index_from_addr virt 3) ≡ m virt
  view_lem p f = sym (ap (λ o. held t o (index_from_addr virt 3)) f) ∙ r.view virt b c

  missing_lem : follow (upper virt) t root ≡ none → m virt ≡ 0
  missing_lem f = sym (r.view virt b c) ∙ ap (λ o. held t o (index_from_addr virt 3)) f

  pub map_at-used :
      (phys flags : ℕ)
      → m virt ≢ 0
      → map_at (index_from_addr virt 3) phys flags (ensure (upper virt) t root)
        ≡ (err already_mapped, t)
  map_at-used phys flags n = elim (Option-cases (follow (upper virt) t root)) [
    | inl f ↦ absurd (n (missing_lem f))
    | inr (p, f) ↦
        let used : (entry t p (index_from_addr virt 3) == 0) ≡ false =
          ground (arith, view_lem p f, n) in
        ap (map_at (index_from_addr virt 3) phys flags) (ensure-follow (upper virt) t root p f)
        ∙ simp used refl
  ]

  pub map_at-free :
      (phys flags : ℕ)
      → m virt ≡ 0
      → length t.intermediate_tables + 3 < 2 ^ 40
      → Matches
          (length t.intermediate_tables + 3)
          (map_at (index_from_addr virt 3) phys flags (ensure (upper virt) t root))
          (ok tt, assign m virt (page_entry phys flags))
  map_at-free phys flags z few =
      let k = index_from_addr virt 3 in
      let q = (ensure (upper virt) t root).0 in
      let u = (ensure (upper virt) t root).1 in
      let e =
        ensure-Ensured (upper virt) t r.wf.way root r.wf.tree tt (upper-IsIndices virt)
          (omega (arith, length-upper virt)) (omega (arith, few, length-upper virt)) in
      let r' : Represents u m = ensure-Represents t m virt r q u e in
      let free : entry u q k ≡ 0 = sym (ap (λ o. held u o k) e.walk) ∙ r'.view virt b c ∙ z in
      Matches-eq (length t.intermediate_tables + 3) (map_at k phys flags (q, u))
        (ok tt, put u q k (page_entry phys flags)) (ok tt, assign m virt (page_entry phys flags))
        (ok tt, assign m virt (page_entry phys flags)) (simp free refl) refl
        (
          refl,
          put-Represents u m virt (page_entry phys flags) q r' b c e.walk,
          omega (arith, e.few, length-upper virt, length-put u q k (page_entry phys flags)),
        )

  pub unmap_at-Matches :
      Matches
        (length t.intermediate_tables + 3)
        (unmap_at t (index_from_addr virt 3) (follow (upper virt) t root))
        (if m virt == 0
          then (err not_mapped, m)
          else (ok (m virt - m virt % 4096), assign m virt 0))
  unmap_at-Matches = at (follow (upper virt) t root) refl
    where
      at :
          (o : Option Place)
          → follow (upper virt) t root ≡ o
          → Matches (length t.intermediate_tables + 3) (unmap_at t (index_from_addr virt 3) o) (
              if m virt == 0
              then (err not_mapped, m)
              else (ok (m virt - m virt % 4096), assign m virt 0))
      at none f = simp (missing_lem f) (unchanged_lem (err not_mapped))
      at (some p) f = simp (view_lem p f) (elim (entry-cases (m virt)) [
        | inl z ↦ simp z (unchanged_lem (err not_mapped))
        | inr n ↦
            let used : (m virt == 0) ≡ false = ground (arith, n) in
            simp used (written_lem (ok (m virt - m virt % 4096)) p 0 f)
      ])

  pub update_at-Matches :
      (flags : ℕ)
      → Matches
          (length t.intermediate_tables + 3)
          (update_at t (index_from_addr virt 3) flags (follow (upper virt) t root))
          (if m virt == 0
            then (err MapError.invalid_address, m)
            else (ok tt, assign m virt (page_entry (m virt) flags)))
  update_at-Matches flags = at (follow (upper virt) t root) refl
    where
      at :
          (o : Option Place)
          → follow (upper virt) t root ≡ o
          → Matches
              (length t.intermediate_tables + 3)
              (update_at t (index_from_addr virt 3) flags o)
              (if m virt == 0
                then (err MapError.invalid_address, m)
                else (ok tt, assign m virt (page_entry (m virt) flags)))
      at none f = simp (missing_lem f) (unchanged_lem (err MapError.invalid_address))
      at (some p) f = simp (view_lem p f) (elim (entry-cases (m virt)) [
        | inl z ↦ simp z (unchanged_lem (err MapError.invalid_address))
        | inr n ↦
            let used : (m virt == 0) ≡ false = ground (arith, n) in
            simp used (written_lem (ok tt) p (page_entry (m virt) flags) f)
      ])
