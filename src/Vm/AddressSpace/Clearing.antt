-- ===== src/Vm/AddressSpace/Clearing.antt =====
-- The loop of `unmap_area` over the pages of an area.
use omniagent_os.Base.{
  ℕ, zero, suc, ◌+◌, ◌%◌, ◌^◌, ◌≤◌, ◌<◌, ◌≡◌, refl, sym, ap, true, false, ◌&&◌, ◌==◌, ltb, leb,
  if◌then◌else◌, length, arith, Bool-cases, inl, inr, Result, ℕ_discrete,
}
use omniagent_os.Vm.PageTable.{PageTable, UnmapError, is_page, unmap}
use omniagent_os.Vm.PageTable.Walks.{entry-cases}
use omniagent_os.Vm.PageTable.Mapping.{Represents, assign}
use omniagent_os.Vm.PageTable.Refining.{Matches, unmap_spec}
use omniagent_os.Vm.PageTable.Operations.{unmap-unmap_spec}
use omniagent_os.Vm.AddressSpace.{unmap_pages, pages}
use omniagent_os.Vm.AddressSpace.Filling.{Represents-ext, assign_ne}

-- Every page from one address up to another has no entry.
abbrev pub clear : (ℕ → ℕ) → ℕ → ℕ → ℕ → ℕ
clear m addr stop v = if leb addr v && ltb v stop then 0 else m v

clear_next :
    (m : ℕ → ℕ) (addr stop v : ℕ)
    → addr % 4096 ≡ 0
    → v % 4096 ≡ 0
    → addr + 4096 ≤ stop
    → clear (assign m addr 0) (addr + 4096) stop v ≡ clear m addr stop v
clear_next m addr stop v a d le = elim (ℕ_discrete v addr) [
  | yes e ↦ ground (arith, e)
  | no n ↦
      let away : (v == addr) ≡ false = ground (arith, n) in
      let same : leb (addr + 4096) v ≡ leb addr v = ground (arith, n) in simp away (simp same refl)
]

-- Whether or not it was mapped, the page has no entry then.
unmap_outcome :
    (n : ℕ) (m : ℕ → ℕ) (addr : ℕ) (x : Result ℕ UnmapError × PageTable)
    → is_page addr ≡ true
    → Matches n x (unmap_spec m addr)
    → Represents x.1 (assign m addr 0)
unmap_outcome n m addr x c = simp c (elim (entry-cases (m addr)) [
  | inl z ↦ simp z (λ h. Represents-ext x.1 m (assign m addr 0) h.1 (λ v d.
      elim (ℕ_discrete v addr) [
        | yes e ↦ ground (arith, e, z, ap m e)
        | no k ↦ sym (assign_ne m addr 0 v k)
      ]))
  | inr k ↦ let used : (m addr == 0) ≡ false = ground (arith, k) in simp used (λ h. h.1)
])

clear_stopped : (m : ℕ → ℕ) (addr end v : ℕ) → end ≤ addr → m v ≡ clear m addr end v
clear_stopped m addr end v h = ground arith

-- The loop over the pages of an area unmaps each of them, mapped or not.
pub unmap_pages-Represents :
    (n : ℕ) (t : PageTable) (m : ℕ → ℕ) (addr end : ℕ)
    → Represents t m
    → addr % 4096 ≡ 0
    → end % 4096 ≡ 0
    → end < 2 ^ 64
    → ((v : ℕ) → v % 4096 ≡ 0 → addr ≤ v → v < end → is_page v ≡ true)
    → pages addr end ≤ n
    → Represents (unmap_pages n t addr end) (clear m addr end)
unfolding unmap_pages
unmap_pages-Represents zero t m addr end w a b top ps enough =
    Represents-ext t m (clear m addr end) w
      (λ v d. clear_stopped m addr end v (omega (arith, a, b, enough)))
unmap_pages-Represents (suc n) t m addr end w a b top ps enough = elim (Bool-cases (ltb addr end)) [
  | inr no_more ↦ simp no_more (
      Represents-ext t m (clear m addr end) w
        (λ v d. clear_stopped m addr end v (ground (arith, no_more))))
  | inl more ↦
      let lt : addr < end = ground (arith, more) in
      let on : (addr + 4096) % 2 ^ 64 ≡ addr + 4096 = omega (arith, lt, a, b, top) in
      let one : Represents (unmap t addr).1 (assign m addr 0) =
        unmap_outcome (length t.intermediate_tables + 3) m addr (unmap t addr)
          (ps addr a (omega arith) lt) (unmap-unmap_spec t m addr w (omega (arith, lt, top))) in
      let rest =
        unmap_pages-Represents n (unmap t addr).1 (assign m addr 0) (addr + 4096) end one
          (omega (arith, a)) b top (λ v d g h. ps v d (omega (arith, g)) h)
          (omega (arith, lt, a, b, enough)) in
      simp more (
        simp on (
          Represents-ext (unmap_pages n (unmap t addr).1 (addr + 4096) end)
            (clear (assign m addr 0) (addr + 4096) end) (clear m addr end) rest
            (λ v d. clear_next m addr end v a d (omega (arith, lt, a, b)))))
]
