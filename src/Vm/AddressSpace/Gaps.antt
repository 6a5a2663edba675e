-- ===== src/Vm/AddressSpace/Gaps.antt =====
-- `find_free_area`: the range it finds overlaps no area.
use omniagent_os.Base.{
  ℕ, ◌+◌, ◌-◌, ◌^◌, ◌≤◌, ◌<◌, ◌≡◌, refl, false, leb, ◌⊎◌, arith, Bool-cases, inl, inr, some, List,
  [], ◌∷◌,
}
use omniagent_os.Base.All.{All, All-imp, Pairwise}
use omniagent_os.Vm.AddressSpace.{
  VmArea, AddressSpace, AddressSpaceKind, kernel, user, any_overlap, is_overlap, aligned_size,
  sorted_in, sort_areas, first_gap, search_start, max_addr, find_free_area,
}
use omniagent_os.Vm.AddressSpace.Spaces.{Apart, IsSpace}

-- An area that has pages.
abbrev pub HasPages : VmArea → Type 0
HasPages a = (a.start < a.end) × (a.end < 2 ^ 64)

abbrev Before : VmArea → VmArea → Type 0
Before a b = a.end ≤ b.start

module _ (P : VmArea → Type 0) where
  All-sorted_in : (a : VmArea) (areas : List VmArea) → P a → All P areas → All P (sorted_in a areas)
  All-sorted_in a [] p h = (p, tt)
  All-sorted_in a (b ∷ areas) p h = elim (Bool-cases (leb a.start b.start)) [
    | inl y ↦ simp y (p, h)
    | inr n ↦ simp n (h.0, All-sorted_in a areas p h.1)
  ]

  All-unsorted_in :
      (a : VmArea) (areas : List VmArea) → All P (sorted_in a areas) → P a × All P areas
  All-unsorted_in a [] = λ h. h
  All-unsorted_in a (b ∷ areas) = elim (Bool-cases (leb a.start b.start)) [
    | inl y ↦ simp y (λ h. h)
    | inr n ↦ simp n (λ h. let (p, q) = All-unsorted_in a areas h.1 in (p, (h.0, q)))
  ]

  All-sort_areas : (areas : List VmArea) → All P areas → All P (sort_areas areas)
  All-sort_areas [] h = tt
  All-sort_areas (a ∷ areas) h = All-sorted_in a (sort_areas areas) h.0 (All-sort_areas areas h.1)

  All-unsort_areas : (areas : List VmArea) → All P (sort_areas areas) → All P areas
  All-unsort_areas [] h = tt
  All-unsort_areas (a ∷ areas) h =
      let (p, q) = All-unsorted_in a (sort_areas areas) h in (p, All-unsort_areas areas q)

sorted_in-Before :
    (a : VmArea) (areas : List VmArea)
    → HasPages a
    → All HasPages areas
    → All (Apart a) areas
    → Pairwise Before areas
    → Pairwise Before (sorted_in a areas)
sorted_in-Before a [] p ps h d = (tt, tt)
sorted_in-Before a (b ∷ areas) p ps h d = elim (Bool-cases (leb a.start b.start)) [
  | inl y ↦
      let first : a.end ≤ b.start = ground (arith, y, p.0, ps.0.0, h.0) in
      simp y (
        (first, All-imp (Before b) (Before a) areas (λ c q. omega (arith, first, ps.0.0, q)) d.0),
        d,
      )
  | inr n ↦
      let later : b.end ≤ a.start = ground (arith, n, p.0, ps.0.0, h.0) in
      simp n (All-sorted_in (Before b) a areas later d.0, sorted_in-Before a areas p ps.1 h.1 d.1)
]

sort_areas-Before :
    (areas : List VmArea)
    → All HasPages areas
    → Pairwise Apart areas
    → Pairwise Before (sort_areas areas)
sort_areas-Before [] p d = tt
sort_areas-Before (a ∷ areas) p d =
    sorted_in-Before a (sort_areas areas) p.0 (All-sort_areas HasPages areas p.1)
      (All-sort_areas (Apart a) areas d.0) (sort_areas-Before areas p.1 d.1)

first_gap-ge :
    (size limit prev_end : ℕ) (areas : List VmArea) (x : ℕ)
    → All HasPages areas
    → All (λ a. prev_end ≤ a.start) areas
    → Pairwise Before areas
    → first_gap size limit prev_end areas ≡ some x
    → prev_end ≤ x
unfolding first_gap
first_gap-ge size limit prev_end [] x p h d = elim (Bool-cases (leb size (limit - prev_end))) [
  | inl y ↦ simp y (λ e. let same : prev_end ≡ x = cc e in omega (arith, same))
  | inr n ↦ simp n (λ e. absurd (cc e))
]
first_gap-ge size limit prev_end (a ∷ areas) x p h d =
    elim (Bool-cases (leb size (a.start - prev_end))) [
      | inl y ↦ simp y (λ e. let same : prev_end ≡ x = cc e in omega (arith, same))
      | inr n ↦ simp n (λ e.
          let le = first_gap-ge size limit a.end areas x p.1 d.0 d.1 e in
          omega (arith, le, p.0.0, h.0))
    ]

-- A gap lies beside every area.
abbrev Beside : ℕ → ℕ → VmArea → Type 0
Beside x size a = (a.end ≤ x) ⊎ (x + size ≤ a.start)

first_gap-Beside :
    (size limit prev_end : ℕ) (areas : List VmArea) (x : ℕ)
    → 0 < size
    → limit < 2 ^ 64
    → All HasPages areas
    → Pairwise Before areas
    → first_gap size limit prev_end areas ≡ some x
    → All (Beside x size) areas × (x + size < 2 ^ 64)
unfolding first_gap
first_gap-Beside size limit prev_end [] x z l p d =
    elim (Bool-cases (leb size (limit - prev_end))) [
      | inl y ↦ simp y (λ e. let same : prev_end ≡ x = cc e in (tt, ground (arith, same, y, z, l)))
      | inr n ↦ simp n (λ e. absurd (cc e))
    ]
first_gap-Beside size limit prev_end (a ∷ areas) x z l p d =
    elim (Bool-cases (leb size (a.start - prev_end))) [
      | inl y ↦ simp y (λ e.
          let same : prev_end ≡ x = cc e in
          let fits : x + size ≤ a.start = ground (arith, same, y, z) in
          (
            (
              inr fits,
              All-imp (Before a) (Beside x size) areas (λ b q. inr (omega (arith, fits, q, p.0.0)))
                  d.0,
            ),
            omega (arith, fits, p.0.0, p.0.1),
          ))
      | inr n ↦ simp n (λ e.
          let (others, top) = first_gap-Beside size limit a.end areas x z l p.1 d.1 e in
          ((inl (first_gap-ge size limit a.end areas x p.1 d.0 d.1 e), others), top))
    ]

Beside-overlap :
    (x size : ℕ) (areas : List VmArea)
    → All (Beside x size) areas
    → any_overlap x (x + size) areas ≡ false
Beside-overlap x size [] h = refl
Beside-overlap x size (a ∷ areas) h = ground (arith, h.0, Beside-overlap x size areas h.1)

max_addr-lt : (k : AddressSpaceKind) → max_addr k < 2 ^ 64
max_addr-lt kernel = omega arith
max_addr-lt (user agent_handle) = omega arith

-- The range that `find_free_area` finds, of the size rounded up to pages, ends below 2^64 and
-- overlaps no area, where every area has pages.
pub find_free_area-is_overlap :
    (s : AddressSpace) (size x : ℕ)
    → IsSpace s
    → All HasPages s.areas
    → find_free_area s size ≡ some x
    → (is_overlap s x (x + aligned_size size) ≡ false) × (x + aligned_size size < 2 ^ 64)
unfolding find_free_area is_overlap
find_free_area-is_overlap s size x h p e =
    let (beside, top) =
      first_gap-Beside (aligned_size size) (max_addr s.kind) (search_start s.kind)
        (sort_areas s.areas) x (omega arith) (max_addr-lt s.kind)
        (All-sort_areas HasPages s.areas p) (sort_areas-Before s.areas p h.disjoint) e in
    (
      Beside-overlap x (aligned_size size) s.areas
          (All-unsort_areas (Beside x (aligned_size size)) s.areas beside),
      top,
    )
