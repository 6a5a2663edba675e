-- ===== src/Vm/AddressSpace/Unmapping.antt =====
-- `unmap_area` and `translate` on an address space as it should be.
use omniagent_os.Base.{
  ℕ, zero, suc, ◌≢◌, ◌+◌, ◌-◌, ◌/◌, ◌%◌, ◌^◌, ◌≤◌, ◌<◌, ◌≡◌, refl, sym, ap, ◌∙◌, subst, true, false,
  ◌&&◌, ◌==◌, ltb, leb, ◌⊎◌, if◌then◌else◌, arith, Bool-cases, inl, inr, Option, some, none, List,
  [], ◌∷◌, get_elem?,
}
use omniagent_os.Base.All.{All, All-imp, All-both, All-get, Pairwise}
use omniagent_os.Vm.Addr.{is_canonical, is_aligned}
use omniagent_os.Vm.PageTable.{is_page, page_entry}
use omniagent_os.Vm.PageTable.Mapping.{Represents}
use omniagent_os.Vm.PageTable.Operations.{translate-translate_spec}
use omniagent_os.Vm.AddressSpace.{
  VmArea, AddressSpace, vm_flags_to_pt_flags, pages, unmap_pages, take_area, with_head, drop_area,
  unmap_area, translate,
}
use omniagent_os.Vm.AddressSpace.Clearing.{clear, unmap_pages-Represents}
use omniagent_os.Vm.AddressSpace.Spaces.{IsArea, Apart, IsMapped, IsSpace}

Apart-sym : (a b : VmArea) → Apart a b → Apart b a
Apart-sym a b (inl h) = inr h
Apart-sym a b (inr h) = inl h

with_head-some :
    (c a : VmArea) (o : Option (VmArea × List VmArea)) (rest : List VmArea)
    → with_head c o ≡ some (a, rest)
    → (rest' : List VmArea) × (o ≡ some (a, rest')) × (rest ≡ c ∷ rest')
with_head-some c a none rest e = absurd (cc e)
with_head-some c a (some (b, rest')) rest e =
    let one : b ≡ a = cc e in
    let more : rest ≡ c ∷ rest' = cc e in (rest', ap (λ x. some (x, rest')) one, more)

-- The area taken is the head, or it is taken from the tail.
take_cases :
    (start : ℕ) (c : VmArea) (areas : List VmArea) (a : VmArea) (rest : List VmArea)
    → take_area start (c ∷ areas) ≡ some (a, rest)
    → ((c ≡ a) × (areas ≡ rest) × (c.start ≡ start))
      ⊎ ((rest' : List VmArea) × (take_area start areas ≡ some (a, rest')) × (rest ≡ c ∷ rest'))
unfolding take_area
take_cases start c areas a rest = elim (Bool-cases (c.start == start)) [
  | inl y ↦
      let starts : c.start ≡ start = ground (arith, y) in
      simp y
        (λ e. let one : c ≡ a = cc e in let more : areas ≡ rest = cc e in inl (one, more, starts))
  | inr n ↦ simp n (λ e. inr (with_head-some c a (take_area start areas) rest e))
]

take_area-All :
    (P : VmArea → Type 0) (start : ℕ) (areas : List VmArea) (a : VmArea) (rest : List VmArea)
    → take_area start areas ≡ some (a, rest)
    → All P areas
    → P a × All P rest × (a.start ≡ start)
unfolding take_area
take_area-All P start [] a rest e h = absurd (cc e)
take_area-All P start (c ∷ areas) a rest e h = elim (take_cases start c areas a rest e) [
  | inl (one, more, starts) ↦
      (subst P one h.0, subst (All P) more h.1, subst (λ (x : VmArea). x.start ≡ start) one starts)
  | inr (rest', found, more) ↦
      let (p, ps, starts) = take_area-All P start areas a rest' found h.1 in
      (p, subst (All P) (sym more) (h.0, ps), starts)
]

take_area-Apart :
    (start : ℕ) (areas : List VmArea) (a : VmArea) (rest : List VmArea)
    → take_area start areas ≡ some (a, rest)
    → Pairwise Apart areas
    → All (λ b. Apart b a) rest × Pairwise Apart rest
unfolding take_area
take_area-Apart start [] a rest e d = absurd (cc e)
take_area-Apart start (c ∷ areas) a rest e d = elim (take_cases start c areas a rest e) [
  | inl (one, more, starts) ↦
      let beside : All (λ b. Apart b c) areas =
        All-imp (Apart c) (λ b. Apart b c) areas (λ b. Apart-sym c b) d.0 in
      (
        subst (λ x. All (λ b. Apart b x) rest) one (subst (All (λ b. Apart b c)) more beside),
        subst (Pairwise Apart) more d.1,
      )
  | inr (rest', found, more) ↦
      let (from, others) = take_area-Apart start areas a rest' found d.1 in
      let (one, left, starts) = take_area-All (Apart c) start areas a rest' found d.0 in
      (
        subst (All (λ b. Apart b a)) (sym more) (one, from),
        subst (Pairwise Apart) (sym more) (left, others),
      )
]

-- Clearing the pages of an area that lies apart changes nothing of another.
clear-IsMapped :
    (m : ℕ → ℕ) (a b : VmArea) → Apart b a → IsMapped m b → IsMapped (clear m a.start a.end) b
clear-IsMapped m a b apart h v d g l =
    let outside : (leb a.start v && ltb v a.end) ≡ false = ground (arith, apart, g, l) in
    let (c, e) = h v d g l in (c, simp outside e)

module _ (s : AddressSpace) (start : ℕ) (a : VmArea) (rest : List VmArea) (h : IsSpace s)
    (found : take_area start s.areas ≡ some (a, rest)) where
  drop_area-Represents :
      Represents
        (unmap_pages (pages a.start a.end) s.page_table a.start a.end)
        (clear h.view a.start a.end)
  drop_area-Represents =
      let (w, others, starts) = take_area-All IsArea start s.areas a rest found h.wf in
      let (here, left, starts') =
        take_area-All (IsMapped h.view) start s.areas a rest found h.mapped in
      unmap_pages-Represents (pages a.start a.end) s.page_table h.view a.start a.end h.table w.0 w.1
        w.2 (λ v d g l. (here v d g l).0) (omega arith)

  drop_area-IsSpace : IsSpace (drop_area s (some (a, rest))).1
  drop_area-IsSpace =
      let (w, others, starts) = take_area-All IsArea start s.areas a rest found h.wf in
      let (here, left, starts') =
        take_area-All (IsMapped h.view) start s.areas a rest found h.mapped in
      let (apart, disjoint) = take_area-Apart start s.areas a rest found h.disjoint in
      record {
        view = clear h.view a.start a.end;
        table = drop_area-Represents;
        wf = others;
        mapped =
            All-imp (λ b. Apart b a × IsMapped h.view b) (IsMapped (clear h.view a.start a.end))
              rest (λ b g. clear-IsMapped h.view a b g.0 g.1)
              (All-both (λ b. Apart b a) (IsMapped h.view) rest apart left);
        disjoint = disjoint;
      }

-- `unmap_area` keeps an address space as it should be, whatever it returns.
pub unmap_area-IsSpace : (s : AddressSpace) (start : ℕ) → IsSpace s → IsSpace (unmap_area s start).1
unfolding unmap_area
unmap_area-IsSpace s start h = elim (Bool-cases (is_page start)) [
  | inr n ↦ simp n h
  | inl c ↦ simp c (at (take_area start s.areas) refl)
]
  where
    at :
        (o : Option (VmArea × List VmArea))
        → take_area start s.areas ≡ o
        → IsSpace (drop_area s o).1
    at none e = h
    at (some (a, rest)) e = drop_area-IsSpace s start a rest h e

-- The page of an address lies in an area that the address lies in, and is canonical as it is.
canonical-page : (v : ℕ) → is_page (v - v % 4096) ≡ true → is_canonical v ≡ true
unfolding is_canonical is_aligned
canonical-page v c =
    let top : v / 2 ^ 48 % 2 ^ 16 ≡ (v - v % 4096) / 2 ^ 48 % 2 ^ 16 = omega arith in
    let bit : v / 2 ^ 47 % 2 ≡ (v - v % 4096) / 2 ^ 47 % 2 = omega arith in
    simp top (simp bit (ground (arith, c)))

pt_flags_lem :
    (flags : ℕ) → (vm_flags_to_pt_flags flags < 4096) × (vm_flags_to_pt_flags flags % 2 ≡ 1)
unfolding vm_flags_to_pt_flags
pt_flags_lem flags = ground arith

-- What an entry of an area's page is translated to.
entry_lem :
    (flags addr e : ℕ)
    → e ≡ page_entry (addr - addr % 4096) (vm_flags_to_pt_flags flags)
    → ((e == 0) ≡ false) × (e - e % 4096 + addr % 4096 ≡ addr)
entry_lem flags addr e h =
    let (small, odd) = pt_flags_lem flags in
    let p = vm_flags_to_pt_flags flags in
    let low : p % 4096 ≡ p = omega (arith, small) in
    let e' : e ≡ addr - addr % 4096 + p =
      h ∙ ap (λ x. (addr - addr % 4096 - (addr - addr % 4096) % 4096) + x) low ∙ omega arith in
    (ground (arith, e', odd), omega (arith, e', small))

-- An address of an area is translated to itself.
pub translate-area :
    (s : AddressSpace) (i addr : ℕ) (a : VmArea)
    → IsSpace s
    → get_elem? s.areas i ≡ some a
    → a.start ≤ addr
    → addr < a.end
    → translate s addr ≡ some addr
unfolding translate
translate-area s i addr a h e g l =
    let w = All-get IsArea s.areas i a h.wf e in
    let (c, m) =
      All-get (IsMapped h.view) s.areas i a h.mapped e (addr - addr % 4096) (omega arith)
        (omega (arith, g, w.0)) (omega (arith, l)) in
    let (used, back) = entry_lem a.flags addr (h.view (addr - addr % 4096)) m in
    translate-translate_spec s.page_table h.view addr h.table (omega (arith, l, w.2))
    ∙ simp (canonical-page addr c) (simp used (ap some back))

translate-taken :
    (s : AddressSpace) (start addr : ℕ) (a : VmArea) (rest : List VmArea)
    → IsSpace s
    → is_page start ≡ true
    → take_area start s.areas ≡ some (a, rest)
    → addr < 2 ^ 64
    → translate (unmap_area s start).1 addr
      ≡ (if leb a.start addr && ltb addr a.end then none else translate s addr)
unfolding unmap_area translate
translate-taken s start addr a rest h c found b =
    let w = take_area-All IsArea start s.areas a rest found h.wf in
    let m' = clear h.view a.start a.end in
    let before = translate-translate_spec s.page_table h.view addr h.table b in
    simp c (
      simp found (
        translate-translate_spec (unmap_pages (pages a.start a.end) s.page_table a.start a.end) m'
          addr (drop_area-Represents s start a rest h found) b
        ∙ elim (Bool-cases (leb a.start addr && ltb addr a.end)) [
          | inl y ↦
              let inside : (leb a.start (addr - addr % 4096) && ltb (addr - addr % 4096) a.end)
                  ≡ true =
                ground (arith, y, w.0.0, w.0.1) in
              simp y (
                simp inside (elim (Bool-cases (is_canonical addr)) [
                  | inl k ↦ simp k refl
                  | inr k ↦ simp k refl
                ]))
          | inr n ↦
              let outside : (leb a.start (addr - addr % 4096) && ltb (addr - addr % 4096) a.end)
                  ≡ false =
                ground (arith, n, w.0.0, w.0.1) in
              simp n (simp outside (sym before))
        ]))

-- Of the areas that start at an address, the first one is taken.
take_area-first :
    (start i : ℕ) (areas : List VmArea) (a : VmArea)
    → get_elem? areas i ≡ some a
    → a.start ≡ start
    → ((j : ℕ) (b : VmArea) → j < i → get_elem? areas j ≡ some b → b.start ≢ start)
    → (rest : List VmArea) × (take_area start areas ≡ some (a, rest))
unfolding take_area
take_area-first start i [] a e at first = absurd (cc e)
take_area-first start zero (c ∷ areas) a e at first =
    let one : c ≡ a = cc e in
    let starts : (c.start == start) ≡ true = ground (arith, ap (λ (x : VmArea). x.start) one, at) in
    simp starts (areas, ap (λ x. some (x, areas)) one)
take_area-first start (suc i) (c ∷ areas) a e at first =
    let other : (c.start == start) ≡ false = ground (arith, first 0 c (omega arith) refl) in
    let (rest, found) =
      take_area-first start i areas a e at (λ j b l g. first (suc j) b (omega (arith, l)) g) in
    simp other (c ∷ rest, ap (with_head c) found)

-- After an unmap at a page where an area starts, no address of that area is translated, and every
-- other address of 64 bits as before. Of several areas that start there, it is
-- the first one of the list.
pub translate-unmap_area :
    (s : AddressSpace) (i addr : ℕ) (a : VmArea)
    → IsSpace s
    → get_elem? s.areas i ≡ some a
    → is_page a.start ≡ true
    → ((j : ℕ) (b : VmArea) → j < i → get_elem? s.areas j ≡ some b → b.start ≢ a.start)
    → addr < 2 ^ 64
    → translate (unmap_area s a.start).1 addr
      ≡ (if leb a.start addr && ltb addr a.end then none else translate s addr)
translate-unmap_area s i addr a h e c first b =
    let (rest, found) = take_area-first a.start i s.areas a e refl first in
    translate-taken s a.start addr a rest h c found b
