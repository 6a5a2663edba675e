-- ===== src/Vm/AddressSpace/Spaces.antt =====
-- What holds of an address space: its areas lie apart, and their pages are mapped, each to the
-- frame of its own address, with the flags of its area.
use omniagent_os.Base.{
  ℕ, ◌+◌, ◌*◌, ◌%◌, ◌^◌, ◌≤◌, ◌<◌, ◌≡◌, refl, ap, true, false, ◌&&◌, max, ltb, leb, ◌⊎◌, length,
  arith, Bool-cases, inl, inr, Result, ok, err, List, [], ◌∷◌, ◌++◌,
}
use omniagent_os.Base.Strings.{Bytes}
use omniagent_os.Base.All.{All, All-imp, All-append, All-both, Pairwise, Pairwise-append}
use omniagent_os.Vm.Addr.{is_aligned, align_up}
use omniagent_os.Vm.PageTable.{PageTable, MapError, is_page, page_entry}
use omniagent_os.Vm.PageTable.Mapping.{Represents}
use omniagent_os.Vm.PageTable.Runs.{new-Represents}
use omniagent_os.Vm.AddressSpace.{
  VmArea, AddressSpace, new_kernel, new_user, vm_flags_to_pt_flags, any_overlap, is_overlap,
  aligned_size, pages, map_pages, push_area, map_area,
}
use omniagent_os.Vm.AddressSpace.Filling.{fill, Filled, map_pages-Filled}

abbrev pub IsArea : VmArea → Type 0
IsArea a = (a.start % 4096 ≡ 0) × (a.end % 4096 ≡ 0) × (a.end < 2 ^ 64)

abbrev pub Apart : VmArea → VmArea → Type 0
Apart a b = (a.end ≤ b.start) ⊎ (b.end ≤ a.start)

abbrev pub IsMapped : (ℕ → ℕ) → VmArea → Type 0
IsMapped m a =
    (v : ℕ)
    → v % 4096 ≡ 0
    → a.start ≤ v
    → v < a.end
    → (is_page v ≡ true) × (m v ≡ page_entry v (vm_flags_to_pt_flags a.flags))

pub record IsSpace (s : AddressSpace) : Type 0 where
  pub view : ℕ → ℕ
  pub table : Represents s.page_table view
  pub wf : All IsArea s.areas
  pub mapped : All (IsMapped view) s.areas
  pub disjoint : Pairwise Apart s.areas

pub new_kernel-IsSpace : IsSpace new_kernel
unfolding new_kernel
new_kernel-IsSpace = record {
  view = λ v. 0;
  table = new-Represents;
  wf = tt;
  mapped = tt;
  disjoint = tt;
}

pub new_user-IsSpace : (agent_handle : ℕ) → IsSpace (new_user agent_handle)
unfolding new_user
new_user-IsSpace agent_handle = record {
  view = λ v. 0;
  table = new-Represents;
  wf = tt;
  mapped = tt;
  disjoint = tt;
}

-- Without an overlap, every area lies apart.
pub any_overlap-Apart :
    (start end : ℕ) (a : VmArea) (areas : List VmArea)
    → a.start ≡ start
    → a.end ≡ end
    → any_overlap start end areas ≡ false
    → All (λ b. Apart b a) areas
any_overlap-Apart start end a [] e f h = tt
any_overlap-Apart start end a (b ∷ areas) e f h =
    let apart : Apart b a = ground (arith, e, f, h) in
    let others : any_overlap start end areas ≡ false = ground (arith, h) in
    (apart, any_overlap-Apart start end a areas e f others)

pub no_overlap_lem :
    (s : AddressSpace) (start end : ℕ)
    → is_overlap s start end ≡ false
    → any_overlap start end s.areas ≡ false
unfolding is_overlap
no_overlap_lem s start end h = h

-- What is written in the pages of an area that lies apart changes nothing of another.
fill-IsMapped :
    (m : ℕ → ℕ) (a : VmArea) (stop flags : ℕ) (b : VmArea)
    → stop ≤ a.end
    → Apart b a
    → IsMapped m b
    → IsMapped (fill m a.start stop flags) b
fill-IsMapped m a stop flags b le apart h v d g l =
    let outside : (leb a.start v && ltb v stop) ≡ false = ground (arith, apart, le, g, l) in
    let (c, e) = h v d g l in (c, simp outside e)

-- The pages of an area that was filled are mapped.
Filled-IsMapped :
    (m : ℕ → ℕ) (a : VmArea) (r : Result (Unit {0}) MapError) (u : PageTable) (flags : ℕ)
    → (f : Filled m a.start a.end flags r u) → f.stop ≡ a.end
    → flags ≡ vm_flags_to_pt_flags a.flags
    → IsMapped (fill m a.start f.stop flags) a
Filled-IsMapped m a r u flags f e k v d g l =
    let inside : (leb a.start v && ltb v f.stop) ≡ true = ground (arith, e, g, l) in
    let (c, z) = f.free v d g (omega (arith, e, l)) in (c, simp inside (ap (page_entry v) k))

kept-IsMapped :
    (s : AddressSpace) (h : IsSpace s) (a : VmArea) (stop flags : ℕ)
    → stop ≤ a.end
    → All (λ b. Apart b a) s.areas
    → All (IsMapped (fill h.view a.start stop flags)) s.areas
kept-IsMapped s h a stop flags le apart =
    All-imp (λ b. Apart b a × IsMapped h.view b) (IsMapped (fill h.view a.start stop flags)) s.areas
      (λ b g. fill-IsMapped h.view a stop flags b le g.0 g.1)
      (All-both (λ b. Apart b a) (IsMapped h.view) s.areas apart h.mapped)

-- The pages of an area, and the area itself unless its pages could not all be mapped.
push_area-IsSpace :
    (s : AddressSpace) (h : IsSpace s) (a : VmArea) (x : Result (Unit {0}) MapError × PageTable)
    → IsArea a
    → All (λ b. Apart b a) s.areas
    → Filled h.view a.start a.end (vm_flags_to_pt_flags a.flags) x.0 x.1
    → IsSpace (push_area s a x).1
push_area-IsSpace s h a (ok done, u) w apart f =
    let pf = vm_flags_to_pt_flags a.flags in
    let all : f.stop ≡ a.end = elim f.outcome [
      | inl o ↦ o.1
      | inr (inl o) ↦ absurd (cc (o.0))
      | inr (inr o) ↦ absurd (cc (o.0))
    ] in
    record {
      view = fill h.view a.start f.stop pf;
      table = f.table;
      wf = All-append IsArea s.areas (a ∷ []) h.wf (w, tt);
      mapped =
          All-append (IsMapped (fill h.view a.start f.stop pf)) s.areas (a ∷ [])
            (kept-IsMapped s h a f.stop pf f.to apart)
            (Filled-IsMapped h.view a (ok done) u pf f all refl, tt);
      disjoint = Pairwise-append Apart s.areas a h.disjoint apart;
    }
push_area-IsSpace s h a (err e, u) w apart f =
    let pf = vm_flags_to_pt_flags a.flags in
    record {
      view = fill h.view a.start f.stop pf;
      table = f.table;
      wf = h.wf;
      mapped = kept-IsMapped s h a f.stop pf f.to apart;
      disjoint = h.disjoint;
    }

-- The end of the area, where its size is rounded up to pages and is at least one.
abbrev pub area_end : ℕ → ℕ → ℕ
area_end start size = (start + aligned_size size) % 2 ^ 64

aligned-area_end : (start size : ℕ) → start % 4096 ≡ 0 → area_end start size % 4096 ≡ 0
unfolding align_up
aligned-area_end start size a =
    let whole : max (align_up size) 4096 % 4096 ≡ 0 = ground arith in omega (arith, whole, a)

pub page-aligned : (v : ℕ) → is_page v ≡ true → v % 4096 ≡ 0
unfolding is_aligned
page-aligned v c = ground (arith, c)

-- An area whose end wraps has no pages.
push_empty-IsSpace :
    (s : AddressSpace) (h : IsSpace s) (a : VmArea)
    → IsArea a
    → All (λ b. Apart b a) s.areas
    → a.end < a.start
    → IsSpace (record s { areas = s.areas ++ (a ∷ []) })
push_empty-IsSpace s h a w apart lt = record {
  view = h.view;
  table = h.table;
  wf = All-append IsArea s.areas (a ∷ []) h.wf (w, tt);
  mapped =
      All-append (IsMapped h.view) s.areas (a ∷ []) h.mapped
        (λ v d g l. absurd (omega (arith, lt, g, l)), tt);
  disjoint = Pairwise-append Apart s.areas a h.disjoint apart;
}

-- `map_area` keeps an address space as it should be, whatever it returns: also where it stops with
-- an error at a page that is in use or that is not canonical.
pub map_area-IsSpace :
    (s : AddressSpace) (start size flags : ℕ) (name : Bytes)
    → IsSpace s
    → length s.page_table.intermediate_tables + 3 * pages start (area_end start size) < 2 ^ 40
    → IsSpace (map_area s start size flags name).1
unfolding map_area map_pages
map_area-IsSpace s start size flags name h few = elim (Bool-cases (is_page start)) [
  | inr n ↦ simp n h
  | inl c ↦ simp c (elim (Bool-cases (is_overlap s start (area_end start size))) [
    | inl o ↦ simp o h
    | inr o ↦ simp o (mapped_area c o)
  ])
]
  where
    area : VmArea
    area = record { start = start; end = area_end start size; flags = flags; name = name }

    mapped_area :
        is_page start ≡ true
        → is_overlap s start (area_end start size) ≡ false
        → IsSpace
            (push_area s area (
              map_pages
                (pages start (area_end start size))
                s.page_table
                start
                (area_end start size)
                (vm_flags_to_pt_flags flags))).1
    mapped_area c o =
        let end = area_end start size in
        let a : start % 4096 ≡ 0 = page-aligned start c in
        let w : IsArea area = (a, aligned-area_end start size a, omega arith) in
        let apart =
          any_overlap-Apart start end area s.areas refl refl (no_overlap_lem s start end o) in
        elim (Bool-cases (ltb end start)) [
          | inl wrapped ↦
              let lt : end < start = ground (arith, wrapped) in
              let no_turn : pages start end ≡ 0 = omega (arith, lt) in
              simp no_turn (push_empty-IsSpace s h area w apart lt)
          | inr fits ↦
              push_area-IsSpace s h area
                (map_pages (pages start end) s.page_table start end (vm_flags_to_pt_flags flags)) w
                apart
                (map_pages-Filled (pages start end) s.page_table h.view start end
                  (vm_flags_to_pt_flags flags) h.table a (w.1) (ground (arith, fits)) (w.2)
                  (omega arith) few)
        ]
