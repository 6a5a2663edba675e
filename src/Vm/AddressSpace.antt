-- ===== src/Vm/AddressSpace.antt =====
-- kernel/src/memory/vm/address_space.rs: the areas of an address space, and their pages. Flags are
-- the numbers of their bits; the sum of two addresses wraps.
pub mod Filling
pub mod Clearing
pub mod Spaces
pub mod Unmapping
pub mod Gaps
mod Examples
use omniagent_os.Base.{
  ℕ, zero, suc, ◌+◌, ◌-◌, ◌/◌, ◌%◌, ◌^◌, max, Bool, true, false, ◌&&◌, ◌||◌, not, Option, none,
  some, List, [], ◌∷◌, ◌++◌, ◌==◌, ltb, leb, if◌then◌else◌, Result, ok, err,
}
use omniagent_os.Base.Strings.{Bytes}
use omniagent_os.Vm.Addr.{align_up}
use omniagent_os.Vm.PageTable.{
  PageTable, MapError, UnmapError, already_mapped, not_mapped, is_page, map_page, unmap,
}
use omniagent_os.Vm.PageTable

pub record VmArea : Type 0 where
  pub start : ℕ
  pub end : ℕ
  pub flags : ℕ
  pub name : Bytes

pub data AddressSpaceKind : Type 0 where
  kernel : AddressSpaceKind
  user : ℕ → AddressSpaceKind

pub record AddressSpace : Type 0 where
  pub page_table : PageTable
  pub areas : List VmArea
  pub kind : AddressSpaceKind

unfoldable pub new_kernel : AddressSpace
new_kernel = record { page_table = PageTable.new; areas = []; kind = kernel }

unfoldable pub new_user : ℕ → AddressSpace
new_user agent_handle = record { page_table = PageTable.new; areas = []; kind = user agent_handle }

-- `contains`, of the flag whose bit has this value.
abbrev pub has_flag : ℕ → ℕ → Bool
has_flag flags bit = (flags / bit % 2) == 1

-- PRESENT, WRITABLE, USER_ACCESSIBLE and NO_EXECUTE, from WRITE, USER and EXECUTE.
unfoldable pub vm_flags_to_pt_flags : ℕ → ℕ
vm_flags_to_pt_flags flags =
    1
    + (if has_flag flags 2 then 2 else 0)
    + (if has_flag flags 8 then 4 else 0)
    + (if has_flag flags 4 then 0 else 2048)

abbrev pub overlaps : ℕ → ℕ → VmArea → Bool
overlaps start end area = ltb start area.end && ltb area.start end

abbrev pub any_overlap : ℕ → ℕ → List VmArea → Bool
any_overlap start end [] = false
any_overlap start end (a ∷ areas) = overlaps start end a || any_overlap start end areas

unfoldable pub is_overlap : AddressSpace → ℕ → ℕ → Bool
is_overlap s start end = any_overlap start end s.areas

abbrev pub aligned_size : ℕ → ℕ
aligned_size size = max (align_up size) 4096

-- How many pages there are from one address up to another: the turns of a loop.
abbrev pub pages : ℕ → ℕ → ℕ
pages addr end = (end - addr + 4096 - 1) / 4096

abbrev pub after :
    Result (Unit {0}) MapError
    → PageTable
    → Result (Unit {0}) MapError × PageTable
    → Result (Unit {0}) MapError × PageTable
after (ok done) t rest = rest
after (err e) t rest = (err e, t)

-- `while addr < end_addr`, with a turn of the loop for each unit of the first argument.
unfoldable pub map_pages : ℕ → PageTable → ℕ → ℕ → ℕ → Result (Unit {0}) MapError × PageTable
map_pages zero t addr end flags = (ok tt, t)
map_pages (suc n) t addr end flags =
    let (r, u) = map_page t addr addr flags in
    let rest = map_pages n u ((addr + 4096) % 2 ^ 64) end flags in
    if ltb addr end then after r u rest else (ok tt, t)

abbrev pub push_area :
    AddressSpace
    → VmArea
    → Result (Unit {0}) MapError × PageTable
    → Result (Unit {0}) MapError × AddressSpace
push_area s a (ok done, t) = (ok tt, record s { page_table = t; areas = s.areas ++ (a ∷ []) })
push_area s a (err e, t) = (err e, record s { page_table = t })

unfoldable pub map_area :
    AddressSpace → ℕ → ℕ → ℕ → Bytes → Result (Unit {0}) MapError × AddressSpace
map_area s start size flags name =
    let end = (start + aligned_size size) % 2 ^ 64 in
    if not (is_page start)
    then (err MapError.invalid_address, s)
    else (if is_overlap s start end
        then (err already_mapped, s)
        else push_area s (record { start = start; end = end; flags = flags; name = name })
            (map_pages (pages start end) s.page_table start end (vm_flags_to_pt_flags flags)))

unfoldable pub unmap_pages : ℕ → PageTable → ℕ → ℕ → PageTable
unmap_pages zero t addr end = t
unmap_pages (suc n) t addr end =
    let rest = unmap_pages n (unmap t addr).1 ((addr + 4096) % 2 ^ 64) end in
    if ltb addr end then rest else t

abbrev pub with_head : VmArea → Option (VmArea × List VmArea) → Option (VmArea × List VmArea)
with_head a none = none
with_head a (some (b, rest)) = some (b, a ∷ rest)

-- The first area that starts there, and the others.
unfoldable pub take_area : ℕ → List VmArea → Option (VmArea × List VmArea)
take_area start [] = none
take_area start (a ∷ areas) =
    let later = with_head a (take_area start areas) in
    if a.start == start then some (a, areas) else later

abbrev pub drop_area :
    AddressSpace → Option (VmArea × List VmArea) → Result (Unit {0}) UnmapError × AddressSpace
drop_area s none = (err not_mapped, s)
drop_area s (some (a, rest)) = (
  ok tt,
  record s {
    page_table = unmap_pages (pages a.start a.end) s.page_table a.start a.end;
    areas = rest;
  },
)

unfoldable pub unmap_area : AddressSpace → ℕ → Result (Unit {0}) UnmapError × AddressSpace
unmap_area s start =
    if not (is_page start)
    then (err UnmapError.invalid_address, s)
    else drop_area s (take_area start s.areas)

-- `sort_by_key` keeps the order of equal keys.
abbrev pub sorted_in : VmArea → List VmArea → List VmArea
sorted_in a [] = a ∷ []
sorted_in a (b ∷ areas) = if leb a.start b.start then a ∷ b ∷ areas else b ∷ sorted_in a areas

abbrev pub sort_areas : List VmArea → List VmArea
sort_areas [] = []
sort_areas (a ∷ areas) = sorted_in a (sort_areas areas)

abbrev pub search_start : AddressSpaceKind → ℕ
search_start kernel = 0xFFFF800000000000
search_start (user agent_handle) = 0x1000

abbrev pub max_addr : AddressSpaceKind → ℕ
max_addr kernel = 0xFFFFFFFFFFFFFFFF
max_addr (user agent_handle) = 0x00007FFFFFFFFFFF

-- The first gap that is large enough, or what is after the last area.
unfoldable pub first_gap : ℕ → ℕ → ℕ → List VmArea → Option ℕ
first_gap size limit prev_end [] = if leb size (limit - prev_end) then some prev_end else none
first_gap size limit prev_end (a ∷ areas) =
    let rest = first_gap size limit a.end areas in
    if leb size (a.start - prev_end) then some prev_end else rest

unfoldable pub find_free_area : AddressSpace → ℕ → Option ℕ
find_free_area s size =
    first_gap (aligned_size size) (max_addr s.kind) (search_start s.kind) (sort_areas s.areas)

unfoldable pub translate : AddressSpace → ℕ → Option ℕ
translate s addr = PageTable.translate s.page_table addr
