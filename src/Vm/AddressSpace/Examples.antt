-- ===== src/Vm/AddressSpace/Examples.antt =====
-- An address space of two areas, and the theorems there.
use omniagent_os.Base.{
  ap, get_elem?, subst, sym, ◌^◌, ◌+◌, ◌<◌, ◌≡◌, refl, [], ◌∷◌, arith, some, none, false,
  if◌then◌else◌, leb, ltb, ◌&&◌,
}
use omniagent_os.Base.All.{All}
use omniagent_os.Vm.Addr.{align_up, is_aligned, is_canonical}
use omniagent_os.Vm.PageTable.{
  new, map_page, ensure, upper, index_from_addr, empty_table, link, alloc_intermediate_table,
  extract_table_index, make_table_entry,
}
use omniagent_os.Vm.PageTable.Runs.{new-Represents}
use omniagent_os.Vm.AddressSpace.{
  VmArea, AddressSpace, new_user, map_area, unmap_area, map_pages, is_overlap, translate,
  find_free_area, vm_flags_to_pt_flags, aligned_size, first_gap,
}
use omniagent_os.Vm.AddressSpace.Filling.{Filled, map_pages-Filled, map_pages-pages}
use omniagent_os.Vm.AddressSpace.Spaces.{IsSpace, new_user-IsSpace, map_area-IsSpace}
use omniagent_os.Vm.AddressSpace.Unmapping.{translate-area, translate-unmap_area}
use omniagent_os.Vm.AddressSpace.Gaps.{HasPages, find_free_area-is_overlap}

abbrev space : AddressSpace
space = (map_area (new_user 1) 0x1000 8192 3 []).1

abbrev area : VmArea
area = record { start = 0x1000; end = 0x3000; flags = 3; name = [] }

map_pages-Filled_example :
    Filled
      (λ v. 0)
      0x7FFFFFFFF000
      0x800000001000
      3
      (map_pages 2 new 0x7FFFFFFFF000 0x800000001000 3).0
      (map_pages 2 new 0x7FFFFFFFF000 0x800000001000 3).1
unfolding new
map_pages-Filled_example =
    map_pages-Filled 2 new (λ v. 0) 0x7FFFFFFFF000 0x800000001000 3 new-Represents (omega arith)
      (omega arith) (omega arith) (omega arith) (omega arith) (omega arith)

map_pages-pages_example : map_pages 5 new 0x1000 0x3000 3 ≡ map_pages 2 new 0x1000 0x3000 3
map_pages-pages_example =
    map_pages-pages 5 new 0x1000 0x3000 3 (omega arith) (omega arith) (omega arith) (omega arith)

map_area-IsSpace_example : IsSpace space
unfolding new_user new align_up
map_area-IsSpace_example =
    map_area-IsSpace (new_user 1) 0x1000 8192 3 [] (new_user-IsSpace 1) (omega arith)

areas_example : space.areas ≡ area ∷ []
unfolding map_area new_user new align_up is_aligned is_canonical is_overlap map_pages map_page
    ensure upper index_from_addr empty_table link alloc_intermediate_table extract_table_index
    make_table_entry vm_flags_to_pt_flags
areas_example = refl

translate-area_example : translate space 0x1234 ≡ some 0x1234
translate-area_example =
    translate-area space 0 0x1234 area map_area-IsSpace_example
      (ap (λ l. get_elem? l 0) areas_example) (omega arith) (omega arith)

translate-unmap_area_example :
    translate (unmap_area space 0x1000).1 0x2FFF
    ≡ (if leb area.start 0x2FFF && ltb 0x2FFF area.end then none else translate space 0x2FFF)
unfolding is_canonical is_aligned
translate-unmap_area_example =
    translate-unmap_area space 0 0x2FFF area map_area-IsSpace_example
      (ap (λ l. get_elem? l 0) areas_example) refl (λ j b l e. absurd (omega (arith, l)))
      (omega arith)

areas-HasPages : All HasPages space.areas
areas-HasPages = subst (All HasPages) (sym areas_example) ((omega arith, omega arith), tt)

found_example : find_free_area space 4096 ≡ some 0x3000
unfolding find_free_area first_gap align_up map_area new_user new is_aligned is_canonical is_overlap
    map_pages map_page ensure upper index_from_addr empty_table link alloc_intermediate_table
    extract_table_index make_table_entry vm_flags_to_pt_flags
found_example = refl

find_free_area-is_overlap_example :
    (is_overlap space 0x3000 (0x3000 + aligned_size 4096) ≡ false)
    × (0x3000 + aligned_size 4096 < 2 ^ 64)
find_free_area-is_overlap_example =
    find_free_area-is_overlap space 4096 0x3000 map_area-IsSpace_example areas-HasPages
      found_example
