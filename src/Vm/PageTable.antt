-- ===== src/Vm/PageTable.antt =====
-- kernel/src/memory/vm/page_table.rs: the four-level page table. A place is the PML4 table or one
-- of the intermediate tables, by its index; the three upper levels are walked from place to place
-- by their indices. Reading beyond a table, which panics, gives 0 here; it does not happen.
pub mod Entries
pub mod Tree
pub mod Walks
pub mod Ensuring
pub mod Putting
pub mod Pages
pub mod Mapping
pub mod Refining
pub mod Operations
pub mod Runs
mod Examples
use omniagent_os.Base.{
  ℕ, zero, suc, ◌+◌, ◌-◌, ◌*◌, ◌/◌, ◌%◌, ◌^◌, Bool, true, false, ◌&&◌, Option, none, some, List, [],
  ◌∷◌, ◌++◌, ◌==◌, if◌then◌else◌, Result, ok, err, get_or, set, replicate, length,
}
use omniagent_os.Vm.Addr.{is_canonical, is_aligned}

pub data MapError : Type 0 where
  invalid_address : MapError
  already_mapped : MapError
  allocation_failed : MapError

pub data UnmapError : Type 0 where
  not_mapped : UnmapError
  invalid_address : UnmapError

pub record PageTable : Type 0 where
  pub pml4 : List ℕ
  pub intermediate_tables : List (List ℕ)

unfoldable pub empty_table : List ℕ
empty_table = replicate 512 0

unfoldable pub new : PageTable
unfolding empty_table
new = record { pml4 = empty_table; intermediate_tables = [] }

pub data Place : Type 0 where
  root : Place
  table : ℕ → Place

unfoldable pub index_from_addr : ℕ → ℕ → ℕ
index_from_addr addr level = addr / 2 ^ (12 + 9 * (3 - level)) % 512

unfoldable pub extract_table_index : ℕ → ℕ
extract_table_index entry = (entry / 4096 % 2 ^ 40 + 2 ^ 64 - 1) % 2 ^ 64

unfoldable pub make_table_entry : ℕ → ℕ
make_table_entry index = (index + 1) * 4096 % 2 ^ 64 + 1

abbrev pub entry : PageTable → Place → ℕ → ℕ
entry t root k = get_or t.pml4 k 0
entry t (table i) k = get_or (get_or t.intermediate_tables i []) k 0

abbrev pub put : PageTable → Place → ℕ → ℕ → PageTable
put t root k v = record t { pml4 = set t.pml4 k v }
put t (table i) k v = record t {
  intermediate_tables = set t.intermediate_tables i (set (get_or t.intermediate_tables i []) k v);
}

unfoldable pub alloc_intermediate_table : PageTable → ℕ × PageTable
alloc_intermediate_table t = (
  length t.intermediate_tables,
  record t { intermediate_tables = t.intermediate_tables ++ (empty_table ∷ []) },
)

-- A new table, and the entry that leads to it.
unfoldable pub link : PageTable → Place → ℕ → PageTable
unfolding alloc_intermediate_table
link t p k =
    put (alloc_intermediate_table t).1 p k (make_table_entry (length t.intermediate_tables))

-- Down the levels whose indices are listed, with a table made at each missing entry.
unfoldable pub ensure : List ℕ → PageTable → Place → Place × PageTable
ensure [] t p = (p, t)
ensure (k ∷ ks) t p =
    let made = ensure ks (link t p k) (table (length t.intermediate_tables)) in
    let found = ensure ks t (table (extract_table_index (entry t p k))) in
    if entry t p k == 0 then made else found

-- The same way, ending at the first missing entry.
unfoldable pub follow : List ℕ → PageTable → Place → Option Place
follow [] t p = some p
follow (k ∷ ks) t p =
    let found = follow ks t (table (extract_table_index (entry t p k))) in
    if entry t p k == 0 then none else found

-- The indices of the three upper levels.
unfoldable pub upper : ℕ → List ℕ
upper addr = index_from_addr addr 0 ∷ index_from_addr addr 1 ∷ index_from_addr addr 2 ∷ []

-- `(phys & !FLAGS_MASK) | (flags & FLAGS_MASK)`
abbrev pub page_entry : ℕ → ℕ → ℕ
page_entry phys flags = (phys - phys % 4096) + flags % 4096

abbrev pub map_at : ℕ → ℕ → ℕ → Place × PageTable → Result (Unit {0}) MapError × PageTable
map_at k phys flags (p, t) =
    if entry t p k == 0 then (ok tt, put t p k (page_entry phys flags)) else (err already_mapped, t)

abbrev pub is_page : ℕ → Bool
is_page virt = is_canonical virt && is_aligned virt

unfoldable pub map_page : PageTable → ℕ → ℕ → ℕ → Result (Unit {0}) MapError × PageTable
map_page t virt phys flags =
    if is_page virt
    then map_at (index_from_addr virt 3) phys flags (ensure (upper virt) t root)
    else (err MapError.invalid_address, t)

abbrev pub unmap_at : PageTable → ℕ → Option Place → Result ℕ UnmapError × PageTable
unmap_at t k none = (err not_mapped, t)
unmap_at t k (some p) =
    if entry t p k == 0
    then (err not_mapped, t)
    else (ok (entry t p k - entry t p k % 4096), put t p k 0)

unfoldable pub unmap : PageTable → ℕ → Result ℕ UnmapError × PageTable
unmap t virt =
    if is_page virt
    then unmap_at t (index_from_addr virt 3) (follow (upper virt) t root)
    else (err UnmapError.invalid_address, t)

abbrev pub translate_at : PageTable → ℕ → ℕ → Option Place → Option ℕ
translate_at t virt k none = none
translate_at t virt k (some p) =
    if entry t p k == 0 then none else some (entry t p k - entry t p k % 4096 + virt % 4096)

unfoldable pub translate : PageTable → ℕ → Option ℕ
translate t virt =
    if is_canonical virt
    then translate_at t virt (index_from_addr virt 3) (follow (upper virt) t root)
    else none

abbrev pub update_at : PageTable → ℕ → ℕ → Option Place → Result (Unit {0}) MapError × PageTable
update_at t k flags none = (err MapError.invalid_address, t)
update_at t k flags (some p) =
    if entry t p k == 0
    then (err MapError.invalid_address, t)
    else (ok tt, put t p k (page_entry (entry t p k) flags))

unfoldable pub update_flags : PageTable → ℕ → ℕ → Result (Unit {0}) MapError × PageTable
update_flags t virt flags =
    if is_page virt
    then update_at t (index_from_addr virt 3) flags (follow (upper virt) t root)
    else (err MapError.invalid_address, t)

-- The entries in use, `depth` levels below a table.
pub count_pages : ℕ → PageTable → List ℕ → ℕ
count_pages depth t [] = 0
count_pages zero t (e ∷ es) = (if e == 0 then 0 else 1) + count_pages zero t es
count_pages (suc depth) t (e ∷ es) =
    let below = count_pages depth t (get_or t.intermediate_tables (extract_table_index e) []) in
    (if e == 0 then 0 else below) + count_pages (suc depth) t es

pub mapping_count : PageTable → ℕ
mapping_count t = count_pages 3 t t.pml4
