-- ===== src/Fs/OpenFiles/Examples.antt =====
-- A file opened in a new table, and the theorems at what is reached.
use omniagent_os.Base.{ℕ, ◌≡◌, refl, some, List, [], ◌∷◌, length, arith, ok}
use omniagent_os.Base.Bits.{is_bit_set}
use omniagent_os.Fs.Inode.{regular}
use omniagent_os.Fs.MemoryInode.{MemoryInode, memory, new_file}
use omniagent_os.Fs.FdTable.{FdEntry, FileDescriptorTable, start, slot, new, find_slot, allocate}
use omniagent_os.Fs.FdTable.Slots.{IsTable, Allocates, new-IsTable, allocate-Allocates}
use omniagent_os.Fs.OpenFiles.{Files, read, seek}
use omniagent_os.Fs.OpenFiles
use omniagent_os.Fs.OpenFiles.Storing.{IsReadWrite, memory-IsStored}
use omniagent_os.Fs.OpenFiles.Sharing.{write-seek-read}

abbrev text : List ℕ
text = 104 ∷ 105 ∷ []

-- Inode 5, for reading and writing.
abbrev entry : ℕ → FdEntry
entry fd = record { fd = fd; inode = 5; flags = 2; offset = 0; file_type = regular }

allocate-Allocates_example : Allocates new entry (allocate new entry)
allocate-Allocates_example = allocate-Allocates new entry new-IsTable

abbrev table : FileDescriptorTable
table = (allocate new entry).1

first : allocate new entry ≡ (ok 0, table)
unfolding new allocate find_slot
first = refl

table-IsTable : IsTable table
unfolding new allocate find_slot
table-IsTable = (allocate-Allocates new entry new-IsTable).4

abbrev files : Files MemoryInode
files = record { table = table; inodes = λ a. new_file }

held : slot table 0 ≡ some (entry 0)
unfolding new allocate find_slot
held = refl

entry-IsReadWrite : IsReadWrite (entry 0)
unfolding is_bit_set
entry-IsReadWrite = record {
  writable = λ e. absurd (omega (arith, e));
  readable = refl;
  in_place = refl;
  file = refl;
}

write-seek-read_example :
    let (r, u) = OpenFiles.write memory files 0 text in
    let (q, v) = seek memory u 0 0 (start 0) in
    (r ≡ ok (length text)) × (q ≡ ok 0) × ((read memory v 0 (length text)).0 ≡ ok text)
write-seek-read_example =
    write-seek-read memory memory-IsStored files 0 (entry 0) text table-IsTable (omega arith) held
      entry-IsReadWrite (omega arith)
