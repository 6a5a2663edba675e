-- ===== src/Fs/FdTable.antt =====
-- kernel/src/fs/fd_table.rs: the table of the open files of a process, and what needs no inode:
-- finding a free slot, `close`, `get`, `dup` and `open_count`. An entry refers to its inode by the
-- address of the `Arc`.
pub mod Slots
use omniagent_os.Base.{
  ℕ, zero, suc, ◌+◌, ◌-◌, ◌%◌, ◌^◌, Bool, true, false, Option, none, some, List, [], ◌∷◌, leb, ◌==◌,
  if◌then◌else◌, Result, ok, err, get_or, set, replicate, length,
}
use omniagent_os.Base.Bits.{is_bit_set}
use omniagent_os.Fs.Inode.{
  FsError, permission_denied, is_a_directory, invalid_fd, fd_table_full, not_open, invalid_offset,
  FileType, is_directory, FileStat, VfsInode,
}

-- `O_WRONLY` and `O_APPEND` as the numbers of their bits.
abbrev pub o_wronly : ℕ
o_wronly = 0

abbrev pub o_append : ℕ
o_append = 10

pub record FdEntry : Type 0 where
  pub fd : ℕ
  pub inode : ℕ
  pub flags : ℕ
  pub offset : ℕ
  pub file_type : FileType

pub data SeekFrom : Type 0 where
  start : ℕ → SeekFrom
  end : ℕ → SeekFrom
  current : ℕ → SeekFrom

abbrev pub max_fds : ℕ
max_fds = 1024

pub record FileDescriptorTable : Type 0 where
  pub fds : List (Option FdEntry)
  pub next_fd : ℕ

unfoldable pub new : FileDescriptorTable
new = record { fds = replicate max_fds none; next_fd = 0 }

abbrev pub slot : FileDescriptorTable → ℕ → Option FdEntry
slot t idx = get_or t.fds idx none

abbrev pub is_none : Option FdEntry → Bool
is_none none = true
is_none (some e) = false

-- The search for a free slot in n more steps: the slot, if any, and `next_fd` as it leaves it.
unfoldable pub find_slot : ℕ → List (Option FdEntry) → ℕ → Option ℕ × ℕ
find_slot zero fds next_fd = (none, next_fd)
find_slot (suc n) fds next_fd =
    let later = find_slot n fds ((next_fd + 1) % max_fds) in
    if is_none (get_or fds next_fd none) then (some next_fd, next_fd) else later

abbrev pub fill :
    FileDescriptorTable → (ℕ → FdEntry) → Option ℕ × ℕ → Result ℕ FsError × FileDescriptorTable
fill t entry (none, next_fd) = (err fd_table_full, record t { next_fd = next_fd })
fill t entry (some idx, next_fd) =
    (ok idx, record { fds = set t.fds idx (some (entry idx)); next_fd = (idx + 1) % max_fds })

unfoldable pub allocate :
    FileDescriptorTable → (ℕ → FdEntry) → Result ℕ FsError × FileDescriptorTable
allocate t entry = fill t entry (find_slot max_fds t.fds t.next_fd)

abbrev pub close_found :
    FileDescriptorTable → ℕ → Option FdEntry → Result (Unit {0}) FsError × FileDescriptorTable
close_found t fd none = (err not_open, t)
close_found t fd (some e) = (ok tt, record t { fds = set t.fds fd none })

pub close : FileDescriptorTable → ℕ → Result (Unit {0}) FsError × FileDescriptorTable
close t fd = if leb max_fds fd then (err (invalid_fd fd), t) else close_found t fd (slot t fd)

abbrev pub get_found : Option FdEntry → Result FdEntry FsError
get_found none = err not_open
get_found (some e) = ok e

-- A clone of the entry, offset included.
unfoldable pub get : FileDescriptorTable → ℕ → Result FdEntry FsError
get t fd = if leb max_fds fd then err (invalid_fd fd) else get_found (slot t fd)

abbrev pub dup_found :
    FileDescriptorTable → Result FdEntry FsError → Result ℕ FsError × FileDescriptorTable
dup_found t (err e) = (err e, t)
dup_found t (ok e) = allocate t (λ fd. record e { fd = fd })

unfoldable pub dup : FileDescriptorTable → ℕ → Result ℕ FsError × FileDescriptorTable
dup t fd = dup_found t (get t fd)

abbrev pub count_some : List (Option FdEntry) → ℕ
count_some [] = 0
count_some (none ∷ es) = count_some es
count_some (some e ∷ es) = suc (count_some es)

pub open_count : FileDescriptorTable → ℕ
open_count t = count_some t.fds

-- `*entry.offset.lock() = offset`
abbrev pub put_offset : FileDescriptorTable → ℕ → FdEntry → ℕ → FileDescriptorTable
put_offset t fd e offset = record t { fds = set t.fds fd (some (record e { offset = offset })) }
