-- ===== src/Fs/OpenFiles.antt =====
-- kernel/src/fs/fd_table.rs: `open`, `read`, `write`, `seek` and `fstat`, which go through the
-- entries of the table to the inodes. The states of the inodes (`Arc<dyn VfsInode>`) are a store by
-- address; an `i64` is its bit pattern of 64 bits, in which a number is negative from 2 ^ 63.
pub mod Storing
pub mod Sharing
pub mod Examples
use omniagent_os.Base.{
  ℕ, ◌+◌, ◌%◌, ◌^◌, Bool, true, false, Option, none, some, List, leb, ◌==◌, if◌then◌else◌, Result,
  ok, err, length,
}
use omniagent_os.Base.Bits.{is_bit_set}
use omniagent_os.Fs.Inode.{
  FsError, permission_denied, is_a_directory, invalid_fd, not_open, invalid_offset, is_directory,
  FileStat, VfsInode,
}
use omniagent_os.Fs.FdTable.{
  FdEntry, FileDescriptorTable, SeekFrom, start, end, current, max_fds, slot, allocate, put_offset,
  o_wronly, o_append,
}

pub record Files (I : Type 0) : Type 0 where
  pub table : FileDescriptorTable
  pub inodes : ℕ → I

abbrev pub put_inode : {I : Type 0} → (ℕ → I) → ℕ → I → ℕ → I
put_inode inodes a i b = if a == b then i else inodes b

abbrev pub appends : FdEntry → Bool
appends e = is_bit_set e.flags o_append

module _ {I : Type 0} (vfs : VfsInode I) where
  pub opened : Files I → Result ℕ FsError × FileDescriptorTable → Result ℕ FsError × Files I
  opened s (r, t) = (r, record s { table = t })

  pub open_file : Files I → ℕ → ℕ → Result ℕ FsError × Files I
  open_file s inode flags = opened s (
      allocate s.table (λ fd. record {
        fd = fd;
        inode = inode;
        flags = flags;
        offset = 0;
        file_type = vfs.file_type (s.inodes inode);
      }))

  -- After the read of the inode. The table is unchanged by a read that fails.
  abbrev pub read_done :
      Files I → ℕ → FdEntry → Result (List ℕ) FsError → Result (List ℕ) FsError × Files I
  read_done s fd e (err x) = (err x, s)
  read_done s fd e (ok bytes) =
      (ok bytes, record s { table = put_offset s.table fd e ((e.offset + length bytes) % 2 ^ 64) })

  abbrev pub read_found : Files I → ℕ → ℕ → Option FdEntry → Result (List ℕ) FsError × Files I
  read_found s fd n none = (err not_open, s)
  read_found s fd n (some e) =
      if is_bit_set e.flags o_wronly
      then (err permission_denied, s)
      else if is_directory e.file_type
      then (err is_a_directory, s)
      else read_done s fd e (vfs.read (s.inodes e.inode) e.offset n)

  pub read : Files I → ℕ → ℕ → Result (List ℕ) FsError × Files I
  read s fd n =
      if leb max_fds fd then (err (invalid_fd fd), s) else read_found s fd n (slot s.table fd)

  abbrev pub write_done : Files I → ℕ → FdEntry → Result ℕ FsError × I → Result ℕ FsError × Files I
  write_done s fd e (err x, i) = (err x, record s { inodes = put_inode s.inodes e.inode i })
  write_done s fd e (ok n, i) = (
    ok n,
    record {
      table = put_offset s.table fd e (if appends e then vfs.size i else (e.offset + n) % 2 ^ 64);
      inodes = put_inode s.inodes e.inode i;
    },
  )

  abbrev pub write_offset : Files I → FdEntry → ℕ
  write_offset s e = if appends e then vfs.size (s.inodes e.inode) else e.offset

  abbrev pub write_found : Files I → ℕ → List ℕ → Option FdEntry → Result ℕ FsError × Files I
  write_found s fd buf none = (err not_open, s)
  write_found s fd buf (some e) =
      if (e.flags % 4) == 0
      then (err permission_denied, s)
      else if is_directory e.file_type
      then (err is_a_directory, s)
      else write_done s fd e (vfs.write (s.inodes e.inode) (write_offset s e) buf)

  pub write : Files I → ℕ → List ℕ → Result ℕ FsError × Files I
  write s fd buf =
      if leb max_fds fd then (err (invalid_fd fd), s) else write_found s fd buf (slot s.table fd)

  -- The position that `seek` computes does not depend on the number inside `whence`.
  abbrev pub new_offset : Files I → FdEntry → ℕ → SeekFrom → ℕ
  new_offset s e offset (start v) = offset
  new_offset s e offset (end v) = (vfs.size (s.inodes e.inode) + offset) % 2 ^ 64
  new_offset s e offset (current v) = (e.offset + offset) % 2 ^ 64

  abbrev pub seek_to : Files I → ℕ → FdEntry → ℕ → Result ℕ FsError × Files I
  seek_to s fd e position =
      if leb (2 ^ 63) position
      then (err invalid_offset, s)
      else (ok position, record s { table = put_offset s.table fd e position })

  abbrev pub seek_found : Files I → ℕ → ℕ → SeekFrom → Option FdEntry → Result ℕ FsError × Files I
  seek_found s fd offset whence none = (err not_open, s)
  seek_found s fd offset whence (some e) = seek_to s fd e (new_offset s e offset whence)

  pub seek : Files I → ℕ → ℕ → SeekFrom → Result ℕ FsError × Files I
  seek s fd offset whence =
      if leb max_fds fd
      then (err (invalid_fd fd), s)
      else seek_found s fd offset whence (slot s.table fd)

  abbrev pub stat_found : Files I → Option FdEntry → Result FileStat FsError
  stat_found s none = err not_open
  stat_found s (some e) = vfs.stat (s.inodes e.inode)

  pub fstat : Files I → ℕ → Result FileStat FsError
  fstat s fd = if leb max_fds fd then err (invalid_fd fd) else stat_found s (slot s.table fd)
