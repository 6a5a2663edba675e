-- ===== src/Fs/MemoryInode.antt =====
-- kernel/src/fs/inode.rs, `MemoryInode`: a file in memory. Its data is bounded by the memory only;
-- the panic of an allocation that fails is not modelled.
pub mod Content
use omniagent_os.Base.{
  ℕ, ◌+◌, ◌-◌, ◌/◌, ◌≤◌, min, Bool, List, [], length, ltb, leb, if◌then◌else◌, Result, ok,
}
use omniagent_os.Base.Slices.{take, drop, copy_at, grow}
use omniagent_os.Fs.Inode.{
  FsError, FileType, regular, directory, sym_link, char_device, block_device, socket, fifo,
  FileStat, VfsInode,
}

pub record MemoryInode : Type 0 where
  pub data_bytes : List ℕ
  pub kind : FileType
  pub created_time : ℕ
  pub modified_time : ℕ

pub new_file : MemoryInode
new_file = record { data_bytes = []; kind = regular; created_time = 0; modified_time = 0 }

pub new_directory : MemoryInode
new_directory = record { data_bytes = []; kind = directory; created_time = 0; modified_time = 0 }

unfoldable pub read : MemoryInode → ℕ → ℕ → Result (List ℕ) FsError
read i offset n =
    if leb (length i.data_bytes) offset
    then ok []
    else ok (take (min (offset + n) (length i.data_bytes) - offset) (drop offset i.data_bytes))

abbrev pub extended : List ℕ → ℕ → List ℕ
extended bytes end = if ltb (length bytes) end then grow bytes end 0 else bytes

unfoldable pub write : MemoryInode → ℕ → List ℕ → Result ℕ FsError × MemoryInode
write i offset buf = (
  ok (length buf),
  record i { data_bytes = copy_at (extended i.data_bytes (offset + length buf)) offset buf },
)

-- The type bits or the permission bits: `0o100000 | 0o644` is 33188, and so on.
abbrev pub mode : FileType → ℕ
mode regular = 33188
mode directory = 16877
mode sym_link = 41471
mode char_device = 8624
mode block_device = 25008
mode socket = 49584
mode fifo = 4528

unfoldable pub stat : MemoryInode → Result FileStat FsError
stat i = ok (record {
  st_dev = 0;
  st_ino = 0;
  st_mode = mode i.kind;
  st_nlink = 1;
  st_size = length i.data_bytes;
  st_blksize = 4096;
  st_blocks = (length i.data_bytes + 4096 - 1) / 4096;
  st_atime = i.created_time;
  st_mtime = i.modified_time;
  st_ctime = i.created_time;
})

pub size : MemoryInode → ℕ
size i = length i.data_bytes

-- `impl VfsInode for MemoryInode`
abbrev pub memory : VfsInode MemoryInode
memory = record { read = read; write = write; stat = stat; file_type = λ i. i.kind; size = size }
