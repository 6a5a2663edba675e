-- ===== src/Fs/Inode.antt =====
-- kernel/src/fs/inode.rs and error.rs: what the file system asks of an inode. A method on `&self`
-- that may change the inode returns the state that it leaves. Modes and flags are bit patterns.
use omniagent_os.Base.{ℕ, Bool, true, false, List, Result}
use omniagent_os.Base.Strings.{Bytes}

pub data FsError : Type 0 where
  not_found : FsError
  already_exists : FsError
  permission_denied : FsError
  not_a_directory : FsError
  is_a_directory : FsError
  invalid_path : FsError
  name_too_long : FsError
  no_space : FsError
  not_empty : FsError
  invalid_fd : ℕ → FsError
  fd_table_full : FsError
  not_open : FsError
  io_error : Bytes → FsError
  invalid_offset : FsError
  would_block : FsError

pub data FileType : Type 0 where
  regular : FileType
  directory : FileType
  sym_link : FileType
  char_device : FileType
  block_device : FileType
  socket : FileType
  fifo : FileType

abbrev pub is_directory : FileType → Bool
is_directory directory = true
is_directory t = false

pub record FileStat : Type 0 where
  pub st_dev : ℕ
  pub st_ino : ℕ
  pub st_mode : ℕ
  pub st_nlink : ℕ
  pub st_size : ℕ
  pub st_blksize : ℕ
  pub st_blocks : ℕ
  pub st_atime : ℕ
  pub st_mtime : ℕ
  pub st_ctime : ℕ

-- `read i offset n` fills a buffer of n bytes: it gives the bytes that were read.
pub record VfsInode (I : Type 0) : Type 0 where
  pub read : I → ℕ → ℕ → Result (List ℕ) FsError
  pub write : I → ℕ → List ℕ → Result ℕ FsError × I
  pub stat : I → Result FileStat FsError
  pub file_type : I → FileType
  pub size : I → ℕ
