-- ===== src/Fs/Vfs.antt =====
-- kernel/src/fs/vfs.rs: the mounts. Inodes are shared, so that an `I` is a reference to one; what is
-- asked of it is given by the VfsInode interface.
pub mod Mounts
mod Examples
use omniagent_os.Base.{
  ℕ, suc, ◌+◌, Bool, true, false, not, ◌||◌, Option, none, some, List, [], ◌∷◌, ◌++◌, ◌==◌,
  if◌then◌else◌, is_empty, length, Result, ok, err, ok_or, map,
}
use omniagent_os.Base.Strings.{Bytes, same}
use omniagent_os.Base.Slices.{drop}
use omniagent_os.Fs.Inode.{
  FsError, not_found, already_exists, permission_denied, not_a_directory, invalid_path, not_empty,
  FileType, VfsInode,
}
use omniagent_os.Fs.MemoryInode.{MemoryInode, new_file}
use omniagent_os.Fs.Path.{slash, rfind}

pub record DirEntry : Type 0 where
  pub name : Bytes
  pub file_type : FileType
  pub size : ℕ

pub record MountPoint (I : Type 0) : Type 0 where
  pub path : Bytes
  pub inode : I

pub record VfsManager (I : Type 0) : Type 0 where
  pub root : Option I
  pub mounts : List (MountPoint I)

abbrev pub last_part : Bytes → Option ℕ → Bytes
last_part path none = path
last_part path (some i) = drop (suc i) path

module _ {I : Type 0} where
  unfoldable pub new : VfsManager I
  new = record { root = none; mounts = [] }

  unfoldable pub set_root : VfsManager I → I → VfsManager I
  set_root v inode = record v { root = some inode }

  -- The first mount at a path.
  abbrev pub mounted : Bytes → List (MountPoint I) → Option I
  mounted path [] = none
  mounted path (m ∷ mounts) = if same m.path path then some m.inode else mounted path mounts

  abbrev pub is_mounted : Option I → Bool
  is_mounted none = false
  is_mounted (some inode) = true

  unfoldable pub mount : VfsManager I → Bytes → I → Result (Unit {0}) FsError × VfsManager I
  mount v path inode =
      if is_empty path
      then (err invalid_path, v)
      else (if is_mounted (mounted path v.mounts) then (err already_exists, v) else (
        ok tt,
        record v { mounts = v.mounts ++ (record { path = path; inode = inode } ∷ []) },
      ))

  -- `retain(|m| m.path != path)`
  abbrev pub retain_others : Bytes → List (MountPoint I) → List (MountPoint I)
  retain_others path [] = []
  retain_others path (m ∷ mounts) =
      let rest = retain_others path mounts in if same m.path path then rest else m ∷ rest

  unfoldable pub unmount : VfsManager I → Bytes → Result (Unit {0}) FsError × VfsManager I
  unmount v path =
      let left = retain_others path v.mounts in
      (if length left == length v.mounts then err not_found else ok tt, record v { mounts = left })

  abbrev pub or_root : Option I → Option I → Result I FsError
  or_root (some inode) root = ok inode
  or_root none root = ok_or root not_found

  unfoldable pub resolve : VfsManager I → Bytes → Result I FsError
  resolve v path =
      if is_empty path
      then err invalid_path
      else (if same path (slash ∷ [])
          then ok_or v.root not_found
          else or_root (mounted path v.mounts) v.root)

  pub create_file : VfsManager I → Bytes → Result MemoryInode FsError
  create_file v path = ok new_file

  pub create_dir : VfsManager I → Bytes → Result (Unit {0}) FsError
  create_dir v path = ok tt

  pub remove : VfsManager I → Bytes → Result (Unit {0}) FsError
  remove v path =
      if is_empty path || same path (slash ∷ [])
      then err permission_denied
      else (if is_mounted (mounted path v.mounts) then err not_empty else ok tt)

  abbrev pub entry_of : VfsInode I → MountPoint I → DirEntry
  entry_of vfs m = record {
    name = last_part m.path (rfind m.path);
    file_type = vfs.file_type m.inode;
    size = vfs.size m.inode;
  }

  abbrev pub entries_of :
      VfsInode I → Option I → List (MountPoint I) → Result (List DirEntry) FsError
  entries_of vfs none mounts = err not_found
  entries_of vfs (some inode) mounts = ok (map (entry_of vfs) mounts)

  pub list_dir : VfsInode I → VfsManager I → Bytes → Result (List DirEntry) FsError
  list_dir vfs v path =
      if not (same path (slash ∷ []))
      then (if is_mounted (mounted path v.mounts) then ok [] else err not_a_directory)
      else entries_of vfs v.root v.mounts
