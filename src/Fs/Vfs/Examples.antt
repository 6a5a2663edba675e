-- ===== src/Fs/Vfs/Examples.antt =====
-- A mount at `/mnt`, and the theorem there.
use omniagent_os.Base.{◌≡◌, refl, ok, err, some, [], ◌∷◌, ℕ, if◌then◌else◌}
use omniagent_os.Base.Strings.{Bytes, same}
use omniagent_os.Fs.Inode.{already_exists}
use omniagent_os.Fs.Vfs.{VfsManager, new, mounted, mount, unmount}
use omniagent_os.Fs.Vfs.Mounts.{unmount-mount}

abbrev mnt : Bytes
mnt = 47 ∷ 109 ∷ 110 ∷ 116 ∷ []

abbrev empty_vfs : VfsManager ℕ
empty_vfs = new

unmount-mount_example :
    ((mount empty_vfs mnt 5).0 ≡ ok tt)
    × (mounted mnt (mount empty_vfs mnt 5).1.mounts
        ≡ (if same mnt mnt then some 5 else mounted mnt empty_vfs.mounts))
    × (mount (mount empty_vfs mnt 5).1 mnt 6 ≡ (err already_exists, (mount empty_vfs mnt 5).1))
    × (unmount (mount empty_vfs mnt 5).1 mnt ≡ (ok tt, empty_vfs))
unfolding new
unmount-mount_example = unmount-mount empty_vfs mnt mnt 5 6 refl refl
