-- ===== src/Fs/OpenFiles/Storing.antt =====
-- One write and one read through a descriptor, over inodes that store what they are given.
use omniagent_os.Base.{
  ℕ, ◌+◌, ◌%◌, ◌^◌, ◌<◌, ◌≡◌, ◌≢◌, refl, ◌∙◌, true, false, none, some, List, length, leb, arith,
  ◌==◌, if◌then◌else◌, Result, ok, err, get_or-set, length-set,
}
use omniagent_os.Base.Bits.{is_bit_set}
use omniagent_os.Fs.Inode.{FsError, is_directory, VfsInode}
use omniagent_os.Fs.MemoryInode.{memory}
use omniagent_os.Fs.MemoryInode.Content.{read-write, write-Writes}
use omniagent_os.Fs.FdTable.{FdEntry, FileDescriptorTable, start, slot, put_offset, o_wronly}
use omniagent_os.Fs.FdTable.Slots.{IsTable}
use omniagent_os.Fs.OpenFiles.{Files, put_inode, appends, read, write, write_done, seek}

-- What the theorems ask of the inodes: a write takes the whole buffer, and reading as much at the
-- same place gives it back.
pub record IsStored {I : Type 0} (vfs : VfsInode I) : Type 0 where
  pub whole : (i : I) (offset : ℕ) (buf : List ℕ) → (vfs.write i offset buf).0 ≡ ok (length buf)
  pub again :
      (i : I) (offset : ℕ) (buf : List ℕ)
      → vfs.read (vfs.write i offset buf).1 offset (length buf) ≡ ok buf

pub memory-IsStored : IsStored memory
memory-IsStored = record {
  whole = λ i offset buf. (write-Writes i offset buf).0;
  again = read-write;
}

-- A descriptor open for reading and writing, not for appending, on something else than a directory.
pub record IsReadWrite (e : FdEntry) : Type 0 where
  pub writable : e.flags % 4 ≢ 0
  pub readable : is_bit_set e.flags o_wronly ≡ false
  pub in_place : appends e ≡ false
  pub file : is_directory e.file_type ≡ false

module _ {I : Type 0} (vfs : VfsInode I) (stored : IsStored vfs) where
  abbrev pub written : Files I → ℕ → FdEntry → List ℕ → Files I
  written s fd e buf = record {
    table = put_offset s.table fd e ((e.offset + length buf) % 2 ^ 64);
    inodes = put_inode s.inodes e.inode (vfs.write (s.inodes e.inode) e.offset buf).1;
  }

  pub done-whole :
      (s : Files I) (fd : ℕ) (e : FdEntry) (buf : List ℕ) (r : Result ℕ FsError × I)
      → appends e ≡ false
      → r.0 ≡ ok (length buf)
      → write_done vfs s fd e r ≡ (
        ok (length buf),
        record {
          table = put_offset s.table fd e ((e.offset + length buf) % 2 ^ 64);
          inodes = put_inode s.inodes e.inode r.1;
        },
      )
  done-whole s fd e buf (err x, i) a h = absurd (cc h)
  done-whole s fd e buf (ok n, i) a h = let same : n ≡ length buf = cc h in simp a (simp same refl)

  pub write-written :
      (s : Files I) (fd : ℕ) (e : FdEntry) (buf : List ℕ)
      → fd < 1024
      → slot s.table fd ≡ some e
      → IsReadWrite e
      → write vfs s fd buf ≡ (ok (length buf), written s fd e buf)
  unfolding write
  write-written s fd e buf h f w =
      let low : leb 1024 fd ≡ false = ground arith in
      let mode : ((e.flags % 4) == 0) ≡ false = ground (arith, w.writable) in
      simp low (
        simp f (
          simp mode (
            simp w.file (
              simp w.in_place (
                done-whole s fd e buf (vfs.write (s.inodes e.inode) e.offset buf) w.in_place
                  (stored.whole (s.inodes e.inode) e.offset buf))))))

  -- The bytes that a read of an entry at the place of the write gives.
  pub read-back :
      (s : Files I) (fd : ℕ) (e : FdEntry) (i : I) (buf : List ℕ)
      → fd < 1024
      → slot s.table fd ≡ some e
      → is_bit_set e.flags o_wronly ≡ false
      → is_directory e.file_type ≡ false
      → vfs.read (s.inodes e.inode) e.offset (length buf) ≡ ok buf
      → (read vfs s fd (length buf)).0 ≡ ok buf
  unfolding read
  read-back s fd e i buf h f w d r =
      let low : leb 1024 fd ≡ false = ground arith in
      simp low (simp f (simp w (simp d (simp r refl))))

  pub seek-start :
      (s : Files I) (fd : ℕ) (e : FdEntry) (position v : ℕ)
      → fd < 1024
      → slot s.table fd ≡ some e
      → position < 2 ^ 63
      → seek vfs s fd position (start v)
        ≡ (ok position, record s { table = put_offset s.table fd e position })
  unfolding seek
  seek-start s fd e position v h f p =
      let low : leb 1024 fd ≡ false = ground arith in
      let sign : leb (2 ^ 63) position ≡ false = ground (arith, p) in
      simp low (simp f (simp sign refl))

  pub put-slot :
      (t : FileDescriptorTable) (fd j : ℕ) (e : FdEntry) (offset : ℕ)
      → IsTable t
      → fd < 1024
      → slot (put_offset t fd e offset) j
        ≡ (if j == fd then some (record e { offset = offset }) else slot t j)
  put-slot t fd j e offset v h =
      get_or-set t.fds fd j (some (record e { offset = offset })) none (omega (arith, v.sized, h))

  pub put-sized :
      (t : FileDescriptorTable) (fd : ℕ) (e : FdEntry) (offset : ℕ)
      → IsTable t
      → IsTable (put_offset t fd e offset)
  put-sized t fd e offset v = record {
    sized = length-set t.fds fd (some (record e { offset = offset })) ∙ v.sized;
    within = v.within;
  }

  pub stored-inode :
      (s : Files I) (e : FdEntry) (fd : ℕ) (buf : List ℕ)
      → vfs.read ((written s fd e buf).inodes e.inode) e.offset (length buf) ≡ ok buf
  stored-inode s e fd buf =
      let own : (e.inode == e.inode) ≡ true = ground arith in
      simp own (stored.again (s.inodes e.inode) e.offset buf)
