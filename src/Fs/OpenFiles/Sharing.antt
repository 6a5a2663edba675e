-- ===== src/Fs/OpenFiles/Sharing.antt =====
-- What is written through a descriptor is read through it, and through its duplicates.
use omniagent_os.Base.{
  ℕ, ◌+◌, ◌%◌, ◌^◌, ◌<◌, ◌≡◌, ◌≢◌, refl, sym, ap, ◌∙◌, subst, false, some, List, length, leb, arith,
  Result, ok,
}
use omniagent_os.Fs.Inode.{FsError, VfsInode}
use omniagent_os.Fs.FdTable.{
  FdEntry, FileDescriptorTable, start, slot, dup, get, allocate, put_offset,
}
use omniagent_os.Fs.FdTable.Slots.{IsTable, Allocates, allocate-Allocates}
use omniagent_os.Fs.OpenFiles.{Files, read, write, seek}
use omniagent_os.Fs.OpenFiles.Storing.{
  IsStored, IsReadWrite, written, write-written, read-back, seek-start, put-slot, put-sized,
  stored-inode,
}

module _ {I : Type 0} (vfs : VfsInode I) (stored : IsStored vfs) where
  -- What is written vfs stored through a descriptor that is open for reading and writing, at a place below
  -- 2 ^ 63, is read back through it after a seek to that place. (The inodes store what they are
  -- given, as those in memory do.)
  pub write-seek-read :
      (s : Files I) (fd : ℕ) (e : FdEntry) (buf : List ℕ)
      → IsTable s.table
      → fd < 1024
      → slot s.table fd ≡ some e
      → IsReadWrite e
      → e.offset < 2 ^ 63
      → let (r, u) = write vfs s fd buf in
        let (q, v) = seek vfs u fd e.offset (start 0) in
        (r ≡ ok (length buf)) × (q ≡ ok e.offset) × ((read vfs v fd (length buf)).0 ≡ ok buf)
  write-seek-read s fd e buf t h f w p =
      subst
        (λ (x : Result ℕ FsError × Files I).
          (x.0 ≡ ok (length buf))
          × ((seek vfs x.1 fd e.offset (start 0)).0 ≡ ok e.offset)
          × ((read vfs (seek vfs x.1 fd e.offset (start 0)).1 fd (length buf)).0 ≡ ok buf))
        (sym (write-written vfs stored s fd e buf h f w))
        (refl, ap (λ x. x.0) sought, subst Reads (sym sought) final)
    where
      Reads : Result ℕ FsError × Files I → Type 0
      Reads x = (read vfs x.1 fd (length buf)).0 ≡ ok buf

      moved : FdEntry
      moved = record e { offset = (e.offset + length buf) % 2 ^ 64 }

      there : slot (written vfs stored s fd e buf).table fd ≡ some moved
      there =
          ground (arith, put-slot vfs stored s.table fd fd e ((e.offset + length buf) % 2 ^ 64) t h)

      sought : seek vfs (written vfs stored s fd e buf) fd e.offset (start 0) ≡ (
        ok e.offset,
        record (written vfs stored s fd e buf) {
          table = put_offset (written vfs stored s fd e buf).table fd moved e.offset;
        },
      )
      sought = seek-start vfs stored (written vfs stored s fd e buf) fd moved e.offset 0 h there p

      back : Files I
      back = record (written vfs stored s fd e buf) {
        table = put_offset (written vfs stored s fd e buf).table fd moved e.offset;
      }

      again : slot back.table fd ≡ some e
      again = ground (
        arith,
        put-slot vfs stored (written vfs stored s fd e buf).table fd fd moved e.offset
            (put-sized vfs stored s.table fd e ((e.offset + length buf) % 2 ^ 64) t) h,
      )

      final : (read vfs back fd (length buf)).0 ≡ ok buf
      final =
          read-back vfs stored back fd e (s.inodes e.inode) buf h again w.readable w.file
            (stored-inode vfs stored s e fd buf)

  -- The descriptor that `dup` gives reads what is written vfs stored through the one it was made from: they
  -- share the inode, but each has a position of its own, which starts where the first one was.
  -- (The inodes store what they are given, as those in memory do.)
  pub dup-write-read :
      (s : Files I) (fd other : ℕ) (e : FdEntry) (t : FileDescriptorTable) (buf : List ℕ)
      → IsTable s.table
      → fd < 1024
      → slot s.table fd ≡ some e
      → IsReadWrite e
      → dup s.table fd ≡ (ok other, t)
      → let (r, u) = write vfs (record s { table = t }) fd buf in
        (r ≡ ok (length buf))
        × (slot u.table other ≡ some (record e { fd = other }))
        × ((read vfs u other (length buf)).0 ≡ ok buf)
  unfolding dup get
  dup-write-read s fd other e t buf v h f w d =
      subst
        (λ (x : Result ℕ FsError × Files I).
          (x.0 ≡ ok (length buf))
          × (slot x.1.table other ≡ some twin)
          × ((read vfs x.1 other (length buf)).0 ≡ ok buf))
        (sym (write-written vfs stored now fd e buf h kept w))
        (
          refl,
          held,
          read-back vfs stored (written vfs stored now fd e buf) other twin (s.inodes e.inode) buf
              took.0 held w.readable w.file (stored-inode vfs stored now e fd buf),
        )
    where
      now : Files I
      now = record s { table = t }

      twin : FdEntry
      twin = record e { fd = other }

      low : leb 1024 fd ≡ false
      low = ground arith

      unfolded : dup s.table fd ≡ allocate s.table (λ n. record e { fd = n })
      unfolded = simp low (simp f refl)

      copied : allocate s.table (λ n. record e { fd = n }) ≡ (ok other, t)
      copied = sym unfolded ∙ d

      took : Allocates s.table (λ n. record e { fd = n }) (ok other, t)
      took =
          subst (Allocates s.table (λ n. record e { fd = n })) copied
            (allocate-Allocates s.table (λ n. record e { fd = n }) v)

      apart : fd ≢ other
      apart q = absurd (cc (q, f, took.1))

      kept : slot t fd ≡ some e
      kept = took.3 fd apart ∙ f

      held : slot (written vfs stored now fd e buf).table other ≡ some twin
      held = ground (
        arith,
        put-slot vfs stored t fd other e ((e.offset + length buf) % 2 ^ 64) took.4 h,
        apart,
        took.2,
      )
