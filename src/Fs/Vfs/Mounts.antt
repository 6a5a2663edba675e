-- ===== src/Fs/Vfs/Mounts.antt =====
-- What the mounts and unmounts of a file system do to the paths that are resolved.
use omniagent_os.Base.{
  ◌≡◌, refl, sym, ap, ◌∙◌, true, false, Option, none, some, List, [], ◌∷◌, ◌++◌, ◌==◌,
  if◌then◌else◌, is_empty, length, length-append, ok, err, arith, Bool-cases, inl, inr,
}
use omniagent_os.Base.Strings.{Bytes, same, same_refl, same→eq}
use omniagent_os.Fs.Inode.{already_exists}
use omniagent_os.Fs.Vfs.{MountPoint, VfsManager, mounted, mount, retain_others, unmount}

module _ {I : Type 0} where
  not_mounted :
      (path : Bytes) (m : MountPoint I) (mounts : List (MountPoint I))
      → mounted path (m ∷ mounts) ≡ none
      → (same m.path path ≡ false) × (mounted path mounts ≡ none)
  not_mounted path m mounts = elim (Bool-cases (same m.path path)) [
    | inl y ↦ simp y (λ h. absurd (cc h))
    | inr n ↦ simp n (λ h. (refl, h))
  ]

  mounted-append :
      (path q : Bytes) (inode : I) (mounts : List (MountPoint I))
      → mounted path mounts ≡ none
      → mounted q (mounts ++ (record { path = path; inode = inode } ∷ []))
        ≡ (if same path q then some inode else mounted q mounts)
  mounted-append path q inode [] h = refl
  mounted-append path q inode (m ∷ mounts) h =
      let (away, rest) = not_mounted path m mounts h in
      elim (Bool-cases (same m.path q)) [
        | inr n ↦ simp n (mounted-append path q inode mounts rest)
        | inl y ↦ elim (Bool-cases (same path q)) [
          | inr x ↦ simp y (simp x refl)
          | inl x ↦
              let one : m.path ≡ path = same→eq m.path q y ∙ sym (same→eq path q x) in
              let both : true ≡ false =
                sym (same_refl path) ∙ ap (λ l. same l path) (sym one) ∙ away in
              absurd (cc both)
        ]
      ]

  retain_others-none :
      (path : Bytes) (mounts : List (MountPoint I))
      → mounted path mounts ≡ none
      → retain_others path mounts ≡ mounts
  retain_others-none path [] h = refl
  retain_others-none path (m ∷ mounts) h =
      let (away, rest) = not_mounted path m mounts h in
      simp away (ap (λ l. m ∷ l) (retain_others-none path mounts rest))

  retain_others-append :
      (path : Bytes) (inode : I) (mounts : List (MountPoint I))
      → mounted path mounts ≡ none
      → retain_others path (mounts ++ (record { path = path; inode = inode } ∷ [])) ≡ mounts
  retain_others-append path inode [] h = simp (same_refl path) refl
  retain_others-append path inode (m ∷ mounts) h =
      let (away, rest) = not_mounted path m mounts h in
      simp away (ap (λ l. m ∷ l) (retain_others-append path inode mounts rest))

  mounting :
      (v : VfsManager I) (path : Bytes) (inode : I)
      → is_empty path ≡ false
      → mounted path v.mounts ≡ none
      → mount v path inode
        ≡ (ok tt, record v { mounts = v.mounts ++ (record { path = path; inode = inode } ∷ []) })
  unfolding mount
  mounting v path inode e h = simp e (simp h refl)

  taken :
      (w : VfsManager I) (path : Bytes) (other inode : I)
      → is_empty path ≡ false
      → mounted path w.mounts ≡ some inode
      → mount w path other ≡ (err already_exists, w)
  unfolding mount
  taken w path other inode e h = simp e (simp h refl)

  unmounting :
      (root : Option I) (mounts : List (MountPoint I)) (path : Bytes) (inode : I)
      → mounted path mounts ≡ none
      → unmount
          (record { root = root; mounts = mounts ++ (record { path = path; inode = inode } ∷ []) })
          path
        ≡ (ok tt, record { root = root; mounts = mounts })
  unfolding unmount
  unmounting root mounts path inode h =
      let left = retain_others-append path inode mounts h in
      let fewer : (length mounts == length (mounts ++ (record { path = path; inode = inode } ∷ [])))
          ≡ false =
        ground (arith, length-append mounts (record { path = path; inode = inode } ∷ [])) in
      simp left (simp fewer refl)

  -- Mounting at a path that is free and not empty changes what is mounted at that path and no
  -- other; a second mount there is refused, and an unmount restores what was before.
  pub unmount-mount :
      (v : VfsManager I) (path q : Bytes) (inode other : I)
      → is_empty path ≡ false
      → mounted path v.mounts ≡ none
      → ((mount v path inode).0 ≡ ok tt)
        × (mounted q (mount v path inode).1.mounts
            ≡ (if same path q then some inode else mounted q v.mounts))
        × (mount (mount v path inode).1 path other ≡ (err already_exists, (mount v path inode).1))
        × (unmount (mount v path inode).1 path ≡ (ok tt, v))
  unmount-mount v path q inode other e h =
      simp (mounting v path inode e h)
        (refl, mounted-append path q inode v.mounts h, again, restored)
    where
      w : VfsManager I
      w = record v { mounts = v.mounts ++ (record { path = path; inode = inode } ∷ []) }

      there : mounted path w.mounts ≡ some inode
      there = mounted-append path path inode v.mounts h ∙ simp (same_refl path) refl

      again : mount w path other ≡ (err already_exists, w)
      again = taken w path other inode e there

      restored : unmount w path ≡ (ok tt, v)
      restored = unmounting v.root v.mounts path inode h
