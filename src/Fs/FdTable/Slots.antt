-- ===== src/Fs/FdTable/Slots.antt =====
-- Slots of the table: which one an allocation takes, and what a call leaves alone.
use omniagent_os.Base.{
  ℕ, zero, suc, ◌+◌, ◌-◌, ◌%◌, ◌<◌, ◌≡◌, ◌≢◌, refl, sym, ap, ◌∙◌, subst, true, false, Option, none,
  some, List, [], ◌∷◌, length, get_or, set, leb, arith, Bool-cases, inl, inr, ◌==◌, Result, ok, err,
  length-set, get_or-set, length-replicate,
}
use omniagent_os.Fs.Inode.{FsError, fd_table_full, not_open}
use omniagent_os.Fs.FdTable.{
  FdEntry, FileDescriptorTable, new, slot, is_none, find_slot, fill, allocate, close_found, close,
  get, count_some, open_count,
}

pub record IsTable (t : FileDescriptorTable) : Type 0 where
  pub sized : length t.fds ≡ 1024
  pub within : t.next_fd < 1024

pub new-IsTable : IsTable new
unfolding new
new-IsTable = record {
  sized = length-replicate {A = Option FdEntry} 1024 none;
  within = omega arith;
}

-- What a search of n steps finds.
abbrev Finds : ℕ → List (Option FdEntry) → ℕ → Option ℕ × ℕ → Type 0
Finds n fds next (some idx, m) = (idx < 1024) × (get_or fds idx none ≡ none)
Finds n fds next (none, m) =
    (m ≡ (next + n) % 1024)
    × ((j : ℕ) → j < n → is_none (get_or fds ((next + j) % 1024) none) ≡ false)

is_none-none : (o : Option FdEntry) → is_none o ≡ true → o ≡ none
is_none-none none h = refl
is_none-none (some e) h = absurd (cc h)

step-Finds :
    (n : ℕ) (fds : List (Option FdEntry)) (next : ℕ) (o : Option ℕ × ℕ)
    → next < 1024
    → is_none (get_or fds next none) ≡ false
    → Finds n fds ((next + 1) % 1024) o
    → Finds (suc n) fds next o
step-Finds n fds next (some idx, m) h taken f = f
step-Finds n fds next (none, m) h taken (e, f) = (
  omega (arith, e),
  λ j l. elim (Bool-cases (j == 0)) [
    | inl z ↦
        let here : (next + j) % 1024 ≡ next = ground arith in
        subst (λ i. is_none (get_or fds i none) ≡ false) (sym here) taken
    | inr p ↦
        let there : ((next + 1) % 1024 + (j - 1)) % 1024 ≡ (next + j) % 1024 = ground arith in
        subst (λ i. is_none (get_or fds i none) ≡ false) there (f (j - 1) (ground arith))
  ],
)

find_slot-Finds :
    (n : ℕ) (fds : List (Option FdEntry)) (next : ℕ)
    → next < 1024
    → Finds n fds next (find_slot n fds next)
unfolding find_slot
find_slot-Finds zero fds next h = (omega (arith, h), λ j l. absurd (omega (arith, l)))
find_slot-Finds (suc n) fds next h = elim (Bool-cases (is_none (get_or fds next none))) [
  | inl y ↦ simp y (h, is_none-none (get_or fds next none) y)
  | inr m ↦ simp m (
      step-Finds n fds next (find_slot n fds ((next + 1) % 1024)) h m
        (find_slot-Finds n fds ((next + 1) % 1024) (omega arith)))
]

-- What an allocation of this entry does: it takes a slot that was free and no other, or it
-- changes nothing, since every slot is taken.
abbrev pub Allocates :
    FileDescriptorTable → (ℕ → FdEntry) → Result ℕ FsError × FileDescriptorTable → Type 0
Allocates t entry (ok fd, u) =
    (fd < 1024)
    × (slot t fd ≡ none)
    × (slot u fd ≡ some (entry fd))
    × ((j : ℕ) → j ≢ fd → slot u j ≡ slot t j)
    × IsTable u
Allocates t entry (err e, u) =
    (e ≡ fd_table_full) × (u ≡ t) × ((j : ℕ) → j < 1024 → is_none (slot t j) ≡ false)

fill-Allocates :
    (t : FileDescriptorTable) (entry : ℕ → FdEntry) (o : Option ℕ × ℕ)
    → IsTable t
    → Finds 1024 t.fds t.next_fd o
    → Allocates t entry (fill t entry o)
fill-Allocates t entry (some idx, m) v (h, free) = (
  h,
  free,
  ground (arith, get_or-set t.fds idx idx (some (entry idx)) none, v.sized),
  λ j n. ground (arith, get_or-set t.fds idx j (some (entry idx)) none, v.sized),
  record { sized = length-set t.fds idx (some (entry idx)) ∙ v.sized; within = omega arith },
)
fill-Allocates t entry (none, m) v (e, taken) = (
  refl,
  ap (λ i. record t { next_fd = i }) (omega (arith, e, v.within)),
  λ j h.
      let there : (t.next_fd + (j + 1024 - t.next_fd) % 1024) % 1024 ≡ j =
        omega (arith, h, v.within) in
      subst (λ i. is_none (get_or t.fds i none) ≡ false) there
        (taken ((j + 1024 - t.next_fd) % 1024) (omega arith)),
)

-- On a table of 1024 slots, an allocation takes a slot that was free, and leaves every other slot
-- as it was; it fails, changing nothing, exactly when every slot is taken.
pub allocate-Allocates :
    (t : FileDescriptorTable) (entry : ℕ → FdEntry)
    → IsTable t
    → Allocates t entry (allocate t entry)
unfolding allocate
allocate-Allocates t entry v =
    fill-Allocates t entry (find_slot 1024 t.fds t.next_fd) v
      (find_slot-Finds 1024 t.fds t.next_fd v.within)

count_some-set-none :
    (es : List (Option FdEntry)) (i : ℕ) (e : FdEntry)
    → get_or es i none ≡ some e
    → count_some (set es i none) + 1 ≡ count_some es
count_some-set-none [] i e h = absurd (cc h)
count_some-set-none (none ∷ es) zero e h = absurd (cc h)
count_some-set-none (some d ∷ es) zero e h = omega arith
count_some-set-none (none ∷ es) (suc i) e h = count_some-set-none es i e h
count_some-set-none (some d ∷ es) (suc i) e h = omega (arith, count_some-set-none es i e h)

-- What closing a descriptor does: it frees its slot, which held an entry, and no other, and one
-- file fewer is open; or it changes nothing.
abbrev pub Closes :
    FileDescriptorTable → ℕ → Result (Unit {0}) FsError × FileDescriptorTable → Type 0
Closes t fd (err e, u) = (u ≡ t) × (get t fd ≡ err e)
Closes t fd (ok x, u) =
    (get u fd ≡ err not_open)
    × ((j : ℕ) → j ≢ fd → slot u j ≡ slot t j)
    × (open_count u + 1 ≡ open_count t)

pub close-Closes : (t : FileDescriptorTable) (fd : ℕ) → IsTable t → Closes t fd (close t fd)
unfolding close get open_count
close-Closes t fd v = elim (Bool-cases (leb 1024 fd)) [
  | inl y ↦ simp y (refl, refl)
  | inr n ↦ simp n (from n (slot t fd) refl)
]
  where
    from :
        leb 1024 fd ≡ false
        → (o : Option FdEntry) → slot t fd ≡ o
        → Closes t fd (close_found t fd o)
    from n none e = simp n (simp e (refl, refl))
    from n (some d) e =
        let gone : get_or (set t.fds fd none) fd none ≡ none =
          ground (arith, get_or-set t.fds fd fd none none, v.sized, n) in
        simp n (
          simp gone (
            refl,
            λ j m. ground (arith, get_or-set t.fds fd j none none, v.sized, n),
            count_some-set-none t.fds fd d e,
          ))
