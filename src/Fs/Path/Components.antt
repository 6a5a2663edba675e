-- ===== src/Fs/Path/Components.antt =====
-- The components of a path: of one that was put together, those of its parts.
use omniagent_os.Base.{
  ℕ, ◌≡◌, refl, sym, ap, ap₂, ◌∙◌, false, List, [], ◌∷◌, ◌++◌, ◌==◌, is_empty, Bool-cases, inl, inr,
}
use omniagent_os.Base.Strings.{Bytes}
use omniagent_os.Base.All.{All}
use omniagent_os.Fs.Path.{slash, prepend, split, non_empty, components, with_slashes}

-- No byte is a slash.
abbrev pub IsWord : Bytes → Type 0
IsWord w = All (λ c. (c == slash) ≡ false) w

-- A component is not empty and has no slash.
abbrev pub IsName : Bytes → Type 0
IsName w = (is_empty w ≡ false) × IsWord w

prepend-append :
    (c : ℕ) (v : Bytes) (ws us : List Bytes) → prepend c ((v ∷ ws) ++ us) ≡ prepend c (v ∷ ws) ++ us
prepend-append c v ws us = refl

-- `split` gives one word at least.
split-cases : (xs : Bytes) → (v : Bytes) × (ws : List Bytes) × (split xs ≡ v ∷ ws)
unfolding split
split-cases [] = ([], [], refl)
split-cases (c ∷ cs) = elim (Bool-cases (c == slash)) [
  | inl y ↦ ([], split cs, simp y refl)
  | inr n ↦ let (v, ws, e) = split-cases cs in (c ∷ v, ws, simp n (ap (prepend c) e))
]

split-append : (xs ys : Bytes) → split (xs ++ (slash ∷ ys)) ≡ split xs ++ split ys
unfolding split
split-append [] ys = refl
split-append (c ∷ cs) ys = elim (Bool-cases (c == slash)) [
  | inl y ↦ simp y (ap (λ l. [] ∷ l) (split-append cs ys))
  | inr n ↦
      let (v, ws, e) = split-cases cs in
      simp n (
        ap (prepend c) (split-append cs ys ∙ ap (λ l. l ++ split ys) e)
        ∙ sym (ap (λ l. prepend c l ++ split ys) e))
]

non_empty-append : (us vs : List Bytes) → non_empty (us ++ vs) ≡ non_empty us ++ non_empty vs
non_empty-append [] vs = refl
non_empty-append (w ∷ ws) vs = elim (Bool-cases (is_empty w)) [
  | inl y ↦ simp y (non_empty-append ws vs)
  | inr n ↦ simp n (ap (λ l. w ∷ l) (non_empty-append ws vs))
]

pub components-append :
    (xs ys : Bytes) → components (xs ++ (slash ∷ ys)) ≡ components xs ++ components ys
unfolding components
components-append xs ys = ap non_empty (split-append xs ys) ∙ non_empty-append (split xs) (split ys)

split_word : (w : Bytes) → IsWord w → split w ≡ w ∷ []
unfolding split
split_word [] h = refl
split_word (c ∷ cs) h = simp h.0 (ap (prepend c) (split_word cs h.1))

pub components_name : (w : Bytes) → IsName w → components w ≡ w ∷ []
unfolding components
components_name w h = ap non_empty (split_word w h.1) ∙ simp h.0 refl

pub components-rooted : (xs : Bytes) → components (slash ∷ xs) ≡ components xs
unfolding components split
components-rooted xs = refl

pub append-nil : {A : Type 0} (xs : List A) → xs ++ [] ≡ xs
append-nil [] = refl
append-nil (x ∷ xs) = ap (λ l. x ∷ l) (append-nil xs)

pub components-closed : (xs : Bytes) → components (xs ++ (slash ∷ [])) ≡ components xs
unfolding components split
components-closed xs = components-append xs [] ∙ append-nil (components xs)

pub components-with_slashes : (ws : List Bytes) → All IsName ws → components (with_slashes ws) ≡ ws
unfolding with_slashes components split
components-with_slashes [] h = refl
components-with_slashes (w ∷ []) h = components_name w h.0
components-with_slashes (w ∷ v ∷ ws) h =
    components-append w (with_slashes (v ∷ ws))
    ∙ ap₂ (λ a b. a ++ b) (components_name w h.0) (components-with_slashes (v ∷ ws) h.1)

prepend-IsWord :
    (c : ℕ) (ws : List Bytes) → (c == slash) ≡ false → All IsWord ws → All IsWord (prepend c ws)
prepend-IsWord c [] e h = ((e, tt), tt)
prepend-IsWord c (w ∷ ws) e h = ((e, h.0), h.1)

split-IsWord : (xs : Bytes) → All IsWord (split xs)
unfolding split
split-IsWord [] = (tt, tt)
split-IsWord (c ∷ cs) = elim (Bool-cases (c == slash)) [
  | inl y ↦ simp y (tt, split-IsWord cs)
  | inr n ↦ simp n (prepend-IsWord c (split cs) n (split-IsWord cs))
]

non_empty-IsName : (ws : List Bytes) → All IsWord ws → All IsName (non_empty ws)
non_empty-IsName [] h = tt
non_empty-IsName (w ∷ ws) h = elim (Bool-cases (is_empty w)) [
  | inl y ↦ simp y (non_empty-IsName ws h.1)
  | inr n ↦ simp n ((refl, h.0), non_empty-IsName ws h.1)
]

pub components-IsName : (xs : Bytes) → All IsName (components xs)
unfolding components
components-IsName xs = non_empty-IsName (split xs) (split-IsWord xs)
