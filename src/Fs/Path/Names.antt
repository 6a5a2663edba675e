-- ===== src/Fs/Path/Names.antt =====
-- The parts that `join`, `parent` and `filename` put together and take apart.
use omniagent_os.Base.{
  ℕ, zero, suc, ◌≡◌, ◌≢◌, refl, sym, ap, ap₂, ◌∙◌, subst, Bool, true, false, ◌&&◌, Option, none,
  some, List, [], ◌∷◌, ◌++◌, ◌==◌, if◌then◌else◌, is_empty, replicate, arith, Bool-cases, inl, inr,
  ◌⊎◌,
}
use omniagent_os.Base.Strings.{Bytes, same, same→eq}
use omniagent_os.Base.Slices.{take, drop}
use omniagent_os.Fs.Path.{
  slash, split, components, is_absolute, ends_with_slash, trim_end, found, rfind, is_root, parent,
  parent_at, filename, filename_at, join,
}
use omniagent_os.Fs.Path.Components.{IsWord, components-append, components_name, append-nil}
use omniagent_os.Fs.Path.Normal.{ends-closed}

none_left : (xs : Bytes) → is_empty xs ≡ true → xs ≡ []
none_left [] h = refl
none_left (x ∷ xs) h = absurd (cc h)

-- What was trimmed are slashes.
trimmed : (xs : Bytes) → (n : ℕ) × (xs ≡ trim_end xs ++ replicate n slash)
unfolding trim_end
trimmed [] = (0, refl)
trimmed (c ∷ cs) =
    let (n, e) = trimmed cs in
    elim (Bool-cases ((c == slash) && is_empty (trim_end cs))) [
      | inr m ↦ (n, simp m (ap (λ l. c ∷ l) e))
      | inl y ↦
          let here : c ≡ slash = ground (arith, y) in
          let gone : is_empty (trim_end cs) ≡ true = ground (arith, y) in
          (
            suc n,
            simp y (
                ap₂ (λ a l. a ∷ l) here
                  (e ∙ ap (λ l. l ++ replicate n slash) (none_left (trim_end cs) gone))),
          )
    ]

components-slashes : (n : ℕ) → components (replicate n slash) ≡ []
unfolding components split
components-slashes zero = refl
components-slashes (suc n) = components-slashes n

components-trailing : (xs : Bytes) (n : ℕ) → components (xs ++ replicate n slash) ≡ components xs
components-trailing xs zero = ap components (append-nil xs)
components-trailing xs (suc n) =
    components-append xs (replicate n slash)
    ∙ ap (λ l. components xs ++ l) (components-slashes n)
    ∙ append-nil (components xs)

components-trim_end : (xs : Bytes) → components (trim_end xs) ≡ components xs
components-trim_end xs =
    let (n, e) = trimmed xs in sym (ap components e ∙ components-trailing (trim_end xs) n)

-- The components of two paths joined, where the second one is relative, are those of the first, then
-- those of the second.
pub components-join :
    (base relative : Bytes)
    → is_absolute relative ≡ false
    → components (join base relative) ≡ components base ++ components relative
unfolding join components split
components-join base [] h = sym (append-nil (components base))
components-join [] (c ∷ cs) h = simp h refl
components-join (b ∷ bs) (c ∷ cs) h = simp h (
    components-append (trim_end (b ∷ bs)) (c ∷ cs)
    ∙ ap (λ l. l ++ components (c ∷ cs)) (components-trim_end (b ∷ bs)))

found_none : (b : Bool) (o : Option ℕ) → found b o ≡ none → (b ≡ false) × (o ≡ none)
found_none true none h = absurd (cc h)
found_none false none h = (refl, refl)
found_none b (some i) h = absurd (cc h)

found_some :
    (b : Bool) (o : Option ℕ) (i : ℕ)
    → found b o ≡ some i
    → ((j : ℕ) × (o ≡ some j) × (suc j ≡ i)) ⊎ ((o ≡ none) × (b ≡ true) × (0 ≡ i))
found_some true none i h = let e : 0 ≡ i = cc h in inr (refl, refl, e)
found_some false none i h = absurd (cc h)
found_some b (some j) i h = let e : suc j ≡ i = cc h in inl (j, refl, e)

rfind-none : (xs : Bytes) → rfind xs ≡ none → IsWord xs
unfolding rfind
rfind-none [] h = tt
rfind-none (c ∷ cs) h = let (n, e) = found_none (c == slash) (rfind cs) h in (n, rfind-none cs e)

rfind-some :
    (xs : Bytes) (i : ℕ)
    → rfind xs ≡ some i
    → (xs ≡ take i xs ++ (slash ∷ drop (suc i) xs)) × IsWord (drop (suc i) xs)
unfolding rfind
rfind-some [] i h = absurd (cc h)
rfind-some (c ∷ cs) i h = elim (found_some (c == slash) (rfind cs) i h) [
  | inl (j, o, e) ↦
      let (parts, word) = rfind-some cs j o in
      subst
        (λ k.
          (c ∷ cs ≡ take k (c ∷ cs) ++ (slash ∷ drop (suc k) (c ∷ cs)))
          × IsWord (drop (suc k) (c ∷ cs)))
        e (ap (λ l. c ∷ l) parts, word)
  | inr (o, b, e) ↦
      let here : c ≡ slash = ground (arith, b) in
      subst
        (λ k.
          (c ∷ cs ≡ take k (c ∷ cs) ++ (slash ∷ drop (suc k) (c ∷ cs)))
          × IsWord (drop (suc k) (c ∷ cs)))
        e (ap (λ a. a ∷ cs) here, rfind-none cs o)
]

trim_end-open : (xs : Bytes) → ends_with_slash (trim_end xs) ≡ false
unfolding trim_end ends_with_slash
trim_end-open [] = refl
trim_end-open (c ∷ cs) = at (trim_end cs) (trim_end-open cs)
  where
    at :
        (rest : Bytes)
        → ends_with_slash rest ≡ false
        → ends_with_slash (if (c == slash) && is_empty rest then [] else c ∷ rest) ≡ false
    at [] h = elim (Bool-cases (c == slash)) [ inl y ↦ simp y refl | inr n ↦ simp n refl ]
    at (d ∷ ds) h = elim (Bool-cases (c == slash)) [ inl y ↦ simp y h | inr n ↦ simp n h ]

-- The components of what may be a path.
abbrev pub components_of : Option Bytes → List Bytes
components_of none = []
components_of (some path) = components path

root-components : (path : Bytes) → components path ≢ [] → is_root path ≡ false
unfolding components split
root-components [] n = absurd (n refl)
root-components (c ∷ cs) n = elim (Bool-cases (same (c ∷ cs) (slash ∷ []))) [
  | inl y ↦
      let e : c ∷ cs ≡ slash ∷ [] = same→eq (c ∷ cs) (slash ∷ []) y in absurd (n (ap components e))
  | inr m ↦ m
]

no_components : (xs : Bytes) → is_empty xs ≡ true → components xs ≡ []
unfolding components split
no_components [] h = refl
no_components (c ∷ cs) h = absurd (cc h)

-- The trimmed path has one component, or it ends with a slash and the last one.
whole_name :
    (path : Bytes)
    → components path ≢ []
    → rfind (trim_end path) ≡ none
    → components path ≡ trim_end path ∷ []
whole_name path n e = elim (Bool-cases (is_empty (trim_end path))) [
  | inl y ↦ absurd (n (sym (components-trim_end path) ∙ no_components (trim_end path) y))
  | inr m ↦
      sym (components-trim_end path)
      ∙ components_name (trim_end path) (m, rfind-none (trim_end path) e)
]

last_name :
    (path : Bytes) (i : ℕ)
    → rfind (trim_end path) ≡ some i
    → (is_empty (drop (suc i) (trim_end path)) ≡ false)
      × (components path
          ≡ components (take i (trim_end path)) ++ (drop (suc i) (trim_end path) ∷ []))
last_name path i e =
    let (parts, word) = rfind-some (trim_end path) i e in
    elim (Bool-cases (is_empty (drop (suc i) (trim_end path)))) [
      | inl y ↦
          let nothing : drop (suc i) (trim_end path) ≡ [] =
            none_left (drop (suc i) (trim_end path)) y in
          let closed : ends_with_slash (trim_end path) ≡ true =
            ap ends_with_slash (parts ∙ ap (λ l. take i (trim_end path) ++ (slash ∷ l)) nothing)
            ∙ ends-closed (take i (trim_end path)) in
          let both : true ≡ false = sym closed ∙ trim_end-open path in absurd (cc both)
      | inr m ↦ (
        m,
        sym (components-trim_end path)
            ∙ ap components parts
            ∙ components-append (take i (trim_end path)) (drop (suc i) (trim_end path))
            ∙ ap (λ l. components (take i (trim_end path)) ++ l)
                (components_name (drop (suc i) (trim_end path)) (m, word)),
      )
    ]

-- A path with a component has a filename, that is its last component, and the others are those of
-- its parent, where it has one.
pub parent-filename :
    (path : Bytes)
    → components path ≢ []
    → (name : Bytes) × (filename path ≡ some name)
      × (components path ≡ components_of (parent path) ++ (name ∷ []))
unfolding parent filename components split
parent-filename path n = simp (root-components path n) (at (rfind (trim_end path)) refl)
  where
    at :
        (o : Option ℕ)
        → rfind (trim_end path) ≡ o
        → (name : Bytes) × (filename_at (trim_end path) o ≡ some name)
          × (components path ≡ components_of (parent_at (trim_end path) o) ++ (name ∷ []))
    at none e = (trim_end path, refl, whole_name path n e)
    at (some zero) e =
        let (m, parts) = last_name path 0 e in (drop 1 (trim_end path), simp m refl, parts)
    at (some (suc i)) e =
        let (m, parts) = last_name path (suc i) e in
        (drop (suc (suc i)) (trim_end path), simp m refl, parts)
