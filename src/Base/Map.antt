-- ===== src/Base/Map.antt =====
-- `BTreeMap<u64, V>` as an association list in rising key order. The laws of `get` hold of every
-- list; the order matters to `first_key_value` and to what a loop over the values meets first.
use Prim.Native.Nat.{ℕ, suc, ◌+◌, ◌<◌}
use mathlib.Core.Path.{◌≡◌, refl, sym, subst, ap₂}
use mathlib.Core.Option.{Option, none, some}
use mathlib.Core.List.{List, [], ◌∷◌}
use native.Mathlib.Omega.{arith}
use omniagent_os.Base.Tests.{ltb, ◌==◌, if◌then◌else◌}
use omniagent_os.Base.Lists.{length}

abbrev pub Map {ℓ} : Type ℓ → Type ℓ
Map V = List (ℕ × V)

module _ {ℓ} {V : Type ℓ} where
  unfoldable pub get : ℕ → Map V → Option V
  get k [] = none
  get k ((j, v) ∷ m) = if j == k then some v else get k m

  unfoldable pub insert : ℕ → V → Map V → Map V
  insert k v [] = (k, v) ∷ []
  insert k v ((j, w) ∷ m) =
      let later = (j, w) ∷ insert k v m in
      if ltb k j then (k, v) ∷ (j, w) ∷ m else if k == j then (k, v) ∷ m else later

  unfoldable pub remove : ℕ → Map V → Map V
  remove k [] = []
  remove k ((j, v) ∷ m) = let rest = remove k m in if j == k then rest else (j, v) ∷ rest

  -- `if let Some(v) = m.get_mut(&k) { *v = f(v) }`
  unfoldable pub update : ℕ → (V → V) → Map V → Map V
  update k f [] = []
  update k f ((j, v) ∷ m) =
      let rest = update k f m in if j == k then (j, f v) ∷ rest else (j, v) ∷ rest

  abbrev pub first_key_value : Map V → Option (ℕ × V)
  first_key_value [] = none
  first_key_value (x ∷ m) = some x

  -- Every key lies above n, and each above the one before.
  abbrev pub Above : ℕ → Map V → Type 0
  Above n [] = Unit {0}
  Above n ((j, v) ∷ m) = (n < j) × Above j m

  abbrev pub IsOrdered : Map V → Type 0
  IsOrdered [] = Unit {0}
  IsOrdered ((j, v) ∷ m) = Above j m

  pub get-insert :
      (k j : ℕ) (v : V) (m : Map V) → get j (insert k v m) ≡ (if k == j then some v else get j m)
  unfolding get insert
  get-insert k j v [] = refl
  get-insert k j v ((i, w) ∷ m) = ground (arith, get-insert k j v m)

  pub get-remove : (k j : ℕ) (m : Map V) → get j (remove k m) ≡ (if k == j then none else get j m)
  unfolding get remove
  get-remove k j [] = ground arith
  get-remove k j ((i, w) ∷ m) = ground (arith, get-remove k j m)

  abbrev pub map_some : (V → V) → Option V → Option V
  map_some f none = none
  map_some f (some v) = some (f v)

  pub get-update :
      (k j : ℕ) (f : V → V) (m : Map V)
      → get j (update k f m) ≡ (if k == j then map_some f (get j m) else get j m)
  unfolding get update
  get-update k j f [] = ground arith
  get-update k j f ((i, w) ∷ m) = ground (arith, get-update k j f m)

  pub Above-get : (n k : ℕ) (m : Map V) → Above n m → k < suc n → get k m ≡ none
  unfolding get
  Above-get n k [] a h = refl
  Above-get n k ((j, v) ∷ m) a h = ground (arith, Above-get j k m a.1)

  Above-insert : (n k : ℕ) (v : V) (m : Map V) → n < k → Above n m → Above n (insert k v m)
  unfolding insert
  Above-insert n k v [] h a = (h, tt)
  Above-insert n k v ((j, w) ∷ m) h a = ground (arith, Above-insert j k v m)

  Above-mono : (n k : ℕ) (m : Map V) → n < suc k → Above k m → Above n m
  Above-mono n k [] h a = tt
  Above-mono n k ((j, v) ∷ m) h a = (omega arith, a.1)

  Above-remove : (n k : ℕ) (m : Map V) → Above n m → Above n (remove k m)
  unfolding remove
  Above-remove n k [] a = tt
  Above-remove n k ((j, v) ∷ m) a =
      ground (arith, Above-remove j k m a.1, Above-mono n j (remove k m))

  Above-update : (n k : ℕ) (f : V → V) (m : Map V) → Above n m → Above n (update k f m)
  unfolding update
  Above-update n k f [] a = tt
  Above-update n k f ((j, v) ∷ m) a = ground (arith, Above-update j k f m a.1)

  Above-IsOrdered : (n : ℕ) (m : Map V) → Above n m → IsOrdered m
  Above-IsOrdered n [] a = tt
  Above-IsOrdered n ((j, v) ∷ m) a = a.1

  pub insert-IsOrdered : (k : ℕ) (v : V) (m : Map V) → IsOrdered m → IsOrdered (insert k v m)
  unfolding insert
  insert-IsOrdered k v [] o = tt
  insert-IsOrdered k v ((j, w) ∷ m) o = ground (arith, Above-insert j k v m)

  pub remove-IsOrdered : (k : ℕ) (m : Map V) → IsOrdered m → IsOrdered (remove k m)
  unfolding remove
  remove-IsOrdered k [] o = tt
  remove-IsOrdered k ((j, w) ∷ m) o =
      let below = Above-remove j k m o in
      ground (arith, below, Above-IsOrdered j (remove k m) below)

  pub update-IsOrdered : (k : ℕ) (f : V → V) (m : Map V) → IsOrdered m → IsOrdered (update k f m)
  unfolding update
  update-IsOrdered k f [] o = tt
  update-IsOrdered k f ((j, w) ∷ m) o = ground (arith, Above-update j k f m o)

  -- In an ordered map, a key is counted once.
  pub length-insert_new :
      (k : ℕ) (v : V) (m : Map V) → get k m ≡ none → length (insert k v m) ≡ length m + 1
  unfolding get insert
  length-insert_new k v [] h = refl
  length-insert_new k v ((j, w) ∷ m) h = ground (arith, length-insert_new k v m)

  pub remove_absent : (k : ℕ) (m : Map V) → get k m ≡ none → remove k m ≡ m
  unfolding get remove
  remove_absent k [] h = refl
  remove_absent k ((j, w) ∷ m) h = ground (arith, remove_absent k m)

  pub length-remove :
      (k : ℕ) (v : V) (m : Map V)
      → IsOrdered m
      → get k m ≡ some v
      → length (remove k m) + 1 ≡ length m
  unfolding get remove
  length-remove k v [] o h = cc
  length-remove k v ((j, w) ∷ m) o h =
      ground
        (arith, length-remove k v m (Above-IsOrdered j m o), Above-get j k m o, remove_absent k m)

  pub length-update : (k : ℕ) (f : V → V) (m : Map V) → length (update k f m) ≡ length m
  unfolding update
  length-update k f [] = refl
  length-update k f ((j, w) ∷ m) = ground (arith, length-update k f m)

  -- The first entry has the least key.
  pub first_key_value-get :
      (k : ℕ) (v : V) (m : Map V) → first_key_value m ≡ some (k, v) → get k m ≡ some v
  unfolding get
  first_key_value-get k v [] h = cc
  first_key_value-get k v ((j, w) ∷ m) h = ground arith

  pub first_key_value-least :
      (k : ℕ) (v : V) (j : ℕ) (w : V) (m : Map V)
      → IsOrdered m
      → first_key_value m ≡ some (k, v)
      → get j m ≡ some w
      → k < suc j
  unfolding get
  first_key_value-least k v j w [] o h g = cc
  first_key_value-least k v j w ((i, u) ∷ m) o h g = ground (arith, Above-get i j m o)

  pub IsOrdered-tail : (j : ℕ) (w : V) (m : Map V) → IsOrdered ((j, w) ∷ m) → IsOrdered m
  IsOrdered-tail j w m o = Above-IsOrdered j m o

  -- In an ordered map, what the rest holds is not hidden by the first entry.
  pub get-tail :
      (j k : ℕ) (w v : V) (m : Map V)
      → IsOrdered ((j, w) ∷ m)
      → get k m ≡ some v
      → get k ((j, w) ∷ m) ≡ some v
  unfolding get
  get-tail j k w v m o h = ground (arith, Above-get j k m o)

  -- The key of the first entry does not come again.
  pub get-head : (j : ℕ) (w : V) (m : Map V) → IsOrdered ((j, w) ∷ m) → get j m ≡ none
  get-head j w m o = Above-get j j m o (omega arith)

  pub update_absent : (k : ℕ) (f : V → V) (m : Map V) → get k m ≡ none → update k f m ≡ m
  unfolding get update
  update_absent k f [] h = refl
  update_absent k f ((j, w) ∷ m) h = ground (arith, update_absent k f m)

module _ {V : Type 0} where
  same_first :
      (j i : ℕ) (v w : V) (m n : Map V)
      → IsOrdered ((j, v) ∷ m)
      → IsOrdered ((i, w) ∷ n)
      → get j ((j, v) ∷ m) ≡ get j ((i, w) ∷ n)
      → get i ((j, v) ∷ m) ≡ get i ((i, w) ∷ n)
      → j ≡ i
  unfolding get
  same_first j i v w m n o p e f = ground (arith, Above-get i j n p, Above-get j i m o, e, f)

  same_second : (j : ℕ) (v w : V) (m n : Map V) → get j ((j, v) ∷ m) ≡ get j ((j, w) ∷ n) → v ≡ w
  unfolding get
  same_second j v w m n e = let both : some v ≡ some w = ground (arith, e) in cc both

  same_rest :
      (j k : ℕ) (v w : V) (m n : Map V)
      → IsOrdered ((j, v) ∷ m)
      → IsOrdered ((j, w) ∷ n)
      → get k ((j, v) ∷ m) ≡ get k ((j, w) ∷ n)
      → get k m ≡ get k n
  unfolding get
  same_rest j k v w m n o p e = ground (arith, e, get-head j v m o, get-head j w n p)

  -- Ordered maps that hold the same are equal.
  pub map_ext : (m n : Map V) → IsOrdered m → IsOrdered n → ((k : ℕ) → get k m ≡ get k n) → m ≡ n
  unfolding get
  map_ext [] [] o p e = refl
  map_ext [] ((i, w) ∷ n) o p e =
      let found : none ≡ some w = ground (arith, e i) in absurd (cc found)
  map_ext ((j, v) ∷ m) [] o p e =
      let found : none ≡ some v = ground (arith, e j) in absurd (cc found)
  map_ext ((j, v) ∷ m) ((i, w) ∷ n) o p e =
      let here : j ≡ i = same_first j i v w m n o p (e j) (e i) in
      let e' : (k : ℕ) → get k ((j, v) ∷ m) ≡ get k ((j, w) ∷ n) =
        subst (λ x. (k : ℕ) → get k ((j, v) ∷ m) ≡ get k ((x, w) ∷ n)) (sym here) e in
      let p' : IsOrdered ((j, w) ∷ n) = subst (λ x. IsOrdered ((x, w) ∷ n)) (sym here) p in
      let same : v ≡ w = same_second j v w m n (e' j) in
      ap₂ (λ x y. x ∷ y) (ap₂ (λ a b. (a, b)) here same)
        (map_ext m n (Above-IsOrdered j m o) (Above-IsOrdered j n p')
          (λ k. same_rest j k v w m n o p' (e' k)))
