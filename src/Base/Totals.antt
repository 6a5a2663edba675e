-- ===== src/Base/Totals.antt =====
-- The sum of a measure over the entries of a map.
use Prim.Native.Nat.{ℕ, ◌+◌}
use mathlib.Core.Path.{◌≡◌, refl}
use mathlib.Core.Option.{none, some}
use mathlib.Core.List.{[], ◌∷◌}
use native.Mathlib.Omega.{arith}
use omniagent_os.Base.Map.{
  Map, get, insert, remove, update, IsOrdered, IsOrdered-tail, get-head, remove_absent,
  update_absent,
}

module _ {ℓ} {V : Type ℓ} where
  abbrev pub total : (V → ℕ) → Map V → ℕ
  total size [] = 0
  total size ((k, v) ∷ m) = size v + total size m

  pub total-insert_new :
      (size : V → ℕ) (k : ℕ) (v : V) (m : Map V)
      → get k m ≡ none
      → total size (insert k v m) ≡ size v + total size m
  unfolding get insert
  total-insert_new size k v [] h = refl
  total-insert_new size k v ((j, w) ∷ m) h = ground (arith, total-insert_new size k v m)

  pub total-remove :
      (size : V → ℕ) (k : ℕ) (v : V) (m : Map V)
      → IsOrdered m
      → get k m ≡ some v
      → size v + total size (remove k m) ≡ total size m
  unfolding get remove
  total-remove size k v [] o h = cc h
  total-remove size k v ((j, w) ∷ m) o h =
      ground (
        arith,
        total-remove size k v m (IsOrdered-tail j w m o),
        get-head j w m o,
        remove_absent k m,
      )

  pub total-update :
      (size : V → ℕ) (k : ℕ) (f : V → V) (v : V) (m : Map V)
      → IsOrdered m
      → get k m ≡ some v
      → size v + total size (update k f m) ≡ size (f v) + total size m
  unfolding get update
  total-update size k f v [] o h = cc h
  total-update size k f v ((j, w) ∷ m) o h = ground (
    arith,
    total-update size k f v m (IsOrdered-tail j w m o),
    get-head j w m o,
    update_absent k f m,
  )
