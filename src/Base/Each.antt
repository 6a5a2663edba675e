-- ===== src/Base/Each.antt =====
-- A property of every entry of a map, and what keeps it.
use Prim.Native.Nat.{ℕ}
use mathlib.Core.Path.{◌≡◌, refl, subst}
use mathlib.Core.Option.{Option, none, some}
use native.Mathlib.Omega.{arith}
use native.Mathlib.Decide.{ℕ_discrete}
use omniagent_os.Base.Map.{
  Map, get, insert, remove, update, get-insert, get-remove, get-update, map_some,
}

module _ {ℓ} {V : Type ℓ} where
  abbrev pub Each {κ} : (ℕ → V → Type κ) → Map V → Type (ℓ ⊔ κ)
  Each Q m = (k : ℕ) (v : V) → get k m ≡ some v → Q k v

  pub Each-insert {κ} :
      (Q : ℕ → V → Type κ) (k : ℕ) (v : V) (m : Map V) → Each Q m → Q k v → Each Q (insert k v m)
  Each-insert Q k v m a q j w e = elim (ℕ_discrete k j) [
    | yes p ↦
        let found : some v ≡ some w = ground (arith, get-insert k j v m) in
        subst (λ i. Q i w) p (subst (Q k) (cc found) q)
    | no n ↦ a j w (ground (arith, get-insert k j v m))
  ]

  pub Each-remove {κ} : (Q : ℕ → V → Type κ) (k : ℕ) (m : Map V) → Each Q m → Each Q (remove k m)
  Each-remove Q k m a j w e = a j w (ground (arith, get-remove k j m))

  pub Each-update {κ} :
      (Q : ℕ → V → Type κ) (k : ℕ) (f : V → V) (m : Map V)
      → Each Q m
      → ((v : V) → get k m ≡ some v → Q k (f v))
      → Each Q (update k f m)
  Each-update Q k f m a q j w e = elim (ℕ_discrete k j) [
    | yes p ↦ changed p (get k m) refl (ground (arith, get-update k j f m))
    | no n ↦ a j w (ground (arith, get-update k j f m))
  ]
    where
      changed : k ≡ j → (o : Option V) → get k m ≡ o → map_some f o ≡ some w → Q j w
      changed p none g h = absurd (cc h)
      changed p (some v) g h = subst (λ i. Q i w) p (subst (Q k) (cc h) (q v g))
