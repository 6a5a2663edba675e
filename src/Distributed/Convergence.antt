-- ===== src/Distributed/Convergence.antt =====
-- What the merges of replicated data have to satisfy, and what follows for the states that a
-- replica is sent: their order does not matter, nor how often they come.
use omniagent_os.Base.{◌≡◌, refl, sym, ap, ◌∙◌, List, [], ◌∷◌}
use omniagent_os.Base.All.{All}

pub record IsSemilattice {A : Type 0} (IsState : A → Type 0) (merge : A → A → A) : Type 0 where
  pub closed : (a b : A) → IsState a → IsState b → IsState (merge a b)
  pub commutes : (a b : A) → IsState a → IsState b → merge a b ≡ merge b a
  pub associates :
      (a b c : A) → IsState a → IsState b → IsState c → merge (merge a b) c ≡ merge a (merge b c)
  pub repeats : (a : A) → IsState a → merge a a ≡ a

-- Two sequences that differ in the order of their elements, and in how often they repeat them.
pub data Redelivers {A : Type 0} : List A → List A → Type 0 where
  same : (xs : List A) → Redelivers xs xs
  keep : (x : A) {xs ys : List A} → Redelivers xs ys → Redelivers (x ∷ xs) (x ∷ ys)
  swap : (x y : A) (xs : List A) → Redelivers (x ∷ y ∷ xs) (y ∷ x ∷ xs)
  twice : (x : A) (xs : List A) → Redelivers (x ∷ x ∷ xs) (x ∷ xs)
  back : {xs ys : List A} → Redelivers xs ys → Redelivers ys xs
  trans : {xs ys zs : List A} → Redelivers xs ys → Redelivers ys zs → Redelivers xs zs

module _ {A : Type 0} (merge : A → A → A) where
  -- A replica that merges the states it is sent, one after the other.
  abbrev pub deliver : A → List A → A
  deliver s [] = s
  deliver s (x ∷ xs) = deliver (merge s x) xs

module _ {A : Type 0} (IsState : A → Type 0) where
  Redelivers-All :
      {xs ys : List A}
      → Redelivers xs ys
      → (All IsState xs → All IsState ys) × (All IsState ys → All IsState xs)
  Redelivers-All (same xs) = (λ h. h, λ h. h)
  Redelivers-All (keep x r) =
      let (f, g) = Redelivers-All r in (λ h. (h.0, f h.1), λ h. (h.0, g h.1))
  Redelivers-All (swap x y xs) = (λ h. (h.1.0, (h.0, h.1.1)), λ h. (h.1.0, (h.0, h.1.1)))
  Redelivers-All (twice x xs) = (λ h. h.1, λ h. (h.0, h))
  Redelivers-All (back r) = let (f, g) = Redelivers-All r in (g, f)
  Redelivers-All (trans r q) =
      let (f, g) = Redelivers-All r in
      let (f', g') = Redelivers-All q in (λ h. f' (f h), λ h. g (g' h))

module _ {A : Type 0} (IsState : A → Type 0) (merge : A → A → A)
    (l : IsSemilattice IsState merge) where
  pub deliver-Redelivers :
      (s : A) {xs ys : List A}
      → Redelivers xs ys
      → IsState s
      → All IsState xs
      → deliver merge s xs ≡ deliver merge s ys
  deliver-Redelivers s (same xs) v h = refl
  deliver-Redelivers s (keep x r) v h = deliver-Redelivers (merge s x) r (l.closed s x v h.0) h.1
  deliver-Redelivers s (swap x y xs) v h =
      ap (λ z. deliver merge z xs)
        (l.associates s x y v h.0 h.1.0
          ∙ ap (merge s) (l.commutes x y h.0 h.1.0)
          ∙ sym (l.associates s y x v h.1.0 h.0))
  deliver-Redelivers s (twice x xs) v h =
      ap (λ z. deliver merge z xs) (l.associates s x x v h.0 h.0 ∙ ap (merge s) (l.repeats x h.0))
  deliver-Redelivers s (back r) v h =
      sym (deliver-Redelivers s r v ((Redelivers-All IsState r).1 h))
  deliver-Redelivers s (trans r q) v h =
      deliver-Redelivers s r v h ∙ deliver-Redelivers s q v ((Redelivers-All IsState r).0 h)
