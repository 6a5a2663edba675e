-- ===== src/Base/Slices.antt =====
-- Parts of a list: what `&data[i..j]`, `copy_from_slice` and a growing `resize` do.
use Prim.Native.Nat.{ℕ, zero, suc, ◌+◌, ◌-◌, ◌≤◌}
use mathlib.Core.Path.{◌≡◌, refl, ap}
use mathlib.Core.List.{List, [], ◌∷◌, ◌++◌}
use native.Mathlib.Omega.{arith}
use omniagent_os.Base.Tests.{ltb, if◌then◌else◌}
use omniagent_os.Base.Lists.{length, get_or, replicate, length-append, length-replicate}

module _ {ℓ} {A : Type ℓ} where
  abbrev pub take : ℕ → List A → List A
  take zero xs = []
  take (suc n) [] = []
  take (suc n) (x ∷ xs) = x ∷ take n xs

  abbrev pub drop : ℕ → List A → List A
  drop zero xs = xs
  drop (suc n) [] = []
  drop (suc n) (x ∷ xs) = drop n xs

  -- `xs[i..i + ys.len()].copy_from_slice(ys)`, as far as the list reaches.
  abbrev pub copy_at : List A → ℕ → List A → List A
  copy_at [] i ys = []
  copy_at (x ∷ xs) zero [] = x ∷ xs
  copy_at (x ∷ xs) zero (y ∷ ys) = y ∷ copy_at xs zero ys
  copy_at (x ∷ xs) (suc i) ys = x ∷ copy_at xs i ys

  -- `resize` to a length that is not smaller.
  abbrev pub grow : List A → ℕ → A → List A
  grow xs n a = xs ++ replicate (n - length xs) a

module _ {ℓ} {A : Type ℓ} where
  pub length-copy_at : (xs : List A) (i : ℕ) (ys : List A) → length (copy_at xs i ys) ≡ length xs
  length-copy_at [] i ys = refl
  length-copy_at (x ∷ xs) zero [] = refl
  length-copy_at (x ∷ xs) zero (y ∷ ys) = ap suc (length-copy_at xs zero ys)
  length-copy_at (x ∷ xs) (suc i) ys = ap suc (length-copy_at xs i ys)

  pub length-grow : (xs : List A) (n : ℕ) (a : A) → length xs ≤ n → length (grow xs n a) ≡ n
  length-grow xs n a h =
      omega
        (arith, length-append xs (replicate (n - length xs) a), length-replicate (n - length xs) a)

  pub length-take : (n : ℕ) (xs : List A) → n ≤ length xs → length (take n xs) ≡ n
  length-take zero xs h = refl
  length-take (suc n) [] h = omega (arith, h)
  length-take (suc n) (x ∷ xs) h = ap suc (length-take n xs (omega (arith, h)))

  pub length-drop : (n : ℕ) (xs : List A) → length (drop n xs) ≡ length xs - n
  length-drop zero xs = omega arith
  length-drop (suc n) [] = omega arith
  length-drop (suc n) (x ∷ xs) = omega (arith, length-drop n xs)

  -- The part that was copied is read back.
  pub take-drop-copy_at :
      (xs : List A) (i : ℕ) (ys : List A)
      → i + length ys ≤ length xs
      → take (length ys) (drop i (copy_at xs i ys)) ≡ ys
  take-drop-copy_at [] zero [] h = refl
  take-drop-copy_at [] zero (y ∷ ys) h = absurd (omega (arith, h))
  take-drop-copy_at [] (suc i) ys h = absurd (omega (arith, h))
  take-drop-copy_at (x ∷ xs) zero [] h = refl
  take-drop-copy_at (x ∷ xs) zero (y ∷ ys) h =
      ap (λ l. y ∷ l) (take-drop-copy_at xs zero ys (omega (arith, h)))
  take-drop-copy_at (x ∷ xs) (suc i) ys h = take-drop-copy_at xs i ys (omega (arith, h))

  pub get_or-append_replicate :
      (xs : List A) (n : ℕ) (p : ℕ) (d : A) → get_or (xs ++ replicate n d) p d ≡ get_or xs p d
  get_or-append_replicate [] zero p d = refl
  get_or-append_replicate [] (suc n) zero d = refl
  get_or-append_replicate [] (suc n) (suc p) d = get_or-append_replicate [] n p d
  get_or-append_replicate (x ∷ xs) n zero d = refl
  get_or-append_replicate (x ∷ xs) n (suc p) d = get_or-append_replicate xs n p d

-- A byte after a copy.
pub get_or-copy_at :
    (xs : List ℕ) (i : ℕ) (ys : List ℕ) (p : ℕ) (d : ℕ)
    → i + length ys ≤ length xs
    → get_or (copy_at xs i ys) p d ≡ (
        if ltb p i
        then get_or xs p d
        else if ltb p (i + length ys)
        then get_or ys (p - i) d
        else get_or xs p d)
get_or-copy_at [] i ys p d h = ground arith
get_or-copy_at (x ∷ xs) zero [] p d h = ground arith
get_or-copy_at (x ∷ xs) zero (y ∷ ys) zero d h = ground arith
get_or-copy_at (x ∷ xs) zero (y ∷ ys) (suc p) d h = ground (arith, get_or-copy_at xs zero ys p d)
get_or-copy_at (x ∷ xs) (suc i) ys zero d h = ground arith
get_or-copy_at (x ∷ xs) (suc i) ys (suc p) d h = ground (arith, get_or-copy_at xs i ys p d)
