-- ===== src/Base/Tally.antt =====
-- How many of the numbers below a bound pass a test.
use Prim.Native.Nat.{ℕ, zero, suc, ◌+◌, ◌≤◌, ◌<◌}
use mathlib.Core.Path.{◌≡◌, refl}
use mathlib.Core.Bool.{Bool, true, false}
use native.Mathlib.Omega.{arith}
use native.Mathlib.Decide.{ℕ_discrete}
use native.Mathlib.Nat.{add-suc}
use omniagent_os.Base.Tests.{if◌then◌else◌, ◌==◌}

pub tally : (ℕ → Bool) → ℕ → ℕ
tally p zero = 0
tally p (suc n) = (if p n then 1 else 0) + tally p n

pub tally-le : (p : ℕ → Bool) (n : ℕ) → tally p n ≤ n
unfolding tally
tally-le p zero = omega arith
tally-le p (suc n) = ground (arith, tally-le p n)

-- A number that fails the test leaves room.
pub tally-lt : (p : ℕ → Bool) (n i : ℕ) → i < n → p i ≡ false → tally p n < n
unfolding tally
tally-lt p zero i h f = elim h [ ]
tally-lt p (suc n) i h f = elim (ℕ_discrete i n) [
  | yes e ↦ ground (arith, tally-le p n)
  | no ne ↦ ground (arith, tally-lt p n i (omega arith) f)
]

pub tally_same : (p q : ℕ → Bool) (n : ℕ) → ((i : ℕ) → i < n → p i ≡ q i) → tally p n ≡ tally q n
unfolding tally
tally_same p q zero h = refl
tally_same p q (suc n) h =
    ground (arith, h n (omega arith), tally_same p q n (λ i k. h i (omega arith)))

pub tally-add : (p : ℕ → Bool) (m n : ℕ) → tally p (m + n) ≡ tally p m + tally (λ i. p (m + i)) n
unfolding tally
tally-add p m zero = grind arith
tally-add p m (suc n) = rw add-suc (ground (arith, tally-add p m n))

pub tally-none : (p : ℕ → Bool) (n : ℕ) → ((i : ℕ) → i < n → p i ≡ false) → tally p n ≡ 0
unfolding tally
tally-none p zero h = refl
tally-none p (suc n) h =
    ground (arith, h n (omega arith), tally-none p n (λ i k. h i (omega arith)))

-- One more number passes.
pub tally-flip :
    (p q : ℕ → Bool) (n k : ℕ)
    → k < n
    → p k ≡ false
    → ((i : ℕ) → q i ≡ (if i == k then true else p i))
    → tally q n ≡ tally p n + 1
unfolding tally
tally-flip p q zero k h f e = elim h [ ]
tally-flip p q (suc n) k h f e = elim (ℕ_discrete k n) [
  | yes s ↦ ground (arith, e n, tally_same q p n (λ i l. ground (arith, e i)))
  | no ne ↦ ground (arith, e n, tally-flip p q n k (omega arith) f e)
]

pub tally-zero : (p : ℕ → Bool) → tally p 0 ≡ 0
unfolding tally
tally-zero p = refl

pub tally-shift :
    (p : ℕ → Bool) (n : ℕ) → tally p (suc n) ≡ (if p 0 then 1 else 0) + tally (λ i. p (suc i)) n
unfolding tally
tally-shift p zero = ground arith
tally-shift p (suc n) = ground (arith, tally-shift p n)
