-- ===== src/Base/Bits.antt =====
-- Bits of a machine word: `w & (1 << b) != 0`, `w | 1 << b` and `w & !(1 << b)`, the counts
-- `trailing_zeros` and `count_ones`, and what each does to every bit.
mod Digits
pub mod Counts
use Digits.{and_lowest, or_lowest, and-zero, or_zero, or_none, and_none}
use Prim.Native.Nat.{
  ℕ, zero, suc, ◌+◌, ◌-◌, ◌*◌, ◌/◌, ◌%◌, ◌^◌, ◌≤◌, ◌<◌, min, max, bit_and, bit_or,
}
use mathlib.Core.Path.{◌≡◌, refl, ◌∙◌, ap}
use mathlib.Core.Logic.{◌≢◌}
use mathlib.Core.Bool.{Bool, true, false, not}
use native.Mathlib.Nat.{pow-suc, one-le-pow}
use native.Mathlib.Omega.{arith}
use omniagent_os.Base.Tests.{◌==◌, ltb, if◌then◌else◌}

-- The bit of weight 2 ^ i.
pub bit : ℕ → ℕ → ℕ
bit w zero = w % 2
bit w (suc i) = bit (w / 2) i

pub bit-le-one : (w i : ℕ) → bit w i ≤ 1
unfolding bit
bit-le-one w zero = omega arith
bit-le-one w (suc i) = bit-le-one (w / 2) i

bit-zero : (i : ℕ) → bit 0 i ≡ 0
unfolding bit
bit-zero zero = refl
bit-zero (suc i) = bit-zero i

bit-or : (a b i : ℕ) → bit (bit_or a b) i ≡ max (bit a i) (bit b i)
unfolding bit
bit-or a b zero = omega (arith, or_lowest a b)
bit-or a b (suc i) =
    let halved : bit_or a b / 2 ≡ bit_or (a / 2) (b / 2) = omega (arith, or_lowest a b) in
    ap (λ t. bit t i) halved ∙ bit-or (a / 2) (b / 2) i

bit-and : (a b i : ℕ) → bit (bit_and a b) i ≡ min (bit a i) (bit b i)
unfolding bit
bit-and a b zero = omega (arith, and_lowest a b)
bit-and a b (suc i) =
    let halved : bit_and a b / 2 ≡ bit_and (a / 2) (b / 2) = omega (arith, and_lowest a b) in
    ap (λ t. bit t i) halved ∙ bit-and (a / 2) (b / 2) i

half-pow : (b : ℕ) → 2 ^ suc b / 2 ≡ 2 ^ b
half-pow b = omega (arith, pow-suc 2 b)

bit-pow : (b i : ℕ) → bit (2 ^ b) i ≡ (if i == b then 1 else 0)
unfolding bit
bit-pow zero zero = refl
bit-pow zero (suc i) = bit-zero i ∙ ground arith
bit-pow (suc b) zero = grind (arith, pow-suc 2 b)
bit-pow (suc b) (suc i) = ap (λ t. bit t i) (half-pow b) ∙ bit-pow b i ∙ ground arith

-- `!(1 << b)` on a word of n bits.
abbrev all_but : ℕ → ℕ → ℕ
all_but n b = 2 ^ n - 1 - 2 ^ b

pow-lt : (b n : ℕ) → b < n → 2 ^ b + 1 ≤ 2 ^ n
pow-lt zero zero h = elim h [ ]
pow-lt zero (suc n) h = omega (arith, pow-suc 2 n, one-le-pow n 2)
pow-lt (suc b) zero h = elim h [ ]
pow-lt (suc b) (suc n) h = omega (arith, pow-suc 2 n, pow-suc 2 b, pow-lt b n (omega arith))

bit-ones : (n i : ℕ) → i < n → bit (2 ^ n - 1) i ≡ 1
unfolding bit
bit-ones zero i h = elim h [ ]
bit-ones (suc n) zero h = omega (arith, pow-suc 2 n, one-le-pow n 2)
bit-ones (suc n) (suc i) h =
    let halved : (2 ^ suc n - 1) / 2 ≡ 2 ^ n - 1 = omega (arith, pow-suc 2 n, one-le-pow n 2) in
    ap (λ t. bit t i) halved ∙ bit-ones n i (omega arith)

bit-all_but : (n b i : ℕ) → b < n → i < n → bit (all_but n b) i ≡ (if i == b then 0 else 1)
unfolding bit
bit-all_but zero b i h k = elim k [ ]
bit-all_but (suc n) zero zero h k = omega (arith, pow-suc 2 n, one-le-pow n 2)
bit-all_but (suc n) zero (suc i) h k =
    let halved : all_but (suc n) zero / 2 ≡ 2 ^ n - 1 =
      omega (arith, pow-suc 2 n, one-le-pow n 2) in
    ap (λ t. bit t i) halved ∙ bit-ones n i (omega arith) ∙ ground arith
bit-all_but (suc n) (suc b) zero h k =
    grind (arith, pow-suc 2 n, pow-suc 2 b, pow-lt b n (omega arith))
bit-all_but (suc n) (suc b) (suc i) h k =
    let halved : all_but (suc n) (suc b) / 2 ≡ all_but n b =
      omega (arith, pow-suc 2 n, pow-suc 2 b, pow-lt b n (omega arith)) in
    ap (λ t. bit t i) halved ∙ bit-all_but n b i (omega arith) (omega arith) ∙ ground arith

and-pow : (w b : ℕ) → bit_and w (2 ^ b) ≡ bit w b * 2 ^ b
unfolding bit
and-pow w zero = omega (arith, and_lowest w 1, and-zero (w / 2))
and-pow w (suc b) =
    grind (arith, and_lowest w (2 ^ suc b), half-pow b, pow-suc 2 b, and-pow (w / 2) b)

-- `w & (1 << b) != 0`
unfoldable pub is_bit_set : ℕ → ℕ → Bool
is_bit_set w b = not (bit_and w (2 ^ b) == 0)

-- `w | (1 << b)`
unfoldable pub set_bit : ℕ → ℕ → ℕ
set_bit w b = bit_or w (2 ^ b)

-- `w & !(1 << b)` on a word of n bits
unfoldable pub clear_bit : ℕ → ℕ → ℕ → ℕ
clear_bit n w b = bit_and w (all_but n b)

pub is_bit_set-bit : (w b : ℕ) → is_bit_set w b ≡ (bit w b == 1)
unfolding is_bit_set
is_bit_set-bit w b = grind (arith, and-pow w b, bit-le-one w b, one-le-pow b 2)

pub is_bit_set-zero : (b : ℕ) → is_bit_set 0 b ≡ false
is_bit_set-zero b = ground (arith, is_bit_set-bit 0 b, bit-zero b)

-- Setting a bit changes that bit alone.
pub is_bit_set-set_bit :
    (w b i : ℕ) → is_bit_set (set_bit w b) i ≡ (if i == b then true else is_bit_set w i)
unfolding set_bit
is_bit_set-set_bit w b i = ground (
  arith,
  is_bit_set-bit (bit_or w (2 ^ b)) i,
  is_bit_set-bit w i,
  bit-or w (2 ^ b) i,
  bit-pow b i,
  bit-le-one w i,
)

-- So does clearing one, on a word of n bits.
pub is_bit_set-clear_bit :
    (n w b i : ℕ)
    → b < n
    → i < n
    → is_bit_set (clear_bit n w b) i ≡ (if i == b then false else is_bit_set w i)
unfolding clear_bit
is_bit_set-clear_bit n w b i h k = ground (
  arith,
  is_bit_set-bit (bit_and w (all_but n b)) i,
  is_bit_set-bit w i,
  bit-and w (all_but n b) i,
  bit-all_but n b i h k,
  bit-le-one w i,
)

pub is_bit_set-lowest : (w : ℕ) → is_bit_set w 0 ≡ (w % 2 == 1)
unfolding bit
is_bit_set-lowest w = is_bit_set-bit w 0

pub is_bit_set-half : (w i : ℕ) → is_bit_set (w / 2) i ≡ is_bit_set w (suc i)
unfolding bit
is_bit_set-half w i = cc (is_bit_set-bit (w / 2) i, is_bit_set-bit w (suc i))

set_bit-half : (w b : ℕ) → set_bit w (suc b) / 2 ≡ set_bit (w / 2) b
unfolding set_bit
set_bit-half w b =
    let halved : bit_or w (2 ^ suc b) / 2 ≡ bit_or (w / 2) (2 ^ suc b / 2) =
      omega (arith, or_lowest w (2 ^ suc b)) in
    halved ∙ ap (bit_or (w / 2)) (half-pow b)

clear_bit-half : (n w b : ℕ) → b < n → clear_bit (suc n) w (suc b) / 2 ≡ clear_bit n (w / 2) b
unfolding clear_bit
clear_bit-half n w b h =
    let halved : bit_and w (all_but (suc n) (suc b)) / 2
        ≡ bit_and (w / 2) (all_but (suc n) (suc b) / 2) =
      omega (arith, and_lowest w (all_but (suc n) (suc b))) in
    let mask : all_but (suc n) (suc b) / 2 ≡ all_but n b =
      omega (arith, pow-suc 2 n, pow-suc 2 b, pow-lt b n h) in
    halved ∙ ap (bit_and (w / 2)) mask

pub set_bit-lowest : (w : ℕ) → w % 2 ≡ 0 → set_bit w 0 ≡ w + 1
unfolding set_bit
set_bit-lowest w h = omega (arith, or_lowest w 1, or_zero (w / 2))

-- `u64::count_ones` on a word of n bits.
pub count_ones : ℕ → ℕ → ℕ
count_ones zero w = 0
count_ones (suc n) w = w % 2 + count_ones n (w / 2)

-- `u32::trailing_zeros` on a word of n bits.
unfoldable pub trailing_zeros : ℕ → ℕ → ℕ
trailing_zeros zero w = 0
trailing_zeros (suc n) w =
    let rest = suc (trailing_zeros n (w / 2)) in if w % 2 == 1 then 0 else rest

set_bit-mod : (w b : ℕ) → set_bit w (suc b) % 2 ≡ w % 2
unfolding set_bit
set_bit-mod w b = omega (arith, or_lowest w (2 ^ suc b), pow-suc 2 b)

clear_bit-mod : (n w b : ℕ) → b < n → clear_bit (suc n) w (suc b) % 2 ≡ w % 2
unfolding clear_bit
clear_bit-mod n w b h =
    omega (arith, and_lowest w (all_but (suc n) (suc b)), pow-suc 2 n, pow-suc 2 b, pow-lt b n h)

bit_or-lt : (n a b : ℕ) → a < 2 ^ n → b < 2 ^ n → bit_or a b < 2 ^ n
bit_or-lt zero zero b h k = omega (arith, or_none b)
bit_or-lt zero (suc a) b h k = absurd (omega arith)
bit_or-lt (suc n) a b h k = omega (
  arith,
  or_lowest a b,
  pow-suc 2 n,
  bit_or-lt n (a / 2) (b / 2) (omega (arith, pow-suc 2 n)) (omega (arith, pow-suc 2 n)),
)

bit_and-le : (n a b : ℕ) → a ≤ n → bit_and a b ≤ a
bit_and-le n zero b h = omega (arith, and_none b)
bit_and-le zero (suc a) b h = absurd (omega arith)
bit_and-le (suc n) (suc a) b h =
    omega (arith, and_lowest (suc a) b, bit_and-le n (suc a / 2) (b / 2) (omega arith))

-- Both operations stay within the word.
pub set_bit-lt : (n w b : ℕ) → w < 2 ^ n → b < n → set_bit w b < 2 ^ n
unfolding set_bit
set_bit-lt n w b h k = bit_or-lt n w (2 ^ b) h (omega (arith, pow-lt b n k))

pub clear_bit-lt : (n w b : ℕ) → w < 2 ^ n → clear_bit n w b < 2 ^ n
unfolding clear_bit
clear_bit-lt n w b h = omega (arith, bit_and-le w w (all_but n b) (omega arith))

and-ones : (n a : ℕ) → a < 2 ^ n → bit_and a (2 ^ n - 1) ≡ a
and-ones zero a h = grind (arith, and_none 0)
and-ones (suc n) a h = grind (
  arith,
  and_lowest a (2 ^ suc n - 1),
  pow-suc 2 n,
  one-le-pow n 2,
  and-ones n (a / 2) (omega (arith, pow-suc 2 n)),
)

clear_bit-lowest :
    (n w : ℕ)
    → w < 2 ^ suc n
    → (clear_bit (suc n) w 0 % 2 ≡ 0) × (clear_bit (suc n) w 0 / 2 ≡ w / 2)
unfolding clear_bit
clear_bit-lowest n w h =
    let mask : all_but (suc n) 0 / 2 ≡ 2 ^ n - 1 = omega (arith, pow-suc 2 n, one-le-pow n 2) in
    let low = and_lowest w (all_but (suc n) 0) in
    let same = and-ones n (w / 2) (omega (arith, pow-suc 2 n)) in
    ground (arith, low, pow-suc 2 n, one-le-pow n 2, ap (bit_and (w / 2)) mask, same)
