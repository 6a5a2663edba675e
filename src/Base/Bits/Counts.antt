-- ===== src/Base/Bits/Counts.antt =====
-- What `count_ones` and `trailing_zeros` count.
use native.Mathlib.Nat.{pow-suc}
use Prim.Native.Nat.{ℕ, zero, suc, ◌+◌, ◌/◌, ◌%◌, ◌^◌, ◌<◌}
use mathlib.Core.Path.{◌≡◌, refl, sym, ◌∙◌, ap}
use mathlib.Core.Logic.{◌≢◌}
use mathlib.Core.Bool.{true, false}
use native.Mathlib.Omega.{arith}
use omniagent_os.Base.Tally.{tally, tally-zero, tally-shift, tally_same}
use omniagent_os.Base.Bits.{
  is_bit_set, set_bit, clear_bit, count_ones, trailing_zeros, is_bit_set-lowest, is_bit_set-half,
  set_bit-half, set_bit-mod, clear_bit-half, clear_bit-mod, set_bit-lowest, clear_bit-lowest,
}

pub count_ones-zero : (n : ℕ) → count_ones n 0 ≡ 0
unfolding count_ones
count_ones-zero zero = refl
count_ones-zero (suc n) = omega (arith, count_ones-zero n)

-- Setting a clear bit adds one to the count.
pub count_ones-set_bit :
    (n w b : ℕ) → b < n → is_bit_set w b ≡ false → count_ones n (set_bit w b) ≡ count_ones n w + 1
unfolding count_ones
count_ones-set_bit zero w b h f = elim h [ ]
count_ones-set_bit (suc n) w zero h f =
    let even : w % 2 ≡ 0 = ground (arith, is_bit_set-lowest w) in
    let halved : (w + 1) / 2 ≡ w / 2 = omega arith in
    ground (arith, set_bit-lowest w even, ap (count_ones n) halved, even)
count_ones-set_bit (suc n) w (suc b) h f = ground (
  arith,
  set_bit-mod w b,
  ap (count_ones n) (set_bit-half w b),
  count_ones-set_bit n (w / 2) b (omega arith) (is_bit_set-half w b ∙ f),
)

-- Clearing a set bit takes one off.
pub count_ones-clear_bit :
    (n w b : ℕ)
    → w < 2 ^ n
    → b < n
    → is_bit_set w b ≡ true
    → count_ones n (clear_bit n w b) + 1 ≡ count_ones n w
unfolding count_ones
count_ones-clear_bit zero w b k h f = elim h [ ]
count_ones-clear_bit (suc n) w zero k h f =
    let odd : w % 2 ≡ 1 = ground (arith, is_bit_set-lowest w) in
    let (low, high) = clear_bit-lowest n w k in ground (arith, low, ap (count_ones n) high, odd)
count_ones-clear_bit (suc n) w (suc b) k h f = ground (
  arith,
  clear_bit-mod n w b,
  ap (count_ones n) (clear_bit-half n w b (omega arith)),
  count_ones-clear_bit n (w / 2) b (omega (arith, pow-suc 2 n)) (omega arith)
      (is_bit_set-half w b ∙ f),
)

-- The lowest bit set: it is set, it lies in the word, and no bit below it is set.
pub trailing_zeros-is_bit_set :
    (n w : ℕ)
    → w < 2 ^ n
    → w ≢ 0
    → (is_bit_set w (trailing_zeros n w) ≡ true) × (trailing_zeros n w < n)
unfolding trailing_zeros
trailing_zeros-is_bit_set zero w h f = absurd (omega arith)
trailing_zeros-is_bit_set (suc n) w h f = ground (
  arith,
  is_bit_set-lowest w,
  is_bit_set-half w (trailing_zeros n (w / 2)),
  pow-suc 2 n,
  trailing_zeros-is_bit_set n (w / 2),
)

pub lt-trailing_zeros : (n w i : ℕ) → i < trailing_zeros n w → is_bit_set w i ≡ false
unfolding trailing_zeros
lt-trailing_zeros zero w i h = elim h [ ]
lt-trailing_zeros (suc n) w zero h = ground (arith, is_bit_set-lowest w)
lt-trailing_zeros (suc n) w (suc i) h =
    ground (arith, is_bit_set-half w i, lt-trailing_zeros n (w / 2) i)

-- The ones of a word are the bits that are set.
pub count_ones-tally : (n w : ℕ) → count_ones n w ≡ tally (is_bit_set w) n
unfolding count_ones
count_ones-tally zero w = sym (tally-zero (is_bit_set w))
count_ones-tally (suc n) w = ground (
  arith,
  tally-shift (is_bit_set w) n,
  count_ones-tally n (w / 2),
  is_bit_set-lowest w,
  tally_same (is_bit_set (w / 2)) (λ i. is_bit_set w (suc i)) n (λ i _. is_bit_set-half w i),
)
