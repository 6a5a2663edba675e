-- ===== src/Memory/FrameAllocator/Scan.antt =====
-- What a search finds, and what marking or clearing a frame does to every other frame.
use omniagent_os.Base.{
  ℕ, zero, suc, ◌+◌, ◌*◌, ◌/◌, ◌%◌, ◌≤◌, ◌<◌, ◌≡◌, ◌≢◌, true, false, List, arith, ◌==◌, ℕ_discrete,
  if◌then◌else◌, length, get_or, get_or-set_self, get_or-set_ne, length-set,
}
use omniagent_os.Base.Bits.{set_bit, clear_bit, is_bit_set-set_bit, is_bit_set-clear_bit}
use omniagent_os.Memory.FrameAllocator.{found, outside, exhausted, scan, is_taken, mark, unmark}

pub scan-found :
    (bitmap : List ℕ) (rounds i j : ℕ)
    → scan bitmap rounds i ≡ found j
    → (i ≤ j) × (j < i + rounds) × (is_taken bitmap j ≡ false) × (j / 64 < length bitmap)
unfolding scan
scan-found bitmap zero i j h = cc
scan-found bitmap (suc rounds) i j h = ground (arith, scan-found bitmap rounds (i + 1) j)

pub scan-exhausted :
    (bitmap : List ℕ) (rounds i k : ℕ)
    → scan bitmap rounds i ≡ exhausted
    → i ≤ k
    → k < i + rounds
    → (is_taken bitmap k ≡ true) × (k / 64 < length bitmap)
unfolding scan
scan-exhausted bitmap zero i k h l r = absurd (omega arith)
scan-exhausted bitmap (suc rounds) i k h l r =
    ground (arith, scan-exhausted bitmap rounds (i + 1) k)

pub scan-ne-outside :
    (bitmap : List ℕ) (rounds i : ℕ)
    → i + rounds ≤ 64 * length bitmap
    → scan bitmap rounds i ≢ outside
unfolding scan
scan-ne-outside bitmap zero i h = λ e. cc
scan-ne-outside bitmap (suc rounds) i h = ground (arith, scan-ne-outside bitmap rounds (i + 1))

same_word : (i j : ℕ) → i / 64 ≡ j / 64 → i % 64 ≡ j % 64 → i ≡ j
same_word i j p q = omega arith

pub is_taken-mark :
    (bitmap : List ℕ) (i j : ℕ)
    → i / 64 < length bitmap
    → is_taken (mark bitmap i) j ≡ (if j == i then true else is_taken bitmap j)
unfolding is_taken mark
is_taken-mark bitmap i j h = elim (ℕ_discrete (i / 64) (j / 64)) [
  | yes e ↦ ground (
    arith,
    get_or-set_self bitmap (i / 64) (set_bit (get_or bitmap (i / 64) 0) (i % 64)) 0 h,
    is_bit_set-set_bit (get_or bitmap (i / 64) 0) (i % 64) (j % 64),
    same_word i j e,
  )
  | no n ↦ ground (
    arith,
    get_or-set_ne bitmap (i / 64) (j / 64) (set_bit (get_or bitmap (i / 64) 0) (i % 64)) 0 n,
  )
]

pub is_taken-unmark :
    (bitmap : List ℕ) (i j : ℕ)
    → i / 64 < length bitmap
    → is_taken (unmark bitmap i) j ≡ (if j == i then false else is_taken bitmap j)
unfolding is_taken unmark
is_taken-unmark bitmap i j h = elim (ℕ_discrete (i / 64) (j / 64)) [
  | yes e ↦ ground (
    arith,
    get_or-set_self bitmap (i / 64) (clear_bit 64 (get_or bitmap (i / 64) 0) (i % 64)) 0 h,
    is_bit_set-clear_bit 64 (get_or bitmap (i / 64) 0) (i % 64) (j % 64),
    same_word i j e,
  )
  | no n ↦ ground (
    arith,
    get_or-set_ne bitmap (i / 64) (j / 64) (clear_bit 64 (get_or bitmap (i / 64) 0) (i % 64)) 0 n,
  )
]

pub length-mark : (bitmap : List ℕ) (i : ℕ) → length (mark bitmap i) ≡ length bitmap
unfolding mark
length-mark bitmap i = length-set bitmap (i / 64) _

pub length-unmark : (bitmap : List ℕ) (i : ℕ) → length (unmark bitmap i) ≡ length bitmap
unfolding unmark
length-unmark bitmap i = length-set bitmap (i / 64) _
