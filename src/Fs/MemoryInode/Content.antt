-- ===== src/Fs/MemoryInode/Content.antt =====
-- What a file in memory holds after a write.
use omniagent_os.Base.{
  ℕ, ◌+◌, ◌-◌, ◌≤◌, ◌≡◌, refl, ap, ◌∙◌, min, max, List, [], ◌∷◌, length, get_or, ltb, leb,
  if◌then◌else◌, ok, arith, ltb→lt, leb→le, Bool-cases, inl, inr,
}
use omniagent_os.Base.Slices.{
  take, drop, length-copy_at, length-grow, take-drop-copy_at, get_or-copy_at,
  get_or-append_replicate,
}
use omniagent_os.Fs.MemoryInode.{MemoryInode, read, write, extended, size}

pub length-extended : (xs : List ℕ) (n : ℕ) → length (extended xs n) ≡ max (length xs) n
length-extended xs n = elim (Bool-cases (ltb (length xs) n)) [
  | inl y ↦ simp y (omega (arith, ltb→lt (length xs) n y, length-grow xs n 0 (ground arith)))
  | inr m ↦ simp m (ground arith)
]

get_or-extended : (xs : List ℕ) (n p : ℕ) → get_or (extended xs n) p 0 ≡ get_or xs p 0
get_or-extended xs n p = elim (Bool-cases (ltb (length xs) n)) [
  | inl y ↦ simp y (get_or-append_replicate xs (n - length xs) p 0)
  | inr m ↦ simp m refl
]

-- A write reports the whole buffer. Afterwards the file reaches at least to the end of what was
-- written, each byte in that range is the one of the buffer, and every other byte is as it was,
-- with zeros in a gap.
pub write-Writes :
    (i : MemoryInode) (offset : ℕ) (buf : List ℕ)
    → let (r, j) = write i offset buf in
      (r ≡ ok (length buf))
      × (size j ≡ max (size i) (offset + length buf))
      × ((p : ℕ)
          → get_or j.data_bytes p 0 ≡ (
              if ltb p offset
              then get_or i.data_bytes p 0
              else if ltb p (offset + length buf)
              then get_or buf (p - offset) 0
              else get_or i.data_bytes p 0))
unfolding write size
write-Writes i offset buf =
    let long = length-extended i.data_bytes (offset + length buf) in
    (
      refl,
      length-copy_at (extended i.data_bytes (offset + length buf)) offset buf ∙ long,
      λ p.
          get_or-copy_at (extended i.data_bytes (offset + length buf)) offset buf p 0
            (omega (arith, long))
          ∙ ap
              (λ b.
                if ltb p offset
                then b
                else if ltb p (offset + length buf)
                then get_or buf (p - offset) 0
                else b)
              (get_or-extended i.data_bytes (offset + length buf) p),
    )

empty : (xs : List ℕ) → length xs ≤ 0 → [] ≡ xs
empty [] h = refl
empty (x ∷ xs) h = absurd (omega (arith, h))

read-within :
    (i : MemoryInode) (offset : ℕ) (buf : List ℕ)
    → offset + length buf ≤ size i
    → take (length buf) (drop offset i.data_bytes) ≡ buf
    → read i offset (length buf) ≡ ok buf
unfolding read size
read-within i offset buf h e = elim (Bool-cases (leb (length i.data_bytes) offset)) [
  | inl y ↦ simp y (ap ok (empty buf (omega (arith, h, leb→le (length i.data_bytes) offset y))))
  | inr n ↦
      let all : min (offset + length buf) (length i.data_bytes) - offset ≡ length buf =
        omega (arith, h) in
      simp n (simp all (ap ok e))
]

-- Reading as many bytes at the place of a write gives them back.
pub read-write :
    (i : MemoryInode) (offset : ℕ) (buf : List ℕ)
    → read (write i offset buf).1 offset (length buf) ≡ ok buf
unfolding write size
read-write i offset buf =
    let xs = extended i.data_bytes (offset + length buf) in
    let long = length-extended i.data_bytes (offset + length buf) in
    read-within (write i offset buf).1 offset buf
      (omega (arith, length-copy_at xs offset buf, long))
      (take-drop-copy_at xs offset buf (omega (arith, long)))
