-- ===== src/Scheduler/RunQueue/Collision.antt =====
-- When the loop that looks for a free key ends, and what `enqueue` of a tree then does.
use omniagent_os.Base.{
  ℕ, zero, suc, ◌+◌, ◌%◌, ◌≡◌, ◌≢◌, ◌⊎◌, inl, inr, refl, true, false, Option, none, some, arith,
  ◌==◌, if◌then◌else◌, length, Bool-cases,
}
use omniagent_os.Base.Map.{Map, get, get-insert, length-insert_new, insert-IsOrdered, IsOrdered}
use omniagent_os.Scheduler.Priority.{u32, u64}
use omniagent_os.Scheduler.RunQueue.{
  PriorityTree, contains_key, free_key, tree_insert, tree_enqueue,
}

-- The key that every round after the first tries.
abbrev pub second_key : ℕ → ℕ → ℕ
second_key vruntime task_id = u64 (vruntime + task_id % 65536)

spins_from :
    (n : ℕ) (m : Map ℕ) (v id key : ℕ)
    → contains_key key m ≡ true
    → contains_key (second_key v id) m ≡ true
    → free_key n m v id key ≡ none
unfolding free_key
spins_from zero m v id key h b = refl
spins_from (suc n) m v id key h b = rw h (spins_from n m v id (second_key v id) b b)

-- If both keys are taken the loop never ends, whatever number of rounds it is given.
pub free_key_spins :
    (n : ℕ) (m : Map ℕ) (v id : ℕ)
    → contains_key v m ≡ true
    → contains_key (second_key v id) m ≡ true
    → free_key n m v id v ≡ none
free_key_spins n m v id a b = spins_from n m v id v a b

-- The loop ends, within two rounds, exactly when one of the two keys is free, and takes the first
-- that is.
pub free_key_lem :
    (n : ℕ) (m : Map ℕ) (v id : ℕ)
    → free_key (suc (suc n)) m v id v ≡ (
        if contains_key v m
        then (if contains_key (second_key v id) m then none else some (second_key v id))
        else some v)
free_key_lem n m v id = elim (Bool-cases (contains_key v m)) [
  | inl a ↦ elim (Bool-cases (contains_key (second_key v id) m)) [
    | inl b ↦ rw (a, b) (free_key_spins (suc (suc n)) m v id a b)
    | inr b ↦ unfold free_key in rw (a, b)
  ]
  | inr a ↦ unfold free_key in rw a
]

contains_key-get : (k : ℕ) (m : Map ℕ) → contains_key k m ≡ false → get k m ≡ none
unfolding contains_key
contains_key-get k m h = ground arith

contains_key-used : (k : ℕ) (m : Map ℕ) → contains_key k m ≡ true → get k m ≢ none
unfolding contains_key
contains_key-used k m h e = ground (arith, h, e)

-- A tree's counter of tasks is the size of its map.
pub record IsCounted (t : PriorityTree) : Type 0 where
  pub ordered : IsOrdered t.tree
  pub counted : t.nr_tasks ≡ u32 (length t.tree)

pub tree_insert-IsCounted :
    (t : PriorityTree) (k id w : ℕ)
    → contains_key k t.tree ≡ false
    → IsCounted t
    → IsCounted (tree_insert t k id w)
unfolding tree_insert
tree_insert-IsCounted t k id w free v = record {
  ordered = insert-IsOrdered k id t.tree v.ordered;
  counted =
      ground (arith, v.counted, length-insert_new k id t.tree (contains_key-get k t.tree free));
}

-- What an `enqueue` of a tree does, by its result.
abbrev pub Enqueues : PriorityTree → ℕ → ℕ → ℕ → Option PriorityTree → Type 0
Enqueues t v id w none =
    (get v t.tree ≢ none)
    × (get (second_key v id) t.tree ≢ none)
    × ((rounds : ℕ) → free_key rounds t.tree v id v ≡ none)
Enqueues t v id w (some u) =
    (k : ℕ) × ((k ≡ v) ⊎ ((get v t.tree ≢ none) × (k ≡ second_key v id)))
    × (get k t.tree ≡ none)
    × ((j : ℕ) → get j u.tree ≡ (if k == j then some id else get j t.tree))
    × IsCounted u

inserted :
    (t : PriorityTree) (v id w k : ℕ)
    → IsCounted t
    → contains_key k t.tree ≡ false
    → (k ≡ v) ⊎ ((get v t.tree ≢ none) × (k ≡ second_key v id))
    → Enqueues t v id w (some (tree_insert t k id w))
inserted t v id w k c free e = (
  k,
  e,
  contains_key-get k t.tree free,
  unfold tree_insert in λ j. get-insert k j id t.tree,
  tree_insert-IsCounted t k id w free c,
)

pub tree_enqueue-Enqueues :
    (t : PriorityTree) (v id w : ℕ) → IsCounted t → Enqueues t v id w (tree_enqueue t v id w)
unfolding tree_enqueue
tree_enqueue-Enqueues t v id w c = elim (Bool-cases (contains_key v t.tree)) [
  | inl a ↦ elim (Bool-cases (contains_key (second_key v id) t.tree)) [
    | inl b ↦ rw (free_key_lem 0 t.tree v id) (
        rw (a, b)
          (
            contains_key-used v t.tree a,
            contains_key-used (second_key v id) t.tree b,
            λ n. free_key_spins n t.tree v id a b,
          ))
    | inr b ↦ rw (free_key_lem 0 t.tree v id) (
        rw (a, b)
          (inserted t v id w (second_key v id) c b (inr (contains_key-used v t.tree a, refl))))
  ]
  | inr a ↦ rw (free_key_lem 0 t.tree v id) (rw a (inserted t v id w v c a (inl refl)))
]
