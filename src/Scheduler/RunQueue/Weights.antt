-- ===== src/Scheduler/RunQueue/Weights.antt =====
-- `total_weight` of a tree over its operations.
use omniagent_os.Base.{
  ℕ, ◌+◌, ◌≡◌, sym, ap, ◌∙◌, Option, none, some, List, [], ◌∷◌, arith, Option-cases, inl, inr,
}
use omniagent_os.Scheduler.Priority.{u64}
use omniagent_os.Scheduler.RunQueue.{
  PriorityTree, tree_enqueue, tree_insert, insert_at, free_key, dequeue_min, tree_remove, without,
}

pub data TreeCall : Type 0 where
  adds : ℕ → ℕ → ℕ → TreeCall
  takes_least : TreeCall
  takes : ℕ → TreeCall

-- The tree after a call that finds nothing is the tree before.
abbrev pub left {ℓ} : {A : Type ℓ} → PriorityTree → Option (A × PriorityTree) → Option PriorityTree
left t none = some t
left t (some (a, u)) = some u

unfoldable pub call : PriorityTree → TreeCall → Option PriorityTree
call t (adds vruntime task_id weight) = tree_enqueue t vruntime task_id weight
call t takes_least = left t (dequeue_min t)
call t (takes task_id) = left t (tree_remove t task_id)

abbrev pub calls : Option PriorityTree → List TreeCall → Option PriorityTree
calls none cs = none
calls (some t) [] = some t
calls (some t) (c ∷ cs) = calls (call t c) cs

-- The weights of all tasks that the calls add.
abbrev pub added : List TreeCall → ℕ
added [] = 0
added (adds vruntime task_id weight ∷ cs) = weight + added cs
added (takes_least ∷ cs) = added cs
added (takes task_id ∷ cs) = added cs

insert_at-weight :
    (t u : PriorityTree) (id w : ℕ) (o : Option ℕ)
    → insert_at t id w o ≡ some u
    → u.total_weight ≡ u64 (t.total_weight + w)
unfolding tree_insert
insert_at-weight t u id w none e = absurd (cc e)
insert_at-weight t u id w (some k) e = ground arith

call-weight :
    (t u : PriorityTree) (c : TreeCall)
    → call t c ≡ some u
    → u64 u.total_weight ≡ u64 (t.total_weight + added (c ∷ []))
unfolding call dequeue_min tree_remove tree_enqueue without
call-weight t u (adds v id w) e =
    omega (arith, insert_at-weight t u id w (free_key 2 t.tree v id v) e)
call-weight t u takes_least e = ground arith
call-weight t u (takes id) e = ground arith

added_cons : (c : TreeCall) (cs : List TreeCall) → added (c ∷ cs) ≡ added (c ∷ []) + added cs
added_cons (adds v id w) cs = omega arith
added_cons takes_least cs = omega arith
added_cons (takes id) cs = omega arith

-- After any calls that return, the total weight of a tree is what it was plus the weights of all
-- tasks added since, whether or not they are still in the tree.
pub calls-weight :
    (cs : List TreeCall) (t u : PriorityTree)
    → calls (some t) cs ≡ some u
    → u64 u.total_weight ≡ u64 (t.total_weight + added cs)
calls-weight [] t u e = ground arith
calls-weight (c ∷ cs) t u e = elim (Option-cases (call t c)) [
  | inl stuck ↦ absurd (cc stuck)
  | inr (m, went) ↦
      let rest = calls-weight cs m u (sym (ap (λ o. calls o cs) went) ∙ e) in
      ground (arith, rest, call-weight t m c went, added_cons c cs)
]
