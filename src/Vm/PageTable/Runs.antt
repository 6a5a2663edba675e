-- ===== src/Vm/PageTable/Runs.antt =====
-- Any sequence of operations on a new page table answers as the function from pages to entries
-- does, that is 0 everywhere at first.
use omniagent_os.Base.{
  ℕ, ◌+◌, ◌*◌, ◌^◌, ◌<◌, ◌≡◌, refl, ap, ap₂, Option, none, List, [], ◌∷◌, length, arith, Result,
  length-replicate,
}
use omniagent_os.Vm.PageTable.{
  PageTable, Place, root, table, entry, new, follow, upper, index_from_addr, MapError, UnmapError,
  map_page, unmap, translate, update_flags,
}
use omniagent_os.Vm.PageTable.Entries.{IsPlace, get_or-empty_table}
use omniagent_os.Vm.PageTable.Walks.{held, follow-missing}
use omniagent_os.Vm.PageTable.Mapping.{Represents, leaf}
use omniagent_os.Vm.PageTable.Refining.{Matches, map_spec, unmap_spec, update_spec, translate_spec}
use omniagent_os.Vm.PageTable.Operations.{
  map_page-map_spec, unmap-unmap_spec, update_flags-update_spec, translate-translate_spec,
}

pub data Operation : Type 0 where
  maps : ℕ → ℕ → ℕ → Operation
  unmaps : ℕ → Operation
  updates : ℕ → ℕ → Operation
  translates : ℕ → Operation

pub data Answer : Type 0 where
  mapped : Result (Unit {0}) MapError → Answer
  unmapped : Result ℕ UnmapError → Answer
  updated : Result (Unit {0}) MapError → Answer
  translated : Option ℕ → Answer

abbrev answering : {R S : Type 0} → (R → Answer) → R × S → Answer × S
answering f (r, s) = (f r, s)

pub step : PageTable → Operation → Answer × PageTable
step t (maps virt phys flags) = answering mapped (map_page t virt phys flags)
step t (unmaps virt) = answering unmapped (unmap t virt)
step t (updates virt flags) = answering updated (update_flags t virt flags)
step t (translates virt) = (translated (translate t virt), t)

pub step_spec : (ℕ → ℕ) → Operation → Answer × (ℕ → ℕ)
step_spec m (maps virt phys flags) = answering mapped (map_spec m virt phys flags)
step_spec m (unmaps virt) = answering unmapped (unmap_spec m virt)
step_spec m (updates virt flags) = answering updated (update_spec m virt flags)
step_spec m (translates virt) = (translated (translate_spec m virt), m)

-- What a sequence of operations answers.
unfoldable pub answers :
    {S : Type 0} → (S → Operation → Answer × S) → S → List Operation → List Answer
answers run s [] = []
answers run s (o ∷ os) = let (a, s') = run s o in a ∷ answers run s' os

abbrev virt_of : Operation → ℕ
virt_of (maps virt phys flags) = virt
virt_of (unmaps virt) = virt
virt_of (updates virt flags) = virt
virt_of (translates virt) = virt

-- The addresses have 64 bits.
abbrev pub IsAddressed : List Operation → Type 0
IsAddressed [] = Unit {0}
IsAddressed (o ∷ os) = (virt_of o < 2 ^ 64) × IsAddressed os

Matches-answering :
    {R : Type 0} (f : R → Answer) (n : ℕ) (x : R × PageTable) (y : R × (ℕ → ℕ))
    → Matches n x y
    → Matches n (answering f x) (answering f y)
Matches-answering f n (r, t) (r', m) (e, h, l) = (ap f e, h, l)

step-step_spec :
    (t : PageTable) (m : ℕ → ℕ) (o : Operation)
    → Represents t m
    → virt_of o < 2 ^ 64
    → length t.intermediate_tables + 3 < 2 ^ 40
    → Matches (length t.intermediate_tables + 3) (step t o) (step_spec m o)
unfolding step step_spec
step-step_spec t m (maps virt phys flags) r b few =
    Matches-answering mapped (length t.intermediate_tables + 3) (map_page t virt phys flags)
      (map_spec m virt phys flags) (map_page-map_spec t m virt r b phys flags few)
step-step_spec t m (unmaps virt) r b few =
    Matches-answering unmapped (length t.intermediate_tables + 3) (unmap t virt) (unmap_spec m virt)
      (unmap-unmap_spec t m virt r b)
step-step_spec t m (updates virt flags) r b few =
    Matches-answering updated (length t.intermediate_tables + 3) (update_flags t virt flags)
      (update_spec m virt flags) (update_flags-update_spec t m virt r b flags)
step-step_spec t m (translates virt) r b few =
    (ap translated (translate-translate_spec t m virt r b), r, omega arith)

run-spec :
    (os : List Operation) (t : PageTable) (m : ℕ → ℕ)
    → Represents t m
    → IsAddressed os
    → length t.intermediate_tables + 3 * length os < 2 ^ 40
    → answers step t os ≡ answers step_spec m os
unfolding answers
run-spec [] t m r b few = refl
run-spec (o ∷ os) t m r b few =
    let (same, r', fewer) = step-step_spec t m o r b.0 (omega (arith, few)) in
    let rest = run-spec os (step t o).1 (step_spec m o).1 r' b.1 (omega (arith, few, fewer)) in
    ap₂ (λ a l. a ∷ l) same rest

pub new-Represents : Represents new (λ v. 0)
unfolding new upper
new-Represents = record {
  wf = record {
    way = λ i. [];
    tree = record {
      sizes = record {
        rooted = length-replicate {A = ℕ} 512 0;
        sized = λ i h. absurd (omega (arith, h));
      };
      linked = λ p k h d n. absurd (n (nothing p k h));
    };
  };
  view = λ v b c. free v;
}
  where
    nothing : (p : Place) (k : ℕ) → IsPlace new p → entry new p k ≡ 0
    nothing root k h = get_or-empty_table k
    nothing (table i) k h = absurd (omega (arith, h))

    free : (v : ℕ) → leaf new v ≡ 0
    free v =
        let stop : follow (upper v) new root ≡ none =
          follow-missing new root (index_from_addr v 0)
            (index_from_addr v 1 ∷ index_from_addr v 2 ∷ [])
            (get_or-empty_table (index_from_addr v 0)) in
        ap (λ o. held new o (index_from_addr v 3)) stop

-- Up to a third of 2^40 operations on a new table, with addresses of 64 bits, give the results and
-- the translations of the same operations on a function from pages to entries that is 0
-- everywhere.
pub answers-step_spec :
    (os : List Operation)
    → IsAddressed os
    → 3 * length os < 2 ^ 40
    → answers step new os ≡ answers step_spec (λ v. 0) os
unfolding new
answers-step_spec os b few = run-spec os new (λ v. 0) new-Represents b (omega (arith, few, bare))
  where
    bare : length new.intermediate_tables ≡ 0
    bare = refl
