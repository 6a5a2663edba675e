-- ===== src/Vm/PageTable/Entries.antt =====
-- Writing an entry, and the tree of the tables: what every operation keeps true.
use omniagent_os.Base.{
  ℕ, zero, suc, ◌+◌, ◌^◌, ◌≤◌, ◌<◌, ◌≡◌, ◌≢◌, refl, ap, ◌∙◌, Bool, true, false, ◌&&◌, List, [], ◌∷◌,
  ◌++◌, ◌==◌, if◌then◌else◌, get_or, set, length, replicate, length-set, length-append,
  length-replicate, get_or-set, arith, Bool-cases, inl, inr, ℕ_discrete,
}
use omniagent_os.Vm.PageTable.{
  PageTable, Place, root, table, entry, put, empty_table, alloc_intermediate_table, link,
  make_table_entry, extract_table_index,
}

abbrev pub same_place : Place → Place → Bool
same_place root root = true
same_place root (table j) = false
same_place (table i) root = false
same_place (table i) (table j) = i == j

pub same_place-eq : (p q : Place) → same_place p q ≡ true → p ≡ q
same_place-eq root root h = refl
same_place-eq root (table j) h = absurd (cc h)
same_place-eq (table i) root h = absurd (cc h)
same_place-eq (table i) (table j) h = let e : i ≡ j = ground (arith, h) in ap table e

-- The indices that lead to a table, the last one first; `way` is what the tables have.
abbrev pub path : (ℕ → List ℕ) → Place → List ℕ
path way root = []
path way (table i) = way i

abbrev pub IsPlace : PageTable → Place → Type 0
IsPlace t root = Unit {0}
IsPlace t (table i) = i < length t.intermediate_tables

-- What an entry of an upper table leads to, if it is in use.
abbrev pub Leads : PageTable → (ℕ → List ℕ) → Place → ℕ → Type 0
Leads t way p k =
    (extract_table_index (entry t p k) < length t.intermediate_tables)
    × (way (extract_table_index (entry t p k)) ≡ k ∷ path way p)

-- Every table has 512 entries.
pub record IsSized (t : PageTable) : Type 0 where
  pub rooted : length t.pml4 ≡ 512
  pub sized :
      (i : ℕ) → i < length t.intermediate_tables → length (get_or t.intermediate_tables i []) ≡ 512

-- An entry in use of an upper table, one of fewer than three indices, leads to a table whose
-- indices are those of its own, and that of the entry.
pub record IsTree (t : PageTable) (way : ℕ → List ℕ) : Type 0 where
  pub sizes : IsSized t
  pub linked :
      (p : Place) (k : ℕ)
      → IsPlace t p
      → length (path way p) < 3
      → entry t p k ≢ 0
      → Leads t way p k

pub get_or-beyond : {A : Type 0} (xs : List A) (i : ℕ) (d : A) → length xs ≤ i → get_or xs i d ≡ d
get_or-beyond [] i d h = refl
get_or-beyond (x ∷ xs) zero d h = absurd (omega (arith, h))
get_or-beyond (x ∷ xs) (suc i) d h = get_or-beyond xs i d (omega (arith, h))

get_or-append :
    {A : Type 0} (xs : List A) (a d : A) (i : ℕ)
    → get_or (xs ++ (a ∷ [])) i d ≡ (if i == length xs then a else get_or xs i d)
get_or-append [] a d zero = refl
get_or-append [] a d (suc i) = ground arith
get_or-append (x ∷ xs) a d zero = ground arith
get_or-append (x ∷ xs) a d (suc i) = ground (arith, get_or-append xs a d i)

pub entry-put :
    (t : PageTable) (p : Place) (k v : ℕ) (q : Place) (j : ℕ)
    → IsSized t
    → IsPlace t p
    → k < 512
    → entry (put t p k v) q j ≡ (if same_place p q && (j == k) then v else entry t q j)
entry-put t root k v root j s h b = get_or-set t.pml4 k j v 0 (omega (arith, s.rooted, b))
entry-put t root k v (table i) j s h b = refl
entry-put t (table i) k v root j s h b = refl
entry-put t (table i) k v (table i') j s h b =
    let row = get_or t.intermediate_tables i [] in
    ap (λ l. get_or l j 0) (get_or-set t.intermediate_tables i i' (set row k v) [] h)
    ∙ inside (ℕ_discrete i' i)
  where
    row : List ℕ
    row = get_or t.intermediate_tables i []

    inside :
        Dec (i' ≡ i)
        → get_or (if i' == i then set row k v else get_or t.intermediate_tables i' []) j 0
          ≡ (if (i == i') && (j == k) then v else get_or (get_or t.intermediate_tables i' []) j 0)
    inside (yes e) =
        let here : (i' == i) ≡ true = ground arith in
        let there : (i == i') ≡ true = ground arith in
        simp here (simp there (simp e (get_or-set row k j v 0 (omega (arith, s.sized i h, b)))))
    inside (no n) =
        let here : (i' == i) ≡ false = ground arith in
        let there : (i == i') ≡ false = ground arith in simp here (simp there refl)

pub get_or-empty_table : (j : ℕ) → get_or empty_table j 0 ≡ 0
unfolding empty_table
get_or-empty_table j = zeros 512 j
  where
    zeros : (n i : ℕ) → get_or {A = ℕ} (replicate n 0) i 0 ≡ 0
    zeros zero i = refl
    zeros (suc n) zero = refl
    zeros (suc n) (suc i) = zeros n i

entry-alloc :
    (t : PageTable) (q : Place) (j : ℕ) → entry (alloc_intermediate_table t).1 q j ≡ entry t q j
unfolding alloc_intermediate_table
entry-alloc t root j = refl
entry-alloc t (table i) j =
    ap (λ l. get_or l j 0) (get_or-append t.intermediate_tables empty_table [] i)
    ∙ elim (ℕ_discrete i (length t.intermediate_tables)) [
      | yes e ↦
          let new : (i == length t.intermediate_tables) ≡ true = ground arith in
          let none_yet : get_or t.intermediate_tables i [] ≡ [] =
            get_or-beyond t.intermediate_tables i [] (omega (arith, e)) in
          simp new (simp none_yet (get_or-empty_table j))
      | no n ↦ let old : (i == length t.intermediate_tables) ≡ false = ground arith in simp old refl
    ]

pub put-IsSized :
    (t : PageTable) (p : Place) (k v : ℕ) → IsPlace t p → IsSized t → IsSized (put t p k v)
put-IsSized t root k v h s = record { rooted = length-set t.pml4 k v ∙ s.rooted; sized = s.sized }
put-IsSized t (table i) k v h s = record {
  rooted = s.rooted;
  sized = λ j b.
      ap length (get_or-set t.intermediate_tables i j (set row k v) [] h)
      ∙ elim (Bool-cases (j == i)) [
        | inl y ↦ simp y (length-set row k v ∙ s.sized i h)
        | inr n ↦
            simp n (s.sized j (omega (arith, b, length-set t.intermediate_tables i (set row k v))))
      ];
}
  where
    row : List ℕ
    row = get_or t.intermediate_tables i []

alloc-IsSized : (t : PageTable) → IsSized t → IsSized (alloc_intermediate_table t).1
unfolding alloc_intermediate_table empty_table
alloc-IsSized t s = record {
  rooted = s.rooted;
  sized = λ i h.
      ap length (get_or-append t.intermediate_tables empty_table [] i)
      ∙ elim (Bool-cases (i == length t.intermediate_tables)) [
        | inl y ↦ simp y (length-replicate {A = ℕ} 512 0)
        | inr n ↦ simp n (
            s.sized i
              (ground (arith, n, h, length-append t.intermediate_tables (empty_table ∷ []))))
      ];
}

pub extract-make :
    (n : ℕ)
    → n + 1 < 2 ^ 40
    → (extract_table_index (make_table_entry n) ≡ n) × (make_table_entry n ≢ 0)
unfolding extract_table_index make_table_entry
extract-make n h = (omega arith, λ e. absurd (omega (arith, e)))

alloc-place : (t : PageTable) (p : Place) → IsPlace t p → IsPlace (alloc_intermediate_table t).1 p
unfolding alloc_intermediate_table
alloc-place t root h = tt
alloc-place t (table i) h = omega (arith, h, length-append t.intermediate_tables (empty_table ∷ []))

pub entry-link :
    (t : PageTable) (p : Place) (k : ℕ) (q : Place) (j : ℕ)
    → IsSized t
    → IsPlace t p
    → k < 512
    → entry (link t p k) q j ≡ (
        if same_place p q && (j == k)
        then make_table_entry (length t.intermediate_tables)
        else entry t q j)
unfolding link
entry-link t p k q j s h b =
    entry-put (alloc_intermediate_table t).1 p k (make_table_entry (length t.intermediate_tables)) q
      j (alloc-IsSized t s) (alloc-place t p h) b
    ∙ ap
        (λ e.
          if same_place p q && (j == k) then make_table_entry (length t.intermediate_tables) else e)
        (entry-alloc t q j)

pub link-IsSized :
    (t : PageTable) (p : Place) (k : ℕ) → IsPlace t p → IsSized t → IsSized (link t p k)
unfolding link
link-IsSized t p k h s =
    put-IsSized (alloc_intermediate_table t).1 p k (make_table_entry (length t.intermediate_tables))
      (alloc-place t p h) (alloc-IsSized t s)

pub length-put :
    (t : PageTable) (p : Place) (k v : ℕ)
    → length (put t p k v).intermediate_tables ≡ length t.intermediate_tables
length-put t root k v = refl
length-put t (table i) k v =
    length-set t.intermediate_tables i (set (get_or t.intermediate_tables i []) k v)

pub length-link :
    (t : PageTable) (p : Place) (k : ℕ)
    → length (link t p k).intermediate_tables ≡ length t.intermediate_tables + 1
unfolding link alloc_intermediate_table
length-link t p k =
    length-put (alloc_intermediate_table t).1 p k (make_table_entry (length t.intermediate_tables))
    ∙ length-append t.intermediate_tables (empty_table ∷ [])
