-- ===== src/Vm/PageTable/Tree.antt =====
-- A new table, linked from the entry that missed it, keeps the tables a tree.
use omniagent_os.Base.{
  ℕ, ◌+◌, ◌^◌, ◌<◌, ◌≡◌, ◌≢◌, refl, sym, ap, ◌∙◌, subst, true, false, ◌&&◌, List, [], ◌∷◌, ◌==◌,
  ◌⊎◌, if◌then◌else◌, length, arith, Bool-cases, inl, inr, get_or,
}
use omniagent_os.Vm.PageTable.{
  PageTable, Place, root, table, entry, link, make_table_entry, extract_table_index,
}
use omniagent_os.Vm.PageTable.Entries.{
  IsPlace, Leads, IsTree, path, same_place, same_place-eq, entry-link, length-link, link-IsSized,
  extract-make, get_or-beyond,
}

-- The indices of the new table, number `n`, are those given.
abbrev pub extend : (ℕ → List ℕ) → ℕ → List ℕ → ℕ → List ℕ
extend way n ks i = if i == n then ks else way i

pub entry-beyond : (t : PageTable) (j : ℕ) → entry t (table (length t.intermediate_tables)) j ≡ 0
entry-beyond t j =
    ap (λ l. get_or l j 0)
      (get_or-beyond t.intermediate_tables (length t.intermediate_tables) [] (omega arith))

-- A place is an old one, or the new table.
pub place-cases :
    (t : PageTable) (p : Place) (k : ℕ) (q : Place)
    → IsPlace (link t p k) q
    → IsPlace t q ⊎ (q ≡ table (length t.intermediate_tables))
place-cases t p k root h = inl tt
place-cases t p k (table i) h = elim (Bool-cases (i == length t.intermediate_tables)) [
  | inl y ↦ let e : i ≡ length t.intermediate_tables = ground (arith, y) in inr (ap table e)
  | inr n ↦ inl (ground (arith, n, h, length-link t p k))
]

pub place-link :
    (t : PageTable) (p : Place) (k : ℕ) (q : Place) → IsPlace t q → IsPlace (link t p k) q
place-link t p k root h = tt
place-link t p k (table i) h = omega (arith, h, length-link t p k)

pub path-extend :
    (t : PageTable) (way : ℕ → List ℕ) (ks : List ℕ) (q : Place)
    → IsPlace t q
    → path (extend way (length t.intermediate_tables) ks) q ≡ path way q
path-extend t way ks root h = refl
path-extend t way ks (table i) h =
    let old : (i == length t.intermediate_tables) ≡ false = ground (arith, h) in simp old refl

pub extend-new : (way : ℕ → List ℕ) (n : ℕ) (ks : List ℕ) → extend way n ks n ≡ ks
extend-new way n ks = let new : (n == n) ≡ true = ground arith in simp new refl

-- No place of before is the new table.
pub same_place-new :
    (t : PageTable) (p : Place)
    → IsPlace t p
    → same_place p (table (length t.intermediate_tables)) ≡ false
same_place-new t root h = refl
same_place-new t (table i) h = ground (arith, h)

module _ (t : PageTable) (way : ℕ → List ℕ) (p : Place) (k : ℕ) (w : IsTree t way) (h : IsPlace t p)
    (b : k < 512) where
  pub entry-link_new : (j : ℕ) → entry (link t p k) (table (length t.intermediate_tables)) j ≡ 0
  entry-link_new j =
      entry-link t p k (table (length t.intermediate_tables)) j w.sizes h b
      ∙ simp (same_place-new t p h) (entry-beyond t j)

  pub entry-link_self : entry (link t p k) p k ≡ make_table_entry (length t.intermediate_tables)
  entry-link_self =
      let here : (same_place p p && (k == k)) ≡ true = itself p in
      entry-link t p k p k w.sizes h b ∙ simp here refl
    where
      itself : (q : Place) → (same_place q q && (k == k)) ≡ true
      itself root = ground arith
      itself (table i) = ground arith

  pub link-IsTree :
      length (path way p) < 3
      → length t.intermediate_tables + 1 < 2 ^ 40
      → IsTree (link t p k) (extend way (length t.intermediate_tables) (k ∷ path way p))
  link-IsTree d few = record {
    sizes = link-IsSized t p k h w.sizes;
    linked = λ q j g e n. elim (place-cases t p k q g) [
      | inl g' ↦
          old q j g' (subst (λ l. length l < 3) (path-extend t way (k ∷ path way p) q g') e) n
      | inr q' ↦ absurd (n (subst (λ r. entry (link t p k) r j ≡ 0) (sym q') (entry-link_new j)))
    ];
  }
    where
      way' : ℕ → List ℕ
      way' = extend way (length t.intermediate_tables) (k ∷ path way p)

      leads_to :
          (q : Place) (j e : ℕ)
          → entry (link t p k) q j ≡ e
          → (extract_table_index e < length t.intermediate_tables + 1)
            × (way' (extract_table_index e) ≡ j ∷ path way' q)
          → Leads (link t p k) way' q j
      leads_to q j e x (m, l) =
          let here : extract_table_index e < length (link t p k).intermediate_tables =
            omega (arith, m, length-link t p k) in
          subst
            (λ v.
              (extract_table_index v < length (link t p k).intermediate_tables)
              × (way' (extract_table_index v) ≡ j ∷ path way' q))
            (sym x) (here, l)

      made : Leads (link t p k) way' p k
      made =
          let n = length t.intermediate_tables in
          let back : extract_table_index (make_table_entry n) ≡ n = (extract-make n few).0 in
          leads_to p k (make_table_entry n) entry-link_self (
            omega (arith, back),
            ap way' back
                ∙ extend-new way n (k ∷ path way p)
                ∙ ap (λ l. k ∷ l) (sym (path-extend t way (k ∷ path way p) p h)),
          )

      kept :
          (q : Place) (j : ℕ)
          → IsPlace t q
          → Leads t way q j
          → entry (link t p k) q j ≡ entry t q j
          → Leads (link t p k) way' q j
      kept q j g (m, l) same = leads_to q j (entry t q j) same (
        omega (arith, m),
        path-extend t way (k ∷ path way p) (table (extract_table_index (entry t q j))) m
            ∙ l
            ∙ ap (λ l. j ∷ l) (sym (path-extend t way (k ∷ path way p) q g)),
      )

      old :
          (q : Place) (j : ℕ)
          → IsPlace t q
          → length (path way q) < 3
          → entry (link t p k) q j ≢ 0
          → Leads (link t p k) way' q j
      old q j g e n = elim (Bool-cases (same_place p q && (j == k))) [
        | inl y ↦
            let both : (same_place p q ≡ true) × (k ≡ j) = ground (arith, y) in
            subst (λ r. Leads (link t p k) way' r j) (same_place-eq p q both.0)
              (subst (λ i. Leads (link t p k) way' p i) both.1 made)
        | inr o ↦
            let same : entry (link t p k) q j ≡ entry t q j =
              entry-link t p k q j w.sizes h b ∙ simp o refl in
            kept q j g (w.linked q j g e (λ z. n (same ∙ z))) same
      ]
