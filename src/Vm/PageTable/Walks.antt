-- ===== src/Vm/PageTable/Walks.antt =====
-- What a walk by three indices ends at, and what `ensure` makes of the tables on its way.
use omniagent_os.Base.{
  ℕ, zero, suc, ◌+◌, ◌^◌, ◌≤◌, ◌<◌, ◌≡◌, ◌≢◌, refl, sym, ap, ◌∙◌, subst, true, false, ◌&&◌, Option,
  none, some, List, [], ◌∷◌, ◌==◌, ◌⊎◌, length, arith, Bool-cases, inl, inr,
}
use omniagent_os.Vm.PageTable.{
  PageTable, Place, table, entry, link, make_table_entry, extract_table_index, ensure, follow,
}
use omniagent_os.Vm.PageTable.Entries.{
  IsPlace, Leads, IsTree, path, same_place, same_place-eq, entry-link, extract-make,
}
use omniagent_os.Vm.PageTable.Tree.{entry-link_new}

-- The indices that lead on from those of a table.
abbrev pub back : List ℕ → List ℕ → List ℕ
back [] l = l
back (k ∷ ks) l = back ks (k ∷ l)

-- The entry a walk ends at, if it does not stop before.
abbrev pub held : PageTable → Option Place → ℕ → ℕ
held t none k = 0
held t (some p) k = entry t p k

pub follow-missing :
    (t : PageTable) (p : Place) (k : ℕ) (ks : List ℕ) → entry t p k ≡ 0 → follow (k ∷ ks) t p ≡ none
unfolding follow
follow-missing t p k ks e = simp e refl

pub follow-found :
    (t : PageTable) (p : Place) (k : ℕ) (ks : List ℕ)
    → entry t p k ≢ 0
    → follow (k ∷ ks) t p ≡ follow ks t (table (extract_table_index (entry t p k)))
unfolding follow
follow-found t p k ks n =
    let used : (entry t p k == 0) ≡ false = ground (arith, n) in simp used refl

pub entry-cases : (e : ℕ) → (e ≡ 0) ⊎ (e ≢ 0)
entry-cases zero = inl refl
entry-cases (suc e) = inr (λ h. absurd (omega (arith, h)))

-- A walk to a lowest table ends at one, by the indices that are listed.
pub follow-place :
    (t : PageTable) (way : ℕ → List ℕ) (ks : List ℕ) (p q : Place)
    → IsTree t way
    → IsPlace t p
    → length (path way p) + length ks ≤ 3
    → follow ks t p ≡ some q
    → IsPlace t q × (path way q ≡ back ks (path way p))
unfolding follow
follow-place t way [] p q w h d e =
    let same : p ≡ q = cc e in (subst (IsPlace t) same h, ap (path way) (sym same))
follow-place t way (k ∷ ks) p q w h d e = elim (entry-cases (entry t p k)) [
  | inl z ↦ let gone : none ≡ some q = sym (follow-missing t p k ks z) ∙ e in absurd (cc gone)
  | inr n ↦
      let next : Leads t way p k = w.linked p k h (omega (arith, d)) n in
      let deep : length (path way (table (extract_table_index (entry t p k))))
          ≡ suc (length (path way p)) =
        ap length next.1 in
      let (h', e') =
        follow-place t way ks (table (extract_table_index (entry t p k))) q w next.0
          (omega (arith, d, deep)) (sym (follow-found t p k ks n) ∙ e) in
      (h', e' ∙ ap (back ks) next.1)
]

-- `ensure` finds the tables that are there, and changes nothing then.
pub ensure-follow :
    (ks : List ℕ) (t : PageTable) (p q : Place) → follow ks t p ≡ some q → ensure ks t p ≡ (q, t)
unfolding ensure follow
ensure-follow [] t p q e = let same : p ≡ q = cc e in ap (λ r. (r, t)) same
ensure-follow (k ∷ ks) t p q e = elim (entry-cases (entry t p k)) [
  | inl z ↦ let gone : none ≡ some q = sym (follow-missing t p k ks z) ∙ e in absurd (cc gone)
  | inr n ↦
      let used : (entry t p k == 0) ≡ false = ground (arith, n) in
      simp used (
        ensure-follow ks t (table (extract_table_index (entry t p k))) q
          (sym (follow-found t p k ks n) ∙ e))
]

module _ (t : PageTable) (way : ℕ → List ℕ) (p : Place) (k : ℕ) (w : IsTree t way) (h : IsPlace t p)
    (b : k < 512) where
  -- All the entries of a new table are 0.
  held-link_new :
      (ls : List ℕ) (j : ℕ)
      → held (link t p k) (follow ls (link t p k) (table (length t.intermediate_tables))) j ≡ 0
  unfolding follow
  held-link_new [] j = entry-link_new t way p k w h b j
  held-link_new (l ∷ ls) j =
      let stop =
        follow-missing (link t p k) (table (length t.intermediate_tables)) l ls
          (entry-link_new t way p k w h b l) in
      ap (λ o. held (link t p k) o j) stop

  -- A table linked from an entry that was missing changes no entry of a lowest table.
  pub held-link :
      (ls : List ℕ) (q : Place) (j : ℕ)
      → entry t p k ≡ 0
      → length (path way p) < 3
      → length t.intermediate_tables + 1 < 2 ^ 40
      → IsPlace t q
      → length (path way q) + length ls ≡ 3
      → held (link t p k) (follow ls (link t p k) q) j ≡ held t (follow ls t q) j
  unfolding follow
  held-link [] q j z d few g e = elim (Bool-cases (same_place p q && (j == k))) [
    | inl y ↦
        let both : (same_place p q ≡ true) × (k ≡ j) = ground (arith, y) in
        let far : length (path way p) ≡ length (path way q) =
          ap (λ r. length (path way r)) (same_place-eq p q both.0) in
        absurd (omega (arith, far, d, e))
    | inr o ↦ entry-link t p k q j w.sizes h b ∙ simp o refl
  ]
  held-link (l ∷ ls) q j z d few g e = elim (Bool-cases (same_place p q && (l == k))) [
    | inl y ↦
        let both : (same_place p q ≡ true) × (k ≡ l) = ground (arith, y) in
        let missed : entry t q l ≡ 0 =
          subst (λ r. entry t r l ≡ 0) (same_place-eq p q both.0)
            (subst (λ i. entry t p i ≡ 0) both.1 z) in
        let n = length t.intermediate_tables in
        let now : entry (link t p k) q l ≡ make_table_entry n =
          entry-link t p k q l w.sizes h b ∙ simp y refl in
        let (there, used) = extract-make n few in
        let after : follow (l ∷ ls) (link t p k) q ≡ follow ls (link t p k) (table n) =
          follow-found (link t p k) q l ls (λ c. used (sym now ∙ c))
          ∙ ap (λ v. follow ls (link t p k) (table v)) (ap extract_table_index now ∙ there) in
        ap (λ o. held (link t p k) o j) after
        ∙ held-link_new ls j
        ∙ sym (ap (λ o. held t o j) (follow-missing t q l ls missed))
    | inr o ↦
        let same : entry (link t p k) q l ≡ entry t q l =
          entry-link t p k q l w.sizes h b ∙ simp o refl in
        elim (entry-cases (entry t q l)) [
          | inl c ↦
              ap (λ o. held (link t p k) o j) (follow-missing (link t p k) q l ls (same ∙ c))
              ∙ sym (ap (λ o. held t o j) (follow-missing t q l ls c))
          | inr c ↦
              let next : Leads t way q l = w.linked q l g (omega (arith, e)) c in
              let deep : length (path way (table (extract_table_index (entry t q l))))
                  ≡ suc (length (path way q)) =
                ap length next.1 in
              ap (λ o. held (link t p k) o j)
                (follow-found (link t p k) q l ls (λ a. c (sym same ∙ a))
                  ∙ ap (λ v. follow ls (link t p k) (table (extract_table_index v))) same)
              ∙ held-link ls (table (extract_table_index (entry t q l))) j z d few next.0
                  (omega (arith, e, deep))
              ∙ sym (ap (λ o. held t o j) (follow-found t q l ls c))
        ]
  ]
