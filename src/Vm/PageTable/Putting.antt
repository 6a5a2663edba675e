-- ===== src/Vm/PageTable/Putting.antt =====
-- Writing an entry of a lowest table changes the end of one walk, and no other.
use omniagent_os.Base.{
  ℕ, suc, ◌+◌, ◌<◌, ◌≡◌, ◌≢◌, refl, sym, ap, ◌∙◌, subst, true, false, ◌&&◌, Option, none, some,
  List, [], ◌∷◌, ◌==◌, ◌⊎◌, length, arith, Bool-cases, inl, inr,
}
use omniagent_os.Vm.PageTable.{
  PageTable, Place, root, table, entry, put, extract_table_index, follow,
}
use omniagent_os.Vm.PageTable.Entries.{
  IsPlace, Leads, IsTree, path, same_place, same_place-eq, entry-put, put-IsSized, length-put,
}
use omniagent_os.Vm.PageTable.Walks.{
  back, held, follow-missing, follow-found, follow-place, entry-cases,
}

module _ (t : PageTable) (way : ℕ → List ℕ) (p : Place) (k v : ℕ) (w : IsTree t way)
    (h : IsPlace t p) (b : k < 512) (low : length (path way p) ≡ 3) where
  -- The entries of the upper tables stay.
  entry-put_upper :
      (q : Place) (j : ℕ) → length (path way q) < 3 → entry (put t p k v) q j ≡ entry t q j
  entry-put_upper q j d = elim (Bool-cases (same_place p q && (j == k))) [
    | inl y ↦
        let here : same_place p q ≡ true = ground (arith, y) in
        let far : length (path way p) ≡ length (path way q) =
          ap (λ r. length (path way r)) (same_place-eq p q here) in
        absurd (omega (arith, far, d, low))
    | inr o ↦ entry-put t p k v q j w.sizes h b ∙ simp o refl
  ]

  place-put : (q : Place) → IsPlace t q → IsPlace (put t p k v) q
  place-put root g = tt
  place-put (table i) g = omega (arith, g, length-put t p k v)

  place-unput : (q : Place) → IsPlace (put t p k v) q → IsPlace t q
  place-unput root g = tt
  place-unput (table i) g = omega (arith, g, length-put t p k v)

  pub put-IsTree : IsTree (put t p k v) way
  put-IsTree = record {
    sizes = put-IsSized t p k v h w.sizes;
    linked = λ q j g e n.
        let same = entry-put_upper q j e in
        let (m, l) = w.linked q j (place-unput q g) e (λ z. n (same ∙ z)) in
        subst
          (λ x.
            (extract_table_index x < length (put t p k v).intermediate_tables)
            × (way (extract_table_index x) ≡ j ∷ path way q))
          (sym same) (omega (arith, m, length-put t p k v), l);
  }

  -- The walks take the same way.
  pub follow-put :
      (ks : List ℕ) (q : Place)
      → IsPlace t q
      → length (path way q) + length ks ≡ 3
      → follow ks (put t p k v) q ≡ follow ks t q
  unfolding follow
  follow-put [] q g e = refl
  follow-put (j ∷ js) q g e =
      let same = entry-put_upper q j (omega (arith, e)) in
      elim (entry-cases (entry t q j)) [
        | inl z ↦ follow-missing (put t p k v) q j js (same ∙ z) ∙ sym (follow-missing t q j js z)
        | inr n ↦
            let next : Leads t way q j = w.linked q j g (omega (arith, e)) n in
            let deep : length (path way (table (extract_table_index (entry t q j))))
                ≡ suc (length (path way q)) =
              ap length next.1 in
            follow-found (put t p k v) q j js (λ z. n (sym same ∙ z))
            ∙ ap (λ x. follow js (put t p k v) (table (extract_table_index x))) same
            ∙ follow-put js (table (extract_table_index (entry t q j))) next.0
                (omega (arith, e, deep))
            ∙ sym (follow-found t q j js n)
      ]

  pub held-put_self :
      (ks : List ℕ)
      → length ks ≡ 3
      → follow ks t root ≡ some p
      → held (put t p k v) (follow ks (put t p k v) root) k ≡ v
  held-put_self ks e f =
      let here : (same_place p p && (k == k)) ≡ true = itself p in
      ap (λ o. held (put t p k v) o k) (follow-put ks root tt (omega (arith, e)) ∙ f)
      ∙ entry-put t p k v p k w.sizes h b
      ∙ simp here refl
    where
      itself : (q : Place) → (same_place q q && (k == k)) ≡ true
      itself root = ground arith
      itself (table i) = ground arith

  -- The walk ends at another table, or at another entry.
  pub held-put_other :
      (ks ls : List ℕ) (j : ℕ)
      → length ls ≡ 3
      → path way p ≡ back ks []
      → ((back ls [] ≢ back ks []) ⊎ (j ≢ k))
      → held (put t p k v) (follow ls (put t p k v) root) j ≡ held t (follow ls t root) j
  held-put_other ks ls j e c x =
      ap (λ o. held (put t p k v) o j) (follow-put ls root tt (omega (arith, e)))
      ∙ at (follow ls t root) refl
    where
      apart : (q : Place) → follow ls t root ≡ some q → (same_place p q && (j == k)) ≡ false
      apart q f = elim (Bool-cases (same_place p q && (j == k))) [
        | inl y ↦
            let both : (same_place p q ≡ true) × (j ≡ k) = ground (arith, y) in
            let (g, l) = follow-place t way ls root q w tt (omega (arith, e)) f in
            let same : back ls [] ≡ back ks [] =
              sym l ∙ ap (path way) (sym (same_place-eq p q both.0)) ∙ c in
            elim x [ inl m ↦ absurd (m same) | inr m ↦ absurd (m both.1) ]
        | inr o ↦ o
      ]

      at : (o : Option Place) → follow ls t root ≡ o → held (put t p k v) o j ≡ held t o j
      at none f = refl
      at (some q) f = entry-put t p k v q j w.sizes h b ∙ simp (apart q f) refl
