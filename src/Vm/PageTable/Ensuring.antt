-- ===== src/Vm/PageTable/Ensuring.antt =====
-- `ensure`: the tables it makes on its way to a lowest table change no entry of one.
use omniagent_os.Base.{
  ℕ, suc, ◌+◌, ◌^◌, ◌≤◌, ◌<◌, ◌≡◌, ◌≢◌, refl, sym, ap, ◌∙◌, subst, true, false, some, List, [], ◌∷◌,
  ◌==◌, length, arith, inl, inr, ◌&&◌, Bool-cases,
}
use omniagent_os.Vm.PageTable.{
  PageTable, Place, root, table, entry, link, make_table_entry, extract_table_index, ensure, follow,
}
use omniagent_os.Vm.PageTable.Entries.{
  IsPlace, Leads, IsTree, path, entry-link, extract-make, length-link, same_place, same_place-eq,
}
use omniagent_os.Vm.PageTable.Tree.{
  extend, extend-new, entry-link_self, link-IsTree, place-link, path-extend,
}
use omniagent_os.Vm.PageTable.Walks.{held, held-link, follow-found, entry-cases}

abbrev pub IsIndices : List ℕ → Type 0
IsIndices [] = Unit {0}
IsIndices (k ∷ ks) = (k < 512) × IsIndices ks

-- `u` is `t` with the tables on the way from `p` to `q`, and the same entries in lowest tables.
pub record Ensured (t : PageTable) (way : ℕ → List ℕ) (ks : List ℕ) (p q : Place) (u : PageTable)
    : Type 0 where
  pub way' : ℕ → List ℕ
  pub tree : IsTree u way'
  pub walk : follow ks u p ≡ some q
  pub old_place : (r : Place) → IsPlace t r → IsPlace u r × (path way' r ≡ path way r)
  pub old_entry : (r : Place) (j : ℕ) → IsPlace t r → entry t r j ≢ 0 → entry u r j ≡ entry t r j
  pub kept :
      (ls : List ℕ) (j : ℕ)
      → length ls ≡ 3
      → held u (follow ls u root) j ≡ held t (follow ls t root) j
  pub few : length u.intermediate_tables ≤ length t.intermediate_tables + length ks

nothing-Ensured :
    (t : PageTable) (way : ℕ → List ℕ) (p : Place) → IsTree t way → Ensured t way [] p p t
unfolding follow
nothing-Ensured t way p w = record {
  way' = way;
  tree = w;
  walk = refl;
  old_place = λ r h. (h, refl);
  old_entry = λ r j h n. refl;
  kept = λ ls j e. refl;
  few = omega arith;
}

found-Ensured :
    (t : PageTable) (way : ℕ → List ℕ) (k : ℕ) (ks : List ℕ) (p q : Place) (u : PageTable)
    → IsPlace t p
    → entry t p k ≢ 0
    → Ensured t way ks (table (extract_table_index (entry t p k))) q u
    → Ensured t way (k ∷ ks) p q u
found-Ensured t way k ks p q u h n r =
    let same = r.old_entry p k h n in
    record {
      way' = r.way';
      tree = r.tree;
      walk =
          follow-found u p k ks (λ z. n (sym same ∙ z))
          ∙ ap (λ e. follow ks u (table (extract_table_index e))) same
          ∙ r.walk;
      old_place = r.old_place;
      old_entry = r.old_entry;
      kept = r.kept;
      few = omega (arith, r.few);
    }

module _ (t : PageTable) (way : ℕ → List ℕ) (k : ℕ) (p : Place) (w : IsTree t way) (h : IsPlace t p)
    (b : k < 512) (z : entry t p k ≡ 0) (d : length (path way p) < 3)
    (few : length t.intermediate_tables + 1 < 2 ^ 40) where
  made-Ensured :
      (ks : List ℕ) (q : Place) (u : PageTable)
      → Ensured
          (link t p k)
          (extend way (length t.intermediate_tables) (k ∷ path way p))
          ks
          (table (length t.intermediate_tables))
          q
          u
      → Ensured t way (k ∷ ks) p q u
  made-Ensured ks q u r =
      let n = length t.intermediate_tables in
      let (there, used) = extract-make n few in
      let self = entry-link_self t way p k w h b in
      let now : entry u p k ≡ make_table_entry n =
        r.old_entry p k (place-link t p k p h) (λ c. used (sym self ∙ c)) ∙ self in
      record {
        way' = r.way';
        tree = r.tree;
        walk =
            follow-found u p k ks (λ c. used (sym now ∙ c))
            ∙ ap (λ v. follow ks u (table v)) (ap extract_table_index now ∙ there)
            ∙ r.walk;
        old_place = λ o g.
            let (g', e) = r.old_place o (place-link t p k o g) in
            (g', e ∙ path-extend t way (k ∷ path way p) o g);
        old_entry = λ o j g c.
            let same = entry-link_old o j c in
            r.old_entry o j (place-link t p k o g) (λ a. c (sym same ∙ a)) ∙ same;
        kept = λ ls j e.
            r.kept ls j e ∙ held-link t way p k w h b ls root j z d few tt (omega (arith, e));
        few = omega (arith, r.few, length-link t p k);
      }
    where
      entry-link_old : (o : Place) (j : ℕ) → entry t o j ≢ 0 → entry (link t p k) o j ≡ entry t o j
      entry-link_old o j c = elim (Bool-cases (same_place p o && (j == k))) [
        | inl y ↦
            let both : (same_place p o ≡ true) × (k ≡ j) = ground (arith, y) in
            absurd (
              c (
                subst (λ r. entry t r j ≡ 0) (same_place-eq p o both.0)
                  (subst (λ i. entry t p i ≡ 0) both.1 z)))
        | inr y ↦ entry-link t p k o j w.sizes h b ∙ simp y refl
      ]

pub ensure-Ensured :
    (ks : List ℕ) (t : PageTable) (way : ℕ → List ℕ) (p : Place)
    → IsTree t way
    → IsPlace t p
    → IsIndices ks
    → length (path way p) + length ks ≤ 3
    → length t.intermediate_tables + length ks < 2 ^ 40
    → Ensured t way ks p (ensure ks t p).0 (ensure ks t p).1
unfolding ensure
ensure-Ensured [] t way p w h b d few = nothing-Ensured t way p w
ensure-Ensured (k ∷ ks) t way p w h b d few = elim (entry-cases (entry t p k)) [
  | inl z ↦
      let n = length t.intermediate_tables in
      let deep : length (path (extend way n (k ∷ path way p)) (table n))
          ≡ suc (length (path way p)) =
        ap length (extend-new way n (k ∷ path way p)) in
      let rest =
        ensure-Ensured ks (link t p k) (extend way n (k ∷ path way p)) (table n)
          (link-IsTree t way p k w h b.0 (omega (arith, d)) (omega (arith, few)))
          (omega (arith, length-link t p k)) b.1 (omega (arith, d, deep))
          (omega (arith, few, length-link t p k)) in
      simp z (
        made-Ensured t way k p w h b.0 z (omega (arith, d)) (omega (arith, few)) ks
          (ensure ks (link t p k) (table n)).0 (ensure ks (link t p k) (table n)).1 rest)
  | inr c ↦
      let i = extract_table_index (entry t p k) in
      let next : Leads t way p k = w.linked p k h (omega (arith, d)) c in
      let deep : length (path way (table i)) ≡ suc (length (path way p)) = ap length next.1 in
      let used : (entry t p k == 0) ≡ false = ground (arith, c) in
      let rest =
        ensure-Ensured ks t way (table i) w next.0 b.1 (omega (arith, d, deep))
          (omega (arith, few)) in
      simp used
        (found-Ensured t way k ks p (ensure ks t (table i)).0 (ensure ks t (table i)).1 h c rest)
]
