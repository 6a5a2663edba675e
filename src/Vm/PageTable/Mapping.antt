-- ===== src/Vm/PageTable/Mapping.antt =====
-- The page table as a function from the addresses of pages to entries, and the operations as
-- operations on that function.
use omniagent_os.Base.{
  ℕ, ◌^◌, ◌<◌, ◌≡◌, ◌≢◌, refl, sym, ap, ◌∙◌, subst, true, false, some, List, [], ◌==◌, ◌⊎◌,
  if◌then◌else◌, length, arith, inl, inr, ℕ_discrete,
}
use omniagent_os.Vm.PageTable.{PageTable, Place, root, put, follow, upper, index_from_addr, is_page}
use omniagent_os.Vm.PageTable.Entries.{IsTree, path}
use omniagent_os.Vm.PageTable.Walks.{back, held, follow-place}
use omniagent_os.Vm.PageTable.Ensuring.{Ensured}
use omniagent_os.Vm.PageTable.Putting.{put-IsTree, held-put_self, held-put_other}
use omniagent_os.Vm.PageTable.Pages.{index-lt, page-eq}

pub record IsPageTable (t : PageTable) : Type 0 where
  pub way : ℕ → List ℕ
  pub tree : IsTree t way

-- The entry of a page.
abbrev pub leaf : PageTable → ℕ → ℕ
leaf t virt = held t (follow (upper virt) t root) (index_from_addr virt 3)

-- The table keeps the entry of each page that the function says.
pub record Represents (t : PageTable) (m : ℕ → ℕ) : Type 0 where
  pub wf : IsPageTable t
  pub view : (v : ℕ) → v < 2 ^ 64 → is_page v ≡ true → leaf t v ≡ m v

abbrev pub assign : (ℕ → ℕ) → ℕ → ℕ → ℕ → ℕ
assign m v e w = if w == v then e else m w

pub length-upper : (virt : ℕ) → length (upper virt) ≡ 3
unfolding upper
length-upper virt = refl

length-back : (virt : ℕ) → length (back (upper virt) []) ≡ 3
unfolding upper
length-back virt = refl

back-upper : (v w : ℕ) → back (upper v) [] ≡ back (upper w) [] → upper v ≡ upper w
unfolding upper
back-upper v w e =
    let e0 : index_from_addr v 0 ≡ index_from_addr w 0 = cc e in
    let e1 : index_from_addr v 1 ≡ index_from_addr w 1 = cc e in
    let e2 : index_from_addr v 2 ≡ index_from_addr w 2 = cc e in cc (e0, e1, e2)

-- Writing the entry of a page whose table is there.
pub put-Represents :
    (t : PageTable) (m : ℕ → ℕ) (v e : ℕ) (p : Place)
    → Represents t m
    → v < 2 ^ 64
    → is_page v ≡ true
    → follow (upper v) t root ≡ some p
    → Represents (put t p (index_from_addr v 3) e) (assign m v e)
put-Represents t m v e p r b c f =
    let (h, l) =
      follow-place t r.wf.way (upper v) root p r.wf.tree tt (omega (arith, length-upper v)) f in
    let deep : length (back (upper v) []) ≡ 3 = length-back v in
    let low : length (path r.wf.way p) ≡ 3 = ap length l ∙ deep in
    let put' = put t p (index_from_addr v 3) e in
    record {
      wf = record {
        way = r.wf.way;
        tree = put-IsTree t r.wf.way p (index_from_addr v 3) e r.wf.tree h (index-lt v 3) low;
      };
      view = λ w b' c'. elim (ℕ_discrete w v) [
        | yes same ↦
            let here : (v == v) ≡ true = ground arith in
            let written : leaf put' v ≡ e =
              held-put_self t r.wf.way p (index_from_addr v 3) e r.wf.tree h (index-lt v 3) low
                (upper v) (length-upper v) f in
            subst (λ x. leaf put' x ≡ assign m v e x) (sym same) (written ∙ simp here refl)
        | no other ↦
            let away : (w == v) ≡ false = ground (arith, other) in
            let apart : (back (upper w) [] ≢ back (upper v) [])
                ⊎ (index_from_addr w 3 ≢ index_from_addr v 3) =
              elim (ℕ_discrete (index_from_addr w 3) (index_from_addr v 3)) [
                | yes i ↦ inl (λ a. other (page-eq w v c' c b' b (back-upper w v a) i))
                | no i ↦ inr i
              ] in
            let unchanged : leaf put' w ≡ leaf t w =
              held-put_other t r.wf.way p (index_from_addr v 3) e r.wf.tree h (index-lt v 3) low
                (upper v) (upper w) (index_from_addr w 3) (length-upper w) l apart in
            unchanged ∙ r.view w b' c' ∙ simp away refl
      ];
    }

-- The tables made on the way to a page change the entry of none.
pub ensure-Represents :
    (t : PageTable) (m : ℕ → ℕ) (v : ℕ) (r : Represents t m) (q : Place) (u : PageTable)
    → Ensured t r.wf.way (upper v) root q u
    → Represents u m
ensure-Represents t m v r q u e = record {
  wf = record { way = e.way'; tree = e.tree };
  view = λ w b c. e.kept (upper w) (index_from_addr w 3) (length-upper w) ∙ r.view w b c;
}
