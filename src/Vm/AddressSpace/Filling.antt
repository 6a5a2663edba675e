-- ===== src/Vm/AddressSpace/Filling.antt =====
-- The loops over the pages of an area: what they make of the function from pages to entries, and
-- that the turns they are given are enough.
use omniagent_os.Base.{
  ℕ, zero, suc, ◌+◌, ◌*◌, ◌%◌, ◌^◌, ◌≤◌, ◌<◌, ◌≡◌, ◌≢◌, refl, sym, ap, ◌∙◌, subst, true, false,
  ◌&&◌, ◌==◌, ltb, leb, ◌⊎◌, if◌then◌else◌, length, arith, Bool-cases, inl, inr, Result, ok, err,
  ℕ_discrete,
}
use omniagent_os.Vm.Addr.{is_aligned}
use omniagent_os.Vm.PageTable.{PageTable, MapError, already_mapped, is_page, map_page, page_entry}
use omniagent_os.Vm.PageTable.Walks.{entry-cases}
use omniagent_os.Vm.PageTable.Mapping.{Represents, assign}
use omniagent_os.Vm.PageTable.Refining.{Matches, map_spec}
use omniagent_os.Vm.PageTable.Operations.{map_page-map_spec}
use omniagent_os.Vm.AddressSpace.{map_pages, after, pages}

-- Every page from one address up to another has the entry of the frame of the same address.
abbrev pub fill : (ℕ → ℕ) → ℕ → ℕ → ℕ → ℕ → ℕ
fill m addr stop flags v = if leb addr v && ltb v stop then page_entry v flags else m v

-- The pages up to `stop` are filled, and all of them unless `stop` is in use or is no page.
pub record Filled (m : ℕ → ℕ) (addr end flags : ℕ) (r : Result (Unit {0}) MapError) (u : PageTable)
    : Type 0 where
  pub stop : ℕ
  pub from : addr ≤ stop
  pub to : stop ≤ end
  pub page : stop % 4096 ≡ 0
  pub table : Represents u (fill m addr stop flags)
  pub free : (v : ℕ) → v % 4096 ≡ 0 → addr ≤ v → v < stop → (is_page v ≡ true) × (m v ≡ 0)
  pub outcome :
      ((r ≡ ok tt) × (stop ≡ end))
      ⊎ ((r ≡ err already_mapped) × (stop < end) × (m stop ≢ 0))
      ⊎ ((r ≡ err MapError.invalid_address) × (stop < end) × (is_page stop ≡ false))

pub Represents-ext :
    (t : PageTable) (m m' : ℕ → ℕ)
    → Represents t m
    → ((v : ℕ) → v % 4096 ≡ 0 → m v ≡ m' v)
    → Represents t m'
unfolding is_aligned
Represents-ext t m m' r h = record {
  wf = r.wf;
  view = λ v b c. let down : v % 4096 ≡ 0 = ground (arith, c) in r.view v b c ∙ h v down;
}

-- No page is filled.
stopped :
    (t : PageTable) (m : ℕ → ℕ) (addr end flags : ℕ)
    → Represents t m
    → Represents t (fill m addr addr flags)
stopped t m addr end flags r = Represents-ext t m (fill m addr addr flags) r (λ v d. ground arith)

fill_next :
    (m : ℕ → ℕ) (addr stop flags v : ℕ)
    → addr % 4096 ≡ 0
    → v % 4096 ≡ 0
    → addr + 4096 ≤ stop
    → fill (assign m addr (page_entry addr flags)) (addr + 4096) stop flags v
      ≡ fill m addr stop flags v
fill_next m addr stop flags v a d le = elim (ℕ_discrete v addr) [
  | yes e ↦ ground (arith, e)
  | no n ↦
      let away : (v == addr) ≡ false = ground (arith, n) in
      let same : leb (addr + 4096) v ≡ leb addr v = ground (arith, n) in simp away (simp same refl)
]

pub assign_ne : (m : ℕ → ℕ) (addr e v : ℕ) → v ≢ addr → assign m addr e v ≡ m v
assign_ne m addr e v n = let away : (v == addr) ≡ false = ground (arith, n) in simp away refl

-- The first page is filled, then the others.
next-Filled :
    (m : ℕ → ℕ) (addr end flags : ℕ) (r : Result (Unit {0}) MapError) (u : PageTable)
    → addr % 4096 ≡ 0
    → is_page addr ≡ true
    → m addr ≡ 0
    → Filled (assign m addr (page_entry addr flags)) (addr + 4096) end flags r u
    → Filled m addr end flags r u
next-Filled m addr end flags r u a p z f = record {
  stop = f.stop;
  from = omega (arith, f.from);
  to = f.to;
  page = f.page;
  table =
      Represents-ext u (fill (assign m addr (page_entry addr flags)) (addr + 4096) f.stop flags)
        (fill m addr f.stop flags) f.table (λ v d. fill_next m addr f.stop flags v a d f.from);
  free = λ v d g h. elim (ℕ_discrete v addr) [
    | yes e ↦ (subst (λ x. is_page x ≡ true) (sym e) p, ap m e ∙ z)
    | no n ↦
        let (c, f') = f.free v d (omega (arith, g, n, a, d)) h in
        (c, sym (assign_ne m addr (page_entry addr flags) v n) ∙ f')
  ];
  outcome = elim f.outcome [
    | inl done ↦ inl done
    | inr (inl (e, le, n)) ↦
        let away : f.stop ≢ addr = λ c. absurd (omega (arith, c, f.from)) in
        inr (inl (e, le, λ c. n (assign_ne m addr (page_entry addr flags) f.stop away ∙ c)))
    | inr (inr bad) ↦ inr (inr bad)
  ];
}

nothing-Filled :
    (m : ℕ → ℕ) (addr end flags : ℕ) (t : PageTable) (r : Result (Unit {0}) MapError)
    → Represents t m
    → addr ≤ end
    → addr % 4096 ≡ 0
    → ((r ≡ ok tt) × (addr ≡ end))
      ⊎ ((r ≡ err already_mapped) × (addr < end) × (m addr ≢ 0))
      ⊎ ((r ≡ err MapError.invalid_address) × (addr < end) × (is_page addr ≡ false))
    → Filled m addr end flags r t
nothing-Filled m addr end flags t r w le a o = record {
  stop = addr;
  from = omega arith;
  to = le;
  page = a;
  table = stopped t m addr end flags w;
  free = λ v d g h. absurd (omega (arith, g, h));
  outcome = o;
}

-- The three results of mapping a page.
map_outcome :
    (n : ℕ) (m : ℕ → ℕ) (addr flags : ℕ) (r : Result (Unit {0}) MapError) (u : PageTable)
    → Matches n (r, u) (map_spec m addr addr flags)
    → ((r ≡ ok tt)
        × (m addr ≡ 0)
        × (is_page addr ≡ true)
        × Represents u (assign m addr (page_entry addr flags)))
      ⊎ ((r ≡ err already_mapped) × (m addr ≢ 0) × Represents u m)
      ⊎ ((r ≡ err MapError.invalid_address) × (is_page addr ≡ false) × Represents u m)
map_outcome n m addr flags r u = elim (Bool-cases (is_page addr)) [
  | inr c ↦ simp c (λ h. inr (inr (h.0, refl, h.1)))
  | inl c ↦ simp c (elim (entry-cases (m addr)) [
    | inl z ↦ simp z (λ h. inl (h.0, refl, refl, h.1))
    | inr k ↦
        let used : (m addr == 0) ≡ false = ground (arith, k) in
        simp used (λ h. inr (inl (h.0, k, h.1)))
  ])
]

-- The loop over the pages of an area fills them, up to the first that is in use or that is no page,
-- where it stops with that error; the pages it has filled stay filled.
pub map_pages-Filled :
    (n : ℕ) (t : PageTable) (m : ℕ → ℕ) (addr end flags : ℕ)
    → Represents t m
    → addr % 4096 ≡ 0
    → end % 4096 ≡ 0
    → addr ≤ end
    → end < 2 ^ 64
    → pages addr end ≤ n
    → length t.intermediate_tables + 3 * n < 2 ^ 40
    → Filled m addr end flags (map_pages n t addr end flags).0 (map_pages n t addr end flags).1
unfolding map_pages
map_pages-Filled zero t m addr end flags w a b le top enough few =
    nothing-Filled m addr end flags t (ok tt) w le a (inl (refl, omega (arith, a, b, le, enough)))
map_pages-Filled (suc n) t m addr end flags w a b le top enough few =
    elim (Bool-cases (ltb addr end)) [
      | inr no_more ↦ simp no_more (
          nothing-Filled m addr end flags t (ok tt) w le a
            (inl (refl, ground (arith, no_more, le))))
      | inl more ↦
          let lt : addr < end = ground (arith, more) in
          simp more (
            turn (map_page t addr addr flags) refl lt (λ u w' more_tables.
              map_pages-Filled n u (assign m addr (page_entry addr flags)) (addr + 4096) end flags
                w' (omega (arith, a)) b (omega (arith, lt, a, b)) top
                (omega (arith, lt, a, b, enough)) (omega (arith, few, more_tables))))
    ]
  where
    turn :
        (x : Result (Unit {0}) MapError × PageTable)
        → map_page t addr addr flags ≡ x
        → addr < end
        → ((u : PageTable)
            → Represents u (assign m addr (page_entry addr flags))
            → length u.intermediate_tables ≤ length t.intermediate_tables + 3
            → Filled
                (assign m addr (page_entry addr flags))
                (addr + 4096)
                end
                flags
                (map_pages n u (addr + 4096) end flags).0
                (map_pages n u (addr + 4096) end flags).1)
        → Filled m addr end flags
            (after x.0 x.1 (map_pages n x.1 ((addr + 4096) % 2 ^ 64) end flags)).0
            (after x.0 x.1 (map_pages n x.1 ((addr + 4096) % 2 ^ 64) end flags)).1
    turn (r, u) e lt rest =
        let room : Matches (length t.intermediate_tables + 3) (r, u) (map_spec m addr addr flags) =
          subst (λ y. Matches (length t.intermediate_tables + 3) y (map_spec m addr addr flags)) e
            (map_page-map_spec t m addr w (omega (arith, lt, top)) addr flags
              (omega (arith, few))) in
        elim (map_outcome (length t.intermediate_tables + 3) m addr flags r u room) [
          | inl (o, z, p, w') ↦
              let on : (addr + 4096) % 2 ^ 64 ≡ addr + 4096 = omega (arith, lt, a, b, top) in
              simp o (
                simp on (
                  next-Filled m addr end flags (map_pages n u (addr + 4096) end flags).0
                    (map_pages n u (addr + 4096) end flags).1 a p z (rest u w' room.2)))
          | inr (inl (o, k, w')) ↦ simp o (
              nothing-Filled m addr end flags u (err already_mapped) w' le a
                (inr (inl (refl, lt, k))))
          | inr (inr (o, c, w')) ↦ simp o (
              nothing-Filled m addr end flags u (err MapError.invalid_address) w' le a
                (inr (inr (refl, lt, c))))
        ]

-- The loop ends at once where no page is left.
map_pages-done :
    (n : ℕ) (t : PageTable) (addr end flags : ℕ)
    → end ≤ addr
    → map_pages n t addr end flags ≡ (ok tt, t)
unfolding map_pages
map_pages-done zero t addr end flags h = refl
map_pages-done (suc n) t addr end flags h =
    let over : ltb addr end ≡ false = ground (arith, h) in simp over refl

same_turns :
    (n k : ℕ) (t : PageTable) (addr end flags : ℕ)
    → addr % 4096 ≡ 0
    → end % 4096 ≡ 0
    → end < 2 ^ 64
    → pages addr end ≤ n
    → pages addr end ≤ k
    → map_pages n t addr end flags ≡ map_pages k t addr end flags
unfolding map_pages
same_turns zero k t addr end flags a b top f g =
    sym (map_pages-done k t addr end flags (omega (arith, f, a, b)))
same_turns (suc n) zero t addr end flags a b top f g =
    map_pages-done (suc n) t addr end flags (omega (arith, g, a, b))
same_turns (suc n) (suc k) t addr end flags a b top f g = elim (Bool-cases (ltb addr end)) [
  | inr over ↦ simp over refl
  | inl more ↦
      let lt : addr < end = ground (arith, more) in
      let on : (addr + 4096) % 2 ^ 64 ≡ addr + 4096 = omega (arith, lt, a, b, top) in
      let u = (map_page t addr addr flags).1 in
      simp more (
        simp on (
          ap (after (map_page t addr addr flags).0 u) (
            same_turns n k u (addr + 4096) end flags (omega (arith, a)) b top
              (omega (arith, f, lt, a, b)) (omega (arith, g, lt, a, b)))))
]

-- A turn for each page is enough: with more turns the loop gives the same.
pub map_pages-pages :
    (n : ℕ) (t : PageTable) (addr end flags : ℕ)
    → addr % 4096 ≡ 0
    → end % 4096 ≡ 0
    → end < 2 ^ 64
    → pages addr end ≤ n
    → map_pages n t addr end flags ≡ map_pages (pages addr end) t addr end flags
map_pages-pages n t addr end flags a b top f =
    same_turns n (pages addr end) t addr end flags a b top f (omega arith)
