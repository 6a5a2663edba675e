-- ===== src/Packages/Cycles/Loops.antt =====
-- What detect_cycles finds, and that it ends.
use omniagent_os.Base.{
  ℕ, zero, suc, ◌+◌, ◌≤◌, ◌<◌, ◌≡◌, ◌≢◌, refl, sym, ap, ◌∙◌, subst, true, false, Option, none, some,
  List, [], ◌∷◌, ◌++◌, ◌==◌, length, ok, err, arith, Bool-cases, inl, inr,
}
use omniagent_os.Base.Map.{Map, get}
use omniagent_os.Packages.Resolver.{
  Dependency, PackageManifest, circular_dependency, contains, unvisited,
}
use omniagent_os.Packages.Resolver.Collecting.{contains-append, unvisited-visit}
use omniagent_os.Packages.Cycles.{
  Search, and_then, from_position, try_deps, try_manifest, dfs_cycle, outcome, detect_cycles,
}
use omniagent_os.Packages.Cycles.Depth.{
  has_dep, has_dep_at, is_path, IsLoop, is_path-snoc, is_path-from_position, from_position-start,
  unvisited_antitone, Answers,
}

Answers-mono :
    (available : Map PackageManifest) (vs ws : List ℕ) (s : Search)
    → ((x : ℕ) → contains x vs ≡ true → contains x ws ≡ true)
    → Answers available ws s
    → Answers available vs s
Answers-mono available vs ws none h a = a
Answers-mono available vs ws (some (err e)) h a = a
Answers-mono available vs ws (some (ok found)) h a = λ x m. a x (h x m)

and_then-Answers :
    (available : Map PackageManifest) (vs : List ℕ) (s : Search) (next : List ℕ → Search)
    → Answers available vs s
    → ((ws : List ℕ)
        → ((x : ℕ) → contains x vs ≡ true → contains x ws ≡ true)
        → Answers available ws (next ws))
    → Answers available vs (and_then s next)
and_then-Answers available vs none next a f = a
and_then-Answers available vs (some (err e)) next a f = a
and_then-Answers available vs (some (ok ws)) next a f =
    Answers-mono available vs ws (next ws) a (f ws a)

-- The part of the stack from a name on, and the name.
stack-IsLoop :
    (available : Map PackageManifest) (stack : List ℕ) (x : ℕ)
    → contains x stack ≡ true
    → is_path available (stack ++ (x ∷ [])) ≡ true
    → IsLoop available (from_position x stack ++ (x ∷ []))
stack-IsLoop available stack x h p =
    let begins = from_position-start x stack h in
    record {
      start = x;
      middle = begins.0;
      closed = ap (λ l. l ++ (x ∷ [])) begins.1;
      path = is_path-from_position available x x stack p;
    }

module _ (available : Map PackageManifest) (n : ℕ) (dfs : ℕ → List ℕ → Search) (stack : List ℕ)
    (good : (name : ℕ) (vs : List ℕ)
      → contains name vs ≡ false
      → unvisited vs available < n
      → is_path available (stack ++ (name ∷ [])) ≡ true
      → Answers available vs (dfs name vs)) where
  try_deps-Answers :
      (ds : List Dependency) (vs : List ℕ)
      → ((z : ℕ) → has_dep z ds ≡ true → is_path available (stack ++ (z ∷ [])) ≡ true)
      → unvisited vs available + length ds ≤ n
      → Answers available vs (try_deps dfs stack ds vs)
  unfolding try_deps has_dep
  try_deps-Answers [] vs p l = λ x h. h
  try_deps-Answers (d ∷ ds) vs p l = elim (Bool-cases d.optional) [
    | inl y ↦ simp y (try_deps-Answers ds vs later (omega (arith, l)))
    | inr k ↦
        let here : (d.name == d.name) ≡ true = ground arith in
        let edge : is_path available (stack ++ (d.name ∷ [])) ≡ true =
          p d.name (ground (arith, k, here)) in
        simp k (elim (Bool-cases (contains d.name vs)) [
          | inr new ↦ simp new (
              and_then-Answers available vs (dfs d.name vs) (λ ws. try_deps dfs stack ds ws)
                (good d.name vs new (omega (arith, l)) edge)
                (λ ws h.
                  try_deps-Answers ds ws later
                    (omega (arith, l, unvisited_antitone available vs ws h))))
          | inl old ↦ simp old (elim (Bool-cases (contains d.name stack)) [
            | inl y ↦ simp y (
              from_position d.name stack ++ (d.name ∷ []),
              (refl, stack-IsLoop available stack d.name y edge),
            )
            | inr z ↦ simp z (try_deps-Answers ds vs later (omega (arith, l)))
          ])
        ])
  ]
    where
      later : (z : ℕ) → has_dep z ds ≡ true → is_path available (stack ++ (z ∷ [])) ≡ true
      later z h = p z (ground (arith, h))

dfs_cycle-Answers :
    (n : ℕ) (available : Map PackageManifest) (current : ℕ) (vs stack : List ℕ)
    → contains current vs ≡ false
    → unvisited vs available < n
    → is_path available (stack ++ (current ∷ [])) ≡ true
    → Answers available vs (dfs_cycle n available current vs stack)
unfolding dfs_cycle
dfs_cycle-Answers zero available current vs stack h l p = absurd (omega (arith, l))
dfs_cycle-Answers (suc n) available current vs stack h l p =
    Answers-mono available vs (vs ++ (current ∷ [])) _
      (λ x m. ground (arith, m, contains-append x current vs))
      (at (λ name ws. dfs_cycle-Answers n available name ws (stack ++ (current ∷ [])))
        (get current available) refl)
  where
    at :
        ((name : ℕ) (ws : List ℕ)
          → contains name ws ≡ false
          → unvisited ws available < n
          → is_path available ((stack ++ (current ∷ [])) ++ (name ∷ [])) ≡ true
          → Answers available ws (dfs_cycle n available name ws (stack ++ (current ∷ []))))
        → (o : Option PackageManifest) → get current available ≡ o
        → Answers available (vs ++ (current ∷ [])) (
            try_manifest
              (λ name v. dfs_cycle n available name v (stack ++ (current ∷ [])))
              (stack ++ (current ∷ []))
              o
              (vs ++ (current ∷ [])))
    at good none e = λ x m. m
    at good (some m) e =
        try_deps-Answers available n
          (λ name v. dfs_cycle n available name v (stack ++ (current ∷ [])))
          (stack ++ (current ∷ [])) good m.dependencies (vs ++ (current ∷ []))
          (λ z q. is_path-snoc available stack current z p (ap (has_dep_at z) e ∙ q))
          (omega (arith, l, unvisited-visit available current m vs h e))

search-Answers :
    (available : Map PackageManifest) (name : ℕ)
    → Answers available [] (dfs_cycle (suc (unvisited [] available)) available name [] [])
unfolding contains is_path
search-Answers available name =
    dfs_cycle-Answers (suc (unvisited [] available)) available name [] [] refl (omega arith) refl

outcome-Answers :
    (available : Map PackageManifest) (s : Search) (cycle : List ℕ)
    → Answers available [] s
    → (outcome s ≢ none)
      × (outcome s ≡ some (err (circular_dependency cycle)) → IsLoop available cycle)
outcome-Answers available none cycle a = absurd a
outcome-Answers available (some (ok found)) cycle a = (λ e. cc e, λ e. absurd (cc e))
outcome-Answers available (some (err x)) cycle a = (
  λ e. cc e,
  λ e.
      let one : x ≡ circular_dependency cycle = cc e in
      let both : circular_dependency a.0 ≡ circular_dependency cycle = sym a.1.0 ∙ one in
      let same : a.0 ≡ cycle = cc both in subst (IsLoop available) same a.1.1,
)

-- The search goes no deeper than there are dependencies: detect_cycles gives a result.
pub detect_cycles-enough :
    (available : Map PackageManifest) (name : ℕ) → detect_cycles available name ≢ none
unfolding detect_cycles
detect_cycles-enough available name =
    (outcome-Answers available (dfs_cycle (suc (unvisited [] available)) available name [] []) []
      (search-Answers available name)).0

-- If detect_cycles reports a cycle, it is one: each package depends on the next one, other than as
-- an option, and the last is the first.
pub detect_cycles-IsLoop :
    (available : Map PackageManifest) (name : ℕ) (cycle : List ℕ)
    → detect_cycles available name ≡ some (err (circular_dependency cycle))
    → IsLoop available cycle
unfolding detect_cycles
detect_cycles-IsLoop available name cycle =
    (outcome-Answers available (dfs_cycle (suc (unvisited [] available)) available name [] []) cycle
      (search-Answers available name)).1
