-- ===== src/Packages/Conflicts/Checking.antt =====
-- What check_version_conflicts accepts.
use omniagent_os.Base.{
  ℕ, ◌≡◌, ap, ◌∙◌, Bool, true, false, ◌&&◌, ◌||◌, not, Option, none, some, List, [], ◌∷◌, ◌++◌,
  ◌==◌, ltb, ok, err, arith, Bool-cases, inl, inr,
}
use omniagent_os.Base.Strings.{Bytes}
use omniagent_os.Base.Map.{Map, get}
use omniagent_os.Packages.Version.{version_matches}
use omniagent_os.Packages.Resolver.{Dependency, PackageManifest, is_no_match}
use omniagent_os.Packages.Conflicts.{
  Requirements, push, require_deps, require, requirements, Checked, check_reqs, check_found, check,
  check_version_conflicts,
}

abbrev pub is_ok : Checked → Bool
is_ok (ok u) = true
is_ok (err e) = false

-- Whether a requirement is met by what is available: by nothing, too.
abbrev pub is_met_by : Option PackageManifest → Bytes → Bool
is_met_by none req = true
is_met_by (some m) req = not (is_no_match (version_matches req m.version))

unfoldable pub are_met : Map PackageManifest → List Dependency → Bool
are_met available [] = true
are_met available (d ∷ ds) =
    (d.optional || is_met_by (get d.name available) d.version_req) && are_met available ds

abbrev pub deps_are_met : Map PackageManifest → Option PackageManifest → Bool
deps_are_met available none = true
deps_are_met available (some m) = are_met available m.dependencies

-- Whether of each package all requirements are met, but for optional ones.
unfoldable pub are_all_met : Map PackageManifest → List ℕ → Bool
are_all_met available [] = true
are_all_met available (name ∷ names) =
    deps_are_met available (get name available) && are_all_met available names

abbrev reqs_are_met : Option PackageManifest → List (ℕ × Bytes) → Bool
reqs_are_met o [] = true
reqs_are_met o (r ∷ reqs) = is_met_by o r.1 && reqs_are_met o reqs

reqs_are_met-append :
    (o : Option PackageManifest) (reqs : List (ℕ × Bytes)) (r : ℕ × Bytes)
    → reqs_are_met o (reqs ++ (r ∷ [])) ≡ (reqs_are_met o reqs && is_met_by o r.1)
reqs_are_met-append o [] r = ground arith
reqs_are_met-append o (q ∷ reqs) r = ground (arith, reqs_are_met-append o reqs r)

is_ok-check_reqs :
    (m : PackageManifest) (reqs : List (ℕ × Bytes)) (rest : Checked)
    → is_ok (check_reqs m.version reqs rest) ≡ (reqs_are_met (some m) reqs && is_ok rest)
is_ok-check_reqs m [] rest = ground arith
is_ok-check_reqs m ((requirer, req) ∷ reqs) rest = ground (arith, is_ok-check_reqs m reqs rest)

is_ok-check_found :
    (o : Option PackageManifest) (reqs : List (ℕ × Bytes)) (rest : Checked)
    → is_ok (check_found o reqs rest) ≡ (reqs_are_met o reqs && is_ok rest)
is_ok-check_found (some m) reqs rest = is_ok-check_reqs m reqs rest
is_ok-check_found none [] rest = ground arith
is_ok-check_found none (r ∷ reqs) rest = ground (arith, is_ok-check_found none reqs rest)

is_ok-push :
    (available : Map PackageManifest) (k : ℕ) (r : ℕ × Bytes) (m : Requirements)
    → is_ok (check available (push k r m))
      ≡ (is_ok (check available m) && is_met_by (get k available) r.1)
unfolding push check
is_ok-push available k r [] = is_ok-check_found (get k available) (r ∷ []) (ok tt) ∙ ground arith
is_ok-push available k r ((j, reqs) ∷ m) =
    let rest = is_ok-push available k r m in
    let old = is_ok-check_found (get j available) reqs (check available m) in
    elim (Bool-cases (ltb k j)) [
      | inl y ↦ simp y (
          is_ok-check_found (get k available) (r ∷ []) (check available ((j, reqs) ∷ m))
          ∙ ground arith)
      | inr n ↦ simp n (elim (Bool-cases (k == j)) [
        | inl s ↦
            let same : get k available ≡ get j available =
              ap (λ x. get x available) (ground (arith, s)) in
            simp s (
              is_ok-check_found (get j available) (reqs ++ (r ∷ [])) (check available m)
              ∙ ground (
                arith,
                old,
                reqs_are_met-append (get j available) reqs r,
                ap (λ o. is_met_by o r.1) same,
              ))
        | inr s ↦ simp s (
            is_ok-check_found (get j available) reqs (check available (push k r m))
            ∙ ground (arith, rest, old))
      ])
    ]

is_ok-require_deps :
    (available : Map PackageManifest) (requirer : ℕ) (ds : List Dependency) (m : Requirements)
    → is_ok (check available (require_deps requirer ds m))
      ≡ (is_ok (check available m) && are_met available ds)
unfolding are_met
is_ok-require_deps available requirer [] m = ground arith
is_ok-require_deps available requirer (d ∷ ds) m = elim (Bool-cases d.optional) [
  | inl y ↦ simp y (is_ok-require_deps available requirer ds m)
  | inr n ↦ simp n (
      is_ok-require_deps available requirer ds (push d.name (requirer, d.version_req) m)
      ∙ ground (arith, is_ok-push available d.name (requirer, d.version_req) m))
]

is_ok-require :
    (available : Map PackageManifest) (name : ℕ) (o : Option PackageManifest) (m : Requirements)
    → is_ok (check available (require name o m))
      ≡ (is_ok (check available m) && deps_are_met available o)
is_ok-require available name none m = ground arith
is_ok-require available name (some k) m = is_ok-require_deps available name k.dependencies m

is_ok-requirements :
    (available : Map PackageManifest) (names : List ℕ) (m : Requirements)
    → is_ok (check available (requirements available names m))
      ≡ (is_ok (check available m) && are_all_met available names)
unfolding requirements are_all_met
is_ok-requirements available [] m = ground arith
is_ok-requirements available (name ∷ names) m =
    is_ok-requirements available names (require name (get name available) m)
    ∙ ground (arith, is_ok-require available name (get name available) m)

-- check_version_conflicts succeeds if, and only if, what each of the packages requires of another
-- one, other than as an option, is not missed by the version of that one which is available.
pub check_version_conflicts-are_all_met :
    (available : Map PackageManifest) (packages : List ℕ)
    → is_ok (check_version_conflicts available packages) ≡ are_all_met available packages
unfolding check_version_conflicts check
check_version_conflicts-are_all_met available packages =
    is_ok-requirements available packages [] ∙ ground arith
