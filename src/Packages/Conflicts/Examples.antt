-- ===== src/Packages/Conflicts/Examples.antt =====
-- A package whose requirement the other one misses.
use omniagent_os.Base.{◌≡◌, refl, false, [], ◌∷◌, err}
use omniagent_os.Base.Strings.{Bytes}
use omniagent_os.Base.Map.{Map, get}
use omniagent_os.Packages.Version.{
  split_at, parse_u32, parse, less, check_single_condition, version_matches,
}
use omniagent_os.Packages.Resolver.{PackageManifest, version_conflict}
use omniagent_os.Packages.Conflicts.{push, requirements, check, check_version_conflicts}
use omniagent_os.Packages.Conflicts.Checking.{
  is_ok, are_met, are_all_met, check_version_conflicts-are_all_met,
}

abbrev version_1_2_0 : Bytes
version_1_2_0 = 49 ∷ 46 ∷ 50 ∷ 46 ∷ 48 ∷ []

abbrev tilde_1_1_0 : Bytes
tilde_1_1_0 = 126 ∷ 49 ∷ 46 ∷ 49 ∷ 46 ∷ 48 ∷ []

abbrev available : Map PackageManifest
available =
    (
      1,
      record {
        version = version_1_2_0;
        dependencies = record { name = 2; version_req = tilde_1_1_0; optional = false } ∷ [];
      },
    )
    ∷ (2, record { version = version_1_2_0; dependencies = [] })
    ∷ []

check_version_conflicts-found :
    check_version_conflicts available (2 ∷ 1 ∷ [])
    ≡ err (version_conflict 1 tilde_1_1_0 version_1_2_0)
unfolding version_matches split_at parse parse_u32 check_single_condition less push requirements
    check check_version_conflicts get
check_version_conflicts-found = refl

check_version_conflicts-are_all_met_example :
    is_ok (check_version_conflicts available (2 ∷ 1 ∷ [])) ≡ false
unfolding version_matches split_at parse parse_u32 check_single_condition less are_met are_all_met
    get
check_version_conflicts-are_all_met_example =
    check_version_conflicts-are_all_met available (2 ∷ 1 ∷ [])
