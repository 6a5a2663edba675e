-- ===== src/Packages/Version.antt =====
-- kernel/src/package/manifest.rs: versions and what is required of them, on the bytes of the text.
-- White space is that of ASCII.
use omniagent_os.Base.{
  ℕ, ◌+◌, ◌-◌, ◌*◌, ◌^◌, Bool, false, ◌&&◌, ◌||◌, not, Option, none, some, List, [], ◌∷◌, ◌==◌, ltb,
  leb, if◌then◌else◌, is_empty,
}
use omniagent_os.Base.Strings.{Bytes}

pub record SemVersion : Type 0 where
  pub major : ℕ
  pub minor : ℕ
  pub patch : ℕ

abbrev pub prepend : ℕ → List Bytes → List Bytes
prepend c [] = (c ∷ []) ∷ []
prepend c (w ∷ ws) = (c ∷ w) ∷ ws

-- `split`, at a byte.
unfoldable pub split_at : ℕ → Bytes → List Bytes
split_at sep [] = [] ∷ []
split_at sep (c ∷ cs) = if c == sep then [] ∷ split_at sep cs else prepend c (split_at sep cs)

abbrev pub digits_from : ℕ → Bytes → Option ℕ
digits_from n [] = some n
digits_from n (c ∷ cs) =
    let rest = digits_from (n * 10 + (c - 48)) cs in
    if leb 48 c && (leb c 57 && ltb (n * 10 + (c - 48)) (2 ^ 32)) then rest else none

abbrev pub unsigned : Bytes → Option ℕ
unsigned [] = none
unsigned (c ∷ cs) = digits_from 0 (c ∷ cs)

-- `parse::<u32>()`: digits, after a plus or not, of a number below 2 ^ 32.
unfoldable pub parse_u32 : Bytes → Option ℕ
parse_u32 [] = none
parse_u32 (c ∷ cs) = if c == 43 then unsigned cs else unsigned (c ∷ cs)

abbrev pub version_of : Option ℕ → Option ℕ → Option ℕ → Option SemVersion
version_of (some a) (some b) (some c) = some (record { major = a; minor = b; patch = c })
version_of none b c = none
version_of (some a) none c = none
version_of (some a) (some b) none = none

abbrev pub of_parts : List Bytes → Option SemVersion
of_parts (a ∷ b ∷ c ∷ []) = version_of (parse_u32 a) (parse_u32 b) (parse_u32 c)
of_parts [] = none
of_parts (a ∷ []) = none
of_parts (a ∷ b ∷ []) = none
of_parts (a ∷ b ∷ c ∷ d ∷ rest) = none

unfoldable pub parse : Bytes → Option SemVersion
parse version = of_parts (split_at 46 version)

-- The order of the fields, the first one first.
unfoldable pub less : SemVersion → SemVersion → Bool
less v w =
    ltb v.major w.major
    || ((v.major == w.major)
        && (ltb v.minor w.minor || ((v.minor == w.minor) && ltb v.patch w.patch)))

abbrev pub equal : SemVersion → SemVersion → Bool
equal v w = (v.major == w.major) && ((v.minor == w.minor) && (v.patch == w.patch))

pub data VersionMatchResult : Type 0 where
  matched : VersionMatchResult
  no_match : VersionMatchResult
  invalid_req : VersionMatchResult

-- The tests of a condition, by what it begins with.
pub data Requirement : Type 0 where
  caret : Requirement
  tilde : Requirement
  at_least : Requirement
  at_most : Requirement
  above : Requirement
  below : Requirement
  exactly : Requirement

abbrev pub meets : Requirement → SemVersion → SemVersion → Bool
meets caret v req = not (less v req) && (v.major == req.major)
meets tilde v req = not (less v req) && ((v.major == req.major) && (v.minor == req.minor))
meets at_least v req = not (less v req)
meets at_most v req = not (less req v)
meets above v req = less req v
meets below v req = less v req
meets exactly v req = equal v req

-- After `>` or `<`, an equals sign belongs to the test.
abbrev pub bounded : Requirement → Requirement → Bytes → Requirement × Bytes
bounded strict weak [] = (strict, [])
bounded strict weak (c ∷ cs) = if c == 61 then (weak, cs) else (strict, c ∷ cs)

-- `^`, `~`, `>`, `<`, `=` or none of them.
abbrev pub requirement : Bytes → Requirement × Bytes
requirement [] = (exactly, [])
requirement (c ∷ cs) =
    if c == 94
    then (caret, cs)
    else (if c == 126
        then (tilde, cs)
        else (if c == 62
            then bounded above at_least cs
            else (if c == 60
                then bounded below at_most cs
                else (if c == 61 then (exactly, cs) else (exactly, c ∷ cs)))))

abbrev pub meets_parsed : Requirement → SemVersion → Option SemVersion → Bool
meets_parsed r v none = false
meets_parsed r v (some req) = meets r v req

abbrev pub is_space : ℕ → Bool
is_space c = (c == 32) || (leb 9 c && leb c 13)

abbrev pub trim_start : Bytes → Bytes
trim_start [] = []
trim_start (c ∷ cs) = if is_space c then trim_start cs else c ∷ cs

abbrev pub trim_end : Bytes → Bytes
trim_end [] = []
trim_end (c ∷ cs) = let rest = trim_end cs in if is_space c && is_empty rest then [] else c ∷ rest

abbrev pub trim : Bytes → Bytes
trim text = trim_end (trim_start text)

unfoldable pub check_single_condition : Bytes → SemVersion → Bool
check_single_condition cond v =
    let (r, text) = requirement (trim cond) in meets_parsed r v (parse text)

abbrev pub check_all : List Bytes → SemVersion → VersionMatchResult
check_all [] v = matched
check_all (cond ∷ conds) v =
    let rest = check_all conds v in if check_single_condition cond v then rest else no_match

abbrev pub matches_version : List Bytes → Option SemVersion → VersionMatchResult
matches_version conds none = invalid_req
matches_version conds (some v) = check_all conds v

unfoldable pub version_matches : Bytes → Bytes → VersionMatchResult
version_matches req ver = matches_version (split_at 44 req) (parse ver)
