-- ===== src/Fs/Path.antt =====
-- kernel/src/fs/path.rs: paths, as the lists of their bytes.
pub mod Components
pub mod Normal
pub mod Names
mod Examples
use omniagent_os.Base.{
  ℕ, zero, suc, ◌+◌, Bool, true, false, not, ◌&&◌, ◌||◌, Option, none, some, List, [], ◌∷◌, ◌++◌,
  ◌==◌, if◌then◌else◌, is_empty,
}
use omniagent_os.Base.Strings.{Bytes, same}
use omniagent_os.Base.Slices.{take, drop}

-- `/`
abbrev pub slash : ℕ
slash = 47

abbrev pub dot : Bytes
dot = 46 ∷ []

abbrev pub dot_dot : Bytes
dot_dot = 46 ∷ 46 ∷ []

abbrev pub prepend : ℕ → List Bytes → List Bytes
prepend c [] = (c ∷ []) ∷ []
prepend c (w ∷ ws) = (c ∷ w) ∷ ws

-- `split('/')`
unfoldable pub split : Bytes → List Bytes
split [] = [] ∷ []
split (c ∷ cs) = if c == slash then [] ∷ split cs else prepend c (split cs)

-- `filter(|s| !s.is_empty())`
abbrev pub non_empty : List Bytes → List Bytes
non_empty [] = []
non_empty (w ∷ ws) = if is_empty w then non_empty ws else w ∷ non_empty ws

unfoldable pub components : Bytes → List Bytes
components path = non_empty (split path)

unfoldable pub is_absolute : Bytes → Bool
is_absolute [] = false
is_absolute (c ∷ cs) = c == slash

unfoldable pub ends_with_slash : Bytes → Bool
ends_with_slash [] = false
ends_with_slash (c ∷ []) = c == slash
ends_with_slash (c ∷ d ∷ cs) = ends_with_slash (d ∷ cs)

-- `stack.pop()`
unfoldable pub pop : List Bytes → List Bytes
pop [] = []
pop (w ∷ []) = []
pop (w ∷ v ∷ ws) = w ∷ pop (v ∷ ws)

unfoldable pub step : List Bytes → Bytes → List Bytes
step stack component =
    if same component dot
    then stack
    else (if same component dot_dot then pop stack else stack ++ (component ∷ []))

unfoldable pub resolve_dots : List Bytes → List Bytes → List Bytes
resolve_dots stack [] = stack
resolve_dots stack (c ∷ cs) = resolve_dots (step stack c) cs

-- The components, with a slash between two of them.
unfoldable pub with_slashes : List Bytes → Bytes
with_slashes [] = []
with_slashes (w ∷ []) = w
with_slashes (w ∷ v ∷ ws) = w ++ (slash ∷ with_slashes (v ∷ ws))

abbrev pub rooted : Bool → List Bytes → Bytes
rooted absolute stack = if absolute then slash ∷ with_slashes stack else with_slashes stack

abbrev pub close : Bool → Bytes → Bytes
close trailing result =
    if trailing && (not (ends_with_slash result) && not (is_empty result))
    then result ++ (slash ∷ [])
    else result

unfoldable pub normalize : Bytes → Bytes
normalize path =
    if is_empty path
    then []
    else close (ends_with_slash path)
        (rooted (is_absolute path) (resolve_dots [] (components path)))

-- `trim_end_matches('/')`
unfoldable pub trim_end : Bytes → Bytes
trim_end [] = []
trim_end (c ∷ cs) = let rest = trim_end cs in if (c == slash) && is_empty rest then [] else c ∷ rest

abbrev pub found : Bool → Option ℕ → Option ℕ
found here (some i) = some (suc i)
found true none = some 0
found false none = none

-- `rfind('/')`
unfoldable pub rfind : Bytes → Option ℕ
rfind [] = none
rfind (c ∷ cs) = found (c == slash) (rfind cs)

abbrev pub parent_at : Bytes → Option ℕ → Option Bytes
parent_at trimmed none = none
parent_at trimmed (some zero) = some (slash ∷ [])
parent_at trimmed (some (suc i)) = some (take (suc i) trimmed)

abbrev pub is_root : Bytes → Bool
is_root path = is_empty path || same path (slash ∷ [])

unfoldable pub parent : Bytes → Option Bytes
parent path = if is_root path then none else parent_at (trim_end path) (rfind (trim_end path))

abbrev pub filename_at : Bytes → Option ℕ → Option Bytes
filename_at trimmed none = some trimmed
filename_at trimmed (some i) =
    if is_empty (drop (suc i) trimmed) then none else some (drop (suc i) trimmed)

unfoldable pub filename : Bytes → Option Bytes
filename path = if is_root path then none else filename_at (trim_end path) (rfind (trim_end path))

unfoldable pub join : Bytes → Bytes → Bytes
join base relative =
    if is_empty relative
    then base
    else (if is_absolute relative
        then relative
        else (if is_empty base then relative else trim_end base ++ (slash ∷ relative)))
