-- ===== src/Fs/Path/Examples.antt =====
-- Some paths, and the theorems there.
use omniagent_os.Base.{◌≡◌, ◌≢◌, some, [], ◌∷◌, ◌++◌}
use omniagent_os.Base.All.{All}
use omniagent_os.Base.Strings.{Bytes}
use omniagent_os.Fs.Path.{components, split, normalize, parent, filename}
use omniagent_os.Fs.Path.Normal.{IsPlain, kept, components-normalize, normalize-normalize}
use omniagent_os.Fs.Path.Names.{components_of, parent-filename}

-- `/a/./b/../c/`
abbrev path : Bytes
path = 47 ∷ 97 ∷ 47 ∷ 46 ∷ 47 ∷ 98 ∷ 47 ∷ 46 ∷ 46 ∷ 47 ∷ 99 ∷ 47 ∷ []

components-normalize_example :
    (components (normalize path) ≡ (kept (components path)).1)
    × All IsPlain (components (normalize path))
components-normalize_example = components-normalize path

normalize-normalize_example : normalize (normalize path) ≡ normalize path
normalize-normalize_example = normalize-normalize path

some_components : components path ≢ []
unfolding components split
some_components h = absurd (cc h)

parent-filename_example :
    (name : Bytes) × (filename path ≡ some name)
    × (components path ≡ components_of (parent path) ++ (name ∷ []))
parent-filename_example = parent-filename path some_components
