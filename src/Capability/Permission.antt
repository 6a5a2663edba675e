-- ===== src/Capability/Permission.antt =====
-- kernel/src/capability/permission.rs, `PermissionChecker`.
use omniagent_os.Base.{Bool, true, false, ◌&&◌, ◌||◌, List, [], ◌∷◌, if◌then◌else◌}
use omniagent_os.Base.Strings.{Bytes, same}
use omniagent_os.Capability.Token.{CapabilityEntry, CapabilityToken}

-- `capabilities.iter().any(|c| c.name == name)`
unfoldable pub has : List CapabilityEntry → Bytes → Bool
has [] name = false
has (c ∷ cs) name = same c.name name || has cs name

unfoldable pub check : CapabilityToken → Bytes → Bool
check token name = if token.is_revoked then false else has token.capabilities name

unfoldable pub has_all : List CapabilityEntry → List Bytes → Bool
has_all cs [] = true
has_all cs (n ∷ ns) = has cs n && has_all cs ns

unfoldable pub check_all : CapabilityToken → List Bytes → Bool
check_all token names = if token.is_revoked then false else has_all token.capabilities names

unfoldable pub has_any : List CapabilityEntry → List Bytes → Bool
has_any cs [] = false
has_any cs (n ∷ ns) = has cs n || has_any cs ns

unfoldable pub check_any : CapabilityToken → List Bytes → Bool
check_any token names = if token.is_revoked then false else has_any token.capabilities names
