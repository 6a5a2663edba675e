-- ===== src/Capability/Manager.antt =====
-- kernel/src/capability/token.rs, `TokenManager`: the table of the tokens, by id. The ids are 64
-- bits wide and wrap around, the count of delegations 32.
pub mod Calls
pub mod Revoking
pub mod Delegating
pub mod Checking
pub mod Examples
use omniagent_os.Base.{
  ℕ, ◌+◌, ◌-◌, ◌%◌, ◌^◌, Bool, true, false, not, Option, none, some, List, [], ◌∷◌, length, leb,
  ◌==◌, if◌then◌else◌, Result, ok, err,
}
use omniagent_os.Base.Map.{Map, get, insert, update}
use omniagent_os.Base.Strings.{Bytes}
use omniagent_os.Capability.Token.{
  CapabilityEntry, CapabilityToken, CapabilityError, is_delegatable, invalid_token,
  delegation_not_allowed,
}
use omniagent_os.Capability.Permission.{has}

pub record TokenManager : Type 0 where
  pub tokens : Map CapabilityToken
  pub next_id : ℕ

pub new : TokenManager
new = record { tokens = []; next_id = 1 }

-- The clock of the source is the constant 0.
pub issued : ℕ → ℕ → List CapabilityEntry → ℕ → ℕ → CapabilityToken
issued id owner capabilities issuer ttl = record {
  id = id;
  owner = owner;
  capabilities = capabilities;
  issuer = issuer;
  issued_at = 0;
  expires_at = if ttl == 0 then 0 else (0 + ttl) % 2 ^ 64;
  delegate_count = 0;
  max_delegates = 10;
  is_revoked = false;
}

pub issue_token :
    TokenManager → ℕ → List CapabilityEntry → ℕ → ℕ → Result ℕ CapabilityError × TokenManager
issue_token m owner capabilities issuer ttl = (
  ok m.next_id,
  record {
    tokens = insert m.next_id (issued m.next_id owner capabilities issuer ttl) m.tokens;
    next_id = (m.next_id + 1) % 2 ^ 64;
  },
)

abbrev pub revoked : CapabilityToken → CapabilityToken
revoked t = record t { is_revoked = true }

abbrev pub revoke_found :
    TokenManager → ℕ → Option CapabilityToken → Result (Unit {0}) CapabilityError × TokenManager
revoke_found m token_id none = (err (invalid_token token_id), m)
revoke_found m token_id (some t) = (ok tt, record m { tokens = update token_id revoked m.tokens })

pub revoke_token : TokenManager → ℕ → Result (Unit {0}) CapabilityError × TokenManager
revoke_token m token_id = revoke_found m token_id (get token_id m.tokens)

-- A clone of a token is equal to it.
pub get_token : TokenManager → ℕ → Option CapabilityToken
get_token m token_id = get token_id m.tokens

-- The first capability that may not be delegated, if any.
pub refused : List CapabilityEntry → Option CapabilityEntry
refused [] = none
refused (c ∷ cs) = let rest = refused cs in if is_delegatable c then rest else some c

abbrev pub too_many : Bytes
too_many =
    229 ∷ 183 ∷ 178 ∷ 232 ∷ 190 ∷ 190 ∷ 229 ∷ 136 ∷ 176 ∷ 230 ∷ 156 ∷ 128 ∷ 229 ∷ 164 ∷ 167 ∷ 229
    ∷ 167 ∷ 148 ∷ 230 ∷ 137 ∷ 152 ∷ 230 ∷ 172 ∷ 161 ∷ 230 ∷ 149 ∷ 176 ∷ []

pub delegated : ℕ → ℕ → List CapabilityEntry → CapabilityToken → CapabilityToken
delegated id to capabilities source = record {
  id = id;
  owner = to;
  capabilities = capabilities;
  issuer = source.owner;
  issued_at = 0;
  expires_at = source.expires_at;
  delegate_count = 0;
  max_delegates = source.max_delegates - 1;
  is_revoked = false;
}

abbrev pub counted : CapabilityToken → CapabilityToken
counted t = record t { delegate_count = (t.delegate_count + 1) % 2 ^ 32 }

-- `delegate`, once no capability is refused.
abbrev pub delegate_allowed :
    TokenManager
    → ℕ
    → ℕ
    → List CapabilityEntry
    → CapabilityToken
    → Option CapabilityEntry
    → Result ℕ CapabilityError × TokenManager
delegate_allowed m token_id to capabilities source (some c) =
    (err (delegation_not_allowed c.name), m)
delegate_allowed m token_id to capabilities source none = (
  ok m.next_id,
  record {
    tokens =
        insert m.next_id (delegated m.next_id to capabilities source)
          (update token_id counted m.tokens);
    next_id = (m.next_id + 1) % 2 ^ 64;
  },
)

abbrev pub delegate_found :
    TokenManager
    → ℕ
    → ℕ
    → List CapabilityEntry
    → Option CapabilityToken
    → Result ℕ CapabilityError × TokenManager
delegate_found m token_id to capabilities none = (err (invalid_token token_id), m)
delegate_found m token_id to capabilities (some source) =
    if source.is_revoked
    then (err (invalid_token token_id), m)
    else if leb source.max_delegates source.delegate_count
    then (err (delegation_not_allowed too_many), m)
    else delegate_allowed m token_id to capabilities source (refused capabilities)

pub delegate : TokenManager → ℕ → ℕ → List CapabilityEntry → Result ℕ CapabilityError × TokenManager
delegate m token_id to capabilities =
    delegate_found m token_id to capabilities (get token_id m.tokens)

abbrev pub check_found : ℕ → Bytes → Option CapabilityToken → Result Bool CapabilityError
check_found token_id capability none = err (invalid_token token_id)
check_found token_id capability (some t) =
    if t.is_revoked then err (invalid_token token_id) else ok (has t.capabilities capability)

pub check_permission : TokenManager → ℕ → Bytes → Result Bool CapabilityError
check_permission m token_id capability = check_found token_id capability (get token_id m.tokens)

unfoldable owned_by : ℕ → Map CapabilityToken → List CapabilityToken
owned_by owner [] = []
owned_by owner ((k, t) ∷ m) =
    let rest = owned_by owner m in if t.owner == owner then t ∷ rest else rest

unfoldable list_tokens : TokenManager → ℕ → List CapabilityToken
list_tokens m owner = owned_by owner m.tokens

pub revoke_owned : ℕ → Map CapabilityToken → Map CapabilityToken
revoke_owned owner [] = []
revoke_owned owner ((k, t) ∷ m) =
    let rest = revoke_owned owner m in
    if t.owner == owner then (k, revoked t) ∷ rest else (k, t) ∷ rest

pub revoke_all : TokenManager → ℕ → TokenManager
revoke_all m owner = record m { tokens = revoke_owned owner m.tokens }

unfoldable token_count : TokenManager → ℕ
token_count m = length m.tokens

abbrev pub valid : Option CapabilityToken → Bool
valid none = false
valid (some t) = not t.is_revoked

pub is_valid : TokenManager → ℕ → Bool
is_valid m token_id = valid (get token_id m.tokens)
