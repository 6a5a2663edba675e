-- ===== src/Capability/Token.antt =====
-- kernel/src/capability/token.rs and error.rs: capabilities, tokens and errors. Names are the
-- bytes of the source's string literals.
use omniagent_os.Base.{ℕ, Bool, List}
use omniagent_os.Base.Bits.{is_bit_set}
use omniagent_os.Base.Strings.{Bytes}

-- The numbers of the bits.
abbrev pub grantable : ℕ
grantable = 0

abbrev pub delegatable : ℕ
delegatable = 1

abbrev pub revocable : ℕ
revocable = 2

abbrev pub timed : ℕ
timed = 3

abbrev pub persistent : ℕ
persistent = 4

pub record CapabilityEntry : Type 0 where
  pub capability_id : ℕ
  pub name : Bytes
  pub flags : ℕ

-- `flags.contains(DELEGATABLE)`
abbrev pub is_delegatable : CapabilityEntry → Bool
is_delegatable c = is_bit_set c.flags delegatable

pub record CapabilityToken : Type 0 where
  pub id : ℕ
  pub owner : ℕ
  pub capabilities : List CapabilityEntry
  pub issuer : ℕ
  pub issued_at : ℕ
  pub expires_at : ℕ
  pub delegate_count : ℕ
  pub max_delegates : ℕ
  pub is_revoked : Bool

pub data CapabilityError : Type 0 where
  invalid_token : ℕ → CapabilityError
  token_expired : ℕ → CapabilityError
  permission_denied : Bytes → Bytes → CapabilityError
  token_not_owned : ℕ → CapabilityError
  delegation_not_allowed : Bytes → CapabilityError
  invalid_capability : Bytes → CapabilityError
  already_granted : CapabilityError
