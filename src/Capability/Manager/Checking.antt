-- ===== src/Capability/Manager/Checking.antt =====
-- The checks of the manager against those on a token itself.
use omniagent_os.Base.{
  ℕ, zero, suc, ◌≡◌, ◌↔◌, refl, true, false, Option, none, some, List, [], ◌∷◌, get_elem?, arith,
  Bool-cases, inl, inr, ◌==◌, if◌then◌else◌, ok,
}
use omniagent_os.Base.Map.{get}
use omniagent_os.Base.Strings.{Bytes}
use omniagent_os.Capability.Token.{CapabilityEntry, CapabilityToken}
use omniagent_os.Capability.Permission.{has, has_all, check, check_all}
use omniagent_os.Capability.Manager.{
  TokenManager, get_token, check_permission, check_found, revoke_all, is_valid,
}
use omniagent_os.Capability.Manager.Calls.{get-revoke_owned}

-- The manager grants a capability exactly when it has the token and the check on the token itself
-- passes.
pub check_permission-check :
    (m : TokenManager) (id : ℕ) (name : Bytes)
    → (check_permission m id name ≡ ok true)
      ↔ ((t : CapabilityToken) × (get_token m id ≡ some t) × (check t name ≡ true))
unfolding check_permission get_token check
check_permission-check m id name = from (get id m.tokens)
  where
    from :
        (o : Option CapabilityToken)
        → (check_found id name o ≡ ok true) ↔ (
            (t : CapabilityToken) × (o ≡ some t)
            × ((if t.is_revoked then false else has t.capabilities name) ≡ true))
    from none = (λ e. absurd (cc e), λ (t, e, h). absurd (cc e))
    from (some t) = elim (Bool-cases t.is_revoked) [
      | inl r ↦ (λ e. absurd (ground (arith, e, r)), λ (u, e, h). absurd (ground (arith, e, r, h)))
      | inr n ↦ (λ e. (t, refl, ground (arith, e, n)), λ (u, e, h). ground (arith, e, n, h))
    ]

has_all-get_elem? :
    (cs : List CapabilityEntry) (names : List Bytes) (i : ℕ) (n : Bytes)
    → has_all cs names ≡ true
    → get_elem? names i ≡ some n
    → has cs n ≡ true
unfolding has_all
has_all-get_elem? cs [] i n e g = absurd (cc g)
has_all-get_elem? cs (k ∷ names) zero n e g = ground (arith, e, g)
has_all-get_elem? cs (k ∷ names) (suc i) n e g = ground (arith, e, has_all-get_elem? cs names i n)

get_elem?-has_all :
    (cs : List CapabilityEntry) (names : List Bytes)
    → ((i : ℕ) (n : Bytes) → get_elem? names i ≡ some n → has cs n ≡ true)
    → has_all cs names ≡ true
unfolding has_all
get_elem?-has_all cs [] h = refl
get_elem?-has_all cs (n ∷ names) h =
    let rest = get_elem?-has_all cs names (λ i k g. h (suc i) k g) in
    ground (arith, h 0 n refl, rest)

-- On a token that is not revoked, `check_all` passes exactly when `check` does for every name of
-- the list.
pub check_all-check :
    (t : CapabilityToken) (names : List Bytes)
    → t.is_revoked ≡ false
    → (check_all t names ≡ true)
      ↔ ((i : ℕ) (n : Bytes) → get_elem? names i ≡ some n → check t n ≡ true)
unfolding check_all check
check_all-check t names m = simp m (
  λ e i n g. has_all-get_elem? t.capabilities names i n e g,
  λ h. get_elem?-has_all t.capabilities names h,
)

-- `revoke_all` makes every token of the owner invalid and leaves the validity of all others.
pub is_valid-revoke_all :
    (m : TokenManager) (owner id : ℕ) (t : CapabilityToken)
    → get_token m id ≡ some t
    → is_valid (revoke_all m owner) id ≡ (if t.owner == owner then false else is_valid m id)
unfolding get_token is_valid revoke_all
is_valid-revoke_all m owner id t e = ground (arith, get-revoke_owned owner id m.tokens, e)
