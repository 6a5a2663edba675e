-- ===== src/Capability/Manager/Calls.antt =====
-- Calls of the token manager, and what they keep true of the table.
use omniagent_os.Base.{
  ℕ, suc, ◌+◌, ◌%◌, ◌^◌, ◌≤◌, ◌<◌, ◌≡◌, refl, sym, ◌∙◌, subst, Option, none, some, List, [], ◌∷◌,
  length, arith, Bool-cases, inl, inr, leb, ◌==◌, if◌then◌else◌,
}
use omniagent_os.Base.Each.{Each, Each-insert, Each-update}
use omniagent_os.Base.Map.{Map, get, update, map_some}
use omniagent_os.Capability.Token.{CapabilityEntry, CapabilityToken}
use omniagent_os.Capability.Manager.{
  TokenManager, new, issued, issue_token, revoked, revoke_found, revoke_token, refused, delegated,
  counted, delegate_allowed, delegate_found, delegate, revoke_owned, revoke_all,
}

pub data TokenCall : Type 0 where
  issues : ℕ → List CapabilityEntry → ℕ → ℕ → TokenCall
  revokes : ℕ → TokenCall
  delegates : ℕ → ℕ → List CapabilityEntry → TokenCall
  revokes_all : ℕ → TokenCall

unfoldable pub call : TokenManager → TokenCall → TokenManager
call m (issues owner capabilities issuer ttl) = (issue_token m owner capabilities issuer ttl).1
call m (revokes id) = (revoke_token m id).1
call m (delegates id to capabilities) = (delegate m id to capabilities).1
call m (revokes_all owner) = revoke_all m owner

unfoldable pub calls : TokenManager → List TokenCall → TokenManager
calls m [] = m
calls m (c ∷ cs) = calls (call m c) cs

-- A token under its own id, which has been handed out, within its limit of delegations.
abbrev pub IsEntry : ℕ → ℕ → CapabilityToken → Type 0
IsEntry next id t =
    (id < next) × (t.id ≡ id) × (t.delegate_count ≤ t.max_delegates) × (t.max_delegates ≤ 10)

abbrev pub IsSound : TokenManager → Type 0
IsSound m = Each (IsEntry m.next_id) m.tokens

abbrev pub revoked_if : ℕ → CapabilityToken → CapabilityToken
revoked_if owner t = if t.owner == owner then revoked t else t

pub get-revoke_owned :
    (owner j : ℕ) (m : Map CapabilityToken)
    → get j (revoke_owned owner m) ≡ map_some (revoked_if owner) (get j m)
unfolding get revoke_owned
get-revoke_owned owner j [] = refl
get-revoke_owned owner j ((k, t) ∷ m) = ground (arith, get-revoke_owned owner j m)

later :
    (next id : ℕ) (t : CapabilityToken)
    → next + 1 < 2 ^ 64
    → IsEntry next id t
    → IsEntry ((next + 1) % 2 ^ 64) id t
later next id t h (b, i, d, l) = (omega arith, i, d, l)

issue-IsSound :
    (m : TokenManager) (owner : ℕ) (capabilities : List CapabilityEntry) (issuer ttl : ℕ)
    → m.next_id + 1 < 2 ^ 64
    → IsSound m
    → IsSound (issue_token m owner capabilities issuer ttl).1
unfolding issue_token issued
issue-IsSound m owner capabilities issuer ttl h s =
    Each-insert (IsEntry ((m.next_id + 1) % 2 ^ 64)) m.next_id
      (issued m.next_id owner capabilities issuer ttl) m.tokens
      (λ k t e. later m.next_id k t h (s k t e)) (omega arith, refl, omega arith, omega arith)

revoke-IsSound :
    (m : TokenManager) (id : ℕ) (o : Option CapabilityToken)
    → IsSound m
    → IsSound (revoke_found m id o).1
revoke-IsSound m id none s = s
revoke-IsSound m id (some t) s =
    Each-update (IsEntry m.next_id) id revoked m.tokens s (λ v e. s id v e)

revoke_all-IsSound : (m : TokenManager) (owner : ℕ) → IsSound m → IsSound (revoke_all m owner)
unfolding revoke_all
revoke_all-IsSound m owner s k t e =
    from (get k m.tokens) refl (sym (get-revoke_owned owner k m.tokens) ∙ e)
  where
    kept : (u : CapabilityToken) → IsEntry m.next_id k u → IsEntry m.next_id k (revoked_if owner u)
    kept u h = ground arith

    from :
        (o : Option CapabilityToken)
        → get k m.tokens ≡ o
        → map_some (revoked_if owner) o ≡ some t
        → IsEntry m.next_id k t
    from none g h = absurd (cc h)
    from (some u) g h =
        let same : revoked_if owner u ≡ t = cc h in
        subst (IsEntry m.next_id k) same (kept u (s k u g))

allowed-IsSound :
    (m : TokenManager) (id to : ℕ) (capabilities : List CapabilityEntry) (source : CapabilityToken)
    (o : Option CapabilityEntry)
    → get id m.tokens ≡ some source
    → source.delegate_count < source.max_delegates
    → m.next_id + 1 < 2 ^ 64
    → IsSound m
    → IsSound (delegate_allowed m id to capabilities source o).1
unfolding delegated
allowed-IsSound m id to capabilities source (some c) g l h s = s
allowed-IsSound m id to capabilities source none g l h s =
    let (below, own, few, ten) = s id source g in
    Each-insert (IsEntry ((m.next_id + 1) % 2 ^ 64)) m.next_id
      (delegated m.next_id to capabilities source) (update id counted m.tokens)
      (Each-update (IsEntry ((m.next_id + 1) % 2 ^ 64)) id counted m.tokens
        (λ k t e. later m.next_id k t h (s k t e))
        (λ v e.
          let same : source ≡ v = cc (sym g ∙ e) in
          let (b, i, f, t) = s id v e in
          let less : v.delegate_count < v.max_delegates =
            subst (λ (x : CapabilityToken). x.delegate_count < x.max_delegates) same l in
          (omega arith, i, omega arith, t)))
      (omega arith, refl, omega arith, omega arith)

found-IsSound :
    (m : TokenManager) (id to : ℕ) (capabilities : List CapabilityEntry)
    (o : Option CapabilityToken)
    → get id m.tokens ≡ o
    → m.next_id + 1 < 2 ^ 64
    → IsSound m
    → IsSound (delegate_found m id to capabilities o).1
found-IsSound m id to capabilities none g h s = s
found-IsSound m id to capabilities (some source) g h s = elim (Bool-cases source.is_revoked) [
  | inl r ↦ simp r s
  | inr n ↦ simp n (elim (Bool-cases (leb source.max_delegates source.delegate_count)) [
    | inl f ↦ simp f s
    | inr l ↦
        simp l
          (allowed-IsSound m id to capabilities source (refused capabilities) g (ground arith) h s)
  ])
]

revoke-next :
    (m : TokenManager) (id : ℕ) (o : Option CapabilityToken)
    → (revoke_found m id o).1.next_id ≡ m.next_id
revoke-next m id none = refl
revoke-next m id (some t) = refl

allowed-next :
    (m : TokenManager) (id to : ℕ) (capabilities : List CapabilityEntry) (source : CapabilityToken)
    (o : Option CapabilityEntry)
    → m.next_id + 1 < 2 ^ 64
    → (delegate_allowed m id to capabilities source o).1.next_id ≤ m.next_id + 1
allowed-next m id to capabilities source (some c) h = omega arith
allowed-next m id to capabilities source none h = omega arith

found-next :
    (m : TokenManager) (id to : ℕ) (capabilities : List CapabilityEntry)
    (o : Option CapabilityToken)
    → m.next_id + 1 < 2 ^ 64
    → (delegate_found m id to capabilities o).1.next_id ≤ m.next_id + 1
found-next m id to capabilities none h = omega arith
found-next m id to capabilities (some source) h =
    let last = allowed-next m id to capabilities source (refused capabilities) h in ground arith

-- Sound, and far enough from the end of the ids for some more calls.
abbrev pub IsGood : ℕ → TokenManager → Type 0
IsGood n m = IsSound m × (m.next_id + n < 2 ^ 64)

pub call-IsGood :
    (n : ℕ) (m : TokenManager) (c : TokenCall) → IsGood (suc n) m → IsGood n (call m c)
unfolding call issue_token revoke_token delegate revoke_all
call-IsGood n m (issues owner capabilities issuer ttl) (s, b) =
    (issue-IsSound m owner capabilities issuer ttl (omega arith) s, omega arith)
call-IsGood n m (revokes id) (s, b) =
    (revoke-IsSound m id (get id m.tokens) s, omega (arith, revoke-next m id (get id m.tokens)))
call-IsGood n m (delegates id to capabilities) (s, b) = (
  found-IsSound m id to capabilities (get id m.tokens) refl (omega arith) s,
  omega (arith, found-next m id to capabilities (get id m.tokens)),
)
call-IsGood n m (revokes_all owner) (s, b) = (revoke_all-IsSound m owner s, omega arith)

calls_from :
    (m : TokenManager) (cs : List TokenCall)
    → IsSound m
    → m.next_id + length cs < 2 ^ 64
    → IsSound (calls m cs)
unfolding calls
calls_from m [] s b = s
calls_from m (c ∷ cs) s b =
    let (t, d) = call-IsGood (length cs) m c (s, b) in calls_from (call m c) cs t d

pub new-IsSound : IsSound new
unfolding new get
new-IsSound k t e = absurd (cc e)

-- After fewer than 2 ^ 63 calls from a new manager, every token is under its own id, which has been
-- handed out, and has been delegated at most `max_delegates` times, which is at most ten.
pub calls-IsSound : (cs : List TokenCall) → length cs < 2 ^ 63 → IsSound (calls new cs)
unfolding new
calls-IsSound cs b = calls_from new cs new-IsSound (omega arith)
