-- ===== src/Capability/Manager/Revoking.antt =====
-- A token that is revoked stays so.
use omniagent_os.Base.{
  ℕ, ◌+◌, ◌^◌, ◌<◌, ◌≡◌, ◌≢◌, refl, true, false, Option, none, some, List, [], ◌∷◌, length, arith,
  Bool-cases, inl, inr, leb, ◌==◌, ok, err,
}
use omniagent_os.Base.Map.{Map, get, insert, update, get-insert, get-update}
use omniagent_os.Base.Strings.{Bytes}
use omniagent_os.Capability.Token.{CapabilityEntry, CapabilityToken, invalid_token}
use omniagent_os.Capability.Manager.{
  TokenManager, issued, issue_token, revoked, revoke_found, revoke_token, refused, delegated,
  counted, delegate_allowed, delegate_found, delegate, revoke_all, check_permission, is_valid,
}
use omniagent_os.Capability.Manager.Calls.{
  TokenCall, issues, revokes, delegates, revokes_all, call, calls, IsSound, IsGood, call-IsGood,
  get-revoke_owned,
}

abbrev pub IsRevoked : ℕ → TokenManager → Type 0
IsRevoked id m = (t : CapabilityToken) × (get id m.tokens ≡ some t) × (t.is_revoked ≡ true)

insert-IsRevoked :
    (id j : ℕ) (u : CapabilityToken) (m : Map CapabilityToken)
    → j ≢ id
    → ((t : CapabilityToken) × (get id m ≡ some t) × (t.is_revoked ≡ true))
    → (t : CapabilityToken) × (get id (insert j u m) ≡ some t) × (t.is_revoked ≡ true)
insert-IsRevoked id j u m n (t, e, r) = (t, ground (arith, get-insert j id u m), r)

update-IsRevoked :
    (id j : ℕ) (f : CapabilityToken → CapabilityToken) (m : Map CapabilityToken)
    → ((t : CapabilityToken) → t.is_revoked ≡ true → (f t).is_revoked ≡ true)
    → ((t : CapabilityToken) × (get id m ≡ some t) × (t.is_revoked ≡ true))
    → (t : CapabilityToken) × (get id (update j f m) ≡ some t) × (t.is_revoked ≡ true)
update-IsRevoked id j f m keeps (t, e, r) = elim (Bool-cases (j == id)) [
  | inl y ↦ (f t, ground (arith, get-update j id f m, e, y), keeps t r)
  | inr n ↦ (t, ground (arith, get-update j id f m, e, n), r)
]

revoke-IsRevoked :
    (id j : ℕ) (m : TokenManager) (o : Option CapabilityToken)
    → IsRevoked id m
    → IsRevoked id (revoke_found m j o).1
revoke-IsRevoked id j m none v = v
revoke-IsRevoked id j m (some u) v = update-IsRevoked id j revoked m.tokens (λ t r. refl) v

allowed-IsRevoked :
    (id j to : ℕ) (capabilities : List CapabilityEntry) (m : TokenManager)
    (source : CapabilityToken) (o : Option CapabilityEntry)
    → m.next_id ≢ id
    → IsRevoked id m
    → IsRevoked id (delegate_allowed m j to capabilities source o).1
allowed-IsRevoked id j to capabilities m source (some c) n v = v
allowed-IsRevoked id j to capabilities m source none n v =
    insert-IsRevoked id m.next_id (delegated m.next_id to capabilities source)
      (update j counted m.tokens) n (update-IsRevoked id j counted m.tokens (λ t r. r) v)

found-IsRevoked :
    (id j to : ℕ) (capabilities : List CapabilityEntry) (m : TokenManager)
    (o : Option CapabilityToken)
    → m.next_id ≢ id
    → IsRevoked id m
    → IsRevoked id (delegate_found m j to capabilities o).1
found-IsRevoked id j to capabilities m none n v = v
found-IsRevoked id j to capabilities m (some source) n v = elim (Bool-cases source.is_revoked) [
  | inl r ↦ simp r v
  | inr q ↦ simp q (elim (Bool-cases (leb source.max_delegates source.delegate_count)) [
    | inl f ↦ simp f v
    | inr l ↦ simp l (allowed-IsRevoked id j to capabilities m source (refused capabilities) n v)
  ])
]

revoke_all-IsRevoked :
    (id owner : ℕ) (m : TokenManager) → IsRevoked id m → IsRevoked id (revoke_all m owner)
unfolding revoke_all
revoke_all-IsRevoked id owner m (t, e, r) = elim (Bool-cases (t.owner == owner)) [
  | inl y ↦ (revoked t, ground (arith, get-revoke_owned owner id m.tokens, e, y), refl)
  | inr n ↦ (t, ground (arith, get-revoke_owned owner id m.tokens, e, n), r)
]

call-IsRevoked :
    (id : ℕ) (m : TokenManager) (c : TokenCall)
    → IsSound m
    → IsRevoked id m
    → IsRevoked id (call m c)
unfolding call issue_token revoke_token delegate
call-IsRevoked id m c s (t, e, r) = after c
  where
    other : m.next_id ≢ id
    other q = absurd (omega (arith, q, (s id t e).0))

    after : (d : TokenCall) → IsRevoked id (call m d)
    after (issues owner capabilities issuer ttl) =
        insert-IsRevoked id m.next_id (issued m.next_id owner capabilities issuer ttl) m.tokens
          other (t, e, r)
    after (revokes j) = revoke-IsRevoked id j m (get j m.tokens) (t, e, r)
    after (delegates j to capabilities) =
        found-IsRevoked id j to capabilities m (get j m.tokens) other (t, e, r)
    after (revokes_all owner) = revoke_all-IsRevoked id owner m (t, e, r)

calls-IsRevoked :
    (id : ℕ) (m : TokenManager) (cs : List TokenCall)
    → IsGood (length cs) m
    → IsRevoked id m
    → IsRevoked id (calls m cs)
unfolding calls
calls-IsRevoked id m [] g v = v
calls-IsRevoked id m (c ∷ cs) (s, b) v =
    calls-IsRevoked id (call m c) cs (call-IsGood (length cs) m c (s, b))
      (call-IsRevoked id m c s v)

revoke_token-IsRevoked :
    (m : TokenManager) (id : ℕ) → (revoke_token m id).0 ≡ ok tt → IsRevoked id (revoke_token m id).1
unfolding revoke_token
revoke_token-IsRevoked m id h = after (get id m.tokens) refl h
  where
    after :
        (o : Option CapabilityToken)
        → get id m.tokens ≡ o
        → (revoke_found m id o).0 ≡ ok tt
        → IsRevoked id (revoke_found m id o).1
    after none e g = absurd (cc g)
    after (some t) e g = (revoked t, ground (arith, get-update id id revoked m.tokens, e), refl)

-- Once a revocation has succeeded, every later check of the token fails and it is not valid,
-- whatever calls come between. (The manager is sound and does not run out of ids.)
pub revoke_token-Persists :
    (m : TokenManager) (id : ℕ) (cs : List TokenCall) (capability : Bytes)
    → IsSound m
    → m.next_id + length cs + 1 < 2 ^ 64
    → (revoke_token m id).0 ≡ ok tt
    → let u = calls (revoke_token m id).1 cs in
      (check_permission u id capability ≡ err (invalid_token id)) × (is_valid u id ≡ false)
unfolding check_permission is_valid call
revoke_token-Persists m id cs capability s b h =
    let good = call-IsGood (length cs) m (revokes id) (s, omega arith) in
    let (t, e, r) =
      calls-IsRevoked id (revoke_token m id).1 cs good (revoke_token-IsRevoked m id h) in
    simp (e, r) (refl, refl)
