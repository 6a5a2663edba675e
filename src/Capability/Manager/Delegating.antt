-- ===== src/Capability/Manager/Delegating.antt =====
-- What a delegation gives.
use omniagent_os.Base.{
  ℕ, zero, suc, ◌+◌, ◌-◌, ◌≤◌, ◌<◌, ◌≡◌, ◌⊎◌, ◌≢◌, refl, sym, ◌∙◌, ap, subst, true, false, Option,
  none, some, List, [], ◌∷◌, get_elem?, arith, Bool-cases, inl, inr, leb, Result, ok, err,
}
use omniagent_os.Base.Map.{get, insert, update, get-insert, get-update}
use omniagent_os.Base.Strings.{same_refl}
use omniagent_os.Capability.Token.{
  CapabilityEntry, CapabilityToken, CapabilityError, is_delegatable,
}
use omniagent_os.Capability.Permission.{has}
use omniagent_os.Capability.Manager.{
  TokenManager, refused, delegated, counted, delegate_allowed, delegate_found, delegate,
  check_permission,
}
use omniagent_os.Capability.Manager.Calls.{IsSound}

abbrev pub AllDelegatable : List CapabilityEntry → Type 0
AllDelegatable cs =
    (i : ℕ) (c : CapabilityEntry) → get_elem? cs i ≡ some c → is_delegatable c ≡ true

refused-none : (cs : List CapabilityEntry) → refused cs ≡ none → AllDelegatable cs
unfolding refused
refused-none [] h i c e = absurd (cc e)
refused-none (d ∷ cs) h zero c e = ground (arith, h, e)
refused-none (d ∷ cs) h (suc i) c e = elim (Bool-cases (is_delegatable d)) [
  | inl y ↦ refused-none cs (ground (arith, h, y)) i c e
  | inr n ↦ absurd (ground (arith, h, n))
]

none-refused : (cs : List CapabilityEntry) → AllDelegatable cs → refused cs ≡ none
unfolding refused
none-refused [] h = refl
none-refused (d ∷ cs) h =
    let rest = none-refused cs (λ i c e. h (suc i) c e) in ground (arith, h 0 d refl, rest)

has-get_elem? :
    (cs : List CapabilityEntry) (i : ℕ) (c : CapabilityEntry)
    → get_elem? cs i ≡ some c
    → has cs c.name ≡ true
unfolding has
has-get_elem? [] i c e = absurd (cc e)
has-get_elem? (d ∷ cs) zero c e =
    let alike : d ≡ c = cc e in
    subst (λ (x : CapabilityEntry). has (d ∷ cs) x.name ≡ true) alike
      (ground (arith, same_refl d.name))
has-get_elem? (d ∷ cs) (suc i) c e = ground (arith, has-get_elem? cs i c e)

-- What a delegation of these capabilities to an owner does.
abbrev pub Delegates :
    TokenManager → ℕ → ℕ → List CapabilityEntry → Result ℕ CapabilityError × TokenManager → Type 0
Delegates m id to cs (err e, u) =
    (u ≡ m)
    × ((get id m.tokens ≡ none)
        ⊎ ((source : CapabilityToken) × (get id m.tokens ≡ some source)
            × ((source.is_revoked ≡ true)
                ⊎ (source.max_delegates ≤ source.delegate_count)
                ⊎ (AllDelegatable cs → ⊥))))
Delegates m id to cs (ok n, u) =
    (source : CapabilityToken) × (get id m.tokens ≡ some source)
    × (source.is_revoked ≡ false)
    × (source.delegate_count < source.max_delegates)
    × AllDelegatable cs
    × (get n m.tokens ≡ none)
    × (get n u.tokens
        ≡ some (record {
          id = n;
          owner = to;
          capabilities = cs;
          issuer = source.owner;
          issued_at = 0;
          expires_at = source.expires_at;
          delegate_count = 0;
          max_delegates = source.max_delegates - 1;
          is_revoked = false;
        }))
    × (get id u.tokens ≡ some (record source { delegate_count = source.delegate_count + 1 }))
    × ((j : ℕ) → j ≢ id → j ≢ n → get j u.tokens ≡ get j m.tokens)

absent :
    (m : TokenManager) (o : Option CapabilityToken)
    → IsSound m
    → get m.next_id m.tokens ≡ o
    → o ≡ none
absent m none s e = refl
absent m (some c) s e = absurd (omega (arith, (s m.next_id c e).0))

allowed-Delegates :
    (m : TokenManager) (id to : ℕ) (cs : List CapabilityEntry) (source : CapabilityToken)
    (o : Option CapabilityEntry)
    → IsSound m
    → refused cs ≡ o
    → get id m.tokens ≡ some source
    → source.is_revoked ≡ false
    → source.delegate_count < source.max_delegates
    → Delegates m id to cs (delegate_allowed m id to cs source o)
unfolding delegated
allowed-Delegates m id to cs source (some c) s q g n l =
    (refl, inr (source, g, inr (inr (λ a. cc (sym q ∙ none-refused cs a)))))
allowed-Delegates m id to cs source none s q g n l =
    let other : m.next_id ≢ id = λ e. absurd (omega (arith, e, (s id source g).0)) in
    let t = delegated m.next_id to cs source in
    let once : counted source ≡ record source { delegate_count = source.delegate_count + 1 } =
      ap (λ n. record source { delegate_count = n }) (omega (arith, l, s id source g)) in
    (
      source,
      g,
      n,
      l,
      refused-none cs q,
      absent m (get m.next_id m.tokens) s refl,
      ground (arith, get-insert m.next_id m.next_id t (update id counted m.tokens)),
      ground (
        arith,
        get-insert m.next_id id t (update id counted m.tokens),
        get-update id id counted m.tokens,
        g,
        other,
      )
          ∙ ap some once,
      λ j d f. ground (
        arith,
        get-insert m.next_id j t (update id counted m.tokens),
        get-update id j counted m.tokens,
      ),
    )

-- On a sound manager, a delegation that fails changes nothing, and there is no such token, or it is
-- revoked or at its limit, or some capability is not delegatable. One that succeeds comes from a
-- token that is not revoked and below its limit, for capabilities that are all delegatable; it puts
-- them under an id that was not in use, in a token for the new owner that is issued by the owner of
-- the source, expires with the source, may be delegated one time less and is not revoked; it counts
-- one delegation more of the source and leaves every other token as it was.
pub delegate-Delegates :
    (m : TokenManager) (id to : ℕ) (cs : List CapabilityEntry)
    → IsSound m
    → Delegates m id to cs (delegate m id to cs)
unfolding delegate
delegate-Delegates m id to cs s = from (get id m.tokens) refl
  where
    from :
        (o : Option CapabilityToken)
        → get id m.tokens ≡ o
        → Delegates m id to cs (delegate_found m id to cs o)
    from none e = (refl, inl e)
    from (some source) e = elim (Bool-cases source.is_revoked) [
      | inl r ↦ simp r (refl, inr (source, e, inl r))
      | inr n ↦ simp n (elim (Bool-cases (leb source.max_delegates source.delegate_count)) [
        | inl f ↦ simp f (refl, inr (source, e, inr (inl (ground (arith, f)))))
        | inr l ↦
            simp l (allowed-Delegates m id to cs source (refused cs) s refl e n (ground arith))
      ])
    ]

-- A token that is not revoked and below its limit can delegate any capabilities that are marked
-- as delegatable, whether or not it has them itself: the delegation succeeds, and the new token
-- passes the check for each of them. (The manager is sound.)
pub delegate-Amplifies :
    (m : TokenManager) (id to : ℕ) (cs : List CapabilityEntry) (source : CapabilityToken)
    → IsSound m
    → get id m.tokens ≡ some source
    → source.is_revoked ≡ false
    → source.delegate_count < source.max_delegates
    → AllDelegatable cs
    → let (r, u) = delegate m id to cs in
      (r ≡ ok m.next_id)
      × ((i : ℕ) (c : CapabilityEntry)
          → get_elem? cs i ≡ some c
          → check_permission u m.next_id c.name ≡ ok true)
unfolding delegate check_permission delegated
delegate-Amplifies m id to cs source s g n l a =
    let below : leb source.max_delegates source.delegate_count ≡ false = ground arith in
    simp g (
      simp n (
        simp below (
          simp (none-refused cs a) (
            refl,
            λ i c e.
                let t = delegated m.next_id to cs source in
                let found : get m.next_id (insert m.next_id t (update id counted m.tokens))
                    ≡ some t =
                  ground (arith, get-insert m.next_id m.next_id t (update id counted m.tokens)) in
                simp found (ap ok (has-get_elem? cs i c e)),
          ))))
