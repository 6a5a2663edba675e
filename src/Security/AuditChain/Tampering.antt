-- ===== src/Security/AuditChain/Tampering.antt =====
-- What `verify_chain` finds: of a log that was only appended to, of one that has dropped its oldest
-- record, and of one where a record was replaced.
use omniagent_os.Base.{
  ℕ, zero, suc, ◌+◌, ◌<◌, ◌≡◌, refl, sym, ◌∙◌, subst, true, false, ◌&&◌, ◌||◌, List, [], ◌∷◌, ◌++◌,
  ◌==◌, leb, length, set, get_elem?, some, arith,
}
use omniagent_os.Base.Strings.{Bytes}
use omniagent_os.Security.AuditChain.{
  AuditEventType, AuditResult, AuditRecord, AuditChain, new, own_hash, next_record, append,
  verify_from, verify_records, verify_chain,
}

-- The hash of the last record, or what it would be before the first.
abbrev last_hash : ℕ → List AuditRecord → ℕ
last_hash h [] = h
last_hash h (r ∷ records) = last_hash (own_hash r) records

-- The log verifies, and the next record will hold the hash of the last.
pub record IsChain (c : AuditChain) : Type 0 where
  pub verified : verify_chain c ≡ true
  pub current : c.current_hash ≡ last_hash 0 c.records

verify_from-append :
    (p : AuditRecord) (records : List AuditRecord) (r : AuditRecord)
    → verify_from p (records ++ (r ∷ []))
      ≡ (verify_from p records && (r.prev_hash == last_hash (own_hash p) records))
unfolding verify_from
verify_from-append p [] r = ground arith
verify_from-append p (q ∷ records) r = ground (arith, verify_from-append q records r)

last_hash-append :
    (h : ℕ) (records : List AuditRecord) (r : AuditRecord)
    → last_hash h (records ++ (r ∷ [])) ≡ own_hash r
last_hash-append h [] r = refl
last_hash-append h (q ∷ records) r = last_hash-append (own_hash q) records r

verify-append :
    (records : List AuditRecord) (r : AuditRecord)
    → verify_records (records ++ (r ∷ []))
      ≡ (verify_records records && (r.prev_hash == last_hash 0 records))
unfolding verify_from
verify-append [] r = ground arith
verify-append (q ∷ records) r = ground (arith, verify_from-append q records r)

pub new-IsChain : (max_records : ℕ) → IsChain (new max_records)
unfolding new verify_chain
new-IsChain max_records = record { verified = refl; current = refl }

-- A record that is appended to a log with room for it leaves a log that verifies, with all the
-- records of before and the new one.
pub append-IsChain :
    (c : AuditChain) (event_type : AuditEventType) (actor target : ℕ) (action : Bytes)
    (result : AuditResult)
    → IsChain c
    → length c.records < c.max_records
    → IsChain (append c event_type actor target action result)
      × ((append c event_type actor target action result).records
          ≡ c.records ++ (next_record c event_type actor target action result ∷ []))
unfolding append verify_chain
append-IsChain c event_type actor target action result h room =
    let r = next_record c event_type actor target action result in
    let fits : leb c.max_records (length c.records) ≡ false = ground (arith, room) in
    simp fits (
      record {
        verified = ground (arith, verify-append c.records r, h.verified, h.current);
        current = sym (last_hash-append 0 c.records r);
      },
      refl,
    )

dropped :
    (oldest q : AuditRecord) (rest : List AuditRecord) (r : AuditRecord)
    → verify_records (oldest ∷ q ∷ rest) ≡ true
    → r.prev_hash ≡ last_hash 0 (oldest ∷ q ∷ rest)
    → (verify_records (q ∷ rest) && (r.prev_hash == last_hash 0 (q ∷ rest)))
      ≡ (own_hash oldest == 0)
unfolding verify_from
dropped oldest q rest r v l = ground (arith, v, l)

-- Once a log of more than one record is full and verifies, appending drops its oldest record
-- and keeps all others and the new one; the log verifies no more, unless the hash of the dropped
-- record is 0.
pub verify_chain-full :
    (c : AuditChain) (oldest : AuditRecord) (rest : List AuditRecord) (event_type : AuditEventType)
    (actor target : ℕ) (action : Bytes) (result : AuditResult)
    → IsChain c
    → c.records ≡ oldest ∷ rest
    → 1 < c.max_records
    → length c.records ≡ c.max_records
    → ((append c event_type actor target action result).records
        ≡ rest ++ (next_record c event_type actor target action result ∷ []))
      × (verify_chain (append c event_type actor target action result) ≡ (own_hash oldest == 0))
unfolding append verify_chain
verify_chain-full c oldest rest event_type actor target action result h e many full =
    let r = next_record c event_type actor target action result in
    let full' : leb c.max_records (length c.records) ≡ true = ground (arith, full) in
    let v : verify_records (oldest ∷ rest) ≡ true =
      subst (λ l. verify_records l ≡ true) e h.verified in
    let l : c.current_hash ≡ last_hash 0 (oldest ∷ rest) =
      subst (λ l. c.current_hash ≡ last_hash 0 l) e h.current in
    let some_left : 1 < length (oldest ∷ rest) =
      subst (λ l. 1 < length l) e (omega (arith, many, full)) in
    simp full' (simp e (refl, at rest r some_left v l))
  where
    at :
        (rest : List AuditRecord) (r : AuditRecord)
        → 1 < length (oldest ∷ rest)
        → verify_records (oldest ∷ rest) ≡ true
        → r.prev_hash ≡ last_hash 0 (oldest ∷ rest)
        → verify_records (rest ++ (r ∷ [])) ≡ (own_hash oldest == 0)
    at [] r m v l = absurd (omega (arith, m))
    at (q ∷ rest) r m v l = verify-append (q ∷ rest) r ∙ dropped oldest q rest r v l

-- What comes after a record verifies after another if there is nothing, or their hashes are equal.
verify_from-other :
    (q r : AuditRecord) (records : List AuditRecord)
    → verify_from q records ≡ true
    → verify_from r records ≡ ((1 == length (q ∷ records)) || (own_hash r == own_hash q))
unfolding verify_from
verify_from-other q r [] v = refl
verify_from-other q r (s ∷ records) v = ground (arith, v)

verify_from-set :
    (p : AuditRecord) (records : List AuditRecord) (i : ℕ) (r r' : AuditRecord)
    → verify_from p records ≡ true
    → get_elem? records i ≡ some r
    → r'.prev_hash ≡ r.prev_hash
    → verify_from p (set records i r') ≡ ((i + 1 == length records) || (own_hash r' == own_hash r))
unfolding verify_from
verify_from-set p [] i r r' v g e = absurd (cc g)
verify_from-set p (q ∷ records) zero r r' v g e =
    let one : q ≡ r = cc g in
    let v' : verify_from p (r ∷ records) ≡ true =
      subst (λ x. verify_from p (x ∷ records) ≡ true) one v in
    ground (arith, v', e, verify_from-other r r' records (ground (arith, v')))
verify_from-set p (q ∷ records) (suc i) r r' v g e =
    let later = verify_from-set q records i r r' (ground (arith, v)) g e in ground (arith, later, v)

-- In a log that verifies, a record is replaced by one that holds the same hash of the record
-- before: the log still verifies if it was the last record, or if the two have the same hash, and
-- not otherwise.
pub verify_records-set :
    (c : AuditChain) (i : ℕ) (r r' : AuditRecord)
    → IsChain c
    → get_elem? c.records i ≡ some r
    → r'.prev_hash ≡ r.prev_hash
    → verify_chain (record c { records = set c.records i r' })
      ≡ ((i + 1 == length c.records) || (own_hash r' == own_hash r))
unfolding verify_chain
verify_records-set c i r r' h g e = at c.records i h.verified g
  where
    at :
        (records : List AuditRecord) (i : ℕ)
        → verify_records records ≡ true
        → get_elem? records i ≡ some r
        → verify_records (set records i r')
          ≡ ((i + 1 == length records) || (own_hash r' == own_hash r))
    at [] i v g = absurd (cc g)
    at (q ∷ records) (suc i) v g =
        let later = verify_from-set q records i r r' (ground (arith, v)) g e in
        ground (arith, later, v)
    at (q ∷ records) zero v g =
        let one : q ≡ r = cc g in
        let v' : verify_records (r ∷ records) ≡ true =
          subst (λ x. verify_records (x ∷ records) ≡ true) one v in
        ground (arith, v', e, verify_from-other r r' records (ground (arith, v')))
