-- ===== src/Security/AuditChain/Examples.antt =====
-- A log of two records, and the theorems there.
use omniagent_os.Base.{◌+◌, ◌≡◌, refl, [], ◌∷◌, ◌++◌, ◌==◌, ◌||◌, length, set, arith}
use omniagent_os.Security.AuditChain.{
  AuditRecord, AuditChain, auth, ipc_call, config_change, success, denied, new, own_hash,
  next_record, append, verify_chain,
}
use omniagent_os.Security.AuditChain.Tampering.{
  IsChain, new-IsChain, append-IsChain, verify_chain-full, verify_records-set,
}

abbrev one : AuditChain
one = append (new 2) auth 7 1 (108 ∷ 111 ∷ []) success

abbrev two : AuditChain
two = append one ipc_call 7 2 [] denied

one-IsChain : IsChain one
unfolding new
one-IsChain =
    (append-IsChain (new 2) auth 7 1 (108 ∷ 111 ∷ []) success (new-IsChain 2) (omega arith)).0

append-IsChain_example :
    IsChain two × (two.records ≡ one.records ++ (next_record one ipc_call 7 2 [] denied ∷ []))
unfolding append new
append-IsChain_example = append-IsChain one ipc_call 7 2 [] denied one-IsChain (omega arith)

abbrev first_record : AuditRecord
first_record = next_record (new 2) auth 7 1 (108 ∷ 111 ∷ []) success

abbrev second_record : AuditRecord
second_record = next_record one ipc_call 7 2 [] denied

verify_chain-full_example :
    ((append two config_change 1 1 [] success).records
      ≡ second_record ∷ next_record two config_change 1 1 [] success ∷ [])
    × (verify_chain (append two config_change 1 1 [] success) ≡ (own_hash first_record == 0))
unfolding append new
verify_chain-full_example =
    verify_chain-full two first_record (second_record ∷ []) config_change 1 1 [] success
      append-IsChain_example.0 refl (omega arith) refl

abbrev forged : AuditRecord
forged = record second_record { result = success }

verify_records-set_example :
    verify_chain (record two { records = set two.records 1 forged })
    ≡ ((1 + 1 == length two.records) || (own_hash forged == own_hash second_record))
unfolding append new
verify_records-set_example =
    verify_records-set two 1 second_record forged append-IsChain_example.0 refl refl
