-- ===== src/Capability/Manager/Examples.antt =====
-- Tokens that are issued, delegated and revoked, and the theorems at what is reached.
use omniagent_os.Base.{zero, suc, ◌≡◌, refl, false, List, [], ◌∷◌, arith, err}
use omniagent_os.Base.Bits.{is_bit_set}
use omniagent_os.Base.Map.{get, insert}
use omniagent_os.Capability.Token.{CapabilityToken, invalid_token}
use omniagent_os.Capability.Predefined.{network, write_files}
use omniagent_os.Capability.Manager.{
  TokenManager, new, issued, issue_token, delegate, check_permission, revoke_token, is_valid,
}
use omniagent_os.Capability.Manager.Calls.{
  TokenCall, issues, delegates, call, calls, IsSound, calls-IsSound,
}
use omniagent_os.Capability.Manager.Revoking.{revoke_token-Persists}
use omniagent_os.Capability.Manager.Delegating.{Delegates, AllDelegatable, delegate-Delegates}

-- Agent 7 may write files.
abbrev first_call : List TokenCall
first_call = issues 7 (write_files ∷ []) 1 0 ∷ []

abbrev writer : TokenManager
writer = calls new first_call

abbrev token : CapabilityToken
token = issued 1 7 (write_files ∷ []) 1 0

writer-IsSound : IsSound writer
writer-IsSound = calls-IsSound first_call (omega arith)

delegate-Delegates_example :
    Delegates writer 1 9 (network ∷ []) (delegate writer 1 9 (network ∷ []))
delegate-Delegates_example = delegate-Delegates writer 1 9 (network ∷ []) writer-IsSound

network-Delegatable : AllDelegatable (network ∷ [])
unfolding is_bit_set
network-Delegatable zero c e = ground (arith, e)
network-Delegatable (suc i) c e = absurd (cc e)

revoke_token-Persists_example :
    let u = calls (revoke_token writer 1).1 (issues 7 [] 1 0 ∷ delegates 1 9 [] ∷ []) in
    (check_permission u 1 write_files.name ≡ err (invalid_token 1)) × (is_valid u 1 ≡ false)
unfolding calls call issue_token new insert get revoke_token
revoke_token-Persists_example =
    revoke_token-Persists writer 1 (issues 7 [] 1 0 ∷ delegates 1 9 [] ∷ []) write_files.name
      writer-IsSound (omega arith) refl
