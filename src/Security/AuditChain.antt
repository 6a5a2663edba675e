-- ===== src/Security/AuditChain.antt =====
-- kernel/src/security/audit_chain.rs: the audit log, where each record holds the hash of the one
-- before. The log is used under a lock. Removing a record of an empty log, which panics, removes
-- none here; it takes a log whose greatest number of records is 0.
pub mod Tampering
mod Examples
use omniagent_os.Base.{
  ℕ, zero, suc, ◌+◌, ◌-◌, ◌*◌, ◌%◌, ◌^◌, Bool, true, false, ◌&&◌, List, [], ◌∷◌, ◌++◌, ◌==◌, leb,
  ltb, if◌then◌else◌, length,
}
use omniagent_os.Base.Strings.{Bytes}
use omniagent_os.Base.Slices.{drop}
use Prim.Native.Nat.{bit_xor}

pub data AuditEventType : Type 0 where
  auth : AuditEventType
  file_access : AuditEventType
  network_access : AuditEventType
  ipc_call : AuditEventType
  service_start : AuditEventType
  service_stop : AuditEventType
  capability_grant : AuditEventType
  capability_revoke : AuditEventType
  config_change : AuditEventType

abbrev pub event_code : AuditEventType → ℕ
event_code auth = 0
event_code file_access = 1
event_code network_access = 2
event_code ipc_call = 3
event_code service_start = 4
event_code service_stop = 5
event_code capability_grant = 6
event_code capability_revoke = 7
event_code config_change = 8

pub data AuditResult : Type 0 where
  success : AuditResult
  denied : AuditResult
  error : AuditResult

abbrev pub result_code : AuditResult → ℕ
result_code success = 0
result_code denied = 1
result_code error = 2

pub record AuditRecord : Type 0 where
  pub record_id : ℕ
  pub timestamp : ℕ
  pub event_type : AuditEventType
  pub actor_id : ℕ
  pub target_id : ℕ
  pub action : Bytes
  pub result : AuditResult
  pub prev_hash : ℕ

pub record AuditChain : Type 0 where
  pub records : List AuditRecord
  pub current_hash : ℕ
  pub next_id : ℕ
  pub max_records : ℕ

unfoldable pub new : ℕ → AuditChain
new max_records = record { records = []; current_hash = 0; next_id = 1; max_records = max_records }

-- `hash ^= word; hash = hash.wrapping_mul(0x100000001b3)`
abbrev pub mix : ℕ → ℕ → ℕ
mix hash word = bit_xor hash word * 0x100000001b3 % 2 ^ 64

abbrev pub mix_bytes : ℕ → Bytes → ℕ
mix_bytes hash [] = hash
mix_bytes hash (byte ∷ bytes) = mix_bytes (mix hash byte) bytes

unfoldable pub compute_hash : AuditRecord → ℕ → ℕ
compute_hash r prev_hash =
    let start = (prev_hash + 0xcbf29ce484222325) % 2 ^ 64 in
    mix_bytes
      (mix
        (mix (mix (mix (mix start r.record_id) r.actor_id) r.target_id) (event_code r.event_type))
        (result_code r.result))
      r.action

-- What the hash of the next record's predecessor has to be.
abbrev pub own_hash : AuditRecord → ℕ
own_hash r = compute_hash r r.prev_hash

-- `if records.len() >= self.max_records { records.remove(0); }`
abbrev pub make_room : ℕ → List AuditRecord → List AuditRecord
make_room max_records records = if leb max_records (length records) then drop 1 records else records

abbrev pub next_record : AuditChain → AuditEventType → ℕ → ℕ → Bytes → AuditResult → AuditRecord
next_record c event_type actor target action result = record {
  record_id = c.next_id;
  timestamp = 0;
  event_type = event_type;
  actor_id = actor;
  target_id = target;
  action = action;
  result = result;
  prev_hash = c.current_hash;
}

unfoldable pub append : AuditChain → AuditEventType → ℕ → ℕ → Bytes → AuditResult → AuditChain
append c event_type actor target action result =
    let r = next_record c event_type actor target action result in
    record c {
      records = make_room c.max_records c.records ++ (r ∷ []);
      current_hash = compute_hash r c.current_hash;
      next_id = (c.next_id + 1) % 2 ^ 64;
    }

-- Each record holds the hash of the one before.
unfoldable pub verify_from : AuditRecord → List AuditRecord → Bool
verify_from previous [] = true
verify_from previous (r ∷ records) = (r.prev_hash == own_hash previous) && verify_from r records

abbrev pub verify_records : List AuditRecord → Bool
verify_records [] = true
verify_records (r ∷ records) = (r.prev_hash == 0) && verify_from r records

unfoldable pub verify_chain : AuditChain → Bool
verify_chain c = verify_records c.records

-- The last ones.
abbrev pub last_of : List AuditRecord → ℕ → List AuditRecord
last_of records count =
    drop (if ltb count (length records) then length records - count else 0) records

pub get_records : AuditChain → ℕ → List AuditRecord
get_records c count = last_of c.records count

abbrev pub of_actor : ℕ → List AuditRecord → List AuditRecord
of_actor actor_id [] = []
of_actor actor_id (r ∷ records) =
    let rest = of_actor actor_id records in if r.actor_id == actor_id then r ∷ rest else rest

pub get_records_for_actor : AuditChain → ℕ → ℕ → List AuditRecord
get_records_for_actor c actor_id count = last_of (of_actor actor_id c.records) count

pub record_count : AuditChain → ℕ
record_count c = length c.records
