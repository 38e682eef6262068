-- ===== src/Audit/Status.antt =====
-- Verification markers, the audit status and checkpoints (backend/src/audit/audit.service.ts):
-- `setLastVerifiedSequence`, `getLastVerifiedSequence`, `getAuditStatus`, `createCheckpoint` and
-- `verifyCheckpoints`. `now` is the time of the call, in milliseconds.
pub mod Marks
use mathlib.Core.Option
use voting_secure.Base.{
  ℕ, ◌-◌, ◌*◌, ◌+◌, String, Bool, true, false, not, Option, none, some, get_or, List, [], ◌∷◌, ◌++◌,
  ◌&&◌, str_eq, opt_eq, is_some, leb, ltb, ◌==◌, if◌then◌else◌, filter, find?,
}
use voting_secure.Audit.Types.{Block, Scope}
use voting_secure.Audit.Store.{
  AuditStore, Verification, Checkpoint, scope_eq, in_scope, sort_key, find_last,
}

-- { scope, scopeId }
abbrev pub marks : Scope → Option String → Verification → Bool
marks scope id v = scope_eq v.scope scope && opt_eq v.scope_id id

abbrev pub find_mark : Scope → Option String → List Verification → Option Verification
find_mark scope id = find? (marks scope id)

abbrev pub marked : ℕ → ℕ → Bool → Verification → Verification
marked now sequence full v = record v {
  last_verified_sequence = sequence;
  last_full_verification_at = if full then some now else v.last_full_verification_at;
  updated_at = now;
}

-- findOneAndUpdate(filter, { $set: update }, { upsert: true })
unfoldable pub upsert_mark :
    ℕ → Scope → Option String → ℕ → Bool → List Verification → List Verification
upsert_mark now scope id sequence full [] =
    record {
      scope = scope;
      scope_id = id;
      last_verified_sequence = sequence;
      last_full_verification_at = if full then some now else none;
      updated_at = now;
    }
    ∷ []
upsert_mark now scope id sequence full (v ∷ vs) =
    if marks scope id v
    then marked now sequence full v ∷ vs
    else v ∷ upsert_mark now scope id sequence full vs

unfoldable pub set_last_verified_sequence :
    ℕ → Scope → Option String → ℕ → Bool → AuditStore → AuditStore
unfolding upsert_mark
set_last_verified_sequence now scope id sequence full s = record s {
  verifications = upsert_mark now scope id sequence full s.verifications;
}

unfoldable pub get_last_verified_sequence : Scope → Option String → AuditStore → Option ℕ
get_last_verified_sequence scope id s =
    Option.map (λ v. v.last_verified_sequence) (find_mark scope id s.verifications)

pub data StatusReason : Type 0 where
  full_required incremental_required : StatusReason

pub record AuditStatus : Type 0 where
  pub scope : Scope
  pub scope_id : Option String
  pub last_verified_sequence : ℕ
  pub max_sequence : ℕ
  pub last_full_verification_at : Option ℕ
  pub updated_at : Option ℕ
  pub is_secure : Bool
  pub reason : Option StatusReason

-- 24 * 3600 * 1000
abbrev pub day : ℕ
day = 86400000

-- Whether a full verification was made less than a day ago.
abbrev pub within_day : ℕ → Option ℕ → Bool
within_day now none = false
within_day now (some last) = ltb (now - last) day

-- What a mark says: nothing verified, where there is none.
abbrev pub full_of : Option Verification → Option ℕ
full_of none = none
full_of (some v) = v.last_full_verification_at

abbrev pub verified_of : Option Verification → ℕ
verified_of none = 0
verified_of (some v) = v.last_verified_sequence

abbrev pub last_full : Scope → Option String → AuditStore → Option ℕ
last_full scope id s = full_of (find_mark scope id s.verifications)

abbrev pub last_verified_or_zero : Scope → Option String → AuditStore → ℕ
last_verified_or_zero scope id s = verified_of (find_mark scope id s.verifications)

-- The greatest sequence in the scope.
unfoldable pub max_sequence : Scope → Option String → List Block → ℕ
unfolding find_last
max_sequence scope id chain =
    elim (find_last (sort_key scope id) (filter (in_scope scope id) chain)) [
      | none ↦ 0
      | some b ↦ sort_key scope id b
    ]

unfoldable pub get_audit_status : ℕ → Scope → Option String → AuditStore → AuditStatus
unfolding max_sequence
get_audit_status now scope id s =
    let within = within_day now (last_full scope id s) in
    let up_to_date = leb (max_sequence scope id s.chain) (last_verified_or_zero scope id s) in
    record {
      scope = scope;
      scope_id = id;
      last_verified_sequence = last_verified_or_zero scope id s;
      max_sequence = max_sequence scope id s.chain;
      last_full_verification_at = last_full scope id s;
      updated_at = Option.map (λ v. v.updated_at) (find_mark scope id s.verifications);
      is_secure = within && up_to_date;
      reason =
          if not within
          then some StatusReason.full_required
          else if not up_to_date
          then some StatusReason.incremental_required
          else none;
    }

-- `none` is the thrown error for an empty scope.
unfoldable pub create_checkpoint : ℕ → Scope → Option String → AuditStore → Option AuditStore
unfolding find_last
create_checkpoint now scope id s =
    elim (find_last (sort_key scope id) (filter (in_scope scope id) s.chain)) [
      | none ↦ none
      | some b ↦ some (record s {
        checkpoints =
            s.checkpoints
            ++ record {
              scope = scope;
              scope_id = id;
              sequence = b.sequence;
              hash = b.hash;
              created_at = now;
            }
              ∷ [];
      })
    ]

pub data CheckpointFault : Type 0 where
  missing_block hash_changed : CheckpointFault

-- `none` is a valid result; a fault comes with the checkpoint's sequence.
abbrev pub compared : Option Block → Checkpoint → Option (ℕ × CheckpointFault)
compared none c = some (c.sequence, CheckpointFault.missing_block)
compared (some b) c =
    if str_eq b.hash c.hash then none else some (c.sequence, CheckpointFault.hash_changed)

abbrev pub check_checkpoint : List Block → Checkpoint → Option (ℕ × CheckpointFault)
check_checkpoint chain c = compared (find? (λ b. b.sequence == c.sequence) chain) c

unfoldable pub check_checkpoints : List Block → List Checkpoint → Option (ℕ × CheckpointFault)
check_checkpoints chain [] = none
check_checkpoints chain (c ∷ cs) = elim (check_checkpoint chain c) [
  | none ↦ check_checkpoints chain cs
  | some f ↦ some f
]

unfoldable pub insert_checkpoint : Checkpoint → List Checkpoint → List Checkpoint
insert_checkpoint c [] = c ∷ []
insert_checkpoint c (d ∷ cs) =
    if ltb d.sequence c.sequence then d ∷ insert_checkpoint c cs else c ∷ d ∷ cs

-- sort({ sequence: 1 })
unfoldable pub sort_checkpoints : List Checkpoint → List Checkpoint
unfolding insert_checkpoint
sort_checkpoints [] = []
sort_checkpoints (c ∷ cs) = insert_checkpoint c (sort_checkpoints cs)

unfoldable pub verify_checkpoints :
    Scope → Option String → AuditStore → Option (ℕ × CheckpointFault)
unfolding check_checkpoints sort_checkpoints
verify_checkpoints scope id s =
    check_checkpoints s.chain (
      sort_checkpoints (filter (λ c. scope_eq c.scope scope && opt_eq c.scope_id id) s.checkpoints))
