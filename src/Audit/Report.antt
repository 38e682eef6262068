-- ===== src/Audit/Report.antt =====
-- What a chain verification answers, and what it does to the scope's mark
-- (backend/src/audit/audit.service.ts, backend/src/audit/types/audit.types.ts).
use voting_secure.Base.{
  ℕ, String, Bool, true, false, Option, none, some, get_or, ltb, ◌==◌, if◌then◌else◌,
}
use voting_secure.Audit.Types.{Block, Scope}
use voting_secure.Audit.Store.{AuditStore, number_of}
use voting_secure.Audit.Status.{set_last_verified_sequence, CheckpointFault}
use voting_secure.Audit.Walk.{Fault, hash_mismatch, link_mismatch, Outcome, stopped, passed}

pub data ErrorType : Type 0 where
  tampered_hash broken_link_error : ErrorType

pub data Reason : Type 0 where
  checkpoint : CheckpointFault → Reason
  fault : Fault → Reason

-- `ScopedVerifyResult`; the fields that a branch does not set are `none`.
pub record VerifyResult : Type 0 where
  pub valid : Bool
  pub total_checked : ℕ
  pub broken_at : Option ℕ
  pub reason : Option Reason
  pub error_type : Option ErrorType
  pub tampered_block : Option Block
  pub victim_block : Option Block
  pub scope : Scope
  pub scope_id : Option String

abbrev pub valid_result : Scope → Option String → ℕ → VerifyResult
valid_result scope id total = record {
  valid = true;
  total_checked = total;
  broken_at = none;
  reason = none;
  error_type = none;
  tampered_block = none;
  victim_block = none;
  scope = scope;
  scope_id = id;
}

-- `brokenAt: cpResult.brokenAt || null`
abbrev pub checkpoint_result : Scope → Option String → ℕ × CheckpointFault → VerifyResult
checkpoint_result scope id (sequence, f) = record {
  valid = false;
  total_checked = 0;
  broken_at = if sequence == 0 then none else some sequence;
  reason = some (checkpoint f);
  error_type = none;
  tampered_block = none;
  victim_block = none;
  scope = scope;
  scope_id = id;
}

-- What a report adds for a fault: the error type, the tampered and the victim block.
abbrev pub Details : Type 0
Details = Option ErrorType × Option Block × Option Block

-- The global, the voting and the survey walk.
abbrev pub full_details : Block → Fault → Details
full_details b (hash_mismatch _ _) = (some tampered_hash, some b, none)
full_details b (link_mismatch _ _) = (some broken_link_error, none, some b)
full_details b _ = (none, none, none)

-- The group walk gives the tampered block and no error type.
abbrev pub group_details : Block → Fault → Details
group_details b (hash_mismatch _ _) = (none, some b, none)
group_details b _ = (none, none, none)

abbrev pub fault_result : Scope → Option String → Scope → Details → ℕ → Block → Fault → VerifyResult
fault_result scope id numbering (e, tampered, victim) total b f = record {
  valid = false;
  total_checked = total;
  broken_at = some (number_of numbering b);
  reason = some (fault f);
  error_type = e;
  tampered_block = tampered;
  victim_block = victim;
  scope = scope;
  scope_id = id;
}

-- The thrown TOO_MANY_REQUESTS, or a result; with the store after the call.
pub data Answer : Type 0 where
  too_many_requests : Answer
  report : VerifyResult → Answer

-- 0 is falsy: a mark at 0 counts as none.
abbrev pub positive : Option ℕ → Option ℕ
positive none = none
positive (some n) = if n == 0 then none else some n

-- The part after the loop: reset the mark on a fault; else move it up to the last block.
unfoldable pub conclude :
    (now : ℕ)
    → Scope
    → Option String
    → (numbering : Scope) → (Block → Fault → Details)
    → (force_full : Bool) → (last_verified : Option ℕ) → Outcome
    → AuditStore
    → Answer × AuditStore
unfolding set_last_verified_sequence
conclude now scope id numbering details full last (stopped total b f) s = (
  report (fault_result scope id numbering (details b f) total b f),
  set_last_verified_sequence now scope id 0 false s,
)
conclude now scope id numbering details full last (passed w) s = (
  report (valid_result scope id w.total_checked),
  if ltb (get_or last 0) w.head_sequence
      then set_last_verified_sequence now scope id w.head_sequence full s
      else s,
)
