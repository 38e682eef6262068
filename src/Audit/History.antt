-- ===== src/Audit/History.antt =====
-- The audit service in operation (backend/src/audit/audit.service.ts): its operations one after the
-- other on one store, each no earlier than the one before. The queue (`appendChain`) runs appends
-- one at a time, so a history has no two of them interleaved.
pub mod Checkpoints
pub mod Marks
pub mod Intact
pub mod Leak
use voting_secure.Base.{ℕ, ◌≤◌, ◌≡◌, ◌≢◌, String, Bool, true, Option, none, some, List, []}
use voting_secure.Audit.Types.{ChainContext, Scope}
use voting_secure.Audit.Hash.{Platform}
use voting_secure.Audit.Store.{AuditStore}
use voting_secure.Audit.Append.{process_append_internal, on_module_init}
use voting_secure.Audit.Status.{create_checkpoint, last_full}
use voting_secure.Audit.Report.{Answer}
use voting_secure.Audit.Verify.{
  verify_chain, verify_voting_chain, verify_group_chain, verify_survey_chain,
}

abbrev pub empty_store : AuditStore
empty_store = record { chain = []; verifications = []; checkpoints = []; counters = λ k. none }

-- The four verifications.
pub data Verifier : Type 0 where
  whole : Option String → Verifier
  of_voting of_group of_survey : String → Verifier

unfoldable pub verify :
    Platform → (now : ℕ) → Verifier → (force_full : Bool) → AuditStore → Answer × AuditStore
unfolding verify_chain verify_voting_chain verify_group_chain verify_survey_chain
verify p now (whole group_id) full s = verify_chain p now group_id full s
verify p now (of_voting id) full s = verify_voting_chain p now id full s
verify p now (of_group id) full s = verify_group_chain p now id full s
verify p now (of_survey id) full s = verify_survey_chain p now id full s

-- The time of the last full verification that a verifier looks at.
abbrev pub last_full_of : Verifier → AuditStore → Option ℕ
last_full_of (whole group_id) s =
    last_full (elim group_id [ none ↦ Scope.global | some g ↦ Scope.group ]) group_id s
last_full_of (of_voting id) s = last_full Scope.voting (some id) s
last_full_of (of_group id) s = last_full Scope.group (some id) s
last_full_of (of_survey id) s = last_full Scope.survey (some id) s

-- A verifier that checks numbers and links, of an id that is not empty.
abbrev pub IsLinked : Verifier → Type 0
IsLinked (whole none) = Unit
IsLinked (whole (some _)) = ⊥
IsLinked (of_voting id) = id ≢ ""
IsLinked (of_group id) = id ≢ ""
IsLinked (of_survey id) = id ≢ ""

-- One operation, at a time. An append is one that commits.
pub data Step (p : Platform) (now : ℕ) (s : AuditStore) : AuditStore → Type 0 where
  appends :
      (ctx : ChainContext)
      → (process_append_internal p now true ctx s).0 ≡ none
      → Step p now s (process_append_internal p now true ctx s).1
  checkpoints :
      (scope : Scope) (id : Option String) (s' : AuditStore)
      → create_checkpoint now scope id s ≡ some s'
      → Step p now s s'
  verifies : (v : Verifier) (force_full : Bool) → Step p now s (verify p now v force_full s).1
  restarts : Step p now s (on_module_init s)

-- The stores reached from the empty one, with the time of the last operation.
pub data History (p : Platform) : ℕ → AuditStore → Type 0 where
  begins : History p 0 empty_store
  then_step :
      (last : ℕ) (s : AuditStore) (now : ℕ) (s' : AuditStore)
      → History p last s
      → last ≤ now
      → Step p now s s'
      → History p now s'
