-- ===== src/Audit/Walk.antt =====
-- The loop that the four chain verifications share (backend/src/audit/audit.service.ts): one pass
-- over the blocks of a scope, in the order of their numbers, up to the first fault. The progress
-- callback changes nothing that the service keeps and is left out.
pub mod Spec
pub mod Correct
pub mod Extend
use voting_secure.Base.{
  ℕ, suc, ◌+◌, String, Bool, true, false, not, Option, none, some, get_or, List, [], ◌∷◌, ◌&&◌,
  str_eq, opt_eq, is_some, ltb, ◌==◌, if◌then◌else◌, filter, find?, concat,
}
use voting_secure.Audit.Types.{Block, Scope, scope_text}
use voting_secure.Audit.Hash.{Platform, compute_hash, params_of}
use voting_secure.Audit.Store.{scoped_prev_hash, number_of}

-- Why a walk stopped, with what the report quotes.
pub data Fault : Type 0 where
  sequence_gap : (expected got : ℕ) → Fault
  time_manipulation : (at previous : ℕ) → Fault
  hash_mismatch : (expected found : String) → Fault
  link_mismatch : (expected : String) (found : Option String) → Fault

-- The variables of the loop.
pub record Walk : Type 0 where
  pub total_checked : ℕ
  pub expected_prev_hash : Option String
  pub prev_sequence : Option ℕ
  pub prev_created_at : Option ℕ
  pub head_sequence : ℕ

pub data Outcome : Type 0 where
  stopped : (total_checked : ℕ) (block : Block) → Fault → Outcome
  passed : Walk → Outcome

-- prevSequence !== null && doc.sequence !== prevSequence + 1
abbrev pub gap : Option ℕ → ℕ → Option ℕ
gap none n = none
gap (some m) n = if n == suc m then none else some (suc m)

-- prevCreatedAt !== null && currentCreatedAt < prevCreatedAt
abbrev pub earlier : Option ℕ → ℕ → Option ℕ
earlier none t = none
earlier (some u) t = if ltb t u then some u else none

-- expectedPrevHash !== null && doc.prevHash !== expectedPrevHash
abbrev pub broken_link : Option String → Option String → Option String
broken_link none link = none
broken_link (some h) link = if opt_eq link (some h) then none else some h

module _ (p : Platform) where
  -- The body of the loop, for one block. `linked` is false where `verifyChain` has a group id: then
  -- neither gaps nor links are checked.
  unfoldable pub check_block : Scope → (linked : Bool) → Walk → Block → Outcome
  unfolding compute_hash
  check_block scope linked w b =
      let number = number_of scope b in
      let total = suc w.total_checked in
      let expected = compute_hash p (params_of b) in
      let next : Walk = record {
        total_checked = total;
        expected_prev_hash = some b.hash;
        prev_sequence = some number;
        prev_created_at = some b.created_at;
        head_sequence = number;
      } in
      elim (if linked then gap w.prev_sequence number else none) [
        | some m ↦ stopped total b (sequence_gap m number)
        | none ↦ elim (earlier w.prev_created_at b.created_at) [
          | some u ↦ stopped total b (time_manipulation b.created_at u)
          | none ↦
              if not (str_eq expected b.hash)
              then stopped total b (hash_mismatch expected b.hash)
              else elim (if linked
                  then broken_link w.expected_prev_hash (scoped_prev_hash scope b)
                  else none) [
                    | some h ↦ stopped total b (link_mismatch h (scoped_prev_hash scope b))
                    | none ↦ passed next
                  ]
        ]
      ]

  -- for await (const raw of cursor)
  unfoldable pub walk : Scope → (linked : Bool) → Walk → List Block → Outcome
  walk scope linked w [] = passed w
  walk scope linked w (b ∷ bs) = elim (check_block scope linked w b) [
    | stopped n c f ↦ stopped n c f
    | passed w' ↦ walk scope linked w' bs
  ]

-- Where a walk from the first block begins.
abbrev pub from_genesis : String → Option ℕ → Walk
from_genesis hash prev_sequence = record {
  total_checked = 0;
  expected_prev_hash = some hash;
  prev_sequence = prev_sequence;
  prev_created_at = none;
  head_sequence = 0;
}
