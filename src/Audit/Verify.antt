-- ===== src/Audit/Verify.antt =====
-- `verifyChain`, `verifyVotingChain`, `verifyGroupChain` and `verifySurveyChain`
-- (backend/src/audit/audit.service.ts): a throttle, the checkpoints, the mark and the walk. The
-- four differ in the plan that they hand to the parts they share.
pub mod Full
pub mod Intact
pub mod Secure
pub mod Evident
use voting_secure.Base.{
  ℕ, suc, ◌+◌, String, Bool, true, false, not, Option, none, some, get_or, List, [], ◌∷◌, ◌&&◌,
  str_eq, opt_eq, is_some, ltb, ◌==◌, if◌then◌else◌, filter, find?, concat,
}
use voting_secure.Audit.Types.{Block, Scope, scope_text}
use voting_secure.Audit.Hash.{Platform, given}
use voting_secure.Audit.Store.{AuditStore, number_of, in_entity, sort_blocks}
use voting_secure.Audit.Status.{
  get_last_verified_sequence, within_day, last_full, verify_checkpoints,
}
use voting_secure.Audit.Walk.{Fault, Walk, from_genesis, walk}
use voting_secure.Audit.Report.{
  Answer, too_many_requests, report, Details, full_details, group_details, valid_result,
  checkpoint_result, positive, conclude,
}

-- Where a walk begins above a mark: behind the block at the mark, if it is there.
abbrev pub resume : Scope → ℕ → List Block → Walk
resume numbering n blocks = elim (find? (λ b. number_of numbering b == n) blocks) [
  | none ↦ record {
    total_checked = 0;
    expected_prev_hash = none;
    prev_sequence = some n;
    prev_created_at = none;
    head_sequence = n;
  }
  | some b ↦ record {
    total_checked = 0;
    expected_prev_hash = some b.hash;
    prev_sequence = some n;
    prev_created_at = some b.created_at;
    head_sequence = n;
  }
]

-- What distinguishes the four functions: the sequence field that is sorted by, whether gaps and
-- links are checked, what a report adds for a fault, where a full walk begins, which blocks are
-- walked, and where the block at a mark is looked up.
pub record Plan : Type 0 where
  pub scope : Scope
  pub scope_id : Option String
  pub numbering : Scope
  pub linked : Bool
  pub details : Block → Fault → Details
  pub start : Walk
  pub walked : List Block
  pub looked_up : List Block

-- The blocks above the mark, all of them where there is none.
abbrev pub blocks_above : Scope → Option ℕ → List Block → List Block
blocks_above numbering none blocks = blocks
blocks_above numbering (some n) blocks = filter (λ b. ltb n (number_of numbering b)) blocks

abbrev pub begin_at : Plan → Option ℕ → Walk
begin_at plan none = plan.start
begin_at plan (some n) = resume plan.numbering n plan.looked_up

module _ (p : Platform) where
  -- The loop and what follows it, unless no block is left to check.
  unfoldable pub walk_blocks :
      (now : ℕ)
      → Plan
      → (force_full : Bool) → (last_verified : Option ℕ) → List Block
      → AuditStore
      → Answer × AuditStore
  unfolding walk conclude sort_blocks
  walk_blocks now plan full last [] s = (report (valid_result plan.scope plan.scope_id 0), s)
  walk_blocks now plan full last (b ∷ bs) s =
      conclude now plan.scope plan.scope_id plan.numbering plan.details full last
        (walk p plan.numbering plan.linked (begin_at plan last)
          (sort_blocks (number_of plan.numbering) (b ∷ bs)))
        s

  -- The throttle, the checkpoints, the mark, the walk.
  unfoldable pub run_plan :
      (now : ℕ) → Plan → (force_full : Bool) → AuditStore → Answer × AuditStore
  unfolding verify_checkpoints get_last_verified_sequence walk_blocks
  run_plan now plan full s =
      if full && within_day now (last_full plan.scope plan.scope_id s)
      then (too_many_requests, s)
      else elim (verify_checkpoints plan.scope plan.scope_id s) [
        | some f ↦ (report (checkpoint_result plan.scope plan.scope_id f), s)
        | none ↦
            let last : Option ℕ =
              if full
              then none
              else positive (get_last_verified_sequence plan.scope plan.scope_id s) in
            walk_blocks now plan full last (blocks_above plan.numbering last plan.walked) s
      ]

  -- sha256(`${GENESIS_SEED}:${scope}:${id}`)
  abbrev pub entity_genesis : Scope → String → String
  entity_genesis scope id =
      p.sha256 (concat (p.genesis_seed ∷ ":" ∷ scope_text scope ∷ ":" ∷ id ∷ []))

  -- A voting's blocks must begin at sequence 1.
  abbrev pub voting_plan : String → AuditStore → Plan
  voting_plan id s = record {
    scope = Scope.voting;
    scope_id = some id;
    numbering = Scope.voting;
    linked = true;
    details = full_details;
    start = from_genesis (entity_genesis Scope.voting id) (some 0);
    walked = filter (in_entity Scope.voting id) s.chain;
    looked_up = filter (in_entity Scope.voting id) s.chain;
  }

  abbrev pub group_plan : String → AuditStore → Plan
  group_plan id s = record {
    scope = Scope.group;
    scope_id = some id;
    numbering = Scope.group;
    linked = true;
    details = group_details;
    start = from_genesis (entity_genesis Scope.group id) none;
    walked = filter (in_entity Scope.group id) s.chain;
    looked_up = filter (in_entity Scope.group id) s.chain;
  }

  abbrev pub survey_plan : String → AuditStore → Plan
  survey_plan id s = record {
    scope = Scope.survey;
    scope_id = some id;
    numbering = Scope.survey;
    linked = true;
    details = full_details;
    start = from_genesis (entity_genesis Scope.survey id) none;
    walked = filter (in_entity Scope.survey id) s.chain;
    looked_up = filter (in_entity Scope.survey id) s.chain;
  }

  -- `verifyChain`: the whole chain, or one group's blocks in the global order, with neither gaps
  -- nor links checked.
  abbrev pub chain_plan : Option String → AuditStore → Plan
  chain_plan none s = record {
    scope = Scope.global;
    scope_id = none;
    numbering = Scope.global;
    linked = true;
    details = full_details;
    start = from_genesis (p.sha256 p.genesis_seed) none;
    walked = s.chain;
    looked_up = s.chain;
  }
  chain_plan (some id) s = record {
    scope = Scope.group;
    scope_id = some id;
    numbering = Scope.global;
    linked = false;
    details = full_details;
    start = from_genesis (entity_genesis Scope.group id) none;
    walked = filter (λ b. opt_eq b.group_id (some id)) s.chain;
    looked_up = s.chain;
  }

  unfoldable pub verify_voting_chain :
      (now : ℕ) → String → (force_full : Bool) → AuditStore → Answer × AuditStore
  unfolding run_plan
  verify_voting_chain now id full s = run_plan now (voting_plan id s) full s

  unfoldable pub verify_group_chain :
      (now : ℕ) → String → (force_full : Bool) → AuditStore → Answer × AuditStore
  unfolding run_plan
  verify_group_chain now id full s = run_plan now (group_plan id s) full s

  unfoldable pub verify_survey_chain :
      (now : ℕ) → String → (force_full : Bool) → AuditStore → Answer × AuditStore
  unfolding run_plan
  verify_survey_chain now id full s = run_plan now (survey_plan id s) full s

  unfoldable pub verify_chain :
      (now : ℕ) → Option String → (force_full : Bool) → AuditStore → Answer × AuditStore
  unfolding run_plan
  verify_chain now group_id full s = run_plan now (chain_plan (given group_id) s) full s
