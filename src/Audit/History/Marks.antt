-- ===== src/Audit/History/Marks.antt =====
-- A verification changes the scope's mark and nothing else.
use voting_secure.Base.{
  ℕ, ◌≡◌, refl, Bool, Option, none, List, [], ◌∷◌, String, arith, Bool-cases, Option-cases, inl,
  inr, if◌then◌else◌, ◌&&◌,
}
use voting_secure.Audit.Types.{Block, Scope}
use voting_secure.Audit.Hash.{Platform, given}
use voting_secure.Audit.Store.{AuditStore}
use voting_secure.Audit.Status.{
  verify_checkpoints, within_day, last_full, set_last_verified_sequence, get_last_verified_sequence,
}
use voting_secure.Audit.Walk.{Outcome, stopped, passed, Fault}
use voting_secure.Audit.Report.{positive, conclude, Details}
use voting_secure.Audit.Verify.{
  Plan, chain_plan, voting_plan, group_plan, survey_plan, run_plan, walk_blocks, blocks_above,
  verify_voting_chain, verify_group_chain, verify_survey_chain, verify_chain,
}
use voting_secure.Audit.History.{Verifier, whole, of_voting, of_group, of_survey, verify}

module _ (p : Platform) where
  -- A verification changes marks only.
  abbrev pub OnlyMarks : AuditStore → AuditStore → Type 0
  OnlyMarks s s' = s' ≡ record s { verifications = s'.verifications }

  conclude-marks :
      (now : ℕ) (scope : Scope) (id : Option String) (t : Scope) (details : Block → Fault → Details)
      (full : Bool) (last : Option ℕ) (o : Outcome) (s : AuditStore)
      → OnlyMarks s (conclude now scope id t details full last o s).1
  unfolding conclude set_last_verified_sequence
  conclude-marks now scope id t details full last (stopped n c f) s = refl
  conclude-marks now scope id t details full last (passed w) s = ground arith

  walk_blocks-marks :
      (now : ℕ) (plan : Plan) (full : Bool) (last : Option ℕ) (bs : List Block) (s : AuditStore)
      → OnlyMarks s (walk_blocks p now plan full last bs s).1
  unfolding walk_blocks
  walk_blocks-marks now plan full last [] s = refl
  walk_blocks-marks now plan full last (b ∷ bs) s = conclude-marks now _ _ _ _ full last _ s

  abbrev begun : Plan → Bool → AuditStore → Option ℕ
  begun plan full s =
      if full then none else positive (get_last_verified_sequence plan.scope plan.scope_id s)

  run_plan-marks :
      (now : ℕ) (plan : Plan) (full : Bool) (s : AuditStore)
      → OnlyMarks s (run_plan p now plan full s).1
  unfolding run_plan
  run_plan-marks now plan full s =
      elim (Bool-cases (full && within_day now (last_full plan.scope plan.scope_id s))) [
        | inl recent ↦ rw (recent, run_plan) refl
        | inr old ↦ elim (Option-cases (verify_checkpoints plan.scope plan.scope_id s)) [
          | inr (f, broken) ↦ rw (old, broken, run_plan) refl
          | inl held ↦
              rw (old, held, run_plan)
                (walk_blocks-marks now plan full (begun plan full s)
                  (blocks_above plan.numbering (begun plan full s) plan.walked) s)
        ]
      ]

  pub verify-marks :
      (now : ℕ) (v : Verifier) (full : Bool) (s : AuditStore)
      → OnlyMarks s (verify p now v full s).1
  unfolding verify verify_chain verify_voting_chain verify_group_chain verify_survey_chain
  verify-marks now (whole id) full s = run_plan-marks now (chain_plan p (given id) s) full s
  verify-marks now (of_voting id) full s = run_plan-marks now (voting_plan p id s) full s
  verify-marks now (of_group id) full s = run_plan-marks now (group_plan p id s) full s
  verify-marks now (of_survey id) full s = run_plan-marks now (survey_plan p id s) full s
