-- ===== src/Audit/Verify/Intact.antt =====
-- The forced full verification of each scope against the description of an intact chain.
use voting_secure.Base.{
  ℕ, ◌≡◌, ◌↔◌, refl, String, true, false, Option, none, some, List, [], ◌∷◌, arith, filter,
}
use voting_secure.Audit.Types.{Block, Scope}
use voting_secure.Audit.Hash.{Platform}
use voting_secure.Audit.Store.{AuditStore, number_of, in_entity, sort_blocks}
use voting_secure.Audit.Status.{within_day, last_full, verify_checkpoints}
use voting_secure.Audit.Walk.Spec.{IsAnchored, IsRooted}
use voting_secure.Audit.Report.{full_details, group_details}
use voting_secure.Audit.Verify.{
  verify_voting_chain, verify_survey_chain, verify_group_chain, verify_chain, entity_genesis,
}
use voting_secure.Audit.Verify.Full.{is_valid, IsIntact, run_plan-full_iff}

-- The blocks of one voting, survey or group in the order of their numbers.
abbrev pub entity_blocks : Scope → String → AuditStore → List Block
entity_blocks scope id s = sort_blocks (number_of scope) (filter (in_entity scope id) s.chain)

IsIntact-IsRooted :
    (p : Platform) (scope : Scope) (genesis : String) (bs : List Block)
    → IsIntact p scope genesis (some 0) bs ↔ IsRooted p scope genesis bs
IsIntact-IsRooted p scope genesis [] = (λ h. h, λ h. h)
IsIntact-IsRooted p scope genesis (a ∷ bs) =
    (λ (c, free). (ground (arith, free), c.0, c.1), λ (n, link, c). ((link, c), ground (arith, n)))

IsIntact-IsAnchored :
    (p : Platform) (scope : Scope) (genesis : String) (bs : List Block)
    → IsIntact p scope genesis none bs ↔ IsAnchored p scope genesis bs
IsIntact-IsAnchored p scope genesis [] = (λ h. h, λ h. h)
IsIntact-IsAnchored p scope genesis (a ∷ bs) = (λ h. h.0, λ h. (h, refl))

-- What has to hold besides the chain for a full verification to be valid.
abbrev pub IsUnhindered : ℕ → Scope → Option String → AuditStore → Type 0
IsUnhindered now scope id s =
    (within_day now (last_full scope id s) ≡ false) × (verify_checkpoints scope id s ≡ none)

module _ (p : Platform) (now : ℕ) (s : AuditStore) where
  -- A full verification of a voting is valid exactly if none was made within a day, the voting's
  -- checkpoints hold, and its blocks are numbered from 1 without a gap, each linked to the hash of
  -- the one before (the first to the genesis hash), no earlier than it, and hashed as its fields say.
  pub verify_voting_chain-full_iff :
      (id : String)
      → (is_valid (verify_voting_chain p now id true s).0 ≡ true) ↔ (
          IsUnhindered now Scope.voting (some id) s
          × IsRooted p Scope.voting
              (entity_genesis p Scope.voting id)
              (entity_blocks Scope.voting id s))
  unfolding verify_voting_chain
  verify_voting_chain-full_iff id =
      let full =
        run_plan-full_iff p now Scope.voting (some id) (entity_genesis p Scope.voting id) (some 0)
          full_details s (filter (in_entity Scope.voting id) s.chain) in
      let rooted = IsIntact-IsRooted p Scope.voting (entity_genesis p Scope.voting id) _ in
      (
        λ h. let (old, held, c) = full.0 h in ((old, held), rooted.0 c),
        λ (h, c). full.1 (h.0, h.1, rooted.1 c),
      )

  -- A full verification of a survey is valid exactly if none was made within a day, the survey's
  -- checkpoints hold, and its blocks are numbered without a gap from whatever number the first has,
  -- each linked to the hash of the one before (the first to the genesis hash), no earlier than it,
  -- and hashed as its fields say.
  pub verify_survey_chain-full_iff :
      (id : String)
      → (is_valid (verify_survey_chain p now id true s).0 ≡ true) ↔ (
          IsUnhindered now Scope.survey (some id) s
          × IsAnchored p Scope.survey
              (entity_genesis p Scope.survey id)
              (entity_blocks Scope.survey id s))
  unfolding verify_survey_chain
  verify_survey_chain-full_iff id =
      let full =
        run_plan-full_iff p now Scope.survey (some id) (entity_genesis p Scope.survey id) none
          full_details s (filter (in_entity Scope.survey id) s.chain) in
      let anchored = IsIntact-IsAnchored p Scope.survey (entity_genesis p Scope.survey id) _ in
      (
        λ h. let (old, held, c) = full.0 h in ((old, held), anchored.0 c),
        λ (h, c). full.1 (h.0, h.1, anchored.1 c),
      )

  -- A full verification of a group is valid exactly if none was made within a day, the group's
  -- checkpoints hold, and its blocks are numbered without a gap from whatever number the first has,
  -- each linked to the hash of the one before (the first to the genesis hash), no earlier than it,
  -- and hashed as its fields say.
  pub verify_group_chain-full_iff :
      (id : String)
      → (is_valid (verify_group_chain p now id true s).0 ≡ true) ↔ (
          IsUnhindered now Scope.group (some id) s
          × IsAnchored p Scope.group
              (entity_genesis p Scope.group id)
              (entity_blocks Scope.group id s))
  unfolding verify_group_chain
  verify_group_chain-full_iff id =
      let full =
        run_plan-full_iff p now Scope.group (some id) (entity_genesis p Scope.group id) none
          group_details s (filter (in_entity Scope.group id) s.chain) in
      let anchored = IsIntact-IsAnchored p Scope.group (entity_genesis p Scope.group id) _ in
      (
        λ h. let (old, held, c) = full.0 h in ((old, held), anchored.0 c),
        λ (h, c). full.1 (h.0, h.1, anchored.1 c),
      )

  -- A full verification of the whole chain is valid exactly if none was made within a day, the global
  -- checkpoints hold, and the blocks are numbered without a gap from whatever number the first has,
  -- each linked to the hash of the one before (the first to the genesis hash), no earlier than it,
  -- and hashed as its fields say.
  pub verify_chain-full_iff : (is_valid (verify_chain p now none true s).0 ≡ true) ↔ (
      IsUnhindered now Scope.global none s
      × IsAnchored p Scope.global
          (p.sha256 p.genesis_seed)
          (sort_blocks (number_of Scope.global) s.chain))
  unfolding verify_chain
  verify_chain-full_iff =
      let full =
        run_plan-full_iff p now Scope.global none (p.sha256 p.genesis_seed) none full_details s
          s.chain in
      let anchored = IsIntact-IsAnchored p Scope.global (p.sha256 p.genesis_seed) _ in
      (
        λ h. let (old, held, c) = full.0 h in ((old, held), anchored.0 c),
        λ (h, c). full.1 (h.0, h.1, anchored.1 c),
      )
