-- ===== src/Audit/Verify/Full.antt =====
-- What a forced full verification says: valid exactly if it is not throttled, the checkpoints hold
-- and the scope's blocks, in the order of their numbers, form an intact chain from genesis.
use voting_secure.Base.{
  ℕ, ◌≡◌, ◌↔◌, refl, String, Bool, true, false, Option, none, List, [], ◌∷◌, Bool-cases, inl, inr,
  Option-cases,
}
use voting_secure.Audit.Types.{Block, Scope}
use voting_secure.Audit.Hash.{Platform}
use voting_secure.Audit.Store.{AuditStore, number_of, sort_blocks}
use voting_secure.Audit.Status.{within_day, last_full, verify_checkpoints}
use voting_secure.Audit.Walk.{Fault, Outcome, stopped, passed, from_genesis, walk, gap}
use voting_secure.Audit.Walk.Spec.{IsAnchored}
use voting_secure.Audit.Walk.Correct.{walk-IsAnchored, walk-IsAnchored_inv}
use voting_secure.Audit.Report.{Answer, too_many_requests, report, Details, conclude}
use voting_secure.Audit.Verify.{Plan, walk_blocks, run_plan}

abbrev pub is_valid : Answer → Bool
is_valid too_many_requests = false
is_valid (report r) = r.valid

-- The chain is intact from genesis; `root` is what precedes number 1, where that is checked.
abbrev pub IsIntact : Platform → Scope → String → Option ℕ → List Block → Type 0
IsIntact p scope genesis root [] = Unit
IsIntact p scope genesis root (a ∷ bs) =
    IsAnchored p scope genesis (a ∷ bs) × (gap root (number_of scope a) ≡ none)

-- The plans that check links and gaps.
abbrev pub linked_plan :
    Scope → Option String → String → Option ℕ → (Block → Fault → Details) → List Block → Plan
linked_plan scope id genesis root details blocks = record {
  scope = scope;
  scope_id = id;
  numbering = scope;
  linked = true;
  details = details;
  start = from_genesis genesis root;
  walked = blocks;
  looked_up = blocks;
}

module _ (p : Platform) (now : ℕ) (scope : Scope) (id : Option String) (genesis : String)
    (root : Option ℕ) (details : Block → Fault → Details) (s : AuditStore) where
  conclude-walk_iff :
      (bs : List Block)
      → (is_valid
            (conclude now scope id scope details true none
              (walk p scope true (from_genesis genesis root) bs)
              s).0
          ≡ true)
        ↔ IsIntact p scope genesis root bs
  unfolding conclude walk
  conclude-walk_iff [] = (λ h. tt, λ h. refl)
  conclude-walk_iff (a ∷ bs) = (
    λ h. go (walk p scope true (from_genesis genesis root) (a ∷ bs)) refl h,
    λ (c, free). rw (walk-IsAnchored p scope genesis root a bs c free),
  )
    where
      go :
          (o : Outcome)
          → walk p scope true (from_genesis genesis root) (a ∷ bs) ≡ o
          → is_valid (conclude now scope id scope details true none o s).0 ≡ true
          → IsIntact p scope genesis root (a ∷ bs)
      go (stopped n c f) e h = absurd (cc h)
      go (passed w) e h = walk-IsAnchored_inv p scope genesis root a bs w e

  walk_blocks-full_iff :
      (bs : List Block)
      → (is_valid
            (walk_blocks p now (linked_plan scope id genesis root details bs) true none bs s).0
          ≡ true)
        ↔ IsIntact p scope genesis root (sort_blocks (number_of scope) bs)
  unfolding walk_blocks
  walk_blocks-full_iff [] = (λ h. tt, λ h. refl)
  walk_blocks-full_iff (b ∷ bs) = conclude-walk_iff (sort_blocks (number_of scope) (b ∷ bs))

  -- The verification in full, on every branch.
  pub run_plan-full_iff :
      (bs : List Block)
      → (is_valid (run_plan p now (linked_plan scope id genesis root details bs) true s).0 ≡ true)
        ↔ ((within_day now (last_full scope id s) ≡ false)
            × (verify_checkpoints scope id s ≡ none)
            × IsIntact p scope genesis root (sort_blocks (number_of scope) bs))
  unfolding run_plan
  run_plan-full_iff bs = elim (Bool-cases (within_day now (last_full scope id s))) [
    | inl recent ↦ (λ h. absurd (cc (rw recent at h)), λ h. absurd (cc (recent, h.0)))
    | inr old ↦ elim (Option-cases (verify_checkpoints scope id s)) [
      | inl held ↦ (
        λ h. (old, held, (walk_blocks-full_iff bs).0 (rw (old, held, run_plan) at h)),
        λ h. rw (old, held, run_plan) ((walk_blocks-full_iff bs).1 h.2),
      )
      | inr (f, broken) ↦
          (λ h. absurd (cc (rw (old, broken, run_plan) at h)), λ h. absurd (cc (broken, h.1)))
    ]
  ]
