-- ===== src/Audit/Verify/Secure.antt =====
-- A verification and the status that is read after it: `isSecure` of `getAuditStatus` is what the
-- services ask for before they close a voting or a survey.
use mathlib.Core.Path.{fun_ext}
use voting_secure.Base.{
  lt→ltb, subst, ap₂, ℕ, ◌+◌, ◌≤◌, ◌<◌, ◌≡◌, ◌≢◌, refl, sym, String, true, false, none, some, List,
  [], ◌∷◌, arith, filter, All, Option-cases, inl, inr, str_eq, str_eq_iff,
}
use voting_secure.Audit.Types.{Block, Scope}
use voting_secure.Audit.Hash.{Platform}
use voting_secure.Audit.Store.{
  AuditStore, number_of, in_entity, in_scope, sort_key, sort_blocks, find_last,
}
use voting_secure.Audit.Store.Sorting.{All-sort_blocks, find_last-le}
use voting_secure.Audit.Status.{day, set_last_verified_sequence, get_audit_status, max_sequence}
use voting_secure.Audit.Status.Marks.{last_verified-set, last_full-set}
use voting_secure.Audit.Walk.Spec.{IsRooted}
use voting_secure.Audit.Walk.Correct.{walk-IsAnchored, last_of}
use voting_secure.Audit.Walk.Extend.{All-le-last, number-last}
use voting_secure.Audit.Report.{conclude, full_details}
use voting_secure.Audit.Verify.{walk_blocks, run_plan, verify_voting_chain, entity_genesis}
use voting_secure.Audit.Verify.Full.{is_valid, linked_plan}
use voting_secure.Audit.Verify.Intact.{entity_blocks, verify_voting_chain-full_iff}

module _ (id : String) (proper : id ≢ "") where
  text : str_eq id "" ≡ false
  text = ground (arith, str_eq_iff id "")

  key_same : sort_key Scope.voting (some id) ≡ number_of Scope.voting
  key_same = fun_ext (λ b. rw (text, sort_key) refl)

  scope_same : in_scope Scope.voting (some id) ≡ in_entity Scope.voting id
  scope_same = fun_ext (λ b. rw (text, in_scope) refl)

  greatest : (Block → ℕ) → List Block → ℕ
  greatest key bs = elim (find_last key bs) [ none ↦ 0 | some b ↦ key b ]

  greatest-le :
      (key : Block → ℕ) (n : ℕ) (bs : List Block) → All (λ b. key b ≤ n) bs → greatest key bs ≤ n
  unfolding greatest
  greatest-le key n bs h = elim (Option-cases (find_last key bs)) [
    | inl empty ↦ rw (empty, greatest) (omega arith)
    | inr (b, last) ↦ rw (last, greatest) (find_last-le key n bs b h last)
  ]

  -- The greatest sequence of a voting is no greater than a bound on its blocks' numbers.
  max_sequence-le :
      (chain : List Block) (n : ℕ)
      → All (λ b. number_of Scope.voting b ≤ n) (filter (in_entity Scope.voting id) chain)
      → max_sequence Scope.voting (some id) chain ≤ n
  unfolding max_sequence greatest
  max_sequence-le chain n h =
      subst (λ m. m ≤ n) (sym (ap₂ (λ key q. greatest key (filter q chain)) key_same scope_same))
        (greatest-le (number_of Scope.voting) n _ h)

-- What is_secure says of a store in which the mark has just been set.
secure-set :
    (now later : ℕ) (id : String) (n : ℕ) (s : AuditStore)
    → later < now + day
    → max_sequence Scope.voting (some id) s.chain ≤ n
    → (get_audit_status later Scope.voting
        (some id)
        (set_last_verified_sequence now Scope.voting (some id) n true s)).is_secure
      ≡ true
unfolding get_audit_status set_last_verified_sequence
secure-set now later id n s soon below =
    rw
      (
        last_full-set now Scope.voting (some id) n s,
        last_verified-set now Scope.voting (some id) n true s,
      )
      (ground (arith, soon, below))

module _ (p : Platform) (now : ℕ) (id : String) (s : AuditStore) where
  genesis : String
  genesis = entity_genesis p Scope.voting id

  walk_blocks-mark :
      (a : Block) (rest bs : List Block)
      → sort_blocks (number_of Scope.voting) bs ≡ a ∷ rest
      → IsRooted p Scope.voting genesis (a ∷ rest)
      → (walk_blocks p now
          (linked_plan Scope.voting (some id) genesis (some 0) full_details bs)
          true
          none
          bs
          s).1
        ≡ set_last_verified_sequence now Scope.voting
            (some id)
            (number_of Scope.voting (last_of a rest))
            true
            s
  unfolding walk_blocks conclude sort_blocks
  walk_blocks-mark a rest [] e r = absurd (cc e)
  walk_blocks-mark a rest (b ∷ bs) e (one, link, c) =
      rw
        (
          e,
          walk-IsAnchored p Scope.voting genesis (some 0) a rest (link, c) (ground (arith, one)),
          walk_blocks,
        )
        (rw
          (lt→ltb 0 (number_of Scope.voting (last_of a rest))
            (omega (arith, number-last p Scope.voting a rest c, one)))
          refl)

  -- The mark that a valid full verification of a voting leaves.
  mark-full :
      (a : Block) (bs : List Block)
      → entity_blocks Scope.voting id s ≡ a ∷ bs
      → is_valid (verify_voting_chain p now id true s).0 ≡ true
      → (verify_voting_chain p now id true s).1
        ≡ set_last_verified_sequence now Scope.voting
            (some id)
            (number_of Scope.voting (last_of a bs))
            true
            s
  unfolding verify_voting_chain run_plan genesis
  mark-full a bs e valid =
      let ((old, held), r) = (verify_voting_chain-full_iff p now s id).0 valid in
      rw (old, held, run_plan)
        (walk_blocks-mark a bs (filter (in_entity Scope.voting id) s.chain) e
          (subst (IsRooted p Scope.voting genesis) e r))

  -- Let a full verification of a voting that has blocks be valid. Then for the rest of the day,
  -- while nothing is appended, the voting's audit status is secure.
  pub verify_voting_chain-secure :
      (later : ℕ) (a : Block) (bs : List Block)
      → id ≢ ""
      → entity_blocks Scope.voting id s ≡ a ∷ bs
      → is_valid (verify_voting_chain p now id true s).0 ≡ true
      → later < now + day
      → (get_audit_status later Scope.voting
          (some id)
          (verify_voting_chain p now id true s).1).is_secure
        ≡ true
  unfolding genesis
  verify_voting_chain-secure later a bs proper e valid soon =
      let r =
        subst (IsRooted p Scope.voting genesis) e
          ((verify_voting_chain-full_iff p now s id).0 valid).1 in
      let below =
        subst (All (λ b. number_of Scope.voting b ≤ number_of Scope.voting (last_of a bs))) (sym e)
          (All-le-last p Scope.voting a bs r.2) in
      rw (mark-full a bs e valid) (
        secure-set now later id (number_of Scope.voting (last_of a bs)) s soon (
          max_sequence-le id proper s.chain _ (All-sort_blocks (number_of Scope.voting) _ _ below)))
