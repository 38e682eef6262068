-- ===== src/Audit/History/Leak.antt =====
-- What a failed append leaves behind (`processAppendInternal`, backend/src/audit/audit.service.ts):
-- the numbers are drawn before the transaction and are not given back.
use voting_secure.Base.{
  String, ℕ, suc, ◌<◌, ◌≡◌, ◌≢◌, refl, ap, subst, true, false, none, List, [], ◌∷◌, ◌++◌, arith,
  Bool-cases, inl, inr, any, length, le→not-ltb,
}
use voting_secure.Audit.Types.{Block, Scope, ChainContext}
use voting_secure.Audit.Hash.{Platform}
use voting_secure.Audit.Store.{AuditStore, number_of, insert_block, sort_blocks, sequence_key}
use voting_secure.Audit.Append.{draw, clashes, new_block, process_append_internal}
use voting_secure.Audit.Append.Draw.{draw_global, count_of}
use voting_secure.Audit.Append.Sound.{IsSound, added, appended}
use voting_secure.Audit.Walk.Spec.{IsChain, IsAnchored, IsRooted, Follows}
use voting_secure.Audit.Walk.Correct.{last_of}
use voting_secure.Audit.Walk.Extend.{number-last}
use voting_secure.Audit.Verify.{verify_chain}
use voting_secure.Audit.Verify.Full.{is_valid}
use voting_secure.Audit.Verify.Intact.{verify_chain-full_iff}

module _ (p : Platform) (scope : Scope) where
  IsChain-last :
      (a : Block) (bs : List Block) (b : Block)
      → IsChain p scope (a ∷ bs ++ b ∷ [])
      → Follows scope (last_of a bs) b
  IsChain-last a [] b c = c.1
  IsChain-last a (x ∷ bs) b c = IsChain-last x bs b c.2

  sort_blocks-snoc :
      (a : Block) (bs : List Block) (b : Block)
      → IsChain p scope (a ∷ bs)
      → number_of scope (last_of a bs) < number_of scope b
      → sort_blocks (number_of scope) (a ∷ bs ++ b ∷ []) ≡ a ∷ bs ++ b ∷ []
  unfolding sort_blocks
  sort_blocks-snoc a [] b c less =
      rw (le→not-ltb (number_of scope b) (number_of scope a) (omega (arith, less)), insert_block)
        refl
  sort_blocks-snoc a (x ∷ bs) b (self, (n, l, t), c) less = rw (sort_blocks-snoc x bs b c less) (
      rw (le→not-ltb (number_of scope x) (number_of scope a) (omega (arith, n)), insert_block) refl)

  -- A block that skips a number at the end of a chain breaks it.
  skipped :
      (genesis : String) (a : Block) (bs : List Block) (b : Block)
      → IsChain p scope (a ∷ bs)
      → suc (number_of scope (last_of a bs)) < number_of scope b
      → IsAnchored p scope genesis (sort_blocks (number_of scope) (a ∷ bs ++ b ∷ []))
      → ⊥
  skipped genesis a bs b c skip anchored =
      let (link, chain) = rw (sort_blocks-snoc a bs b c (omega (arith, skip))) at anchored in
      omega (arith, skip, (IsChain-last a bs b chain).0)

module _ (p : Platform) where
  committed :
      (now : ℕ) (ctx : ChainContext) (s : AuditStore)
      → (process_append_internal p now true ctx s).0 ≡ none
      → (process_append_internal p now true ctx s).1 ≡ appended p now ctx s
  unfolding process_append_internal
  committed now ctx s done = elim (Bool-cases (any (clashes (added p now ctx s)) s.chain)) [
    | inl taken ↦ absurd (cc (rw (taken, process_append_internal) at done))
    | inr free ↦ rw (free, process_append_internal) refl
  ]

  -- A counter that is ahead of the chain makes the next block skip a number.
  ahead :
      (at now : ℕ) (ctx : ChainContext) (s : AuditStore) (chain : List Block)
      → s.chain ≡ chain
      → chain ≢ []
      → IsRooted p Scope.global (p.sha256 p.genesis_seed) chain
      → length chain < count_of s.counters (sequence_key Scope.global "")
      → is_valid (verify_chain p at none true (appended p now ctx s)).0 ≡ false
  unfolding new_block
  ahead at now ctx s [] e filled r less = absurd (filled refl)
  ahead at now ctx s (a ∷ bs) e filled (one, link, c) less =
      elim (Bool-cases (is_valid (verify_chain p at none true (appended p now ctx s)).0)) [
        | inr invalid ↦ invalid
        | inl valid ↦ absurd (
            skipped p Scope.global (p.sha256 p.genesis_seed) a bs (added p now ctx s) c
              (omega (
                arith,
                one,
                less,
                number-last p Scope.global a bs c,
                (draw_global ctx s.counters).0,
              ))
              (subst
                (λ xs.
                  IsAnchored p Scope.global (p.sha256 p.genesis_seed)
                    (sort_blocks (number_of Scope.global) (xs ++ added p now ctx s ∷ [])))
                e ((verify_chain-full_iff p at (appended p now ctx s)).0 valid).1))
      ]

  after_failure :
      (now : ℕ) (failed : ChainContext) (s : AuditStore)
      → (process_append_internal p now false failed s).1
        ≡ record s { counters = (draw failed s.counters).1 }
  unfolding process_append_internal
  after_failure now failed s = refl

  -- An append that fails to commit leaves the chain as it was and a counter that is one too high:
  -- after the next append that commits, no full verification of the whole chain is valid. (The chain
  -- is sound and not empty before.)
  pub failed_append-breaks :
      (s : AuditStore) (now later at : ℕ) (failed ctx : ChainContext)
      → IsSound p s
      → s.chain ≢ []
      → (process_append_internal p later true ctx
          (process_append_internal p now false failed s).1).0
        ≡ none
      → is_valid
          (verify_chain p at none true
            (process_append_internal p later true ctx
              (process_append_internal p now false failed s).1).1).0
        ≡ false
  failed_append-breaks s now later at failed ctx sound filled done =
      rw (committed later ctx (process_append_internal p now false failed s).1 done) (
        ahead at later ctx (process_append_internal p now false failed s).1 s.chain
          (ap (λ x. x.chain) (after_failure now failed s)) filled sound.0.0
          (rw (after_failure now failed s)
            (omega (arith, (draw_global failed s.counters).1, sound.0.1))))
