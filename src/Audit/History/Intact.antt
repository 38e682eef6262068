-- ===== src/Audit/History/Intact.antt =====
-- Every history leaves a store that is sound, whose checkpoints hold and whose verifications pass.
use voting_secure.Base.{
  ℕ, ◌≤◌, ◌≡◌, refl, sym, subst, true, false, Option, none, some, List, [], ◌∷◌, ◌++◌, String, All,
  filter, any, arith, Bool-cases, Option-cases, inl, inr, str_eq_refl, length, All-map, All-append,
  All-filter,
}
use voting_secure.Audit.Types.{Block, Scope, ChainContext}
use voting_secure.Audit.Hash.{Platform}
use voting_secure.Audit.Store.{
  AuditStore, Checkpoint, number_of, in_scope, sort_key, find_last, sort_blocks, sequence_key,
}
use voting_secure.Audit.Status.{create_checkpoint, within_day}
use voting_secure.Audit.Append.{clashes, process_append_internal, on_module_init}
use voting_secure.Audit.Append.Sound.{IsSound, added, appended-IsSound}
use voting_secure.Audit.Walk.Spec.{IsChain, IsAnchored, IsRooted}
use voting_secure.Audit.Walk.Extend.{sort_blocks-chain}
use voting_secure.Audit.Verify.Full.{is_valid}
use voting_secure.Audit.Verify.Intact.{
  verify_voting_chain-full_iff, verify_group_chain-full_iff, verify_survey_chain-full_iff,
  verify_chain-full_iff,
}
use voting_secure.Audit.History.{
  empty_store, Verifier, whole, of_voting, of_group, of_survey, verify, last_full_of, IsLinked,
  Step, appends, checkpoints, verifies, restarts, History, begins, then_step,
}
use voting_secure.Audit.History.Marks.{verify-marks}
use voting_secure.Audit.History.Checkpoints.{
  Holds, Holds-append, verify_checkpoints-All, IsFound, IsFound-chain, find_last-All,
}

-- What a history maintains, up to a time.
abbrev pub IsKept : Platform → ℕ → AuditStore → Type 0
IsKept p last s =
    IsSound p s × All (λ b. b.created_at ≤ last) s.chain × All (Holds s.chain) s.checkpoints

IsRooted-IsChain :
    (p : Platform) (t : Scope) (genesis : String) (bs : List Block)
    → IsRooted p t genesis bs
    → IsChain p t bs
IsRooted-IsChain p t genesis [] r = tt
IsRooted-IsChain p t genesis (a ∷ bs) r = r.2

IsRooted-IsAnchored :
    (p : Platform) (t : Scope) (genesis : String) (bs : List Block)
    → IsRooted p t genesis bs
    → IsAnchored p t genesis bs
IsRooted-IsAnchored p t genesis [] r = tt
IsRooted-IsAnchored p t genesis (a ∷ bs) r = (r.1, r.2)

empty-last : (key : Block → ℕ) (bs : List Block) → 0 ≡ length bs → find_last key bs ≡ none
unfolding find_last
empty-last key [] e = refl
empty-last key (b ∷ bs) e = absurd (omega (arith, e))

-- With the counter at the number of blocks there is nothing to restore.
restart_same : (p : Platform) (s : AuditStore) → IsSound p s → on_module_init s ≡ s
unfolding on_module_init
restart_same p s ((r, n), each) = elim (Option-cases (s.counters (sequence_key Scope.global ""))) [
  | inl unset ↦
      let nothing = empty-last (number_of Scope.global) s.chain (rw unset at n) in
      rw (nothing, on_module_init) refl
  | inr (m, set) ↦ elim (Option-cases (find_last (number_of Scope.global) s.chain)) [
    | inl nothing ↦ rw (nothing, on_module_init) refl
    | inr (b, last) ↦ rw (last, set, on_module_init) refl
  ]
]

module _ (p : Platform) where
  IsKept-later : (last now : ℕ) (s : AuditStore) → last ≤ now → IsKept p last s → IsKept p now s
  IsKept-later last now s later (sound, times, held) =
      (sound, All-map (λ b h. omega (arith, h, later)) s.chain times, held)

  IsKept-empty : IsKept p 0 empty_store
  IsKept-empty = (((tt, refl), λ t i entity proper. (tt, refl)), tt, tt)

  IsKept-append :
      (now : ℕ) (ctx : ChainContext) (s : AuditStore)
      → (process_append_internal p now true ctx s).0 ≡ none
      → IsKept p now s
      → IsKept p now (process_append_internal p now true ctx s).1
  unfolding process_append_internal
  IsKept-append now ctx s done (sound, times, held) =
      elim (Bool-cases (any (clashes (added p now ctx s)) s.chain)) [
        | inl taken ↦ absurd (cc (rw (taken, process_append_internal) at done))
        | inr free ↦
            rw (free, process_append_internal)
              (
                appended-IsSound p now ctx s sound times,
                All-append (λ b. b.created_at ≤ now) s.chain _ times (omega arith, tt),
                All-map (λ c h. Holds-append s.chain _ c h) s.checkpoints held,
              )
      ]

  IsKept-checkpoint :
      (now : ℕ) (scope : Scope) (id : Option String) (s s' : AuditStore)
      → create_checkpoint now scope id s ≡ some s'
      → IsKept p now s
      → IsKept p now s'
  unfolding create_checkpoint
  IsKept-checkpoint now scope id s s' done (sound, times, held) =
      elim (Option-cases (find_last (sort_key scope id) (filter (in_scope scope id) s.chain))) [
        | inl empty ↦ absurd (cc (rw (empty, create_checkpoint) at done))
        | inr (b, last) ↦
            let found : IsFound s.chain b =
              find_last-All (IsFound s.chain) (sort_key scope id) _ b
                (All-filter (IsFound s.chain) (in_scope scope id) s.chain
                  (IsFound-chain p s.chain (IsRooted-IsChain p Scope.global _ s.chain sound.0.0)))
                last in
            let made : some (record s { checkpoints = s.checkpoints ++ checkpoint_of b ∷ [] })
                ≡ some s' =
              rw (last, create_checkpoint) at done in
            subst AllKept made
              (sound, times, All-append (Holds s.chain) s.checkpoints _ held (holds b found, tt))
      ]
    where
      checkpoint_of : Block → Checkpoint
      checkpoint_of b = record {
        scope = scope;
        scope_id = id;
        sequence = b.sequence;
        hash = b.hash;
        created_at = now;
      }

      AllKept : Option AuditStore → Type 0
      AllKept none = Unit
      AllKept (some x) = IsKept p now x

      holds : (b : Block) → IsFound s.chain b → Holds s.chain (checkpoint_of b)
      holds b found = rw found (rw (str_eq_refl b.hash) refl)

  IsKept-restart : (now : ℕ) (s : AuditStore) → IsKept p now s → IsKept p now (on_module_init s)
  IsKept-restart now s kept = subst (IsKept p now) (sym (restart_same p s kept.0)) kept

  IsKept-Step : (now : ℕ) (s s' : AuditStore) → Step p now s s' → IsKept p now s → IsKept p now s'
  IsKept-Step now s s' (appends ctx done) kept = IsKept-append now ctx s done kept
  IsKept-Step now s s' (checkpoints scope id s'' done) kept =
      IsKept-checkpoint now scope id s s'' done kept
  IsKept-Step now s s' (verifies v full) kept =
      subst (IsKept p now) (sym (verify-marks p now v full s)) kept
  IsKept-Step now s s' restarts kept = IsKept-restart now s kept

  -- Every history leaves a sound store, no block of it later than the last operation, with
  -- checkpoints that hold.
  pub History-IsKept : (last : ℕ) (s : AuditStore) → History p last s → IsKept p last s
  History-IsKept last s begins = IsKept-empty
  History-IsKept last s (then_step t s0 now s1 h later step) =
      IsKept-Step now s0 s1 step (IsKept-later t now s0 later (History-IsKept t s0 h))

  -- Let a store be reached from the empty one by appends that commit, checkpoints, verifications and
  -- restarts, in any order, at times that do not go back. Then a full verification of the whole chain,
  -- or of a voting, group or survey with an id that is not empty, is valid, if the scope had none
  -- within the last day.
  pub History-verifies :
      (last : ℕ) (s : AuditStore) (now : ℕ) (v : Verifier)
      → History p last s
      → IsLinked v
      → within_day now (last_full_of v s) ≡ false
      → is_valid (verify p now v true s).0 ≡ true
  unfolding verify
  History-verifies last s now v h linked old =
      let (sound, times, held) = History-IsKept last s h in go v linked old sound held
    where
      sorted :
          (t : Scope) (genesis : String) (bs : List Block)
          → IsRooted p t genesis bs
          → IsRooted p t genesis (sort_blocks (number_of t) bs)
      sorted t genesis bs r = rw (sort_blocks-chain p t bs (IsRooted-IsChain p t genesis bs r)) r

      go :
          (v : Verifier)
          → IsLinked v
          → within_day now (last_full_of v s) ≡ false
          → IsSound p s
          → All (Holds s.chain) s.checkpoints
          → is_valid (verify p now v true s).0 ≡ true
      go (whole none) linked old sound held = (verify_chain-full_iff p now s).1 (
        (old, verify_checkpoints-All Scope.global none s held),
        IsRooted-IsAnchored p Scope.global _ _ (sorted Scope.global _ s.chain sound.0.0),
      )
      go (whole (some _)) linked old sound held = absurd linked
      go (of_voting id) linked old sound held = (verify_voting_chain-full_iff p now s id).1 (
        (old, verify_checkpoints-All Scope.voting (some id) s held),
        sorted Scope.voting _ _ (sound.1 Scope.voting id tt linked).0,
      )
      go (of_group id) linked old sound held = (verify_group_chain-full_iff p now s id).1 (
        (old, verify_checkpoints-All Scope.group (some id) s held),
        IsRooted-IsAnchored p Scope.group _ _
            (sorted Scope.group _ _ (sound.1 Scope.group id tt linked).0),
      )
      go (of_survey id) linked old sound held = (verify_survey_chain-full_iff p now s id).1 (
        (old, verify_checkpoints-All Scope.survey (some id) s held),
        IsRooted-IsAnchored p Scope.survey _ _
            (sorted Scope.survey _ _ (sound.1 Scope.survey id tt linked).0),
      )
