-- ===== src/Audit/Append/Sound.antt =====
-- What appending maintains: in every scope the numbers run from 1 without a gap, the links hold,
-- and the counter stands at the number of blocks.
use voting_secure.Base.{
  All-filter, append_nothing, ℕ, suc, ◌≤◌, ◌≡◌, ◌≢◌, refl, sym, ap, ◌∙◌, String, true, false,
  Option, none, some, List, [], ◌∷◌, ◌++◌, length, filter, All, arith, str_eq, str_eq_iff, opt_eq,
  opt_eq_iff, opt_eq_refl, Bool-cases, inl, inr, length-append, filter-append,
}
use voting_secure.Audit.Types.{Block, Scope, ChainContext}
use voting_secure.Audit.Hash.{Platform, genesis_hash, given}
use voting_secure.Audit.Store.{
  AuditStore, number_of, scoped_id, scoped_sequence, scoped_prev_hash, in_entity, find_last,
  sequence_key,
}
use voting_secure.Audit.Store.Keys.{IsEntity}
use voting_secure.Audit.Walk.Spec.{IsSelfHashed, IsRooted}
use voting_secure.Audit.Walk.Extend.{head_hash, find_last-chain, IsRooted-append}
use voting_secure.Audit.Verify.{entity_genesis}
use voting_secure.Audit.Append.{Drawn, draw, new_block, global_prev_hash, scope_prev_hash}
use voting_secure.Audit.Append.Draw.{
  count_of, context_id, drawn_number, advanced, draw_number, draw_count, draw_global,
}

-- The blocks of one scope, with its counter.
abbrev pub IsNumbered : Platform → Scope → String → List Block → ℕ → Type 0
IsNumbered p scope genesis bs count = IsRooted p scope genesis bs × (count ≡ length bs)

-- What holds of one voting, survey or group.
abbrev pub IsSoundAt : Platform → Scope → String → AuditStore → Type 0
IsSoundAt p t i s =
    IsNumbered p t (entity_genesis p t i) (filter (in_entity t i) s.chain)
      (count_of s.counters (sequence_key t i))

abbrev pub IsSound : Platform → AuditStore → Type 0
IsSound p s =
    IsNumbered p Scope.global (p.sha256 p.genesis_seed) s.chain
      (count_of s.counters (sequence_key Scope.global ""))
    × ((t : Scope) (i : String) → IsEntity t → i ≢ "" → IsSoundAt p t i s)

find_last-rooted :
    (p : Platform) (scope : Scope) (genesis : String) (bs : List Block)
    → IsRooted p scope genesis bs
    → (elim (find_last (number_of scope) bs) [ none ↦ genesis | some b ↦ b.hash ])
      ≡ head_hash genesis bs
unfolding find_last
find_last-rooted p scope genesis [] r = refl
find_last-rooted p scope genesis (a ∷ bs) (one, link, c) = rw (find_last-chain p scope a bs c) refl

pub text_proper : (i : String) → i ≢ "" → str_eq i "" ≡ false
text_proper i proper = ground (arith, str_eq_iff i "")

advanced_other :
    (id : Option String) (i : String) (n : ℕ)
    → opt_eq id (some i) ≡ false
    → advanced (given id) i n ≡ n
advanced_other none i n h = refl
advanced_other (some j) i n h = ground (arith, h)

genesis_hash-entity :
    (p : Platform) (t : Scope) (i : String)
    → i ≢ ""
    → genesis_hash p t (some i) ≡ entity_genesis p t i
unfolding genesis_hash
genesis_hash-entity p t i proper = rw (text_proper i proper, genesis_hash) refl

scope_prev_hash-rooted :
    (p : Platform) (t : Scope) (i : String) (chain : List Block)
    → i ≢ ""
    → IsRooted p t (entity_genesis p t i) (filter (in_entity t i) chain)
    → scope_prev_hash p t (some i) chain
      ≡ some (head_hash (entity_genesis p t i) (filter (in_entity t i) chain))
unfolding scope_prev_hash find_last
scope_prev_hash-rooted p t i chain proper r =
    rw (text_proper i proper, scope_prev_hash)
      (go (genesis_hash p t (some i)) (filter (in_entity t i) chain) r
        ∙ ap (λ g. some (head_hash g (filter (in_entity t i) chain)))
            (genesis_hash-entity p t i proper))
  where
    go :
        (g : String) (bs : List Block)
        → IsRooted p t (entity_genesis p t i) bs
        → (elim (find_last (number_of t) bs) [ none ↦ some g | some b ↦ some b.hash ])
          ≡ some (head_hash g bs)
    go g [] r' = refl
    go g (a ∷ bs) (one, link, c) = rw (find_last-chain p t a bs c) refl

module _ (p : Platform) (now : ℕ) (ctx : ChainContext) (s : AuditStore) where
  abbrev pub drawn : Drawn
  drawn = (draw ctx s.counters).0

  abbrev pub added : Block
  added = new_block p now ctx drawn s.chain

  -- The store that a committed append leaves.
  abbrev pub appended : AuditStore
  appended = record s { chain = s.chain ++ added ∷ []; counters = (draw ctx s.counters).1 }

  added-IsSelfHashed : IsSelfHashed p added
  unfolding new_block
  added-IsSelfHashed = refl

  pub added-id : (t : Scope) → scoped_id t added ≡ context_id t ctx
  unfolding new_block
  added-id Scope.global = refl
  added-id Scope.group = refl
  added-id Scope.voting = refl
  added-id Scope.survey = refl

  pub added-sequence : (t : Scope) → scoped_sequence t added ≡ drawn_number t drawn
  unfolding new_block
  added-sequence Scope.global = refl
  added-sequence Scope.group = refl
  added-sequence Scope.voting = refl
  added-sequence Scope.survey = refl

  added-link :
      (t : Scope)
      → IsEntity t
      → scoped_prev_hash t added ≡ scope_prev_hash p t (context_id t ctx) s.chain
  unfolding new_block
  added-link Scope.global entity = absurd entity
  added-link Scope.group entity = refl
  added-link Scope.voting entity = refl
  added-link Scope.survey entity = refl

  pub added-IsGlobal :
      IsNumbered p Scope.global
        (p.sha256 p.genesis_seed)
        s.chain
        (count_of s.counters (sequence_key Scope.global ""))
      → (number_of Scope.global added ≡ suc (length s.chain))
        × (scoped_prev_hash Scope.global added ≡ some (head_hash (p.sha256 p.genesis_seed) s.chain))
  unfolding new_block global_prev_hash genesis_hash
  added-IsGlobal (r, n) = (
    (draw_global ctx s.counters).0 ∙ ap suc n,
    ap some (find_last-rooted p Scope.global (p.sha256 p.genesis_seed) s.chain r),
  )

  -- A chain of one scope after the block is added to the end of it.
  IsNumbered-append :
      (t : Scope) (genesis : String) (bs : List Block) (count : ℕ)
      → IsNumbered p t genesis bs count
      → All (λ c. c.created_at ≤ now) bs
      → number_of t added ≡ suc count
      → scoped_prev_hash t added ≡ some (head_hash genesis bs)
      → IsNumbered p t genesis (bs ++ added ∷ []) (suc count)
  unfolding new_block
  IsNumbered-append t genesis bs count (r, n) times number link = (
    IsRooted-append p t genesis bs added r added-IsSelfHashed (number ∙ ap suc n) link times,
    omega (arith, n, length-append bs (added ∷ [])),
  )

  -- The entry names the id.
  added-named :
      (t : Scope) (i : String)
      → IsEntity t
      → i ≢ ""
      → context_id t ctx ≡ some i
      → IsSoundAt p t i s
      → All (λ c. c.created_at ≤ now) s.chain
      → IsSoundAt p t i appended
  added-named t i entity proper named (r, n) times =
      rw (filter-append (in_entity t i) s.chain (added ∷ []), counted, inside)
        (IsNumbered-append t genesis bs (count_of s.counters (sequence_key t i)) (r, n)
          (All-filter (λ c. c.created_at ≤ now) (in_entity t i) s.chain times) number link)
    where
      genesis : String
      genesis = entity_genesis p t i

      bs : List Block
      bs = filter (in_entity t i) s.chain

      id_given : given (context_id t ctx) ≡ some i
      id_given = rw (named, text_proper i proper) refl

      drawn_here : scoped_sequence t added ≡ some (suc (count_of s.counters (sequence_key t i)))
      drawn_here = added-sequence t ∙ draw_number ctx s.counters t entity ∙ rw id_given refl

      number : number_of t added ≡ suc (count_of s.counters (sequence_key t i))
      number = rw drawn_here refl

      inside : in_entity t i added ≡ true
      inside = rw (added-id t, named, drawn_here, opt_eq_refl (some i)) refl

      link : scoped_prev_hash t added ≡ some (head_hash genesis bs)
      link = added-link t entity ∙ rw named (scope_prev_hash-rooted p t i s.chain proper r)

      counted :
          count_of (draw ctx s.counters).1 (sequence_key t i)
          ≡ suc (count_of s.counters (sequence_key t i))
      counted = draw_count ctx s.counters t i entity ∙ rw (id_given, opt_eq_refl (some i)) refl

  -- The entry does not name the id.
  added-unnamed :
      (t : Scope) (i : String)
      → IsEntity t
      → opt_eq (context_id t ctx) (some i) ≡ false
      → IsSoundAt p t i s
      → IsSoundAt p t i appended
  added-unnamed t i entity other sound =
      rw (filter-append (in_entity t i) s.chain (added ∷ []), counted, outside, append_nothing _)
        sound
    where
      outside : in_entity t i added ≡ false
      outside = rw (added-id t, other) refl

      counted :
          count_of (draw ctx s.counters).1 (sequence_key t i)
          ≡ count_of s.counters (sequence_key t i)
      counted = draw_count ctx s.counters t i entity ∙ advanced_other (context_id t ctx) i _ other

  -- A committed entry that is no earlier than any before it keeps every scope sound.
  pub appended-IsSound : IsSound p s → All (λ c. c.created_at ≤ now) s.chain → IsSound p appended
  appended-IsSound (whole, each) times =
      let (number, link) = added-IsGlobal whole in
      (
        rw (draw_global ctx s.counters).1 (
            IsNumbered-append Scope.global (p.sha256 p.genesis_seed) s.chain _ whole times
              (number ∙ ap suc (sym whole.1)) link),
        λ t i entity proper. elim (Bool-cases (opt_eq (context_id t ctx) (some i))) [
          | inl named ↦
              added-named t i entity proper ((opt_eq_iff _ _).0 named) (each t i entity proper)
                times
          | inr other ↦ added-unnamed t i entity other (each t i entity proper)
        ],
      )
