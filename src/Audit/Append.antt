-- ===== src/Audit/Append.antt =====
-- `processAppendInternal`, `onModuleInit` and `tamper` (backend/src/audit/audit.service.ts).
pub mod Draw
pub mod Sound
pub mod Commits
use voting_secure.Base.{
  ℕ, suc, ◌+◌, String, Bool, true, false, not, Option, none, some, get_or, List, [], ◌∷◌, ◌++◌, map,
  ◌&&◌, ◌||◌, str_eq, opt_eq, is_some, ◌==◌, if◌then◌else◌, filter, any, ◌≡◌, refl,
}
use voting_secure.Audit.Types.{Block, ChainContext, Scope, Value, ChainAction}
use voting_secure.Audit.Hash.{Platform, HashParams, compute_hash, genesis_hash, given}
use voting_secure.Audit.Store.{
  AuditStore, Counters, scoped_id, scoped_sequence, number_of, in_entity, find_last, sequence_key,
  incr,
}

-- redis.nextGlobalSequence() and its three siblings. Without an id no counter is touched.
unfoldable pub next_sequence : Scope → Option String → Counters → Option ℕ × Counters
unfolding incr
next_sequence Scope.global id counters =
    let (n, counters') = incr (sequence_key Scope.global "") counters in (some n, counters')
next_sequence scope id counters = elim (given id) [
  | none ↦ (none, counters)
  | some i ↦ let (n, counters') = incr (sequence_key scope i) counters in (some n, counters')
]

pub record Drawn : Type 0 where
  pub global_seq : ℕ
  pub group_seq : Option ℕ
  pub voting_seq : Option ℕ
  pub survey_seq : Option ℕ

-- The sequence numbers are drawn before the transaction begins.
unfoldable pub draw : ChainContext → Counters → Drawn × Counters
unfolding next_sequence
draw ctx c0 =
    let (n0, c1) = next_sequence Scope.global none c0 in
    let (n1, c2) = next_sequence Scope.group ctx.group_id c1 in
    let (n2, c3) = next_sequence Scope.voting ctx.voting_id c2 in
    let (n3, c4) = next_sequence Scope.survey ctx.survey_id c3 in
    (record { global_seq = get_or n0 0; group_seq = n1; voting_seq = n2; survey_seq = n3 }, c4)

-- The unique indexes of `audit_chain`: sequence, hash, and each scope's pair of id and sequence.
abbrev pub same_place : Scope → Block → Block → Bool
same_place scope b c =
    is_some (scoped_sequence scope b)
    && is_some (scoped_sequence scope c)
    && number_of scope b == number_of scope c
    && opt_eq (scoped_id scope b) (scoped_id scope c)

abbrev pub clashes : Block → Block → Bool
clashes b c =
    b.sequence == c.sequence
    || str_eq b.hash c.hash
    || same_place Scope.group b c
    || same_place Scope.voting b c
    || same_place Scope.survey b c

pub data AppendError : Type 0 where
  transaction_aborted duplicate_key : AppendError

module _ (p : Platform) where
  -- globalPrev?.hash ?? this.genesisHash('global', null)
  unfoldable pub global_prev_hash : List Block → String
  unfolding find_last genesis_hash
  global_prev_hash chain = elim (find_last (number_of Scope.global) chain) [
    | none ↦ genesis_hash p Scope.global none
    | some b ↦ b.hash
  ]

  -- ctx.votingId ? (votingPrev?.hash ?? this.genesisHash('voting', ctx.votingId)) : null
  unfoldable pub scope_prev_hash : Scope → Option String → List Block → Option String
  unfolding find_last genesis_hash
  scope_prev_hash scope id chain = elim (given id) [
    | none ↦ none
    | some i ↦ elim (find_last (number_of scope) (filter (in_entity scope i) chain)) [
      | none ↦ some (genesis_hash p scope id)
      | some b ↦ some b.hash
    ]
  ]

  -- The document that the transaction creates.
  unfoldable pub new_block : ℕ → ChainContext → Drawn → List Block → Block
  unfolding global_prev_hash scope_prev_hash compute_hash
  new_block now ctx d chain =
      let prev_hash = global_prev_hash chain in
      let group_prev_hash = scope_prev_hash Scope.group ctx.group_id chain in
      let voting_prev_hash = scope_prev_hash Scope.voting ctx.voting_id chain in
      let survey_prev_hash = scope_prev_hash Scope.survey ctx.survey_id chain in
      let params : HashParams = record {
        prev_hash = prev_hash;
        sequence = d.global_seq;
        group_sequence = d.group_seq;
        voting_sequence = d.voting_seq;
        survey_sequence = d.survey_seq;
        group_prev_hash = group_prev_hash;
        voting_prev_hash = voting_prev_hash;
        survey_prev_hash = survey_prev_hash;
        action = ctx.action;
        payload = ctx.payload;
        created_at = now;
      } in
      record {
        sequence = d.global_seq;
        group_sequence = d.group_seq;
        voting_sequence = d.voting_seq;
        survey_sequence = d.survey_seq;
        action = ctx.action;
        payload = ctx.payload;
        user_id = ctx.user_id;
        group_id = ctx.group_id;
        voting_id = ctx.voting_id;
        survey_id = ctx.survey_id;
        created_at = now;
        prev_hash = prev_hash;
        group_prev_hash = group_prev_hash;
        voting_prev_hash = voting_prev_hash;
        survey_prev_hash = survey_prev_hash;
        hash = compute_hash p params;
      }

  -- `commits` is what the database answers to the transaction; a clash with a unique index aborts
  -- it too. An aborted transaction keeps the numbers that were drawn. The payload is stored as it was
  -- handed over.
  unfoldable pub process_append_internal :
      (now : ℕ) (commits : Bool) → ChainContext → AuditStore → Option AppendError × AuditStore
  unfolding draw new_block
  process_append_internal now commits ctx s =
      let (d, counters') = draw ctx s.counters in
      let b = new_block now ctx d s.chain in
      if not commits
      then (some AppendError.transaction_aborted, record s { counters = counters' })
      else if any (clashes b) s.chain
      then (some AppendError.duplicate_key, record s { counters = counters' })
      else (none, record s { chain = s.chain ++ b ∷ []; counters = counters' })

-- `onModuleInit`: SET audit_seq:global <last sequence> NX.
unfoldable pub on_module_init : AuditStore → AuditStore
unfolding find_last
on_module_init s = elim (find_last (number_of Scope.global) s.chain) [
  | none ↦ s
  | some b ↦
      let key = sequence_key Scope.global "" in
      if is_some (s.counters key)
      then s
      else record s { counters = λ k. if str_eq k key then some b.sequence else s.counters k }
]

set_hash : ℕ → String → List Block → List Block
set_hash sequence hash [] = []
set_hash sequence hash (b ∷ bs) =
    if b.sequence == sequence then record b { hash = hash } ∷ bs else b ∷ set_hash sequence hash bs

-- `tamper`: updateOne({ sequence }, { $set: { hash } })
unfoldable pub tamper : ℕ → String → AuditStore → AuditStore
unfolding set_hash
tamper sequence hash s = record s { chain = set_hash sequence hash s.chain }
