-- ===== src/Audit/Store.antt =====
-- What the audit service keeps: the collections `audit_chain`, `audit_verification` and
-- `audit_checkpoint` of MongoDB, and the counters in Redis; with the queries that it makes of them.
pub mod Sorting
pub mod Keys
use voting_secure.Base.{
  ℕ, suc, ◌+◌, String, Bool, true, false, Option, none, some, get_or, List, [], ◌∷◌, ◌&&◌, str_eq,
  opt_eq, is_some, ltb, concat, if◌then◌else◌,
}
use voting_secure.Audit.Types.{Block, Scope, scope_text}
use voting_secure.Audit.Hash.{given}

pub record Verification : Type 0 where
  pub scope : Scope
  pub scope_id : Option String
  pub last_verified_sequence : ℕ
  pub last_full_verification_at : Option ℕ
  pub updated_at : ℕ

pub record Checkpoint : Type 0 where
  pub scope : Scope
  pub scope_id : Option String
  pub sequence : ℕ
  pub hash : String
  pub created_at : ℕ

-- Redis counters by key; a missing key counts as 0.
abbrev pub Counters : Type 0
Counters = String → Option ℕ

pub record AuditStore : Type 0 where
  pub chain : List Block
  pub verifications : List Verification
  pub checkpoints : List Checkpoint
  pub counters : Counters

abbrev pub scope_eq : Scope → Scope → Bool
scope_eq a b = str_eq (scope_text a) (scope_text b)

-- The fields `${scope}Id`, `${scope}Sequence` and `${scope}PrevHash`; for the global scope the
-- block's own sequence and prevHash.
abbrev pub scoped_id : Scope → Block → Option String
scoped_id Scope.global b = none
scoped_id Scope.group b = b.group_id
scoped_id Scope.voting b = b.voting_id
scoped_id Scope.survey b = b.survey_id

abbrev pub scoped_sequence : Scope → Block → Option ℕ
scoped_sequence Scope.global b = some b.sequence
scoped_sequence Scope.group b = b.group_sequence
scoped_sequence Scope.voting b = b.voting_sequence
scoped_sequence Scope.survey b = b.survey_sequence

abbrev pub scoped_prev_hash : Scope → Block → Option String
scoped_prev_hash Scope.global b = some b.prev_hash
scoped_prev_hash Scope.group b = b.group_prev_hash
scoped_prev_hash Scope.voting b = b.voting_prev_hash
scoped_prev_hash Scope.survey b = b.survey_prev_hash

abbrev pub number_of : Scope → Block → ℕ
number_of scope b = get_or (scoped_sequence scope b) 0

-- { [`${scope}Id`]: id, [`${scope}Sequence`]: { $ne: null } }
abbrev pub in_entity : Scope → String → Block → Bool
in_entity scope id b = opt_eq (scoped_id scope b) (some id) && is_some (scoped_sequence scope b)

-- The filter that is empty for the global scope and for an id that is not given.
abbrev pub in_scope : Scope → Option String → Block → Bool
in_scope Scope.global id b = true
in_scope scope id b = elim (given id) [ none ↦ true | some i ↦ in_entity scope i b ]

-- The sort field beside that filter.
abbrev pub sort_key : Scope → Option String → Block → ℕ
sort_key Scope.global id b = b.sequence
sort_key scope id b = elim (given id) [ none ↦ b.sequence | some i ↦ number_of scope b ]

-- `findOne(...).sort({ key: -1 })`: a document with the greatest key.
unfoldable pub find_last : (Block → ℕ) → List Block → Option Block
find_last key [] = none
find_last key (b ∷ bs) = elim (find_last key bs) [
  | none ↦ some b
  | some c ↦ if ltb (key c) (key b) then some b else some c
]

unfoldable pub insert_block : (Block → ℕ) → Block → List Block → List Block
insert_block key b [] = b ∷ []
insert_block key b (c ∷ bs) = if ltb (key c) (key b) then c ∷ insert_block key b bs else b ∷ c ∷ bs

-- `find(...).sort({ key: 1 })`
unfoldable pub sort_blocks : (Block → ℕ) → List Block → List Block
unfolding insert_block
sort_blocks key [] = []
sort_blocks key (b ∷ bs) = insert_block key b (sort_blocks key bs)

-- The key of a scope's sequence counter in Redis.
abbrev pub sequence_key : Scope → String → String
sequence_key Scope.global id = "audit_seq:global"
sequence_key scope id = concat ("audit_seq:" ∷ scope_text scope ∷ ":" ∷ id ∷ [])

-- INCR: the new value, and the counters after it.
unfoldable pub incr : String → Counters → ℕ × Counters
incr key counters =
    let n = suc (get_or (counters key) 0) in (n, λ k. if str_eq k key then some n else counters k)
