-- ===== src/Audit/Hash.antt =====
-- `computeHash` and `genesisHash` (backend/src/audit/audit.service.ts). The digest and the date
-- format are those of Node, and the seed is an environment variable: the model's parameters.
use voting_secure.Base.{
  ℕ, String, Option, none, some, [], ◌∷◌, str_eq, concat, join, number_text, if◌then◌else◌,
}
use voting_secure.Audit.Types.{Block, ChainAction, action_text, Value, Scope, scope_text}
use voting_secure.Audit.Serialize.{serialize}

pub record Platform : Type 0 where
  -- crypto.createHash('sha256').update(data, 'utf8').digest('hex')
  pub sha256 : String → String
  pub to_iso_string : ℕ → String
  pub genesis_seed : String

pub record HashParams : Type 0 where
  pub prev_hash : String
  pub sequence : ℕ
  pub group_sequence : Option ℕ
  pub voting_sequence : Option ℕ
  pub survey_sequence : Option ℕ
  pub group_prev_hash : Option String
  pub voting_prev_hash : Option String
  pub survey_prev_hash : Option String
  pub action : ChainAction
  pub payload : Value
  pub created_at : ℕ

-- The parameters that a verification reads back from a block.
abbrev pub params_of : Block → HashParams
params_of b = record {
  prev_hash = b.prev_hash;
  sequence = b.sequence;
  group_sequence = b.group_sequence;
  voting_sequence = b.voting_sequence;
  survey_sequence = b.survey_sequence;
  group_prev_hash = b.group_prev_hash;
  voting_prev_hash = b.voting_prev_hash;
  survey_prev_hash = b.survey_prev_hash;
  action = b.action;
  payload = b.payload;
  created_at = b.created_at;
}

-- `x != null ? String(x) : ''` and `h ?? ''`
abbrev pub optional_number : Option ℕ → String
optional_number none = ""
optional_number (some n) = number_text n

abbrev pub optional_text : Option String → String
optional_text none = ""
optional_text (some s) = s

-- An id that is null or empty counts as not given.
abbrev pub given : Option String → Option String
given none = none
given (some s) = if str_eq s "" then none else some s

module _ (p : Platform) where
  -- The text that is hashed.
  unfoldable pub hash_data : HashParams → String
  hash_data h = join "|" (
      h.prev_hash
      ∷ number_text h.sequence
      ∷ optional_number h.group_sequence
      ∷ optional_number h.voting_sequence
      ∷ optional_number h.survey_sequence
      ∷ optional_text h.group_prev_hash
      ∷ optional_text h.voting_prev_hash
      ∷ optional_text h.survey_prev_hash
      ∷ action_text h.action
      ∷ serialize p.to_iso_string h.payload
      ∷ p.to_iso_string h.created_at
      ∷ [])

  unfoldable pub compute_hash : HashParams → String
  compute_hash h = p.sha256 (hash_data h)

  unfoldable pub genesis_hash : Scope → Option String → String
  genesis_hash scope scope_id = elim (given scope_id) [
    | none ↦ p.sha256 p.genesis_seed
    | some id ↦ p.sha256 (concat (p.genesis_seed ∷ ":" ∷ scope_text scope ∷ ":" ∷ id ∷ []))
  ]
