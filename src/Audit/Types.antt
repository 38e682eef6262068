-- ===== src/Audit/Types.antt =====
-- The data of the audit chain (backend/src/audit/types/audit.types.ts and
-- backend/src/audit/schemas/): actions, payload values, blocks, what is appended, and what a
-- verification reports. Ids, hashes and texts are texts; dates are milliseconds since 1970.
use voting_secure.Base.{ℕ, String, Bool, Option, str_eq}

pub data ChainAction : Type 0 where
  voting_created voting_opened voting_closed voting_finalized voting_deleted option_added :
      ChainAction
  option_updated option_removed ballot_cast voting_token_issued blind_signature_issued : ChainAction
  voting_result_sealed survey_created survey_opened survey_closed survey_finalized : ChainAction
  survey_deleted survey_token_issued survey_ballot_cast survey_result_sealed : ChainAction
  user_role_changed group_created group_deleted member_added member_removed group_updated :
      ChainAction
  survey_updated voting_updated : ChainAction

-- The text that an action has in the database.
abbrev pub action_text : ChainAction → String
action_text voting_created = "VOTING_CREATED"
action_text voting_opened = "VOTING_OPENED"
action_text voting_closed = "VOTING_CLOSED"
action_text voting_finalized = "VOTING_FINALIZED"
action_text voting_deleted = "VOTING_DELETED"
action_text option_added = "OPTION_ADDED"
action_text option_updated = "OPTION_UPDATED"
action_text option_removed = "OPTION_REMOVED"
action_text ballot_cast = "BALLOT_CAST"
action_text voting_token_issued = "VOTING_TOKEN_ISSUED"
action_text blind_signature_issued = "BLIND_SIGNATURE_ISSUED"
action_text voting_result_sealed = "VOTING_RESULT_SEALED"
action_text survey_created = "SURVEY_CREATED"
action_text survey_opened = "SURVEY_OPENED"
action_text survey_closed = "SURVEY_CLOSED"
action_text survey_finalized = "SURVEY_FINALIZED"
action_text survey_deleted = "SURVEY_DELETED"
action_text survey_token_issued = "SURVEY_TOKEN_ISSUED"
action_text survey_ballot_cast = "SURVEY_BALLOT_CAST"
action_text survey_result_sealed = "SURVEY_RESULT_SEALED"
action_text user_role_changed = "USER_ROLE_CHANGED"
action_text group_created = "GROUP_CREATED"
action_text group_deleted = "GROUP_DELETED"
action_text member_added = "MEMBER_ADDED"
action_text member_removed = "MEMBER_REMOVED"
action_text group_updated = "GROUP_UPDATED"
action_text survey_updated = "SURVEY_UPDATED"
action_text voting_updated = "VOTING_UPDATED"

-- `===` on actions compares their texts.
abbrev pub action_eq : ChainAction → ChainAction → Bool
action_eq a b = str_eq (action_text a) (action_text b)

-- A payload is a JavaScript value; its numbers are counts, sequences and the like.
mutual
  pub data Value : Type 0 where
    null undefined : Value
    date : ℕ → Value
    num : ℕ → Value
    bool : Bool → Value
    text : String → Value
    obj : Fields → Value
    arr : Items → Value

  -- The own fields of an object, in the order of their insertion.
  pub data Fields : Type 0 where
    end : Fields
    field : String → Value → Fields → Fields

  pub data Items : Type 0 where
    nil : Items
    cons : Value → Items → Items

pub record Block : Type 0 where
  pub sequence : ℕ
  pub group_sequence : Option ℕ
  pub voting_sequence : Option ℕ
  pub survey_sequence : Option ℕ
  pub action : ChainAction
  pub payload : Value
  pub user_id : Option String
  pub group_id : Option String
  pub voting_id : Option String
  pub survey_id : Option String
  pub created_at : ℕ
  pub prev_hash : String
  pub group_prev_hash : Option String
  pub voting_prev_hash : Option String
  pub survey_prev_hash : Option String
  pub hash : String

-- `AuditChainContext`, what a service hands over to be appended.
pub record ChainContext : Type 0 where
  pub action : ChainAction
  pub payload : Value
  pub user_id : Option String
  pub group_id : Option String
  pub voting_id : Option String
  pub survey_id : Option String

pub data Scope : Type 0 where
  global group voting survey : Scope

abbrev pub scope_text : Scope → String
scope_text global = "global"
scope_text group = "group"
scope_text voting = "voting"
scope_text survey = "survey"
