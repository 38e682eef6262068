-- ===== src/Vote/Change.antt =====
-- The rows that the administration of votings writes: what a request makes of a voting and of its
-- options (backend/src/votings/votings.service.ts, backend/src/votings/votings.repository.ts).
use voting_secure.Base.{
  ℕ, String, Bool, true, false, not, Option, none, some, get_or, List, [], ◌∷◌, map, str_eq, ltb,
  ◌==◌, ◌&&◌, if◌then◌else◌,
}
use voting_secure.Vote.Types.{VotingType, single_choice, multiple_choice, Voting, VotingOption}

pub record NewVoting : Type 0 where
  pub title : String
  pub description : Option String
  pub group_id : String
  pub type : Option VotingType
  pub is_public : Option Bool
  pub allow_other : Option Bool
  pub allow_abstain : Option Bool
  pub min_choices : Option ℕ
  pub max_choices : Option ℕ
  pub start_at : Option ℕ
  pub end_at : Option ℕ
  pub options : List String
  pub broadcast_interval : Option ℕ

pub record VotingChange : Type 0 where
  pub title : Option String
  pub description : Option String
  pub type : Option VotingType
  pub is_public : Option Bool
  pub allow_other : Option Bool
  pub min_choices : Option ℕ
  pub max_choices : Option ℕ
  pub start_at : Option ℕ
  pub end_at : Option ℕ
  pub broadcast_interval : Option ℕ

abbrev pub is_multiple_choice : VotingType → Bool
is_multiple_choice multiple_choice = true
is_multiple_choice single_choice = false

-- dto.minChoices && dto.maxChoices && dto.minChoices > dto.maxChoices
abbrev pub min_exceeds : (min max : Option ℕ) → Bool
min_exceeds (some a) (some b) = not (a == 0) && (not (b == 0) && ltb b a)
min_exceeds _ _ = false

abbrev pub new_voting : (now : ℕ) (new_id user_id : String) → NewVoting → Voting
new_voting now new_id user_id dto = record {
  id = new_id;
  title = dto.title;
  description = dto.description;
  creator_id = user_id;
  group_id = dto.group_id;
  type = get_or dto.type single_choice;
  is_public = get_or dto.is_public false;
  is_finalized = false;
  finalized_at = none;
  allow_other = get_or dto.allow_other false;
  allow_abstain = get_or dto.allow_abstain true;
  min_choices = get_or dto.min_choices 1;
  max_choices = dto.max_choices;
  start_at = dto.start_at;
  end_at = dto.end_at;
  deleted_at = none;
  created_at = now;
  broadcast_interval = get_or dto.broadcast_interval 1;
  last_broadcast_at = some now;
}

-- options: { create: options.map((text) => ({ text })) }, each with an id of the database.
abbrev pub new_options : (voting_id : String) → List (String × String) → List VotingOption
new_options voting_id texts =
    map (λ t. record { id = t.0; text = t.1; voting_id = voting_id; is_dynamic = false }) texts

abbrev pub with_ids : (ids texts : List String) → List (String × String)
with_ids (i ∷ ids) (t ∷ texts) = (i, t) ∷ with_ids ids texts
with_ids _ _ = []

-- A field that the request does not name stays; the type stays in any case.
abbrev pub changed : VotingChange → Voting → Voting
changed c v = record v {
  title = get_or c.title v.title;
  description = elim c.description [ none ↦ v.description | some t ↦ some t ];
  is_public = get_or c.is_public v.is_public;
  allow_other = get_or c.allow_other v.allow_other;
  min_choices = get_or c.min_choices v.min_choices;
  max_choices = elim c.max_choices [ none ↦ v.max_choices | some n ↦ some n ];
  start_at = elim c.start_at [ none ↦ v.start_at | some t ↦ some t ];
  end_at = elim c.end_at [ none ↦ v.end_at | some t ↦ some t ];
  broadcast_interval = get_or c.broadcast_interval v.broadcast_interval;
}

-- voting.update({ where: { id } })
unfoldable pub change_voting : String → (Voting → Voting) → List Voting → List Voting
change_voting id f vs = map (λ v. if str_eq v.id id then f v else v) vs

-- option.update({ where: { id } })
unfoldable pub rename_option : (id text : String) → List VotingOption → List VotingOption
rename_option id text os = map (λ o. if str_eq o.id id then record o { text = text } else o) os

abbrev pub soft_deleted : (now : ℕ) → Voting → Voting
soft_deleted now v = record v { deleted_at = some now }
