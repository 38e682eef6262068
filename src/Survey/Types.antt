-- ===== src/Survey/Types.antt =====
-- What the survey service keeps (backend/prisma/schema.prisma, backend/src/surveys/types) and the part
-- of Redis that it uses.
use voting_secure.Base.{
  ℕ, zero, suc, String, Bool, true, false, Option, none, some, List, find?, is_some, str_eq, not,
  ◌&&◌, ◌||◌, leb, ◌==◌, ◌≡◌, refl, if◌then◌else◌,
}
use Prim.Native.Char.{code}
use voting_secure.Crypto.Hex.{Hex}
use voting_secure.Groups.{Membership}
use voting_secure.Redis.{Keys}
use voting_secure.SigningKeys.{KeyStore, KeyError}
use voting_secure.Audit.Types.{ChainContext}
use voting_secure.Vote.Types.{PendingBallot}

pub data QuestionType : Type 0 where
  single_choice multiple_choice scale freeform : QuestionType

pub record ChoiceConfig : Type 0 where
  pub allow_other : Bool
  pub allow_multiple : Bool
  pub min_choices : Option ℕ
  pub max_choices : Option ℕ

pub record Question : Type 0 where
  pub id : String
  pub type : QuestionType
  pub text : String
  pub is_required : Bool
  pub choice_config : Option ChoiceConfig

pub record SurveyOption : Type 0 where
  pub id : String
  pub question_id : String
  pub text : String
  pub is_dynamic : Bool

pub record Survey : Type 0 where
  pub id : String
  pub title : String
  pub group_id : String
  pub is_public : Bool
  pub is_finalized : Bool
  pub finalized_at : Option ℕ
  pub end_at : Option ℕ
  pub deleted_at : Option ℕ
  pub questions : List Question

pub record SurveyBallot : Type 0 where
  pub question_id : String
  pub option_id : String
  pub ballot_hash : String
  pub blind_signature : Hex

pub record SurveyParticipation : Type 0 where
  pub user_id : String
  pub survey_id : String
  pub created_at : ℕ

-- `tally` is the encrypted text.
pub record SurveyResult : Type 0 where
  pub survey_id : String
  pub tally : String
  pub total_responses : ℕ
  pub tally_hash : String
  pub sealed_at : ℕ

pub record SurveyDatabase : Type 0 where
  pub surveys : List Survey
  pub options : List SurveyOption
  pub ballots : List SurveyBallot
  pub pending_ballots : List PendingBallot
  pub participations : List SurveyParticipation
  pub results : List SurveyResult
  pub members : List Membership

-- `results` is a hash for each key.
pub record SurveyCache : Type 0 where
  pub responses : Keys ℕ
  pub results : String → Keys ℕ
  pub receipts : Keys (List String)

-- `appended` are the entries that `appendChain` was called with.
pub record SurveyState : Type 0 where
  pub db : SurveyDatabase
  pub cache : SurveyCache
  pub keys : KeyStore
  pub appended : List ChainContext

pub data SurveyError : Type 0 where
  survey_not_found survey_finalized survey_closed survey_ended not_a_member : SurveyError
  invalid_token token_expired invalid_signature token_required secret_unset : SurveyError
  question_required : String → SurveyError
  too_few too_many : String → ℕ → SurveyError
  invalid_option : (option_id text : String) → SurveyError
  key_failed : KeyError → SurveyError
  write_failed cache_failed follow_up_failed : SurveyError
  already_participated signing_failed already_finalized not_ended not_secure : SurveyError

-- findUnique({ where: { id, deletedAt: null } })
abbrev pub find_survey : String → SurveyDatabase → Option Survey
find_survey id db = find? (λ v. str_eq v.id id && not (is_some v.deleted_at)) db.surveys

abbrev pub find_pending : String → SurveyDatabase → Option PendingBallot
find_pending token_hash db = find? (λ b. str_eq b.token_hash token_hash) db.pending_ballots

abbrev pub check_participation :
    (user_id survey_id : String) → SurveyDatabase → Option SurveyParticipation
check_participation user_id survey_id db =
    find? (λ q. str_eq q.user_id user_id && str_eq q.survey_id survey_id) db.participations

-- [0-9a-f], in either case
abbrev pub is_hex_digit : ℕ → Bool
is_hex_digit c = (leb 48 c && leb c 57) || (leb 65 c && leb c 70) || (leb 97 c && leb c 102)

-- What follows `n` hexadecimal digits.
unfoldable pub after_digits : ℕ → String → Option String
after_digits zero t = some t
after_digits (suc n) String.[] = none
after_digits (suc n) (String.◌∷◌ c t) = if is_hex_digit (code c) then after_digits n t else none

-- … and a dash.
unfoldable pub after_dash : ℕ → Option String → Option String
unfolding after_digits
after_dash n none = none
after_dash n (some t) = elim (after_digits n t) [
  | none ↦ none
  | some String.[] ↦ none
  | some (String.◌∷◌ c rest) ↦ if code c == 45 then some rest else none
]

abbrev pub is_digits : ℕ → Option String → Bool
is_digits n none = false
is_digits n (some t) = elim (after_digits n t) [ none ↦ false | some rest ↦ str_eq rest "" ]

-- /^[0-9a-f]{8}-[0-9a-f]{4}-[0-9a-f]{4}-[0-9a-f]{4}-[0-9a-f]{12}$/i
unfoldable pub is_uuid : String → Bool
unfolding after_dash after_digits
is_uuid t = is_digits 12 (after_dash 4 (after_dash 4 (after_dash 4 (after_dash 8 (some t)))))

uuid_runs : is_uuid "0f8Fad5b-d9cb-469f-a165-70867728950e" ≡ true
unfolding is_uuid
uuid_runs = refl

uuid_not_runs : is_uuid "5" ≡ false
unfolding is_uuid
uuid_not_runs = refl
