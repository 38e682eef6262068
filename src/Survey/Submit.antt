-- ===== src/Survey/Submit.antt =====
-- One response to a survey: what is checked, then what is written
-- (backend/src/surveys/submit.service.ts, submitResponse). Unlike a vote it takes no lock.
pub mod Stored
pub mod Outcome
pub mod Once
pub mod Overlap
use voting_secure.Base.{
  ℕ, String, Bool, true, false, not, Option, none, some, get_or, List, [], ◌∷◌, ◌++◌, map, filter,
  find?, any, length, is_some, str_eq, ◌&&◌, ◌||◌, ltb, if◌then◌else◌, concat, Result, ok, err,
  ◌>>=◌, ◌>>◌, guard, found,
}
use voting_secure.Crypto.Hex.{Hex}
use voting_secure.Crypto.Blind.{verify_blind_signature}
use voting_secure.Audit.Hash.{given}
use voting_secure.Audit.Types.{ChainAction, ChainContext, Value, Items, Fields}
use voting_secure.Groups.{find_membership}
use voting_secure.Redis.{Keys, increment, set_key}
use voting_secure.SigningKeys.{KeyStore, KeyInfo, KeyError, get_key}
use voting_secure.SigningKeys
use voting_secure.Vote.Types.{PendingBallot, VotePlatform, hex_text}
use voting_secure.Vote.Guards.{after}
use voting_secure.Vote.Cast.{texts}
use voting_secure.Survey.Types.{
  Survey, Question, SurveyOption, SurveyBallot, SurveyDatabase, SurveyCache, SurveyState,
  SurveyError, find_survey, find_pending,
}
use voting_secure.Survey.Types
use voting_secure.Survey.Answers.{
  BallotInput, QuestionEntry, Draft, Progress, going, stopped, Submission, check_questions,
  answer_ballots, survey_receipt, ◌>>>◌,
}

pub record SurveyRequest : Type 0 where
  pub survey_id : String
  pub user_id : String
  pub ballots : List BallotInput
  pub token : Option Hex
  pub signature : Option Hex
  pub is_abstention : Bool
  pub is_practice : Bool

-- What the outside answers to one call: the time, the ids of new rows, and whether the transaction,
-- the counters, the receipts' cache and what follows (the user, mail and broadcast) succeed.
pub record SurveyOutside : Type 0 where
  pub now : ℕ
  pub new_id : List SurveyOption → String
  pub commits : Bool
  pub counted : Bool
  pub cache_up : Bool
  pub followed_up : Bool

-- An empty text is falsy.
abbrev pub present : Option Hex → Option Hex
present none = none
present (some []) = none
present (some (d ∷ ds)) = some (d ∷ ds)

-- survey.endAt && now > survey.endAt
unfoldable pub check_survey : (now : ℕ) → SurveyRequest → SurveyDatabase → Result SurveyError Survey
unfolding find_membership
check_survey now req db = do
  survey ← found (find_survey req.survey_id db) Types.survey_not_found
  guard (not survey.is_finalized) Types.survey_finalized
  guard (req.is_practice || survey.is_public) Types.survey_closed
  guard (req.is_practice || not (after now survey.end_at)) Types.survey_ended
  guard (survey.is_public || is_some (find_membership req.user_id survey.group_id db.members))
      Types.not_a_member
  ok survey

abbrev pub of_other_survey : String → Option String → Bool
of_other_survey survey_id pending_id = elim (given pending_id) [
  | none ↦ false
  | some id ↦ not (str_eq id survey_id)
]

abbrev pub survey_key_of {ℓ} : {A : Type ℓ} → Result KeyError A → Result SurveyError A
survey_key_of (ok k) = ok k
survey_key_of (err e) = err (Types.key_failed e)

-- The token's hash, if there is a token, and whether the response is for practice.
pub record Credential : Type 0 where
  pub token_hash : Option String
  pub is_practice : Bool
  pub signature : Hex

-- What the checks leave for the rest; `known` are the options as they were read.
pub record Checked : Type 0 where
  pub survey : Survey
  pub credential : Credential
  pub known : List SurveyOption

pub record SurveySubmitted : Type 0 where
  pub receipts : List String
  pub is_practice : Bool

module _ (p : VotePlatform) where
  abbrev pub hash_survey_token : Hex → Result SurveyError String
  hash_survey_token token = do
    secret ← found (given p.token_hash_secret) Types.secret_unset
    ok (p.hmac_sha256 secret (hex_text token))

  unfoldable pub check_signed :
      (now : ℕ)
      → SurveyRequest
      → (token signature : Hex) → SurveyDatabase
      → KeyStore
      → Result SurveyError Credential
  unfolding get_key verify_blind_signature
  check_signed now req token signature db keys = do
    token_hash ← hash_survey_token token
    pending ← found (find_pending token_hash db) Types.invalid_token
    guard (not (of_other_survey req.survey_id pending.survey_id)) Types.invalid_token
    guard (not (ltb pending.expires_at now)) Types.token_expired
    key ← survey_key_of (get_key p.rsa p.rsa_key_size SigningKeys.survey req.survey_id keys)
    guard (verify_blind_signature p.rsa token signature key.public_key) Types.invalid_signature
    ok (record {
      token_hash = some token_hash;
      is_practice = pending.is_practice || req.is_practice;
      signature = signature;
    })

  -- if (token && signature) … else if (!isPractice)
  abbrev pub credential_by :
      (now : ℕ)
      → SurveyRequest
      → (token signature : Option Hex) → SurveyDatabase
      → KeyStore
      → Result SurveyError Credential
  credential_by now req (some t) (some g) db keys = check_signed now req t g db keys
  credential_by now req none g db keys = do
    guard req.is_practice Types.token_required
    ok (record { token_hash = none; is_practice = true; signature = get_or g [] })
  credential_by now req (some t) none db keys = do
    guard req.is_practice Types.token_required
    ok (record { token_hash = none; is_practice = true; signature = [] })

  unfoldable pub check_submission :
      (now : ℕ) → SurveyRequest → SurveyDatabase → KeyStore → Result SurveyError Checked
  unfolding check_survey check_signed check_questions
  check_submission now req db keys = do
    survey ← check_survey now req db
    credential ← credential_by now req (present req.token) (present req.signature) db keys
    if req.is_abstention then ok tt else check_questions req.ballots survey.questions
    ok (record { survey = survey; credential = credential; known = db.options })

  -- signature || userId
  abbrev pub submission_of : SurveyRequest → Checked → Submission
  submission_of req c = record {
    survey_id = req.survey_id;
    signer = elim (present req.signature) [ none ↦ req.user_id | some g ↦ hex_text g ];
    signature = c.credential.signature;
  }

  abbrev pub abstain : SurveyRequest → Submission → Draft → List SurveyOption → Progress
  abstain req sub d options =
      if not req.is_abstention then going d options else elim (survey_receipt p sub "abstention") [
        | err e ↦ stopped e options
        | ok receipt ↦ going (record d { receipts = d.receipts ++ receipt ∷ [] }) options
      ]

  -- The two loops and the abstention's receipt.
  unfoldable pub build :
      (new_id : List SurveyOption → String) → SurveyRequest → Checked → List SurveyOption → Progress
  unfolding answer_ballots
  build new_id req c options =
      answer_ballots p new_id (submission_of req c) c.known c.survey.questions req.ballots
        (record { receipts = []; ballots = []; answers = [] }) options
      >>> λ d options'. abstain req (submission_of req c) d options'

-- A ballot's hash is unique.
unfoldable pub create_survey_ballots :
    List SurveyBallot → List SurveyBallot → Option (List SurveyBallot)
create_survey_ballots [] stored = some stored
create_survey_ballots (b ∷ bs) stored =
    if any (λ c. str_eq c.ballot_hash b.ballot_hash) stored
    then none
    else create_survey_ballots bs (stored ++ b ∷ [])

abbrev pub delete_pending : Option String → List PendingBallot → List PendingBallot
delete_pending none ps = ps
delete_pending (some h) ps = filter (λ b. not (str_eq b.token_hash h)) ps

-- The transaction.
unfoldable pub store :
    (commits : Bool)
    → (is_abstention : Bool) (token_hash : Option String) → List SurveyBallot
    → SurveyDatabase
    → Result SurveyError SurveyDatabase
unfolding create_survey_ballots
store commits is_abstention token_hash ballots db = do
  stored ←
      found (if is_abstention then some db.ballots else create_survey_ballots ballots db.ballots)
        Types.write_failed
  guard commits Types.write_failed
  ok (record db {
    ballots = stored;
    pending_ballots = delete_pending token_hash db.pending_ballots;
  })

abbrev pub results_key : (survey_id field : String) → String
results_key survey_id field = concat ("survey:" ∷ survey_id ∷ ":results:" ∷ field ∷ [])

-- HINCRBY key field 1
abbrev pub hincrby : (key field : String) → (String → Keys ℕ) → String → Keys ℕ
hincrby key field m k = if str_eq k key then increment field (m k) else m k

abbrev pub count_ids : (key : String) → List String → (String → Keys ℕ) → String → Keys ℕ
count_ids key [] m = m
count_ids key (id ∷ ids) m = count_ids key ids (hincrby key id m)

abbrev pub count_answers :
    (survey_id : String) → List QuestionEntry → (String → Keys ℕ) → String → Keys ℕ
count_answers survey_id [] m = m
count_answers survey_id (a ∷ rest) m =
    let key = results_key survey_id a.question_id in
    let counted = count_ids key a.option_ids m in
    count_answers survey_id rest
      (if a.has_other then hincrby key "OTHER_COUNT" counted else counted)

abbrev pub responses_key : String → String
responses_key survey_id = concat ("survey:" ∷ survey_id ∷ ":responses" ∷ [])

unfoldable pub perform_survey_submission :
    (survey_id : String)
    → List QuestionEntry
    → (is_abstention is_practice : Bool) → SurveyCache
    → SurveyCache
unfolding increment
perform_survey_submission survey_id answers is_abstention is_practice r =
    if is_practice then r else record r {
      responses = increment (responses_key survey_id) r.responses;
      results =
          if is_abstention
          then hincrby (results_key survey_id "global") "ABSTENTION_COUNT" r.results
          else count_answers survey_id answers r.results;
    }

abbrev pub survey_ballot_cast : SurveyRequest → Survey → List String → ChainContext
survey_ballot_cast req survey receipts = record {
  action = ChainAction.survey_ballot_cast;
  payload = Value.obj (
      Fields.field "ballotHashes" (Value.arr (texts receipts)) (
        Fields.field "blindSignature" (Value.text (hex_text (get_or req.signature []))) (
          Fields.field "questionCount" (Value.num (length req.ballots))
            (Fields.field "isAbstention" (Value.bool req.is_abstention) Fields.end))));
  user_id = none;
  group_id = some survey.group_id;
  voting_id = none;
  survey_id = some req.survey_id;
}

abbrev pub receipts_key : (survey_id user_id : String) → String
receipts_key survey_id user_id = concat ("vote_receipts:" ∷ survey_id ∷ ":" ∷ user_id ∷ [])

-- After the transaction. Where the counters fail, or the user, mail or broadcast, the call throws with
-- the ballots written.
unfoldable pub follow_up_survey :
    SurveyOutside
    → SurveyRequest
    → Survey
    → Draft
    → SurveyDatabase
    → SurveyState
    → Result SurveyError SurveySubmitted × SurveyState
unfolding perform_survey_submission set_key
follow_up_survey out req survey d db s =
    if not out.counted
    then (err Types.cache_failed, record s { db = db })
    else let counted =
        perform_survey_submission req.survey_id d.answers req.is_abstention false s.cache in
      let cached =
        if out.cache_up
        then record counted {
          receipts = set_key (receipts_key req.survey_id req.user_id) d.receipts counted.receipts;
        }
        else counted in
      let s' = record s {
        db = db;
        cache = cached;
        appended = s.appended ++ survey_ballot_cast req survey d.receipts ∷ [];
      } in
      if out.followed_up
      then (ok (record { receipts = d.receipts; is_practice = false }), s')
      else (err Types.follow_up_failed, s')

abbrev pub with_options : List SurveyOption → SurveyState → SurveyState
with_options options s = record s { db = record s.db { options = options } }

-- What is made of a draft.
unfoldable pub persist_survey :
    SurveyOutside
    → SurveyRequest
    → Checked
    → Progress
    → SurveyState
    → Result SurveyError SurveySubmitted × SurveyState
unfolding store follow_up_survey
persist_survey out req c (stopped e options) s = (err e, with_options options s)
persist_survey out req c (going d options) s =
    if c.credential.is_practice
    then (ok (record { receipts = d.receipts; is_practice = true }), with_options options s)
    else elim (store out.commits req.is_abstention c.credential.token_hash d.ballots
        (record s.db { options = options })) [
          | err e ↦ (err e, with_options options s)
          | ok db ↦ follow_up_survey out req c.survey d db s
        ]

module _ (p : VotePlatform) where
  -- All that follows the checks.
  unfoldable pub finish :
      SurveyOutside
      → SurveyRequest
      → Checked
      → SurveyState
      → Result SurveyError SurveySubmitted × SurveyState
  unfolding build persist_survey
  finish out req c s = persist_survey out req c (build p out.new_id req c s.db.options) s

  unfoldable pub submit_response :
      SurveyOutside → SurveyRequest → SurveyState → Result SurveyError SurveySubmitted × SurveyState
  unfolding check_submission finish
  submit_response out req s = elim (check_submission p out.now req s.db s.keys) [
    | err e ↦ (err e, s)
    | ok c ↦ finish out req c s
  ]
