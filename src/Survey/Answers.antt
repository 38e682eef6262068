-- ===== src/Survey/Answers.antt =====
-- The answers of one response: what is asked of them, and the ballots, receipts and counts that are
-- made of them (backend/src/surveys/submit.service.ts, submitResponse).
pub mod Valid
pub mod Grow
use voting_secure.Base.{
  ℕ, ◌+◌, String, Bool, true, false, not, Option, none, some, get_or, List, [], ◌∷◌, ◌++◌, map,
  filter, find?, any, length, is_some, str_eq, ◌&&◌, ◌||◌, ltb, leb, ◌==◌, if◌then◌else◌, concat,
  trim, Result, ok, err, ◌>>=◌, ◌>>◌, guard, found,
}
use voting_secure.Crypto.Hex.{Hex}
use voting_secure.Audit.Hash.{given}
use voting_secure.Vote.Types.{VotePlatform, hex_text}
use voting_secure.Survey.Types.{
  QuestionType, multiple_choice, freeform, ChoiceConfig, Question, SurveyOption, SurveyBallot,
  SurveyError, is_uuid,
}
use voting_secure.Survey.Types

-- `option_ids` is empty and `text` is the empty text where the input leaves them out.
pub record BallotInput : Type 0 where
  pub question_id : String
  pub option_ids : List String
  pub text : String

abbrev pub is_multiple : QuestionType → Bool
is_multiple multiple_choice = true
is_multiple _ = false

abbrev pub is_freeform : QuestionType → Bool
is_freeform freeform = true
is_freeform _ = false

-- ballots.find((b) => b.questionId === question.id)
abbrev pub ballot_of : Question → List BallotInput → Option BallotInput
ballot_of q ballots = find? (λ b. str_eq b.question_id q.id) ballots

abbrev pub selected : Option BallotInput → List String
selected none = []
selected (some b) = b.option_ids

abbrev pub has_response : Option BallotInput → Bool
has_response none = false
has_response (some b) = ltb 0 (length b.option_ids) || not (str_eq (trim b.text) "")

abbrev pub below : ℕ → Option ℕ → Bool
below n none = false
below n (some m) = ltb n m

abbrev pub above : ℕ → Option ℕ → Bool
above n none = false
above n (some m) = ltb m n

abbrev pub limits_of : Question → Bool → Option ChoiceConfig
limits_of q responded = if responded && is_multiple q.type then q.choice_config else none

unfoldable pub check_limits : Question → ℕ → Option ChoiceConfig → Result SurveyError (Unit {0})
check_limits q count none = ok tt
check_limits q count (some c) = do
  guard (not (below count c.min_choices)) (Types.too_few q.text (get_or c.min_choices 0))
  guard (not (above count c.max_choices)) (Types.too_many q.text (get_or c.max_choices 0))

unfoldable pub check_question : List BallotInput → Question → Result SurveyError (Unit {0})
unfolding check_limits
check_question ballots q = do
  let ballot = ballot_of q ballots
  guard (not (q.is_required && not (has_response ballot))) (Types.question_required q.text)
  check_limits q (length (selected ballot)) (limits_of q (has_response ballot))

unfoldable pub check_questions : List BallotInput → List Question → Result SurveyError (Unit {0})
unfolding check_question
check_questions ballots [] = ok tt
check_questions ballots (q ∷ qs) = do check_question ballots q; check_questions ballots qs

-- An entry of the map from questions to what is counted for them.
pub record QuestionEntry : Type 0 where
  pub question_id : String
  pub option_ids : List String
  pub has_other : Bool

pub record Draft : Type 0 where
  pub receipts : List String
  pub ballots : List SurveyBallot
  pub answers : List QuestionEntry

-- The loop goes on, or it has thrown; options that were created stay.
pub data Progress : Type 0 where
  going : Draft → List SurveyOption → Progress
  stopped : SurveyError → List SurveyOption → Progress

infixl 5 ◌>>>◌
abbrev pub ◌>>>◌ : Progress → (Draft → List SurveyOption → Progress) → Progress
going d options >>> next = next d options
stopped e options >>> next = stopped e options

-- A map keeps the order of first insertion.
unfoldable pub ensure_entry : String → List QuestionEntry → List QuestionEntry
ensure_entry id answers =
    if any (λ a. str_eq a.question_id id) answers
    then answers
    else answers ++ record { question_id = id; option_ids = []; has_other = false } ∷ []

abbrev pub update_entry :
    String → (QuestionEntry → QuestionEntry) → List QuestionEntry → List QuestionEntry
update_entry id f answers = map (λ a. if str_eq a.question_id id then f a else a) answers

-- getOrCreateDynamicOption; `new_id` is the id that the database gives to a new row.
unfoldable pub get_or_create_dynamic_option :
    (new_id : List SurveyOption → String) (question_id text : String)
    → List SurveyOption
    → String × List SurveyOption
get_or_create_dynamic_option new_id question_id text options =
    elim (find? (λ o. str_eq o.question_id question_id && str_eq o.text text) options) [
      | some o ↦ (o.id, options)
      | none ↦ (
        new_id options,
        options
            ++ record {
              id = new_id options;
              question_id = question_id;
              text = text;
              is_dynamic = true;
            }
              ∷ [],
      )
    ]

-- `signer` is the text of `signature || userId`.
pub record Submission : Type 0 where
  pub survey_id : String
  pub signer : String
  pub signature : Hex

module _ (p : VotePlatform) where
  -- `CryptoUtils.generateBallotReceipt`
  abbrev pub survey_receipt : Submission → (option_id : String) → Result SurveyError String
  survey_receipt sub option_id = do
    secret ← found (given p.ballot_secret) Types.secret_unset
    ok (p.hmac_sha256 secret (concat (sub.survey_id ∷ ":" ∷ option_id ∷ ":" ∷ sub.signer ∷ [])))

  -- The receipt and the ballot of one option, and what is counted.
  unfoldable pub push :
      Submission
      → (question_id option_id : String) → (QuestionEntry → QuestionEntry)
      → Draft
      → List SurveyOption
      → Progress
  push sub question_id option_id count d options = elim (survey_receipt sub option_id) [
    | err e ↦ stopped e options
    | ok receipt ↦
        going
          (record {
            receipts = d.receipts ++ receipt ∷ [];
            ballots =
                d.ballots
                ++ record {
                  question_id = question_id;
                  option_id = option_id;
                  ballot_hash = receipt;
                  blind_signature = sub.signature;
                }
                  ∷ [];
            answers = update_entry question_id count d.answers;
          })
          options
  ]

  abbrev pub count_option : String → QuestionEntry → QuestionEntry
  count_option id a = record a { option_ids = a.option_ids ++ id ∷ [] }

  abbrev pub count_other : QuestionEntry → QuestionEntry
  count_other a = record a { has_other = true }

  module _ (new_id : List SurveyOption → String) (sub : Submission)
      (known : List SurveyOption) where
    -- A UUID is one of the question's options, as they were when the survey was read; any other text
    -- is a dynamic option's.
    unfoldable pub answer_option : Question → String → Draft → List SurveyOption → Progress
    unfolding push get_or_create_dynamic_option
    answer_option q id d options =
        if is_uuid id
        then if any (λ o. str_eq o.question_id q.id && str_eq o.id id) known
          then push sub q.id id (count_option id) d options
          else stopped (Types.invalid_option id q.text) options
        else let (own, options') = get_or_create_dynamic_option new_id q.id id options in
          push sub q.id own (count_option own) d options'

    unfoldable pub answer_options : Question → List String → Draft → List SurveyOption → Progress
    unfolding answer_option
    answer_options q [] d options = going d options
    answer_options q (id ∷ ids) d options =
        answer_option q id d options >>> λ d' options'. answer_options q ids d' options'

    -- A free text, or the "Other" of a choice.
    unfoldable pub answer_text : Question → String → Draft → List SurveyOption → Progress
    unfolding push get_or_create_dynamic_option
    answer_text q text d options =
        if str_eq text ""
        then going d options
        else let (own, options') = get_or_create_dynamic_option new_id q.id text options in
          push sub q.id own (if is_freeform q.type then count_option own else count_other) d
            options'

    -- An answer to no question of the survey is passed over.
    unfoldable pub answer_ballot :
        List Question → BallotInput → Draft → List SurveyOption → Progress
    unfolding answer_options answer_text ensure_entry
    answer_ballot qs b d options = elim (find? (λ q. str_eq q.id b.question_id) qs) [
      | none ↦ going d options
      | some q ↦
          answer_options q b.option_ids
            (record d { answers = ensure_entry b.question_id d.answers }) options
          >>> λ d' options'. answer_text q b.text d' options'
    ]

    unfoldable pub answer_ballots :
        List Question → List BallotInput → Draft → List SurveyOption → Progress
    unfolding answer_ballot
    answer_ballots qs [] d options = going d options
    answer_ballots qs (b ∷ bs) d options =
        answer_ballot qs b d options >>> λ d' options'. answer_ballots qs bs d' options'
