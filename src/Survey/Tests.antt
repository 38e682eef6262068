-- ===== src/Survey/Tests.antt =====
-- A survey with one question, and Ann's response to it, under the RSA key n = 33, e = 3, d = 7.
use voting_secure.Base.{
  ◌≡◌, ◌↔◌, refl, true, false, none, some, List, [], ◌∷◌, String, ok, err, All, number_text,
}
use voting_secure.Crypto.Hex.{hex_value}
use voting_secure.Crypto.Power.{mod_pow}
use voting_secure.Vote.Tests.{test_platform}
use voting_secure.Vote.Types.{PendingBallot}
use voting_secure.Survey.Types.{
  QuestionType, Question, Survey, SurveyOption, SurveyBallot, SurveyState, SurveyError, is_uuid,
}
use voting_secure.Survey.Types
use voting_secure.Survey.Answers.{check_questions}
use voting_secure.Survey.Answers.Valid.{IsAnswered, check_questions-IsAnswered_iff}
use voting_secure.Survey.Submit.{
  SurveyRequest, SurveyOutside, Checked, submit_response, finish, check_submission,
}
use voting_secure.Survey.Submit.Once.{SurveyCall, submit_all, submit_response-once}
use voting_secure.Survey.Submit.Overlap.{seen, with_pending, finish-ignores_token}

abbrev best_colours : Question
best_colours = record {
  id = "q";
  type = QuestionType.multiple_choice;
  text = "Colours?";
  is_required = true;
  choice_config = some (record {
    allow_other = true;
    allow_multiple = true;
    min_choices = some 1;
    max_choices = some 2;
  });
}

abbrev test_survey : Survey
test_survey = record {
  id = "s";
  title = "Colours";
  group_id = "g";
  is_public = true;
  is_finalized = false;
  finalized_at = none;
  end_at = some 100;
  deleted_at = none;
  questions = best_colours ∷ [];
}

abbrev ann_pending : PendingBallot
ann_pending = record {
  token_hash = "7#";
  user_id = "ann";
  voting_id = none;
  survey_id = some "s";
  is_practice = false;
  blind_sig = [];
  expires_at = 50;
}

abbrev red : String
red = "0f8fad5b-d9cb-469f-a165-70867728950e"

abbrev survey_state : SurveyState
survey_state = record {
  db = record {
    surveys = test_survey ∷ [];
    options = record { id = red; question_id = "q"; text = "Red"; is_dynamic = false } ∷ [];
    ballots = [];
    pending_ballots = ann_pending ∷ [];
    participations = [];
    results = [];
    members = [];
  };
  cache = record { responses = λ k. none; results = λ k f. none; receipts = λ k. none };
  keys = record {
    rows = record { voting_id = none; survey_id = some "s"; public_key = "public" } ∷ [];
    environment = λ k. none;
  };
  appended = [];
}

abbrev survey_outside : SurveyOutside
survey_outside = record {
  now = 10;
  new_id = λ options. "new";
  commits = true;
  counted = true;
  cache_up = true;
  followed_up = true;
}

abbrev respond : List String → SurveyRequest
respond ids = record {
  survey_id = "s";
  user_id = "ann";
  ballots = record { question_id = "q"; option_ids = ids; text = "" } ∷ [];
  token = some (7 ∷ []);
  signature = some (1 ∷ 12 ∷ []);
  is_abstention = false;
  is_practice = false;
}

abbrev red_receipt : String
red_receipt = "s:0f8fad5b-d9cb-469f-a165-70867728950e:1c!"

respond_runs :
    (submit_response test_platform survey_outside (respond (red ∷ [])) survey_state).0
    ≡ ok (record { receipts = red_receipt ∷ []; is_practice = false })
unfolding submit_response is_uuid number_text mod_pow hex_value
respond_runs = refl

-- An option is created by any text that is no UUID.
dynamic_runs :
    (submit_response test_platform survey_outside (respond ("blue" ∷ [])) survey_state).1.db.options
    ≡ record { id = red; question_id = "q"; text = "Red"; is_dynamic = false }
      ∷ record { id = "new"; question_id = "q"; text = "blue"; is_dynamic = true }
      ∷ []
unfolding submit_response is_uuid number_text mod_pow hex_value
dynamic_runs = refl

-- One option twice gives one hash twice.
twice_runs :
    (submit_response test_platform survey_outside (respond (red ∷ red ∷ [])) survey_state).0
    ≡ err Types.write_failed
unfolding submit_response is_uuid number_text mod_pow hex_value
twice_runs = refl

abbrev checked : Checked
checked = record {
  survey = test_survey;
  credential = record { token_hash = some "7#"; is_practice = false; signature = 1 ∷ 12 ∷ [] };
  known = survey_state.db.options;
}

checks_run :
    check_submission test_platform 10 (respond ("blue" ∷ [])) survey_state.db survey_state.keys
    ≡ ok checked
unfolding check_submission number_text mod_pow hex_value
checks_run = refl

-- Two responses with one token that overlap: both are stored.
overlap_runs :
    (finish test_platform survey_outside
      (respond ("blue" ∷ []))
      checked
      (submit_response test_platform survey_outside (respond (red ∷ [])) survey_state).1).0
    ≡ ok (record { receipts = "s:new:1c!" ∷ []; is_practice = false })
unfolding submit_response is_uuid number_text mod_pow hex_value
overlap_runs = refl

abbrev again : SurveyCall
again = record { outside = survey_outside; request = respond (red ∷ []) }

submit_response-once_example :
    (e : SurveyError) × (submit_response test_platform survey_outside (respond ("blue" ∷ [])) (
        submit_all test_platform
          (again ∷ [])
          (submit_response test_platform survey_outside (respond (red ∷ [])) survey_state).1)
      ≡ (
        err e,
        submit_all test_platform
            (again ∷ [])
            (submit_response test_platform survey_outside (respond (red ∷ [])) survey_state).1,
      ))
submit_response-once_example =
    submit_response-once test_platform survey_outside survey_outside (respond (red ∷ []))
      (respond ("blue" ∷ [])) survey_state
      (record { receipts = red_receipt ∷ []; is_practice = false }) (again ∷ []) respond_runs refl
      refl refl

finish-ignores_token_example :
    seen (
      finish test_platform survey_outside (respond ("blue" ∷ [])) checked (
        with_pending
          (ann_pending ∷ [])
          (submit_response test_platform survey_outside (respond (red ∷ [])) survey_state).1))
    ≡ seen (
        finish test_platform survey_outside
          (respond ("blue" ∷ []))
          checked
          (submit_response test_platform survey_outside (respond (red ∷ [])) survey_state).1)
finish-ignores_token_example =
    finish-ignores_token test_platform survey_outside (respond ("blue" ∷ [])) checked
      (submit_response test_platform survey_outside (respond (red ∷ [])) survey_state).1
      (ann_pending ∷ [])

check_questions-IsAnswered_iff_example :
    (check_questions (respond (red ∷ [])).ballots (best_colours ∷ []) ≡ ok tt)
    ↔ All (IsAnswered (respond (red ∷ [])).ballots) (best_colours ∷ [])
check_questions-IsAnswered_iff_example =
    check_questions-IsAnswered_iff (respond (red ∷ [])).ballots (best_colours ∷ [])
