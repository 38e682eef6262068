-- ===== src/Survey/Submit/Outcome.antt =====
-- What one response leaves, on every path (backend/src/surveys/submit.service.ts, submitResponse).
use voting_secure.Base.{
  true, false, List, [], ◌∷◌, ◌++◌, ◌≡◌, refl, sym, subst, ◌⊎◌, Bool-cases, Result-cases, inl, inr,
  Result, ok, err,
}
use voting_secure.Vote.Types.{VotePlatform}
use voting_secure.Redis.{increment}
use voting_secure.Survey.Types.{
  SurveyOption, SurveyBallot, SurveyDatabase, SurveyCache, SurveyState, SurveyError,
}
use voting_secure.Survey.Types
use voting_secure.Survey.Answers.{Draft, Progress, going, stopped}
use voting_secure.Survey.Answers.Grow.{IsGrown, left}
use voting_secure.Survey.Submit.{
  SurveyRequest, SurveyOutside, Checked, SurveySubmitted, check_submission, build, store,
  follow_up_survey, perform_survey_submission, persist_survey, finish, submit_response,
  with_options, survey_ballot_cast, responses_key,
}
use voting_secure.Survey.Submit.Stored.{IsStored, store-IsStored, store-write_failed, build-IsGrown}

-- How the call ended once its rows were written.
pub data IsFollowedUp (req : SurveyRequest) (c : Checked) (d : Draft) (s : SurveyState)
    : SurveyState → Result SurveyError SurveySubmitted → Type 0 where
  uncounted :
      (s' : SurveyState)
      → s'.cache ≡ s.cache
      → s'.appended ≡ s.appended
      → IsFollowedUp req c d s s' (err Types.cache_failed)
  counted :
      (s' : SurveyState) (r : Result SurveyError SurveySubmitted)
      → s'.cache.responses ≡ increment (responses_key req.survey_id) s.cache.responses
      → s'.appended ≡ s.appended ++ survey_ballot_cast req c.survey d.receipts ∷ []
      → (r ≡ err Types.follow_up_failed)
        ⊎ (r ≡ ok (record { receipts = d.receipts; is_practice = false }))
      → IsFollowedUp req c d s s' r

-- Why nothing was written: the loop over the answers has thrown, or the transaction failed.
pub data IsRefused (p : VotePlatform) (out : SurveyOutside) (req : SurveyRequest) (c : Checked)
    (known options : List SurveyOption) : SurveyError → Type 0 where
  answers_refused :
      (e : SurveyError)
      → build p out.new_id req c known ≡ stopped e options
      → IsRefused p out req c known options e
  transaction_failed :
      (d : Draft)
      → build p out.new_id req c known ≡ going d options
      → c.credential.is_practice ≡ false
      → IsRefused p out req c known options Types.write_failed

pub data SurveyOutcome (p : VotePlatform) (out : SurveyOutside) (req : SurveyRequest)
    (s : SurveyState) : SurveyState → Result SurveyError SurveySubmitted → Type 0 where
  rejected :
      (e : SurveyError)
      → check_submission p out.now req s.db s.keys ≡ err e
      → SurveyOutcome p out req s s (err e)
  refused :
      (c : Checked) (options : List SurveyOption) (e : SurveyError)
      → check_submission p out.now req s.db s.keys ≡ ok c
      → IsRefused p out req c s.db.options options e
      → IsGrown s.db.options options
      → SurveyOutcome p out req s (with_options options s) (err e)
  practised :
      (c : Checked) (d : Draft) (options : List SurveyOption)
      → check_submission p out.now req s.db s.keys ≡ ok c
      → build p out.new_id req c s.db.options ≡ going d options
      → c.credential.is_practice ≡ true
      → IsGrown s.db.options options
      → SurveyOutcome p out req s
          (with_options options s)
          (ok (record { receipts = d.receipts; is_practice = true }))
  written :
      (c : Checked) (d : Draft) (options : List SurveyOption) (s' : SurveyState)
      (r : Result SurveyError SurveySubmitted)
      → check_submission p out.now req s.db s.keys ≡ ok c
      → build p out.new_id req c s.db.options ≡ going d options
      → c.credential.is_practice ≡ false
      → IsStored req c.credential.token_hash d options s.db s'.db
      → IsFollowedUp req c d s s' r
      → IsGrown s.db.options options
      → SurveyOutcome p out req s s' r

follow_up-IsFollowedUp :
    (out : SurveyOutside) (req : SurveyRequest) (c : Checked) (d : Draft) (db : SurveyDatabase)
    (s : SurveyState)
    → ((follow_up_survey out req c.survey d db s).1.db ≡ db)
      × IsFollowedUp req c d s
          (follow_up_survey out req c.survey d db s).1
          (follow_up_survey out req c.survey d db s).0
unfolding follow_up_survey perform_survey_submission
follow_up-IsFollowedUp out req c d db s = elim (Bool-cases out.counted) [
  | inr down ↦ rw (down, follow_up_survey) (refl, uncounted _ refl refl)
  | inl up ↦ elim (Bool-cases out.cache_up) [
    | inl cached ↦ elim (Bool-cases out.followed_up) [
      | inl well ↦ rw (up, cached, well, follow_up_survey) (refl, counted _ _ refl refl (inr refl))
      | inr badly ↦
          rw (up, cached, badly, follow_up_survey) (refl, counted _ _ refl refl (inl refl))
    ]
    | inr lost ↦ elim (Bool-cases out.followed_up) [
      | inl well ↦ rw (up, lost, well, follow_up_survey) (refl, counted _ _ refl refl (inr refl))
      | inr badly ↦ rw (up, lost, badly, follow_up_survey) (refl, counted _ _ refl refl (inl refl))
    ]
  ]
]

module _ (p : VotePlatform) (out : SurveyOutside) (req : SurveyRequest) (s : SurveyState) where
  persist-SurveyOutcome :
      (c : Checked) (progress : Progress)
      → check_submission p out.now req s.db s.keys ≡ ok c
      → build p out.new_id req c s.db.options ≡ progress
      → SurveyOutcome p out req s
          (persist_survey out req c progress s).1
          (persist_survey out req c progress s).0
  unfolding persist_survey
  persist-SurveyOutcome c (stopped e options) checked built =
      refused c options e checked (answers_refused e built) (
        subst (λ x. IsGrown s.db.options (left x)) built
          (build-IsGrown p out.new_id req c s.db.options))
  persist-SurveyOutcome c (going d options) checked built =
      let grown =
        subst (λ x. IsGrown s.db.options (left x)) built
          (build-IsGrown p out.new_id req c s.db.options) in
      elim (Bool-cases c.credential.is_practice) [
        | inl practice ↦
            rw (practice, persist_survey) (practised c d options checked built practice grown)
        | inr real ↦
            elim (Result-cases (
              store out.commits req.is_abstention c.credential.token_hash d.ballots
                (record s.db { options = options }))) [
                  | inr (e, failed) ↦
                      let same =
                        store-write_failed out.commits req.is_abstention c.credential.token_hash
                          d.ballots (record s.db { options = options }) e failed in
                      rw (real, failed, persist_survey)
                        (refused c options e checked
                          (subst (IsRefused p out req c s.db.options options) (sym same)
                            (transaction_failed d built real))
                          grown)
                  | inl (db, done) ↦
                      let (same, up) = follow_up-IsFollowedUp out req c d db s in
                      let stored =
                        store-IsStored out.commits req c.credential.token_hash d options s.db db
                          done in
                      rw (real, done, persist_survey)
                        (written c d options _ _ checked built real
                          (subst (IsStored req c.credential.token_hash d options s.db) (sym same)
                            stored)
                          up grown)
                ]
      ]

  pub submit_response-SurveyOutcome :
      SurveyOutcome p out req s (submit_response p out req s).1 (submit_response p out req s).0
  unfolding submit_response finish
  submit_response-SurveyOutcome = elim (Result-cases (check_submission p out.now req s.db s.keys)) [
    | inr (e, failed) ↦ rw (failed, submit_response) (rejected e failed)
    | inl (c, checked) ↦
        rw (checked, submit_response)
          (persist-SurveyOutcome c (build p out.new_id req c s.db.options) checked refl)
  ]
