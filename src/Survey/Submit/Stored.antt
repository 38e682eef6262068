-- ===== src/Survey/Submit/Stored.antt =====
-- What the transaction of a response writes, and the options that the loop before it leaves
-- (backend/src/surveys/submit.service.ts).
use voting_secure.Base.{
  String, Bool, true, false, Option, none, some, List, [], ◌∷◌, ◌++◌, any, str_eq, if◌then◌else◌,
  ◌≡◌, refl, subst, ◌∙◌, Bool-cases, Result-cases, inl, inr, Result, ok, err, found, found-ok,
  guard, ◌>>=◌, ◌>>◌, >>=-eq-ok, append_nothing, append_assoc,
}
use voting_secure.Vote.Types.{VotePlatform}
use voting_secure.Survey.Types.{
  SurveyOption, SurveyBallot, SurveyDatabase, SurveyCache, SurveyState, SurveyError,
}
use voting_secure.Survey.Types
use voting_secure.Survey.Answers.{Draft, survey_receipt, answer_ballots}
use voting_secure.Survey.Answers.Grow.{
  IsGrown, left, IsGrown-refl, after-IsGrown, answer_ballots-IsGrown,
}
use voting_secure.Survey.Submit.{
  SurveyRequest, Checked, submission_of, abstain, build, store, create_survey_ballots,
  delete_pending,
}

-- The rows after a response that was written: its ballots, none for an abstention, each with a hash
-- that was not there; no pending ballot of its token; the options with those that it created.
pub record IsStored (req : SurveyRequest) (token_hash : Option String) (d : Draft)
    (options : List SurveyOption) (db db' : SurveyDatabase) : Type 0 where
  pub ballots : db'.ballots ≡ db.ballots ++ (if req.is_abstention then [] else d.ballots)
  pub pending : db'.pending_ballots ≡ delete_pending token_hash db.pending_ballots
  pub same_options : db'.options ≡ options
  pub same_surveys : db'.surveys ≡ db.surveys
  pub same_participations : db'.participations ≡ db.participations

created-append :
    (bs stored after : List SurveyBallot)
    → create_survey_ballots bs stored ≡ some after
    → after ≡ stored ++ bs
unfolding create_survey_ballots
created-append [] stored after h = cc (h, append_nothing stored)
created-append (b ∷ bs) stored after h =
    elim (Bool-cases (any (λ c. str_eq c.ballot_hash b.ballot_hash) stored)) [
      | inl taken ↦ absurd (cc (rw taken at h))
      | inr free ↦
          created-append bs (stored ++ b ∷ []) after (rw free at h)
          ∙ append_assoc stored (b ∷ []) bs
    ]

pub store-IsStored :
    (commits : Bool) (req : SurveyRequest) (token_hash : Option String) (d : Draft)
    (options : List SurveyOption) (db db' : SurveyDatabase)
    → store commits req.is_abstention token_hash d.ballots (record db { options = options })
      ≡ ok db'
    → IsStored req token_hash d options db db'
unfolding store
store-IsStored commits req token_hash d options db db' h =
    let (rows, e, h1) =
      >>=-eq-ok
        (found
          (if req.is_abstention
            then some db.ballots
            else create_survey_ballots d.ballots db.ballots)
          Types.write_failed)
        _ h in
    let (u, e1, h2) = >>=-eq-ok (guard commits Types.write_failed) _ h1 in
    of_rows rows (kept rows req.is_abstention (found-ok _ _ e)) h2
  where
    kept :
        (rows : List SurveyBallot) (abstains : Bool)
        → (if abstains then some db.ballots else create_survey_ballots d.ballots db.ballots)
          ≡ some rows
        → rows ≡ db.ballots ++ (if abstains then [] else d.ballots)
    kept rows true e = cc (e, append_nothing db.ballots)
    kept rows false e = created-append d.ballots db.ballots rows e

    of_rows :
        (rows : List SurveyBallot)
        → rows ≡ db.ballots ++ (if req.is_abstention then [] else d.ballots)
        → ◌≡◌ {A = Result SurveyError SurveyDatabase}
            (ok (record db {
              options = options;
              ballots = rows;
              pending_ballots = delete_pending token_hash db.pending_ballots;
            }))
            (ok db')
        → IsStored req token_hash d options db db'
    of_rows rows e h' = subst Held h' (record {
      ballots = e;
      pending = refl;
      same_options = refl;
      same_surveys = refl;
      same_participations = refl;
    })
      where
        Held : Result SurveyError SurveyDatabase → Type 0
        Held (err x) = Unit
        Held (ok b) = IsStored req token_hash d options db b

-- The transaction fails with one error.
pub store-write_failed :
    (commits is_abstention : Bool) (token_hash : Option String) (bs : List SurveyBallot)
    (db : SurveyDatabase) (e : SurveyError)
    → store commits is_abstention token_hash bs db ≡ err e
    → e ≡ Types.write_failed
unfolding store
store-write_failed commits is_abstention token_hash bs db e h =
    of_rows (if is_abstention then some db.ballots else create_survey_ballots bs db.ballots) commits
      h
  where
    of_rows :
        (rows : Option (List SurveyBallot)) (commits : Bool)
        → ◌≡◌ {A = Result SurveyError SurveyDatabase}
            (found rows Types.write_failed >>= λ stored.
              guard commits Types.write_failed
              >> ok (record db {
                ballots = stored;
                pending_ballots = delete_pending token_hash db.pending_ballots;
              }))
            (err e)
        → e ≡ Types.write_failed
    of_rows none commits h' = cc h'
    of_rows (some rows) true h' = absurd (cc h')
    of_rows (some rows) false h' = cc h'

module _ (p : VotePlatform) where
  pub build-IsGrown :
      (new_id : List SurveyOption → String) (req : SurveyRequest) (c : Checked)
      (os : List SurveyOption)
      → IsGrown os (left (build p new_id req c os))
  unfolding build
  build-IsGrown new_id req c os =
      after-IsGrown os
        (answer_ballots p new_id (submission_of p req c) c.known c.survey.questions req.ballots
          empty_draft os)
        (abstain p req (submission_of p req c))
        (answer_ballots-IsGrown p (submission_of p req c) new_id c.known c.survey.questions
          req.ballots empty_draft os)
        abstained
    where
      empty_draft : Draft
      empty_draft = record { receipts = []; ballots = []; answers = [] }

      abstained :
          (d : Draft) (os' : List SurveyOption)
          → IsGrown os' (left (abstain p req (submission_of p req c) d os'))
      abstained d os' = elim (Bool-cases req.is_abstention) [
        | inr answers ↦ rw answers (IsGrown-refl os')
        | inl abstains ↦
            elim (Result-cases (survey_receipt p (submission_of p req c) "abstention")) [
              | inl (receipt, made) ↦ rw (abstains, made) (IsGrown-refl os')
              | inr (e, failed) ↦ rw (abstains, failed) (IsGrown-refl os')
            ]
      ]
