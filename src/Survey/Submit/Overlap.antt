-- ===== src/Survey/Submit/Overlap.antt =====
-- Responses that overlap (backend/src/surveys/submit.service.ts): the token is looked up among the
-- checks, and what follows them does not look at it again.
use voting_secure.Base.{
  String, Bool, false, not, Option, some, List, if◌then◌else◌, ◌≡◌, refl, sym, ap, ◌∙◌, Bool-cases,
  Option-cases, Result-cases, inl, inr, Result, ok, err,
}
use voting_secure.Vote.Types.{PendingBallot, VotePlatform}
use voting_secure.Survey.Types.{
  SurveyOption, SurveyBallot, SurveyDatabase, SurveyState, SurveyError,
}
use voting_secure.Survey.Types
use voting_secure.Survey.Answers.{Draft, Progress, going, stopped}
use voting_secure.Survey.Submit.{
  SurveyRequest, SurveyOutside, Checked, SurveySubmitted, build, store, create_survey_ballots,
  persist_survey, follow_up_survey, finish,
}

abbrev pub with_pending : List PendingBallot → SurveyState → SurveyState
with_pending ps s = record s { db = record s.db { pending_ballots = ps } }

-- An answer, with the ballots that are stored then.
abbrev pub seen :
    Result SurveyError SurveySubmitted × SurveyState
    → Result SurveyError SurveySubmitted × List SurveyBallot
seen (a, s) = (a, s.db.ballots)

abbrev ballots_in : Result SurveyError SurveyDatabase → Result SurveyError (List SurveyBallot)
ballots_in (err e) = err e
ballots_in (ok db) = ok db.ballots

abbrev answer_of : SurveyOutside → Draft → Result SurveyError SurveySubmitted
answer_of out d =
    if not out.counted
    then err Types.cache_failed
    else if out.followed_up
    then ok (record { receipts = d.receipts; is_practice = false })
    else err Types.follow_up_failed

follow_up-answer :
    (out : SurveyOutside) (req : SurveyRequest) (v : Types.Survey) (d : Draft) (db : SurveyDatabase)
    (s : SurveyState)
    → seen (follow_up_survey out req v d db s) ≡ (answer_of out d, db.ballots)
unfolding follow_up_survey
follow_up-answer out req v d db s = elim (Bool-cases out.counted) [
  | inr down ↦ rw (down, follow_up_survey) refl
  | inl up ↦ elim (Bool-cases out.followed_up) [
    | inl well ↦ rw (up, well, follow_up_survey) refl
    | inr badly ↦ rw (up, badly, follow_up_survey) refl
  ]
]

store-pending :
    (commits abstains : Bool) (h : Option String) (bs : List SurveyBallot) (db : SurveyDatabase)
    (ps : List PendingBallot)
    → ballots_in (store commits abstains h bs (record db { pending_ballots = ps }))
      ≡ ballots_in (store commits abstains h bs db)
unfolding store
store-pending commits abstains h bs db ps =
    elim (Option-cases
      (if abstains then some db.ballots else create_survey_ballots bs db.ballots)) [
        | inl clash ↦ rw (clash, store) refl
        | inr (rows, fine) ↦ elim (Bool-cases commits) [
          | inl yes_ ↦ rw (fine, yes_, store) refl
          | inr no_ ↦ rw (fine, no_, store) refl
        ]
      ]

module _ (p : VotePlatform) (out : SurveyOutside) (req : SurveyRequest) (c : Checked) where
  -- What is seen of a write, from the ballots that it stores.
  abbrev of_store :
      Draft
      → List SurveyBallot
      → Result SurveyError (List SurveyBallot)
      → Result SurveyError SurveySubmitted × List SurveyBallot
  of_store d before (err e) = (err e, before)
  of_store d before (ok rows) = (answer_of out d, rows)

  persist-seen :
      (d : Draft) (options : List SurveyOption) (s : SurveyState)
      → c.credential.is_practice ≡ false
      → seen (persist_survey out req c (going d options) s)
        ≡ of_store d s.db.ballots (
            ballots_in (
              store out.commits req.is_abstention c.credential.token_hash d.ballots
                (record s.db { options = options })))
  unfolding persist_survey
  persist-seen d options s real =
      elim (Result-cases (
        store out.commits req.is_abstention c.credential.token_hash d.ballots
          (record s.db { options = options }))) [
            | inr (e, failed) ↦ rw (real, failed, persist_survey) refl
            | inl (db, done) ↦
                rw (real, done, persist_survey) (follow_up-answer out req c.survey d db s)
          ]

  persist-pending :
      (progress : Progress) (s : SurveyState) (ps : List PendingBallot)
      → seen (persist_survey out req c progress (with_pending ps s))
        ≡ seen (persist_survey out req c progress s)
  unfolding persist_survey
  persist-pending (stopped e options) s ps = refl
  persist-pending (going d options) s ps = elim (Bool-cases c.credential.is_practice) [
    | inl practice ↦ rw (practice, persist_survey) refl
    | inr real ↦
        persist-seen d options (with_pending ps s) real
        ∙ ap (of_store d s.db.ballots) (
            store-pending out.commits req.is_abstention c.credential.token_hash d.ballots
              (record s.db { options = options }) ps)
        ∙ sym (persist-seen d options s real)
  ]

  -- Whatever is written between the checks of a response and the rest of it, its token is not looked
  -- up again: the answer, and the ballots that are stored then, are those that they would be with any
  -- other pending ballots. So where two responses with one token are both checked before one of them
  -- is written, the second is written as if the token were not spent.
  pub finish-ignores_token :
      (s : SurveyState) (ps : List PendingBallot)
      → seen (finish p out req c (with_pending ps s)) ≡ seen (finish p out req c s)
  unfolding finish
  finish-ignores_token s ps = persist-pending (build p out.new_id req c s.db.options) s ps
