-- ===== src/Survey/Answers/Grow.antt =====
-- The loops over the answers only add options, and only dynamic ones
-- (backend/src/surveys/submit.service.ts, getOrCreateDynamicOption and submitResponse).
use voting_secure.Base.{
  String, true, List, [], ◌∷◌, ◌++◌, any, find?, str_eq, ◌&&◌, All, ◌≡◌, refl, ap, sym, subst, ◌∙◌,
  Bool-cases, Option-cases, Result-cases, inl, inr, append_nothing, append_assoc,
}
use voting_secure.Vote.Types.{VotePlatform}
use voting_secure.Survey.Types.{Question, SurveyOption, is_uuid}
use voting_secure.Survey.Answers.{
  BallotInput, QuestionEntry, Draft, Progress, going, stopped, Submission,
  get_or_create_dynamic_option, survey_receipt, push, ensure_entry, answer_option, answer_options,
  answer_text, answer_ballot, answer_ballots, ◌>>>◌,
}

-- The options with dynamic ones added at the end.
abbrev pub IsGrown : List SurveyOption → List SurveyOption → Type 0
IsGrown options options' =
    (created : List SurveyOption) × (options' ≡ options ++ created)
    × All (λ o. o.is_dynamic ≡ true) created

-- The options that the loop leaves, whether it ended or has thrown.
abbrev pub left : Progress → List SurveyOption
left (going d options) = options
left (stopped e options) = options

pub IsGrown-refl : (os : List SurveyOption) → IsGrown os os
IsGrown-refl os = ([], sym (append_nothing os), tt)

All-append :
    (xs ys : List SurveyOption)
    → All (λ o. o.is_dynamic ≡ true) xs
    → All (λ o. o.is_dynamic ≡ true) ys
    → All (λ o. o.is_dynamic ≡ true) (xs ++ ys)
All-append [] ys h k = k
All-append (x ∷ xs) ys h k = (h.0, All-append xs ys h.1 k)

IsGrown-trans : (a b c : List SurveyOption) → IsGrown a b → IsGrown b c → IsGrown a c
IsGrown-trans a b c (xs, e, h) (ys, e', h') =
    (xs ++ ys, e' ∙ ap (λ os. os ++ ys) e ∙ append_assoc a xs ys, All-append xs ys h h')

pub after-IsGrown :
    (os : List SurveyOption) (x : Progress) (next : Draft → List SurveyOption → Progress)
    → IsGrown os (left x)
    → ((d : Draft) (os' : List SurveyOption) → IsGrown os' (left (next d os')))
    → IsGrown os (left (x >>> next))
after-IsGrown os (going d os') next h k = IsGrown-trans os os' _ h (k d os')
after-IsGrown os (stopped e os') next h k = h

get_or_create_dynamic_option-IsGrown :
    (new_id : List SurveyOption → String) (question_id text : String) (os : List SurveyOption)
    → IsGrown os (get_or_create_dynamic_option new_id question_id text os).1
unfolding get_or_create_dynamic_option
get_or_create_dynamic_option-IsGrown new_id question_id text os =
    elim (Option-cases (find? (λ o. str_eq o.question_id question_id && str_eq o.text text) os)) [
      | inr (o, there) ↦ rw (there, get_or_create_dynamic_option) (IsGrown-refl os)
      | inl missing ↦ rw (missing, get_or_create_dynamic_option) (_, refl, (refl, tt))
    ]

module _ (p : VotePlatform) (sub : Submission) where
  push-left :
      (question_id option_id : String) (count : QuestionEntry → QuestionEntry) (d : Draft)
      (os : List SurveyOption)
      → left (push p sub question_id option_id count d os) ≡ os
  unfolding push
  push-left question_id option_id count d os =
      elim (Result-cases (survey_receipt p sub option_id)) [
        | inl (receipt, made) ↦ rw (made, push) refl
        | inr (e, failed) ↦ rw (failed, push) refl
      ]

  push-IsGrown :
      (question_id option_id : String) (count : QuestionEntry → QuestionEntry) (d : Draft)
      (before os : List SurveyOption)
      → IsGrown before os
      → IsGrown before (left (push p sub question_id option_id count d os))
  push-IsGrown question_id option_id count d before os h =
      subst (IsGrown before) (sym (push-left question_id option_id count d os)) h

  module _ (new_id : List SurveyOption → String) (known : List SurveyOption) where
    answer_option-IsGrown :
        (q : Question) (id : String) (d : Draft) (os : List SurveyOption)
        → IsGrown os (left (answer_option p new_id sub known q id d os))
    unfolding answer_option
    answer_option-IsGrown q id d os = elim (Bool-cases (is_uuid id)) [
      | inr free ↦
          rw (free, answer_option)
            (push-IsGrown _ _ _ d os _ (get_or_create_dynamic_option-IsGrown new_id q.id id os))
      | inl named ↦
          elim (Bool-cases (any (λ o. str_eq o.question_id q.id && str_eq o.id id) known)) [
            | inl there ↦
                rw (named, there, answer_option) (push-IsGrown _ _ _ d os os (IsGrown-refl os))
            | inr missing ↦ rw (named, missing, answer_option) (IsGrown-refl os)
          ]
    ]

    answer_options-IsGrown :
        (q : Question) (ids : List String) (d : Draft) (os : List SurveyOption)
        → IsGrown os (left (answer_options p new_id sub known q ids d os))
    unfolding answer_options
    answer_options-IsGrown q [] d os = IsGrown-refl os
    answer_options-IsGrown q (id ∷ ids) d os =
        after-IsGrown os (answer_option p new_id sub known q id d os)
          (answer_options p new_id sub known q ids) (answer_option-IsGrown q id d os)
          (answer_options-IsGrown q ids)

    answer_text-IsGrown :
        (q : Question) (text : String) (d : Draft) (os : List SurveyOption)
        → IsGrown os (left (answer_text p new_id sub known q text d os))
    unfolding answer_text
    answer_text-IsGrown q text d os = elim (Bool-cases (str_eq text "")) [
      | inl empty ↦ rw (empty, answer_text) (IsGrown-refl os)
      | inr there ↦
          rw (there, answer_text)
            (push-IsGrown _ _ _ d os _ (get_or_create_dynamic_option-IsGrown new_id q.id text os))
    ]

    answer_ballot-IsGrown :
        (qs : List Question) (b : BallotInput) (d : Draft) (os : List SurveyOption)
        → IsGrown os (left (answer_ballot p new_id sub known qs b d os))
    unfolding answer_ballot
    answer_ballot-IsGrown qs b d os =
        elim (Option-cases (find? (λ q. str_eq q.id b.question_id) qs)) [
          | inl none_ ↦ rw (none_, answer_ballot) (IsGrown-refl os)
          | inr (q, there) ↦
              let d' = record d { answers = ensure_entry b.question_id d.answers } in
              rw (there, answer_ballot)
                (after-IsGrown os (answer_options p new_id sub known q b.option_ids d' os)
                  (answer_text p new_id sub known q b.text)
                  (answer_options-IsGrown q b.option_ids d' os) (answer_text-IsGrown q b.text))
        ]

    pub answer_ballots-IsGrown :
        (qs : List Question) (bs : List BallotInput) (d : Draft) (os : List SurveyOption)
        → IsGrown os (left (answer_ballots p new_id sub known qs bs d os))
    unfolding answer_ballots
    answer_ballots-IsGrown qs [] d os = IsGrown-refl os
    answer_ballots-IsGrown qs (b ∷ bs) d os =
        after-IsGrown os (answer_ballot p new_id sub known qs b d os)
          (answer_ballots p new_id sub known qs bs) (answer_ballot-IsGrown qs b d os)
          (answer_ballots-IsGrown qs bs)
