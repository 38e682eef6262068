-- ===== src/Survey/Submit/Once.antt =====
-- A survey token is spent once, if requests come one after the other; and what requests that overlap
-- do, since a response takes no lock (backend/src/surveys/submit.service.ts).
use voting_secure.Base.{
  ℕ, String, Bool, false, not, Option, none, some, List, [], ◌∷◌, find?, find?-filter_out,
  find?-kept, str_eq, if◌then◌else◌, ◌≡◌, refl, sym, ap, ◌∙◌, Result-cases, inl, inr, Result, ok,
  err, found, guard, >>=-eq-ok, ltb,
}
use voting_secure.Crypto.Hex.{Hex}
use voting_secure.Crypto.Blind.{verify_blind_signature}
use voting_secure.SigningKeys.{KeyStore, get_key}
use voting_secure.SigningKeys
use voting_secure.Vote.Types.{PendingBallot, VotePlatform}
use voting_secure.Survey.Types.{
  Survey, SurveyOption, SurveyBallot, SurveyDatabase, SurveyState, SurveyError, find_survey,
  find_pending,
}
use voting_secure.Survey.Types
use voting_secure.Survey.Answers.{check_questions}
use voting_secure.Survey.Submit.{
  SurveyRequest, SurveyOutside, Credential, Checked, SurveySubmitted, present, check_survey,
  check_signed, credential_by, of_other_survey, survey_key_of, hash_survey_token, check_submission,
  delete_pending, submit_response,
}
use voting_secure.Survey.Submit.Outcome.{
  SurveyOutcome, rejected, refused, practised, written, submit_response-SurveyOutcome,
}

-- One call of `submitResponse`.
pub record SurveyCall : Type 0 where
  pub outside : SurveyOutside
  pub request : SurveyRequest

abbrev pub submit_all : VotePlatform → List SurveyCall → SurveyState → SurveyState
submit_all p [] s = s
submit_all p (c ∷ cs) s = submit_all p cs (submit_response p c.outside c.request s).1

abbrev for_practice : Result SurveyError Credential → Bool
for_practice (err e) = false
for_practice (ok c) = c.is_practice

abbrev hash_of : Result SurveyError Credential → Option String
hash_of (err e) = none
hash_of (ok c) = c.token_hash

abbrev credential_of : Result SurveyError Checked → Result SurveyError Credential
credential_of (err e) = err e
credential_of (ok c) = ok c.credential

abbrev practice_of : Result SurveyError SurveySubmitted → Bool
practice_of (err e) = false
practice_of (ok r) = r.is_practice

module _ (p : VotePlatform) where
  -- A credential that is not for practice has the hash of the request's token.
  credential-real :
      (now : ℕ) (req : SurveyRequest) (t g : Option Hex) (db : SurveyDatabase) (keys : KeyStore)
      (c : Credential)
      → credential_by p now req t g db keys ≡ ok c
      → c.is_practice ≡ false
      → (token : Hex) × (h : String) × (t ≡ some token)
        × (hash_survey_token p token ≡ ok h)
        × (c.token_hash ≡ some h)
  unfolding check_signed
  credential-real now req none g db keys c h real =
      let (u, e, h1) = >>=-eq-ok (guard req.is_practice Types.token_required) _ h in
      absurd (cc (ap for_practice h1, real))
  credential-real now req (some t) none db keys c h real =
      let (u, e, h1) = >>=-eq-ok (guard req.is_practice Types.token_required) _ h in
      absurd (cc (ap for_practice h1, real))
  credential-real now req (some t) (some g) db keys c h real =
      let (hash, e1, h1) = >>=-eq-ok (hash_survey_token p t) _ h in
      let (pending, e2, h2) = >>=-eq-ok (found (find_pending hash db) Types.invalid_token) _ h1 in
      let (u3, e3, h3) =
        >>=-eq-ok
          (guard (not (of_other_survey req.survey_id pending.survey_id)) Types.invalid_token) _
          h2 in
      let (u4, e4, h4) =
        >>=-eq-ok (guard (not (ltb pending.expires_at now)) Types.token_expired) _ h3 in
      let (key, e5, h5) =
        >>=-eq-ok
          (survey_key_of (get_key p.rsa p.rsa_key_size SigningKeys.survey req.survey_id keys)) _
          h4 in
      let (u6, e6, h6) =
        >>=-eq-ok (guard (verify_blind_signature p.rsa t g key.public_key) Types.invalid_signature)
          _ h5 in
      (t, hash, refl, e1, sym (ap hash_of h6))

  -- A token whose hash is not pending is refused.
  spent-credential :
      (now : ℕ) (req : SurveyRequest) (token : Hex) (g : Option Hex) (h : String)
      (db : SurveyDatabase) (keys : KeyStore)
      → req.is_practice ≡ false
      → hash_survey_token p token ≡ ok h
      → find_pending h db ≡ none
      → (e : SurveyError) × (credential_by p now req (some token) g db keys ≡ err e)
  unfolding check_signed
  spent-credential now req token none h db keys real hashed gone =
      (Types.token_required, rw real refl)
  spent-credential now req token (some g) h db keys real hashed gone = (Types.invalid_token, spent)
    where
      spent : check_signed p now req token g db keys ≡ err Types.invalid_token
      spent = rw (hashed, gone, check_signed) refl

  spent-submit :
      (out : SurveyOutside) (req : SurveyRequest) (token : Hex) (h : String) (s : SurveyState)
      → req.is_practice ≡ false
      → present req.token ≡ some token
      → hash_survey_token p token ≡ ok h
      → find_pending h s.db ≡ none
      → (e : SurveyError) × (submit_response p out req s ≡ (err e, s))
  unfolding submit_response check_submission
  spent-submit out req token h s real given_ hashed gone =
      elim (Result-cases (check_survey out.now req s.db)) [
        | inr (e, failed) ↦ (e, rw (failed, submit_response, check_submission) refl)
        | inl (survey, fine) ↦
            let (e, refused_) =
              spent-credential out.now req token (present req.signature) h s.db s.keys real hashed
                gone in
            (e, rw (fine, given_, refused_, submit_response, check_submission) refl)
      ]

  -- The credential of what was checked.
  checked-credential :
      (now : ℕ) (req : SurveyRequest) (db : SurveyDatabase) (keys : KeyStore) (c : Checked)
      → check_submission p now req db keys ≡ ok c
      → credential_by p now req (present req.token) (present req.signature) db keys
        ≡ ok c.credential
  unfolding check_submission
  checked-credential now req db keys c h =
      let (survey, e1, h1) = >>=-eq-ok (check_survey now req db) _ h in
      let (k, e2, h2) =
        >>=-eq-ok (credential_by p now req (present req.token) (present req.signature) db keys) _
          h1 in
      let (u, e3, h3) =
        >>=-eq-ok
          (if req.is_abstention then ok tt else check_questions req.ballots survey.questions) _
          h2 in
      e2 ∙ ap credential_of h3

  -- After a response that was written its token is not pending.
  spends :
      (out : SurveyOutside) (req : SurveyRequest) (s s' : SurveyState)
      (a : Result SurveyError SurveySubmitted) (r : SurveySubmitted)
      → SurveyOutcome p out req s s' a
      → a ≡ ok r
      → r.is_practice ≡ false
      → (token : Hex) × (h : String) × (present req.token ≡ some token)
        × (hash_survey_token p token ≡ ok h)
        × (find_pending h s'.db ≡ none)
  spends out req s s' a r (rejected e failed) done real = absurd (cc done)
  spends out req s s' a r (refused c options e checked why grown) done real = absurd (cc done)
  spends out req s s' a r (practised c d options checked built practice grown) done real =
      absurd (cc (ap practice_of done, real))
  spends out req s s' a r (written c d options t b checked built cast stored up grown) done real =
      let (token, h, there, hashed, same) =
        credential-real out.now req _ _ s.db s.keys c.credential
          (checked-credential out.now req s.db s.keys c checked) cast in
      (
        token,
        h,
        there,
        hashed,
        ap (λ ps. find? (λ q. str_eq q.token_hash h) ps)
              (stored.pending ∙ ap (λ k. delete_pending k s.db.pending_ballots) same)
            ∙ find?-filter_out (λ b. str_eq b.token_hash h) s.db.pending_ballots,
      )

  delete_pending-spent :
      (h : String) (k : Option String) (ps : List PendingBallot)
      → find? (λ b. str_eq b.token_hash h) ps ≡ none
      → find? (λ b. str_eq b.token_hash h) (delete_pending k ps) ≡ none
  delete_pending-spent h none ps gone = gone
  delete_pending-spent h (some k) ps gone =
      find?-kept (λ b. str_eq b.token_hash h) (λ b. not (str_eq b.token_hash k)) ps gone

  -- No response brings a pending ballot back.
  outcome-spent :
      (h : String) (out : SurveyOutside) (req : SurveyRequest) (s s' : SurveyState)
      (a : Result SurveyError SurveySubmitted)
      → SurveyOutcome p out req s s' a
      → find_pending h s.db ≡ none
      → find_pending h s'.db ≡ none
  outcome-spent h out req s s' a (rejected e failed) gone = gone
  outcome-spent h out req s s' a (refused c options e checked why grown) gone = gone
  outcome-spent h out req s s' a (practised c d options checked built practice grown) gone = gone
  outcome-spent h out req s s' a (written c d options t b checked built real stored up grown) gone =
      rw stored.pending (delete_pending-spent h c.credential.token_hash s.db.pending_ballots gone)

  submit_all-spent :
      (h : String) (calls : List SurveyCall) (s : SurveyState)
      → find_pending h s.db ≡ none
      → find_pending h (submit_all p calls s).db ≡ none
  submit_all-spent h [] s gone = gone
  submit_all-spent h (c ∷ cs) s gone = submit_all-spent h cs _ (
      outcome-spent h c.outside c.request s _ _
        (submit_response-SurveyOutcome p c.outside c.request s) gone)

  -- After a response that was written, not for practice, and whatever responses come after it, a
  -- response with the same token, not asked to be for practice, is refused and changes nothing. This
  -- holds as long as the calls come one after the other and nothing but responses comes in between:
  -- asking for a signature with the token again makes it pending again.
  pub submit_response-once :
      (out out' : SurveyOutside) (req req' : SurveyRequest) (s : SurveyState) (r : SurveySubmitted)
      (between : List SurveyCall)
      → (submit_response p out req s).0 ≡ ok r
      → r.is_practice ≡ false
      → present req'.token ≡ present req.token
      → req'.is_practice ≡ false
      → (e : SurveyError) × (submit_response p out' req'
            (submit_all p between (submit_response p out req s).1)
          ≡ (err e, submit_all p between (submit_response p out req s).1))
  submit_response-once out out' req req' s r between done real same real' =
      let (token, h, there, hashed, gone) =
        spends out req s _ _ r (submit_response-SurveyOutcome p out req s) done real in
      spent-submit out' req' token h (submit_all p between (submit_response p out req s).1) real'
        (same ∙ there) hashed (submit_all-spent h between _ gone)
