-- ===== src/Vote/Guards/Conditions.antt =====
-- The conditions under which `vote` goes on (backend/src/votings/vote.service.ts), as a voter reads
-- them and without the code's tests: limits are inequalities, options are options of the voting.
use voting_secure.Base.{
  ℕ, ◌≤◌, ◌≡◌, ◌↔◌, ◌⊎◌, inl, inr, refl, arith, String, true, false, ◌||◌, Option, none, some,
  str_eq, str_eq_iff, ==_iff, is_some, Bool-cases, ok,
}
use voting_secure.Crypto.Hex.{hex_value}
use voting_secure.Crypto.Power.{mod_pow}
use voting_secure.Crypto.Blind.{verify_blind_signature}
use voting_secure.SigningKeys.{KeyStore, KeyInfo, get_key}
use voting_secure.SigningKeys
use voting_secure.Vote.Types.{
  PendingBallot, Database, VotePlatform, find_voting, find_pending_ballot,
}
use voting_secure.Vote.Guards.{
  VoteRequest, Admitted, before, after, of_other_voting, hash_token, admit, trimmed_other,
}
use voting_secure.Vote.Guards.Sound.{IsAdmitted, admit-IsAdmitted_iff}
use voting_secure.Vote.Guards.Allowed.{
  NoLess, NoMore, IsAllowed, answers-IsAllowed, IsAllowed-answers,
}

-- The pending ballot names no other voting; an empty text names none.
abbrev pub IsFor : String → Option String → Type 0
IsFor voting_id none = Unit
IsFor voting_id (some id) = (id ≡ "") ⊎ (id ≡ voting_id)

pub record MeetsConditions (p : VotePlatform) (now : ℕ) (req : VoteRequest) (db : Database)
    (keys : KeyStore) (adm : Admitted) : Type 0 where
  pub token_hashed : hash_token p req.token ≡ ok adm.token_hash
  pub pending : PendingBallot
  pub is_pending : find_pending_ballot adm.token_hash db ≡ some pending
  pub is_for : IsFor req.voting_id pending.voting_id
  pub not_expired : now ≤ pending.expires_at
  pub key : KeyInfo
  pub has_key : get_key p.rsa p.rsa_key_size SigningKeys.voting req.voting_id keys ≡ ok key
  pub is_signed :
      mod_pow
        (hex_value req.signature)
        (p.rsa.public_params key.public_key).1
        (p.rsa.public_params key.public_key).0
      ≡ hex_value req.token
  pub has_voting : find_voting req.voting_id db ≡ some adm.voting
  pub not_finalized : adm.voting.is_finalized ≡ false
  pub started : NoLess adm.voting.start_at now
  pub not_ended : NoMore adm.voting.end_at now
  pub allowed : IsAllowed db adm.voting req (is_some adm.other)
  pub same_other : adm.other ≡ trimmed_other req.other_text
  pub practice : adm.is_practice ≡ (pending.is_practice || req.is_practice)

before-NoLess : (now : ℕ) (t : Option ℕ) → (before now t ≡ false) ↔ NoLess t now
before-NoLess now none = ((λ h. tt), λ h. refl)
before-NoLess now (some t) = ground arith

after-NoMore : (now : ℕ) (t : Option ℕ) → (after now t ≡ false) ↔ NoMore t now
after-NoMore now none = ((λ h. tt), λ h. refl)
after-NoMore now (some t) = ground arith

of_other_voting-IsFor :
    (voting_id : String) (pending_id : Option String)
    → (of_other_voting voting_id pending_id ≡ false) ↔ IsFor voting_id pending_id
of_other_voting-IsFor voting_id none = ((λ h. tt), λ h. refl)
of_other_voting-IsFor voting_id (some id) = (named, same)
  where
    differs :
        str_eq id "" ≡ false
        → str_eq id voting_id ≡ false
        → of_other_voting voting_id (some id) ≡ true
    differs there other = rw (there, other, of_other_voting) refl

    named : of_other_voting voting_id (some id) ≡ false → (id ≡ "") ⊎ (id ≡ voting_id)
    named h = elim (Bool-cases (str_eq id "")) [
      | inl empty ↦ inl ((str_eq_iff id "").0 empty)
      | inr there ↦ elim (Bool-cases (str_eq id voting_id)) [
        | inl here ↦ inr ((str_eq_iff id voting_id).0 here)
        | inr other ↦ absurd (cc (h, differs there other))
      ]
    ]

    same : (id ≡ "") ⊎ (id ≡ voting_id) → of_other_voting voting_id (some id) ≡ false
    same (inl empty) = rw empty refl
    same (inr here) = elim (Bool-cases (str_eq id "")) [
      | inl empty ↦ rw (empty, of_other_voting) refl
      | inr there ↦ rw (there, (str_eq_iff id voting_id).1 here, of_other_voting) refl
    ]

module _ (p : VotePlatform) (now : ℕ) (req : VoteRequest) (db : Database) (keys : KeyStore)
    (adm : Admitted) where
  meets : IsAdmitted p now req db keys adm → MeetsConditions p now req db keys adm
  unfolding verify_blind_signature
  meets h = record {
    token_hashed = h.token_hashed;
    pending = h.pending;
    is_pending = h.is_pending;
    is_for = (of_other_voting-IsFor req.voting_id h.pending.voting_id).0 h.not_of_other;
    not_expired = h.not_expired;
    key = h.key;
    has_key = h.has_key;
    is_signed = (==_iff _ _).0 h.is_signed;
    has_voting = h.has_voting;
    not_finalized = h.not_finalized;
    started = (before-NoLess now adm.voting.start_at).0 h.started;
    not_ended = (after-NoMore now adm.voting.end_at).0 h.not_ended;
    allowed = answers-IsAllowed p db adm.voting req (is_some adm.other) tt h.answers;
    same_other = h.same_other;
    practice = h.practice;
  }

  met : MeetsConditions p now req db keys adm → IsAdmitted p now req db keys adm
  unfolding verify_blind_signature
  met h = record {
    token_hashed = h.token_hashed;
    pending = h.pending;
    is_pending = h.is_pending;
    not_of_other = (of_other_voting-IsFor req.voting_id h.pending.voting_id).1 h.is_for;
    not_expired = h.not_expired;
    key = h.key;
    has_key = h.has_key;
    is_signed = (==_iff _ _).1 h.is_signed;
    has_voting = h.has_voting;
    not_finalized = h.not_finalized;
    started = (before-NoLess now adm.voting.start_at).1 h.started;
    not_ended = (after-NoMore now adm.voting.end_at).1 h.not_ended;
    answers = IsAllowed-answers p db adm.voting req (is_some adm.other) h.allowed;
    same_other = h.same_other;
    practice = h.practice;
  }

  -- A request is admitted exactly if these conditions are met. There is a pending ballot for the
  -- token's keyed hash, which names no other voting and has not expired; the signature, raised by
  -- modPow to the exponent of the voting's key, is the token; the voting is there, not finalized, has
  -- started and not ended. A free answer is there only if the voting allows it; something is answered,
  -- and nothing else with an abstention. Where options are chosen they are options of the voting; in a
  -- single choice there is one answer at most; without a free answer there are no fewer options than
  -- the least number; and with it counted no more answers than the greatest, if there is one.
  pub admit-MeetsConditions_iff :
      (admit p now req db keys ≡ ok adm) ↔ MeetsConditions p now req db keys adm
  admit-MeetsConditions_iff =
      let (of_admit, to_admit) = admit-IsAdmitted_iff p now req db keys adm in
      ((λ h. meets (of_admit h)), λ h. to_admit (met h))
