-- ===== src/Vote/Guards.antt =====
-- What `vote` demands before it writes (backend/src/votings/vote.service.ts).
pub mod Sound
pub mod Allowed
pub mod Conditions
use voting_secure.Base.{
  ℕ, ◌+◌, String, Bool, true, false, not, Option, none, some, get_or, List, [], ◌∷◌, map, ◌&&◌,
  ◌||◌, str_eq, opt_eq, is_some, ltb, ◌==◌, if◌then◌else◌, filter, find?, any, length, trim, Result,
  ok, err, ◌>>=◌, ◌>>◌, guard, found, concat,
}
use voting_secure.Crypto.Hex.{Hex}
use voting_secure.Crypto.Blind.{verify_blind_signature}
use voting_secure.Audit.Hash.{given}
use voting_secure.SigningKeys.{KeyStore, KeyInfo, KeyError, get_key}
use voting_secure.SigningKeys
use voting_secure.Vote.Types.{
  VotingType, single_choice, multiple_choice, Voting, VotingOption, PendingBallot, Database,
  VotePlatform, hex_text, find_voting, find_pending_ballot,
}

-- The errors that the service throws.
pub data VoteError : Type 0 where
  submission_in_progress invalid_token token_expired invalid_signature : VoteError
  voting_not_found voting_finalized not_started has_ended : VoteError
  other_not_allowed nothing_selected conflicting_abstention : VoteError
  invalid_options : List String → VoteError
  multiple_not_allowed too_few too_many : VoteError
  secret_unset : VoteError
  key_failed : KeyError → VoteError
  signing_failed already_participated write_failed cache_failed : VoteError
  already_finalized not_ended not_secure not_finalized unreadable : VoteError

pub record VoteRequest : Type 0 where
  pub voting_id : String
  pub option_ids : List String
  pub token : Hex
  pub signature : Hex
  pub other_text : Option String
  pub is_abstention : Bool
  pub is_practice : Bool

-- now < startAt, now > endAt
abbrev pub before : ℕ → Option ℕ → Bool
before now none = false
before now (some t) = ltb now t

abbrev pub after : ℕ → Option ℕ → Bool
after now none = false
after now (some t) = ltb t now

unfoldable pub assert_timing : ℕ → Voting → Result VoteError (Unit {0})
assert_timing now v = do
  guard (not (before now v.start_at)) not_started
  guard (not (after now v.end_at)) has_ended

-- `none` of the ids is invalid: an id of no option of the voting.
abbrev pub has_option : Database → String → String → Bool
has_option db voting_id id = any (λ o. str_eq o.voting_id voting_id && str_eq o.id id) db.options

unfoldable pub assert_option_ids : Database → String → List String → Result VoteError (Unit {0})
assert_option_ids db voting_id option_ids =
    elim (filter (λ id. not (has_option db voting_id id)) option_ids) [
      | [] ↦ ok tt
      | id ∷ ids ↦ err (invalid_options (id ∷ ids))
    ]

abbrev pub is_single : VotingType → Bool
is_single single_choice = true
is_single multiple_choice = false

abbrev pub exceeds : ℕ → Option ℕ → Bool
exceeds n none = false
exceeds n (some m) = ltb m n

unfoldable pub assert_choice_count :
    Voting → List String → (has_other : Bool) → Result VoteError (Unit {0})
assert_choice_count v option_ids has_other = do
  let effective = length option_ids + (if has_other then 1 else 0)
  guard (not (is_single v.type && ltb 1 effective)) multiple_not_allowed
  guard (not (ltb 0 (length option_ids) && ltb (length option_ids) v.min_choices && not has_other))
      too_few
  guard (not (exceeds effective v.max_choices)) too_many

-- if (optionIds.length > 0)
unfoldable pub assert_chosen :
    Database → Voting → List String → (has_other : Bool) → Result VoteError (Unit {0})
unfolding assert_option_ids assert_choice_count
assert_chosen db v [] has_other = ok tt
assert_chosen db v (id ∷ ids) has_other = do
  assert_option_ids db v.id (id ∷ ids)
  assert_choice_count v (id ∷ ids) has_other

-- `otherText?.trim()`; an empty text is falsy.
abbrev pub trimmed_other : Option String → Option String
trimmed_other none = none
trimmed_other (some t) = given (some (trim t))

-- pending.votingId && pending.votingId !== votingId
abbrev pub of_other_voting : String → Option String → Bool
of_other_voting voting_id pending_id = elim (given pending_id) [
  | none ↦ false
  | some id ↦ not (str_eq id voting_id)
]

abbrev pub key_of {ℓ} : {A : Type ℓ} → Result KeyError A → Result VoteError A
key_of (ok k) = ok k
key_of (err e) = err (key_failed e)

-- What the guards leave for the rest of `vote`.
pub record Admitted : Type 0 where
  pub token_hash : String
  pub is_practice : Bool
  pub voting : Voting
  pub other : Option String

module _ (p : VotePlatform) where
  -- `CryptoUtils.hashToken`
  abbrev pub hash_token : Hex → Result VoteError String
  hash_token token = do
    secret ← found (given p.token_hash_secret) secret_unset
    ok (p.hmac_sha256 secret (hex_text token))

  -- The answers that a vote may give.
  unfoldable pub assert_answers :
      Database → Voting → VoteRequest → (has_other : Bool) → Result VoteError (Unit {0})
  unfolding assert_chosen
  assert_answers db v req has_other = do
    guard (not (has_other && not v.allow_other)) other_not_allowed
    guard (not ((length req.option_ids == 0) && not has_other && not req.is_abstention))
        nothing_selected
    guard (not (req.is_abstention && (ltb 0 (length req.option_ids) || has_other)))
        conflicting_abstention
    assert_chosen db v req.option_ids has_other

  -- From the lock to the guards, in the order of the code.
  unfoldable pub admit : ℕ → VoteRequest → Database → KeyStore → Result VoteError Admitted
  unfolding assert_timing assert_answers get_key verify_blind_signature
  admit now req db keys = do
    token_hash ← hash_token req.token
    pending ← found (find_pending_ballot token_hash db) invalid_token
    guard (not (of_other_voting req.voting_id pending.voting_id)) invalid_token
    guard (not (ltb pending.expires_at now)) token_expired
    key ← key_of (get_key p.rsa p.rsa_key_size SigningKeys.voting req.voting_id keys)
    guard (verify_blind_signature p.rsa req.token req.signature key.public_key) invalid_signature
    voting ← found (find_voting req.voting_id db) voting_not_found
    guard (not voting.is_finalized) voting_finalized
    assert_timing now voting
    let other = trimmed_other req.other_text
    assert_answers db voting req (is_some other)
    ok (record {
      token_hash = token_hash;
      is_practice = pending.is_practice || req.is_practice;
      voting = voting;
      other = other;
    })
