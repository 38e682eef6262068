-- ===== src/Vote/Sign.antt =====
-- `signBlindedToken` (backend/src/votings/vote.service.ts): one blind signature for each voter, which
-- is what a participation records. Mail is left out.
pub mod Issued
pub mod Once
use voting_secure.Base.{
  ℕ, ◌+◌, ◌*◌, String, Bool, true, false, not, Option, none, some, List, [], ◌∷◌, ◌++◌, is_some,
  any, str_eq, ◌&&◌, ◌||◌, if◌then◌else◌, Result, ok, err, ◌>>=◌, ◌>>◌, guard, found,
}
use voting_secure.Crypto.Hex.{Hex}
use voting_secure.Crypto.Blind.{sign_blinded}
use voting_secure.Audit.Types.{ChainAction, ChainContext, Value, Fields}
use voting_secure.SigningKeys.{KeyStore, KeyInfo, KeyError, ensure_key}
use voting_secure.SigningKeys
use voting_secure.Vote.Types.{
  Voting, PendingBallot, Participation, Database, VoteState, VotePlatform, find_voting,
  find_pending_ballot, find_participation,
}
use voting_secure.Vote.Guards.{VoteError, hash_token, key_of}
use voting_secure.Vote.Guards

pub record SignRequest : Type 0 where
  pub voting_id : String
  pub token : Hex
  pub blinded : Hex
  pub is_practice : Bool

pub record Signed : Type 0 where
  pub blind_sig : Hex
  pub modulus : Hex
  pub exponent : Hex
  pub key_size : ℕ

-- 3600 * 1000
abbrev pub hour : ℕ
hour = 3600000

abbrev pub signature_issued :
    (to_iso_string : ℕ → String) (now : ℕ)
    → SignRequest
    → (user_id token_hash : String) → Voting
    → ChainContext
signature_issued to_iso_string now req user_id token_hash voting = record {
  action = ChainAction.blind_signature_issued;
  payload = Value.obj (
      Fields.field "votingId" (Value.text req.voting_id) (
        Fields.field "tokenHash" (Value.text token_hash) (
          Fields.field "expiresAt" (Value.text (to_iso_string (now + hour)))
            (Fields.field "isPractice" (Value.bool req.is_practice) Fields.end))));
  user_id = some user_id;
  group_id = some voting.group_id;
  voting_id = some req.voting_id;
  survey_id = none;
}

-- createPendingBallot: the token's hash is unique.
unfoldable pub create_pending_ballot : PendingBallot → Database → Result VoteError Database
create_pending_ballot b db =
    if is_some (find_pending_ballot b.token_hash db)
    then err Guards.write_failed
    else ok (record db { pending_ballots = db.pending_ballots ++ b ∷ [] })

-- createParticipation: user and voting are unique together.
unfoldable pub create_participation :
    (now : ℕ) (user_id voting_id : String) → Database → Result VoteError Database
create_participation now user_id voting_id db =
    if is_some (find_participation user_id voting_id db)
    then err Guards.write_failed
    else ok (record db {
      participations =
          db.participations
          ++ record { user_id = user_id; voting_id = voting_id; created_at = now } ∷ [];
    })

module _ (p : VotePlatform) where
  -- What comes before the key is looked up: the voting, and the token's hash.
  unfoldable pub may_sign :
      SignRequest → (user_id : String) → Database → Result VoteError (Voting × String)
  may_sign req user_id db = do
    voting ← found (find_voting req.voting_id db) Guards.voting_not_found
    guard (req.is_practice || not (is_some (find_participation user_id req.voting_id db)))
        Guards.already_participated
    token_hash ← hash_token p req.token
    ok (voting, token_hash)

  abbrev pub pending_ballot :
      (now : ℕ) → SignRequest → (user_id token_hash : String) → Hex → PendingBallot
  pending_ballot now req user_id token_hash blind_sig = record {
    token_hash = token_hash;
    user_id = user_id;
    voting_id = some req.voting_id;
    survey_id = none;
    is_practice = req.is_practice;
    blind_sig = blind_sig;
    expires_at = now + hour;
  }

  -- The rows that are written one after the other, with no transaction: where the second fails the
  -- first stays.
  unfoldable pub record_signature :
      (now : ℕ)
      → SignRequest
      → (user_id token_hash : String) → Hex
      → Database
      → Result VoteError (Unit {0}) × Database
  unfolding create_pending_ballot create_participation
  record_signature now req user_id token_hash blind_sig db =
      elim (create_pending_ballot (pending_ballot now req user_id token_hash blind_sig) db) [
        | err e ↦ (err e, db)
        | ok db1 ↦
            if req.is_practice
            then (ok tt, db1)
            else elim (create_participation now user_id req.voting_id db1) [
              | err e ↦ (err e, db1)
              | ok db2 ↦ (ok tt, db2)
            ]
      ]

  -- What follows the rows: the audit entry and the answer.
  abbrev pub issued :
      (now : ℕ)
      → SignRequest
      → (user_id : String) → Voting
      → (token_hash : String) → KeyInfo
      → Hex
      → VoteState
      → Result VoteError (Unit {0}) × Database
      → Result VoteError Signed × VoteState
  issued now req user_id voting token_hash key blind_sig s (err e, db) =
      (err e, record s { db = db })
  issued now req user_id voting token_hash key blind_sig s (ok _, db) = (
    ok (record {
      blind_sig = blind_sig;
      modulus = key.modulus_hex;
      exponent = key.exponent_hex;
      key_size = key.key_size;
    }),
    record s {
      db = db;
      appended =
          s.appended ++ signature_issued p.to_iso_string now req user_id token_hash voting ∷ [];
    },
  )

  unfoldable pub issue :
      (now : ℕ)
      → SignRequest
      → (user_id : String) → Voting
      → (token_hash : String) → KeyInfo × String
      → VoteState
      → Result VoteError Signed × VoteState
  unfolding record_signature sign_blinded
  issue now req user_id voting token_hash (key, private_key) s =
      elim (sign_blinded p.rsa req.blinded private_key) [
        | none ↦ (err Guards.signing_failed, s)
        | some blind_sig ↦
            issued now req user_id voting token_hash key blind_sig s
              (record_signature now req user_id token_hash blind_sig s.db)
      ]

  -- `generated` is the key pair that Node makes if the voting has none.
  unfoldable pub sign_blinded_token :
      (now : ℕ) (generated : String × String)
      → SignRequest
      → (user_id : String) → VoteState
      → Result VoteError Signed × VoteState
  unfolding may_sign ensure_key issue
  sign_blinded_token now generated req user_id s = elim (may_sign req user_id s.db) [
    | err e ↦ (err e, s)
    | ok (voting, token_hash) ↦
        let (key, keys) =
          ensure_key p.rsa p.rsa_key_size SigningKeys.voting generated req.voting_id s.keys in
        elim key [
          | err e ↦ (err (Guards.key_failed e), record s { keys = keys })
          | ok pair ↦ issue now req user_id voting token_hash pair (record s { keys = keys })
        ]
  ]
