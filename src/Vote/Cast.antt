-- ===== src/Vote/Cast.antt =====
-- `vote` (backend/src/votings/vote.service.ts): the lock, the guards, the transaction that writes the
-- ballots and deletes the pending ballot, and what follows it. Mail and the broadcast of results
-- change nothing that the service keeps and are left out.
use voting_secure.Base.{
  ℕ, String, Bool, true, false, not, Option, none, some, List, [], ◌∷◌, ◌++◌, map, ◌&&◌, str_eq,
  is_some, if◌then◌else◌, filter, find?, any, length, Result, ok, ◌>>=◌, ◌>>◌, guard, found, concat,
}
use voting_secure.Crypto.Hex.{Hex}
use voting_secure.Audit.Hash.{given}
use voting_secure.Audit.Types.{ChainAction, ChainContext, Value, Items, Fields}
use voting_secure.Vote.Types.{Voting, VotingOption, Ballot, Database, VotePlatform, hex_text}
use voting_secure.Vote.Guards.{VoteError, VoteRequest, Admitted, admit}
use voting_secure.Vote.Guards

-- What the outside answers to one call: the time, to the minute too, the random lock token, the id
-- that the database gives to a new row, and whether the transaction, the cache calls and the
-- release of the lock succeed.
pub record Outside : Type 0 where
  pub now : ℕ
  pub minute : String
  pub lock_token : String
  pub new_option_id : String
  pub commits : Bool
  pub cache_up : Bool
  pub snapshot_deleted : Bool
  pub released : Bool

pub record Voted : Type 0 where
  pub receipts : List String
  pub is_practice : Bool
  pub verify_url : String
  pub chain_url : String

abbrev pub lock_key : (voting_id user_id : String) → String
lock_key voting_id user_id = concat ("vote_lock:" ∷ voting_id ∷ ":" ∷ user_id ∷ [])

abbrev pub hashes : List Ballot → List String
hashes = map (λ b. b.ballot_hash)

-- A ballot's hash is unique; the first ballot that breaks this makes the transaction fail.
unfoldable pub create_ballots_tx : List Ballot → List Ballot → Option (List Ballot)
create_ballots_tx [] stored = some stored
create_ballots_tx (b ∷ bs) stored =
    if any (λ c. str_eq c.ballot_hash b.ballot_hash) stored
    then none
    else create_ballots_tx bs (stored ++ b ∷ [])

-- The dynamic option of an "Other" text: the one that is there, or a new one.
unfoldable pub other_option :
    (new_id voting_id text : String) → List VotingOption → String × List VotingOption
other_option new_id voting_id text options =
    elim (find? (λ o. str_eq o.voting_id voting_id && str_eq o.text text && o.is_dynamic) options) [
      | some o ↦ (o.id, options)
      | none ↦ (
        new_id,
        options
            ++ record { id = new_id; text = text; voting_id = voting_id; is_dynamic = true } ∷ [],
      )
    ]

-- payload of BALLOT_CAST
abbrev pub texts : List String → Items
texts [] = Items.nil
texts (t ∷ ts) = Items.cons (Value.text t) (texts ts)

-- !!otherText
abbrev pub truthy : Option String → Bool
truthy t = is_some (given t)

abbrev pub ballot_cast : VoteRequest → Voting → List String → ChainContext
ballot_cast req voting receipts = record {
  action = ChainAction.ballot_cast;
  payload = Value.obj (
      Fields.field "ballotHashes" (Value.arr (texts receipts)) (
        Fields.field "blindSignature" (Value.text (hex_text req.signature)) (
          Fields.field "optionCount" (Value.num (length req.option_ids)) (
            Fields.field "hasOther" (Value.bool (truthy req.other_text))
              (Fields.field "isAbstention" (Value.bool req.is_abstention) Fields.end)))));
  user_id = none;
  group_id = some voting.group_id;
  voting_id = some req.voting_id;
  survey_id = none;
}

module _ (p : VotePlatform) where
  -- `CryptoUtils.generateBallotReceipt`
  abbrev pub ballot_receipt : (voting_id option_id : String) → Hex → Result VoteError String
  ballot_receipt voting_id option_id signature = do
    secret ← found (given p.ballot_secret) Guards.secret_unset
    ok (p.hmac_sha256 secret (concat (voting_id ∷ ":" ∷ option_id ∷ ":" ∷ hex_text signature ∷ [])))

  abbrev pub ballot_for : VoteRequest → (option_id : String) → Result VoteError Ballot
  ballot_for req option_id = do
    receipt ← ballot_receipt req.voting_id option_id req.signature
    ok (record {
      voting_id = req.voting_id;
      option_id = some option_id;
      is_abstention = false;
      ballot_hash = receipt;
      blind_signature = req.signature;
    })

  unfoldable pub chosen_ballots : VoteRequest → List String → Result VoteError (List Ballot)
  chosen_ballots req [] = ok []
  chosen_ballots req (id ∷ ids) = do b ← ballot_for req id; bs ← chosen_ballots req ids; ok (b ∷ bs)

  abbrev pub abstentions : VoteRequest → Result VoteError (List Ballot)
  abstentions req = if not req.is_abstention then ok [] else do
    receipt ← ballot_receipt req.voting_id "abstention" req.signature
    ok (
        record {
          voting_id = req.voting_id;
          option_id = none;
          is_abstention = true;
          ballot_hash = receipt;
          blind_signature = req.signature;
        }
        ∷ [])

  -- The ballots that are built before the transaction.
  unfoldable pub hashed_ballots : VoteRequest → Result VoteError (List Ballot)
  unfolding chosen_ballots
  hashed_ballots req = do
    chosen ← chosen_ballots req req.option_ids
    abstained ← abstentions req
    ok (chosen ++ abstained)

  -- trimmedOther && voting.allowOther
  abbrev pub other_of : Admitted → Option String
  other_of adm = if adm.voting.allow_other then adm.other else none

  -- The ballots with that of the "Other" answer, and the options with it.
  unfoldable pub add_other :
      Outside
      → VoteRequest
      → Option String
      → List Ballot
      → List VotingOption
      → Result VoteError (List Ballot × List VotingOption)
  unfolding other_option
  add_other out req none bs options = ok (bs, options)
  add_other out req (some text) bs options = do
    let (id, options') = other_option out.new_option_id req.voting_id text options
    b ← ballot_for req id
    ok (bs ++ b ∷ [], options')

  -- The transaction: the ballots, the database after it, or an error and no change.
  unfoldable pub cast :
      Outside
      → VoteRequest
      → Admitted
      → List Ballot
      → Database
      → Result VoteError (List Ballot × Database)
  unfolding add_other create_ballots_tx
  cast out req adm bs db = do
    (all, options') ← add_other out req (other_of adm) bs db.options
    stored ← found (create_ballots_tx all db.ballots) Guards.write_failed
    guard out.commits Guards.write_failed
    ok (
      all,
      record db {
        options = options';
        ballots = stored;
        pending_ballots = filter (λ b. not (str_eq b.token_hash adm.token_hash)) db.pending_ballots;
      },
    )
