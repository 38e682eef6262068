-- ===== src/Vote/Types.antt =====
-- What the voting service keeps (backend/prisma/schema.prisma and votings.repository.ts): the rows
-- that it reads and writes, and what it calls of Node and the other services.
use voting_secure.Base.{
  ℕ, String, Bool, Option, List, ◌&&◌, find?, is_some, str_eq, not, join, map, if◌then◌else◌, ltb,
  number_text,
}
use voting_secure.Crypto.Hex.{Hex}
use voting_secure.Crypto.Blind.{Rsa}
use voting_secure.Redis.{Redis}
use voting_secure.SigningKeys.{KeyStore}
use voting_secure.Audit.Types.{ChainContext}

pub data VotingType : Type 0 where
  single_choice multiple_choice : VotingType

pub record Voting : Type 0 where
  pub id : String
  pub title : String
  pub description : Option String
  pub creator_id : String
  pub group_id : String
  pub type : VotingType
  pub is_public : Bool
  pub is_finalized : Bool
  pub finalized_at : Option ℕ
  pub allow_other : Bool
  pub allow_abstain : Bool
  pub min_choices : ℕ
  pub max_choices : Option ℕ
  pub start_at : Option ℕ
  pub end_at : Option ℕ
  pub deleted_at : Option ℕ
  pub created_at : ℕ
  pub broadcast_interval : ℕ
  pub last_broadcast_at : Option ℕ

pub record VotingOption : Type 0 where
  pub id : String
  pub text : String
  pub voting_id : String
  pub is_dynamic : Bool

pub record Ballot : Type 0 where
  pub voting_id : String
  pub option_id : Option String
  pub is_abstention : Bool
  pub ballot_hash : String
  pub blind_signature : Hex

pub record PendingBallot : Type 0 where
  pub token_hash : String
  pub user_id : String
  pub voting_id : Option String
  pub survey_id : Option String
  pub is_practice : Bool
  pub blind_sig : Hex
  pub expires_at : ℕ

pub record Participation : Type 0 where
  pub user_id : String
  pub voting_id : String
  pub created_at : ℕ

-- `tally` is the encrypted text.
pub record VotingResult : Type 0 where
  pub voting_id : String
  pub tally : String
  pub total_ballots : ℕ
  pub tally_hash : String
  pub sealed_at : ℕ

-- The tally that is sealed: each option's id with its count, and the abstentions.
pub record Tally : Type 0 where
  pub counts : List (String × ℕ)
  pub abstentions : ℕ

pub record Database : Type 0 where
  pub votings : List Voting
  pub options : List VotingOption
  pub ballots : List Ballot
  pub pending_ballots : List PendingBallot
  pub participations : List Participation
  pub results : List VotingResult

-- The state that the service's calls share. `appended` are the entries that the audit service's `appendChain`
-- was called with, in order; it does not tell its caller whether the queue takes them.
pub record VoteState : Type 0 where
  pub db : Database
  pub redis : Redis
  pub keys : KeyStore
  pub appended : List ChainContext

-- Secrets from the environment, Node's `crypto`, and JSON.parse of a tally. `none` is what is thrown.
pub record VotePlatform : Type 0 where
  pub rsa : Rsa
  pub rsa_key_size : Option ℕ
  pub hmac_sha256 : (secret text : String) → String
  pub sha256 : String → String
  pub token_hash_secret : Option String
  pub ballot_secret : Option String
  pub to_iso_string : ℕ → String
  pub encrypt : String → String
  pub decrypt : String → Option String
  pub read_tally : String → Option Tally

-- The texts of a hexadecimal value.
abbrev hex_digit : ℕ → String
hex_digit d =
    if ltb d 10
    then number_text d
    else if ltb d 11
    then "a"
    else if ltb d 12
    then "b"
    else if ltb d 13
    then "c"
    else if ltb d 14
    then "d"
    else if ltb d 15
    then "e"
    else "f"

abbrev pub hex_text : Hex → String
hex_text h = join "" (map hex_digit h)

-- findUnique({ where: { id, deletedAt: null } })
abbrev pub find_voting : String → Database → Option Voting
find_voting id db = find? (λ v. str_eq v.id id && not (is_some v.deleted_at)) db.votings

abbrev pub find_pending_ballot : String → Database → Option PendingBallot
find_pending_ballot token_hash db = find? (λ b. str_eq b.token_hash token_hash) db.pending_ballots

abbrev pub find_participation : (user_id voting_id : String) → Database → Option Participation
find_participation user_id voting_id db =
    find? (λ q. str_eq q.user_id user_id && str_eq q.voting_id voting_id) db.participations
