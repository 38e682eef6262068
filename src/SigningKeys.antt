-- ===== src/SigningKeys.antt =====
-- The RSA key of each voting and survey (backend/src/signing-keys/signing-keys.service.ts). The pair
-- that Node generates is an argument; the environment that holds private keys is part of the state.
pub mod Laws
use voting_secure.Base.{
  ℕ, String, Bool, true, false, Option, none, some, List, [], ◌∷◌, ◌++◌, ◌<>◌, leb, opt_eq, str_eq,
  find?, if◌then◌else◌, Result, ok, err,
}
use voting_secure.Crypto.Hex.{Hex, to_hex}
use voting_secure.Crypto.Blind.{Rsa}
use voting_secure.Redis.{Keys, set_key}

-- A row of `VotingSigningKey`.
pub record SigningKey : Type 0 where
  pub voting_id : Option String
  pub survey_id : Option String
  pub public_key : String

pub record KeyStore : Type 0 where
  pub rows : List SigningKey
  pub environment : Keys String

pub record KeyInfo : Type 0 where
  pub public_key : String
  pub modulus_hex : Hex
  pub exponent_hex : Hex
  pub key_size : ℕ

pub data KeyError : Type 0 where
  private_key_unavailable key_not_found : KeyError

-- `VOTING_RSA_KEY_SIZE`, as `parseInt` reads it.
abbrev pub key_size : Option ℕ → ℕ
key_size none = 2048
key_size (some parsed) = if leb 1024 parsed then parsed else 2048

abbrev pub private_key_env_key : String → String
private_key_env_key id = "VOTING_PRIVATE_KEY_" <> id

-- An empty text counts as missing.
unfoldable pub get_private_key : String → KeyStore → Result KeyError String
get_private_key id s = elim (s.environment (private_key_env_key id)) [
  | none ↦ err private_key_unavailable
  | some k ↦ if str_eq k "" then err private_key_unavailable else ok k
]

-- Which column names the entity.
pub data Entity : Type 0 where
  voting survey : Entity

abbrev pub entity_id : Entity → SigningKey → Option String
entity_id voting row = row.voting_id
entity_id survey row = row.survey_id

abbrev pub new_row : Entity → (id public_key : String) → SigningKey
new_row entity id k = record {
  voting_id = elim entity [ voting ↦ some id | survey ↦ none ];
  survey_id = elim entity [ voting ↦ none | survey ↦ some id ];
  public_key = k;
}

abbrev pub find_key : Entity → String → KeyStore → Option SigningKey
find_key entity id s = find? (λ row. opt_eq (entity_id entity row) (some id)) s.rows

module _ (rsa : Rsa) (configured : Option ℕ) where
  abbrev pub to_info : String → KeyInfo
  to_info k =
      let (n, e) = rsa.public_params k in
      record {
        public_key = k;
        modulus_hex = to_hex n;
        exponent_hex = to_hex e;
        key_size = key_size configured;
      }

  -- `ensureVotingKey` and `ensureSurveyKey`.
  unfoldable pub ensure_key :
      Entity
      → (generated : String × String) → String
      → KeyStore
      → Result KeyError (KeyInfo × String) × KeyStore
  unfolding get_private_key set_key
  ensure_key entity (public_key, private_key) id s = elim (find_key entity id s) [
    | some row ↦ elim (get_private_key id s) [
      | ok k ↦ (ok (to_info row.public_key, k), s)
      | err e ↦ (err e, s)
    ]
    | none ↦ (
      ok (to_info public_key, private_key),
      record {
        rows = s.rows ++ new_row entity id public_key ∷ [];
        environment = set_key (private_key_env_key id) private_key s.environment;
      },
    )
  ]

  -- `getVotingKey` and `getSurveyKey`.
  unfoldable pub get_key : Entity → String → KeyStore → Result KeyError KeyInfo
  get_key entity id s = elim (find_key entity id s) [
    | none ↦ err key_not_found
    | some row ↦ ok (to_info row.public_key)
  ]
