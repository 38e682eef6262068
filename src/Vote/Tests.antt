-- ===== src/Vote/Tests.antt =====
-- A voting in which Ann gets a signature and votes once, under the RSA key n = 33, e = 3, d = 7; and
-- one call each of the lock and of the key service.
use voting_secure.Base.{
  All, ◌↔◌, Result, sum_by, ◌+◌, ◌^◌, ◌%◌, ◌≡◌, refl, String, true, false, none, some, List, [],
  ◌∷◌, ok, err, ◌<>◌, number_text,
}
use voting_secure.Crypto.Hex.{hex_value, to_hex, pad_start}
use voting_secure.Crypto.Power.{mod_pow}
use voting_secure.Redis.{acquire_lock}
use voting_secure.Redis.Exclusion.{acquires, releases, run, AllRefused, held-excludes}
use voting_secure.Vote.Types.{VotingType, Voting, VoteState, VotePlatform}
use voting_secure.Vote.Guards.{VoteRequest, Admitted, admit, already_participated}
use voting_secure.Vote.Guards.Conditions.{MeetsConditions, admit-MeetsConditions_iff}
use voting_secure.Vote.Cast.{Outside, lock_key}
use voting_secure.Vote.Submit.{vote, voted}
use voting_secure.Vote.Submit.Outcome.{Outcome, IsUntouched, IsUnrecorded, vote-Outcome}
use voting_secure.Vote.Submit.Once.{VoteCall, vote_all, vote-once}
use voting_secure.Vote.Submit.Lock.{vote-locks}
use voting_secure.Vote.Submit.Anonymous.{view, vote-anonymous}
use voting_secure.Audit.Types.{Scope}
use voting_secure.Audit.Store.{AuditStore}
use voting_secure.Vote.Finalize.{
  Sealed, seal_of, finalize_voting, option_counts, count_abstentions, count_ballots_by_voting,
}
use voting_secure.Vote.Finalize.Tally.{tally-total}
use voting_secure.Vote.Finalize.Closed.{SealedOr, finalize-SealedOr, finalize-closes}
use voting_secure.Vote.Guards.{VoteError}
use voting_secure.Vote.Verifiable.{vote-receipts}
use voting_secure.Audit.Receipts.{many, find_ballot_receipt, process_queue, append_all}
use voting_secure.Audit.Receipts.Found.{IsFound}
use voting_secure.Audit.Hash.{Platform}
use voting_secure.Vote.Sign.{SignRequest, sign_blinded_token}
use voting_secure.Vote.Sign.Once.{sign-once}

abbrev pub test_platform : VotePlatform
test_platform = record {
  rsa = record {
    public_params = λ k. (33, 3);
    modulus_length = λ k. some 8;
    private_decrypt = λ k c. some (to_hex (hex_value c ^ 7 % 33));
  };
  rsa_key_size = none;
  hmac_sha256 = λ secret t. t <> secret;
  sha256 = λ t. t;
  token_hash_secret = some "#";
  ballot_secret = some "!";
  to_iso_string = number_text;
  encrypt = λ t. t;
  decrypt = λ t. some t;
  read_tally = λ t. some (record { counts = ("o", 0) ∷ []; abstentions = 0 });
}

abbrev pub test_voting : Voting
test_voting = record {
  id = "v";
  title = "Board";
  description = none;
  creator_id = "eve";
  group_id = "g";
  type = VotingType.single_choice;
  is_public = false;
  is_finalized = false;
  finalized_at = none;
  allow_other = false;
  allow_abstain = false;
  min_choices = 1;
  max_choices = some 1;
  start_at = none;
  end_at = some 100;
  deleted_at = none;
  created_at = 0;
  broadcast_interval = 1;
  last_broadcast_at = some 0;
}

abbrev pub test_start : VoteState
test_start = record {
  db = record {
    votings = test_voting ∷ [];
    options = record { id = "o"; text = "Yes"; voting_id = "v"; is_dynamic = false } ∷ [];
    ballots = [];
    pending_ballots = [];
    participations = [];
    results = [];
  };
  redis = record {
    locks = λ k. none;
    counters = λ k. none;
    trends = λ k. none;
    receipts = λ k. none;
    snapshots = λ k. none;
  };
  keys = record { rows = []; environment = λ k. none };
  appended = [];
}

abbrev sign_request : SignRequest
sign_request = record { voting_id = "v"; token = 7 ∷ []; blinded = 7 ∷ []; is_practice = false }

-- The voting after Ann got her signature.
abbrev test_signed : VoteState
test_signed =
    (sign_blinded_token test_platform 0 ("public", "private") sign_request "ann" test_start).1

abbrev pub vote_request : VoteRequest
vote_request = record {
  voting_id = "v";
  option_ids = "o" ∷ [];
  token = 7 ∷ [];
  signature = 1 ∷ 12 ∷ [];
  other_text = none;
  is_abstention = false;
  is_practice = false;
}

abbrev test_outside : Outside
test_outside = record {
  now = 10;
  minute = "00:00";
  lock_token = "t";
  new_option_id = "new";
  commits = true;
  cache_up = true;
  snapshot_deleted = true;
  released = true;
}

abbrev test_receipts : List String
test_receipts = "v:o:1c!" ∷ []

vote_runs :
    (vote test_platform test_outside vote_request "ann" test_signed).0
    ≡ ok (voted vote_request false test_receipts)
unfolding vote sign_blinded_token number_text mod_pow hex_value
vote_runs = refl

-- An abstention is taken although the voting does not allow it.
abstention_runs :
    (vote test_platform test_outside
      (record vote_request { option_ids = []; is_abstention = true })
      "ann"
      test_signed).0
    ≡ ok (voted vote_request false ("v:abstention:1c!" ∷ []))
unfolding vote sign_blinded_token number_text mod_pow hex_value
abstention_runs = refl

-- A token that was issued for a survey is taken in a voting.
survey_token_runs :
    (vote test_platform test_outside vote_request "ann" (record test_signed {
      db = record test_signed.db {
        pending_ballots =
            record {
              token_hash = "7#";
              user_id = "ann";
              voting_id = none;
              survey_id = some "s";
              is_practice = false;
              blind_sig = [];
              expires_at = 50;
            }
            ∷ [];
        participations = [];
      };
    })).0
    ≡ ok (voted vote_request false test_receipts)
unfolding vote sign_blinded_token number_text mod_pow hex_value
survey_token_runs = refl

vote-Outcome_example :
    Outcome test_platform test_outside vote_request test_signed
      (vote test_platform test_outside vote_request "ann" test_signed).1
      (vote test_platform test_outside vote_request "ann" test_signed).0
vote-Outcome_example = vote-Outcome test_platform test_outside vote_request "ann" test_signed

abbrev again : VoteCall
again = record { outside = test_outside; request = vote_request; user = "eve" }

vote-once_example :
    IsUntouched
      (vote_all test_platform
        (again ∷ [])
        (vote test_platform test_outside vote_request "ann" test_signed).1)
      (vote test_platform test_outside vote_request "bob" (
        vote_all test_platform
          (again ∷ [])
          (vote test_platform test_outside vote_request "ann" test_signed).1)).1
    × IsUnrecorded
        (vote test_platform test_outside vote_request "bob" (
          vote_all test_platform
            (again ∷ [])
            (vote test_platform test_outside vote_request "ann" test_signed).1)).0
vote-once_example =
    vote-once test_platform test_outside test_outside vote_request vote_request "ann" "bob"
      test_signed (voted vote_request false test_receipts) (again ∷ []) vote_runs refl refl

-- After Ann's vote Bob asks for a signature with her token; the token and its signature are then
-- taken for a second vote.
reissued_runs :
    (vote test_platform test_outside
      (record vote_request { option_ids = []; is_abstention = true })
      "bob"
      (sign_blinded_token test_platform 0
        ("public", "private")
        sign_request
        "bob"
        (vote test_platform test_outside vote_request "ann" test_signed).1).1).0
    ≡ ok (voted vote_request false ("v:abstention:1c!" ∷ []))
unfolding vote sign_blinded_token number_text mod_pow hex_value
reissued_runs = refl

vote-locks_example :
    (vote test_platform test_outside vote_request "ann" test_signed).1.redis.locks
      (lock_key "v" "ann")
    ≡ test_signed.redis.locks (lock_key "v" "ann")
vote-locks_example =
    vote-locks test_platform test_outside vote_request "ann" test_signed (lock_key "v" "ann")

vote-anonymous_example :
    view (vote test_platform test_outside vote_request "ann" test_signed)
    ≡ view (vote test_platform test_outside vote_request "bob" test_signed)
unfolding sign_blinded_token number_text hex_value
vote-anonymous_example =
    vote-anonymous test_platform test_outside vote_request "ann" "bob" test_signed refl refl

abbrev test_admitted : Admitted
test_admitted = record {
  token_hash = "7#";
  is_practice = false;
  voting = test_voting;
  other = none;
}

admit-MeetsConditions_iff_example :
    (admit test_platform 10 vote_request test_signed.db test_signed.keys ≡ ok test_admitted)
    ↔ MeetsConditions test_platform 10 vote_request test_signed.db test_signed.keys test_admitted
admit-MeetsConditions_iff_example =
    admit-MeetsConditions_iff test_platform 10 vote_request test_signed.db test_signed.keys
      test_admitted

sign-once_example :
    sign_blinded_token test_platform 3 ("other", "secret") sign_request "ann" test_signed
    ≡ (err already_participated, test_signed)
unfolding sign_blinded_token number_text hex_value pad_start
sign-once_example =
    sign-once test_platform "ann" 0 3 ("public", "private") ("other", "secret") sign_request
      sign_request test_start
      (record { blind_sig = to_hex 28; modulus = to_hex 33; exponent = to_hex 3; key_size = 2048 })
      refl refl refl refl

held-excludes_example :
    (run "l" (acquires "b" ∷ releases "b" ∷ []) (acquire_lock "l" "bb" test_start.redis).1
      ≡ (acquire_lock "l" "bb" test_start.redis).1)
    × AllRefused "l" (acquires "b" ∷ releases "b" ∷ []) (acquire_lock "l" "bb" test_start.redis).1
unfolding acquire_lock
held-excludes_example =
    held-excludes "l" "bb" (acquires "b" ∷ releases "b" ∷ [])
      (acquire_lock "l" "bb" test_start.redis).1 refl (λ e. cc e, (λ e. cc e, tt))

-- The voting after Ann's vote.
abbrev test_voted : VoteState
test_voted = (vote test_platform test_outside vote_request "ann" test_signed).1

-- An audit store in which the voting's chain has just been verified.
abbrev test_audit : AuditStore
test_audit = record {
  chain = [];
  verifications =
      record {
        scope = Scope.voting;
        scope_id = some "v";
        last_verified_sequence = 2;
        last_full_verification_at = some 110;
        updated_at = 110;
      }
      ∷ [];
  checkpoints = [];
  counters = λ k. none;
}

tally-total_example :
    sum_by (λ c. c.1) (option_counts "v" test_voted.db) + count_abstentions "v" test_voted.db
    ≡ count_ballots_by_voting "v" test_voted.db
unfolding vote sign_blinded_token number_text mod_pow hex_value
tally-total_example = tally-total "v" test_voted.db (refl, tt)

abbrev test_finalized : Result VoteError Sealed × VoteState
test_finalized = finalize_voting test_platform 120 true "v" test_audit test_start

finalize-SealedOr_example : SealedOr test_platform 120 true "v" test_audit test_start test_finalized
finalize-SealedOr_example = finalize-SealedOr test_platform 120 true "v" test_audit test_start

finalize-closes_example :
    IsUntouched test_finalized.1
      (vote test_platform test_outside vote_request "ann" test_finalized.1).1
    × IsUnrecorded (vote test_platform test_outside vote_request "ann" test_finalized.1).0
unfolding finalize_voting number_text
finalize-closes_example =
    finalize-closes test_platform 120 true "v" test_audit test_start
      (seal_of test_platform 120 "v" test_start.db) test_outside vote_request "ann" refl refl

admits_signed :
    admit test_platform 10 vote_request test_signed.db test_signed.keys ≡ ok test_admitted
unfolding sign_blinded_token admit number_text mod_pow hex_value
admits_signed = refl

abbrev audit_platform : Platform
audit_platform = record { sha256 = λ t. t; to_iso_string = number_text; genesis_seed = "seed" }

abbrev no_entries : AuditStore
no_entries = record { chain = []; counters = λ k. none; verifications = []; checkpoints = [] }

abbrev queue_empty : VoteState
queue_empty = record test_signed { appended = [] }

-- The vote's entry, alone in the queue.
abbrev after_queue : AuditStore
after_queue =
    (process_queue audit_platform (λ k. k) 0
      (append_all (λ k. true) 0
        (vote test_platform test_outside vote_request "ann" queue_empty).1.appended [])
      no_entries).1

vote-receipts_example :
    All IsFound (find_ballot_receipt "v" (many test_receipts) Scope.voting after_queue)
unfolding vote sign_blinded_token number_text mod_pow hex_value process_queue append_all
vote-receipts_example =
    vote-receipts test_platform test_outside vote_request "ann" queue_empty
      (voted vote_request false test_receipts) audit_platform (λ k. true) (λ k. k) no_entries refl
      refl refl refl
