-- ===== src/Vote/Submit.antt =====
-- `vote` as a whole (backend/src/votings/vote.service.ts): what one call answers and leaves.
pub mod Cases
pub mod Lock
pub mod Stored
pub mod Chosen
pub mod Outcome
pub mod Once
pub mod Anonymous
use voting_secure.Base.{
  ℕ, String, Bool, true, false, not, Option, none, some, List, [], ◌∷◌, ◌++◌, if◌then◌else◌, Result,
  ok, err, concat,
}
use voting_secure.Redis.{
  Redis, acquire_lock, release_lock, perform_vote, set_temporary_receipts, del_snapshot,
}
use voting_secure.Vote.Types.{Ballot, Database, VoteState, VotePlatform}
use voting_secure.Vote.Guards.{VoteError, VoteRequest, Admitted, admit}
use voting_secure.Vote.Guards
use voting_secure.Vote.Cast.{Outside, Voted, lock_key, hashes, ballot_cast, hashed_ballots, cast}

abbrev pub voted : VoteRequest → Bool → List String → Voted
voted req is_practice receipts = record {
  receipts = receipts;
  is_practice = is_practice;
  verify_url = concat ("/votings/" ∷ req.voting_id ∷ "/verify-receipt" ∷ []);
  chain_url = concat ("/audit/votings/audit-chain/" ∷ req.voting_id ∷ []);
}

-- `performVote` and `setTemporaryReceipts` in a try block.
unfoldable pub update_cache :
    Outside → VoteRequest → (user_id : String) → List String → Redis → Redis
unfolding perform_vote set_temporary_receipts
update_cache out req user_id receipts r =
    if out.cache_up
    then set_temporary_receipts req.voting_id user_id receipts
        (perform_vote out.minute req.voting_id false r)
    else r

-- After the transaction: the cache, the audit entry, the cached results. Where the last of these
-- fails the call throws, with the ballots written.
unfoldable pub follow_up :
    Outside
    → VoteRequest
    → (user_id : String) → Admitted
    → List Ballot
    → Database
    → VoteState
    → Result VoteError Voted × VoteState
unfolding update_cache del_snapshot
follow_up out req user_id adm ballots db s =
    let receipts = hashes ballots in
    let redis = update_cache out req user_id receipts s.redis in
    let appended = s.appended ++ ballot_cast req adm.voting receipts ∷ [] in
    if out.snapshot_deleted
    then (
      ok (voted req false receipts),
      record s {
        db = db;
        redis = del_snapshot (concat ("results:snapshot:" ∷ req.voting_id ∷ [])) redis;
        appended = appended;
      },
    )
    else (err Guards.cache_failed, record s { db = db; redis = redis; appended = appended })

module _ (p : VotePlatform) where
  -- Where a vote is for practice nothing is written.
  unfoldable pub persist :
      Outside
      → VoteRequest
      → (user_id : String) → Admitted
      → List Ballot
      → VoteState
      → Result VoteError Voted × VoteState
  unfolding cast follow_up
  persist out req user_id adm ballots s =
      if adm.is_practice
      then (ok (voted req true (hashes ballots)), s)
      else elim (cast p out req adm ballots s.db) [
        | err e ↦ (err e, s)
        | ok (all, db) ↦ follow_up out req user_id adm all db s
      ]

  -- The body of the try block, under the lock.
  unfoldable pub submit :
      Outside → VoteRequest → (user_id : String) → VoteState → Result VoteError Voted × VoteState
  unfolding admit hashed_ballots persist
  submit out req user_id s = elim (admit p out.now req s.db s.keys) [
    | err e ↦ (err e, s)
    | ok adm ↦ elim (hashed_ballots p req) [
      | err e ↦ (err e, s)
      | ok ballots ↦ persist out req user_id adm ballots s
    ]
  ]

  -- Take the lock, run the body, and release the lock whatever came out. Where the release throws, its
  -- error takes the place of the answer, and the lock stays.
  unfoldable pub vote :
      Outside → VoteRequest → (user_id : String) → VoteState → Result VoteError Voted × VoteState
  unfolding submit acquire_lock release_lock
  vote out req user_id s =
      let key = lock_key req.voting_id user_id in
      let (acquired, redis) = acquire_lock key out.lock_token s.redis in
      if not acquired
      then (err Guards.submission_in_progress, s)
      else let (answer, s') = submit out req user_id (record s { redis = redis }) in
        if out.released
        then (answer, record s' { redis = release_lock key out.lock_token s'.redis })
        else (err Guards.cache_failed, s')
