-- ===== src/Vote/Submit/Lock.antt =====
-- The lock of `vote` is released on every path, and no other lock is touched.
use voting_secure.Base.{
  if◌then◌else◌, ◌≡◌, refl, String, none, some, List, arith, str_eq, str_eq_iff, str_eq_refl,
  opt_eq_refl, Option-cases, Bool-cases, inl, inr, ◌∙◌, ap, sym,
}
use voting_secure.Vote.Submit.Cases.{submit-cases, rejected, practised, recorded}
use voting_secure.Redis.{
  Keys, Redis, acquire_lock, release_lock, set_key, del_key, perform_vote, set_temporary_receipts,
  del_snapshot,
}
use voting_secure.Vote.Types.{Ballot, Database, VoteState, VotePlatform}
use voting_secure.Vote.Guards.{VoteRequest, Admitted}
use voting_secure.Vote.Cast.{Outside, lock_key}
use voting_secure.Vote.Submit.{update_cache, follow_up, submit, vote}

follow_up-locks :
    (out : Outside) (req : VoteRequest) (user : String) (adm : Admitted) (bs : List Ballot)
    (db : Database) (s : VoteState)
    → (follow_up out req user adm bs db s).1.redis.locks ≡ s.redis.locks
unfolding follow_up update_cache del_snapshot set_temporary_receipts perform_vote
follow_up-locks out req user adm bs db s = ground arith

-- Taking a free lock and releasing it leaves every lock as it was.
release_taken :
    (key token k : String) (locks : Keys String)
    → locks key ≡ none
    → del_key key (set_key key token locks) k ≡ locks k
unfolding del_key set_key
release_taken key token k locks free = elim (Bool-cases (str_eq k key)) [
  | inl same ↦ rw (same, del_key) (sym (ap locks ((str_eq_iff k key).0 same) ∙ free))
  | inr other ↦ rw (other, del_key, set_key) refl
]

set_same : (key token : String) (locks : Keys String) → set_key key token locks key ≡ some token
unfolding set_key
set_same key token locks = rw (str_eq_refl key) refl

release_lock-taken :
    (key token k : String) (r : Redis)
    → r.locks key ≡ some token
    → (release_lock key token r).locks k ≡ del_key key r.locks k
unfolding release_lock
release_lock-taken key token k r held = rw (held, opt_eq_refl (some token), release_lock) refl

module _ (p : VotePlatform) (out : Outside) (req : VoteRequest) (user : String) where
  submit-locks : (s : VoteState) → (submit p out req user s).1.redis.locks ≡ s.redis.locks
  submit-locks s = elim (submit-cases p out req user s) [
    | rejected e done ↦ rw done refl
    | practised adm bs a h practice done ↦ rw done refl
    | recorded adm bs all db a h real c done ↦ rw done (follow_up-locks out req user adm all db s)
  ]

  -- Whatever a vote answers, every lock is afterwards as it was before, if the release of the lock does
  -- not throw: the voter's own is free again if it was free, and stays with its holder if it was
  -- taken. If the release throws, the locks are as they were after the voter's was taken.
  pub vote-locks :
      (s : VoteState) (k : String)
      → (vote p out req user s).1.redis.locks k ≡ (
          if out.released
          then s.redis.locks k
          else (acquire_lock (lock_key req.voting_id user) out.lock_token s.redis).1.locks k)
  unfolding vote acquire_lock
  vote-locks s k = elim (Option-cases (s.redis.locks (lock_key req.voting_id user))) [
    | inr (owner, taken) ↦ elim (Bool-cases out.released) [
      | inl released ↦ rw (taken, released, vote, acquire_lock) refl
      | inr kept ↦ rw (taken, kept, vote, acquire_lock) refl
    ]
    | inl free ↦
        let key = lock_key req.voting_id user in
        let taken : VoteState = record s {
          redis = record s.redis { locks = set_key key out.lock_token s.redis.locks };
        } in
        let held : (submit p out req user taken).1.redis.locks key ≡ some out.lock_token =
          ap (λ (l : Keys String). l key) (submit-locks taken)
          ∙ set_same key out.lock_token s.redis.locks in
        elim (Bool-cases out.released) [
          | inl released ↦
              rw (free, released, vote, acquire_lock)
                (release_lock-taken key out.lock_token k (submit p out req user taken).1.redis held
                  ∙ ap (λ (l : Keys String). del_key key l k) (submit-locks taken)
                  ∙ release_taken key out.lock_token k s.redis.locks free)
          | inr kept ↦
              rw (free, kept, vote, acquire_lock)
                (ap (λ (l : Keys String). l k) (submit-locks taken))
        ]
  ]
