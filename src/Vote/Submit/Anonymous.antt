-- ===== src/Vote/Submit/Anonymous.antt =====
-- What a vote stores does not depend on who casts it.
use voting_secure.Base.{
  ◌≡◌, refl, ap, String, Bool, true, false, if◌then◌else◌, err, none, List, Result, Result-cases,
  Bool-cases, inl, inr,
}
use voting_secure.Audit.Types.{ChainContext}
use voting_secure.Redis.{Redis, acquire_lock}
use voting_secure.Vote.Types.{Ballot, Database, VoteState, VotePlatform}
use voting_secure.Vote.Guards.{VoteError, VoteRequest, Admitted, admit}
use voting_secure.Vote.Guards
use voting_secure.Vote.Cast.{Outside, Voted, lock_key, cast, hashed_ballots}
use voting_secure.Vote.Submit.{follow_up, persist, submit, vote}

-- What is answered and stored, apart from Redis.
abbrev pub View : Type 0
View = Result VoteError Voted × Database × List ChainContext

abbrev pub view : Result VoteError Voted × VoteState → View
view (answer, s) = (answer, s.db, s.appended)

module _ (p : VotePlatform) (out : Outside) (req : VoteRequest) (u u' : String) (s : VoteState)
    (r r' : Redis) where
  follow_up-view :
      (adm : Admitted) (all : List Ballot) (db : Database)
      → view (follow_up out req u adm all db (record s { redis = r }))
        ≡ view (follow_up out req u' adm all db (record s { redis = r' }))
  unfolding follow_up
  follow_up-view adm all db = elim (Bool-cases out.snapshot_deleted) [
    | inl deleted ↦ rw (deleted, follow_up) refl
    | inr failed ↦ rw (failed, follow_up) refl
  ]

  persist-view :
      (adm : Admitted) (bs : List Ballot)
      → view (persist p out req u adm bs (record s { redis = r }))
        ≡ view (persist p out req u' adm bs (record s { redis = r' }))
  unfolding persist
  persist-view adm bs = elim (Bool-cases adm.is_practice) [
    | inl practice ↦ rw (practice, persist) refl
    | inr real ↦ elim (Result-cases (cast p out req adm bs s.db)) [
      | inl ((all, db), c) ↦ rw (real, c, persist) (follow_up-view adm all db)
      | inr (e, c) ↦ rw (real, c, persist) refl
    ]
  ]

  submit-view :
      view (submit p out req u (record s { redis = r }))
      ≡ view (submit p out req u' (record s { redis = r' }))
  unfolding submit
  submit-view = elim (Result-cases (admit p out.now req s.db s.keys)) [
    | inr (e, a) ↦ rw (a, submit) refl
    | inl (adm, a) ↦ elim (Result-cases (hashed_ballots p req)) [
      | inr (e, h) ↦ rw (a, h, submit) refl
      | inl (bs, h) ↦ rw (a, h, submit) (persist-view adm bs)
    ]
  ]

-- How the release of the lock ends does not tell the two apart either.
ended :
    (released : Bool) (x y : Result VoteError Voted × VoteState) (r r' : Redis)
    → view x ≡ view y
    → view (if released then (x.0, record x.1 { redis = r }) else (err Guards.cache_failed, x.1))
      ≡ view (if released then (y.0, record y.1 { redis = r' }) else (err Guards.cache_failed, y.1))
ended true x y r r' same = same
ended false x y r r' same = ap (λ (v : View). (err Guards.cache_failed, v.1, v.2)) same

module _ (p : VotePlatform) (out : Outside) (req : VoteRequest) where
  -- One and the same request, token and signature included, sent by either of two users, neither of
  -- whom has a vote in progress, gets the same answer and leaves the same database and the same calls
  -- of the audit service: `vote` writes nothing of who sends it there. What the issue of the signature
  -- wrote of the user is not looked at.
  pub vote-anonymous :
      (u u' : String) (s : VoteState)
      → s.redis.locks (lock_key req.voting_id u) ≡ none
      → s.redis.locks (lock_key req.voting_id u') ≡ none
      → view (vote p out req u s) ≡ view (vote p out req u' s)
  unfolding vote acquire_lock
  vote-anonymous u u' s free free' =
      rw (free, free', vote, acquire_lock)
        (ended out.released _ _ _ _ (submit-view p out req u u' s _ _))
