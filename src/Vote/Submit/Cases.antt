-- ===== src/Vote/Submit/Cases.antt =====
-- The ways that the body of `vote` can go.
use voting_secure.Base.{
  ◌≡◌, refl, String, true, false, List, ok, err, Result-cases, Bool-cases, inl, inr,
}
use voting_secure.Vote.Types.{Ballot, Database, VoteState, VotePlatform}
use voting_secure.Vote.Guards.{VoteError, VoteRequest, Admitted, admit}
use voting_secure.Vote.Cast.{Outside, cast, hashed_ballots, hashes}
use voting_secure.Vote.Submit.{follow_up, persist, submit, voted}

module _ (p : VotePlatform) (out : Outside) (req : VoteRequest) (user : String)
    (s : VoteState) where
  pub data Submitted : Type 0 where
    rejected : (e : VoteError) → submit p out req user s ≡ (err e, s) → Submitted
    practised :
        (adm : Admitted) (bs : List Ballot)
        → admit p out.now req s.db s.keys ≡ ok adm
        → hashed_ballots p req ≡ ok bs
        → adm.is_practice ≡ true
        → submit p out req user s ≡ (ok (voted req true (hashes bs)), s)
        → Submitted
    recorded :
        (adm : Admitted) (bs all : List Ballot) (db : Database)
        → admit p out.now req s.db s.keys ≡ ok adm
        → hashed_ballots p req ≡ ok bs
        → adm.is_practice ≡ false
        → cast p out req adm bs s.db ≡ ok (all, db)
        → submit p out req user s ≡ follow_up out req user adm all db s
        → Submitted

  persisted :
      (adm : Admitted) (bs : List Ballot)
      → admit p out.now req s.db s.keys ≡ ok adm
      → hashed_ballots p req ≡ ok bs
      → submit p out req user s ≡ persist p out req user adm bs s
      → Submitted
  unfolding persist
  persisted adm bs a h e = elim (Bool-cases adm.is_practice) [
    | inl practice ↦ practised adm bs a h practice (rw (practice, persist) at e)
    | inr real ↦ elim (Result-cases (cast p out req adm bs s.db)) [
      | inl ((all, db), c) ↦ recorded adm bs all db a h real c (rw (real, c, persist) at e)
      | inr (x, c) ↦ rejected x (rw (real, c, persist) at e)
    ]
  ]

  pub submit-cases : Submitted
  unfolding submit
  submit-cases = elim (Result-cases (admit p out.now req s.db s.keys)) [
    | inr (e, a) ↦ rejected e (rw (a, submit) refl)
    | inl (adm, a) ↦ elim (Result-cases (hashed_ballots p req)) [
      | inr (e, h) ↦ rejected e (rw (a, h, submit) refl)
      | inl (bs, h) ↦ persisted adm bs a h (rw (a, h, submit) refl)
    ]
  ]
