-- ===== src/Vote/Submit/Stored.antt =====
-- What a vote leaves in the database.
use voting_secure.Base.{
  ◌≡◌, refl, sym, subst, ◌∙◌, not, some, List, [], ◌∷◌, ◌++◌, Result, ok, err, Result-cases,
  Option-cases, Bool-cases, inl, inr, any, filter, str_eq, append_nothing,
}
use mathlib.Core.List.{append_assoc}
use voting_secure.Vote.Types.{Ballot, Database, VotePlatform}
use voting_secure.Vote.Guards.{VoteError, VoteRequest, Admitted}
use voting_secure.Vote.Cast.{Outside, cast, create_ballots_tx, add_other, other_of}

create_ballots_tx-appends :
    (bs stored r : List Ballot) → create_ballots_tx bs stored ≡ some r → r ≡ stored ++ bs
unfolding create_ballots_tx
create_ballots_tx-appends [] stored r h = sym (cc h) ∙ sym (append_nothing stored)
create_ballots_tx-appends (b ∷ bs) stored r h =
    elim (Bool-cases (any (λ c. str_eq c.ballot_hash b.ballot_hash) stored)) [
      | inl taken ↦ absurd (cc (rw taken at h))
      | inr free ↦
          create_ballots_tx-appends bs (stored ++ b ∷ []) r (rw free at h)
          ∙ append_assoc stored (b ∷ []) bs
    ]

module _ (p : VotePlatform) (out : Outside) (req : VoteRequest) where
  -- What the transaction leaves.
  abbrev pub IsCast : Admitted → List Ballot → Database → List Ballot × Database → Type 0
  IsCast adm bs db (all, db') =
      (db'.ballots ≡ db.ballots ++ all)
      × (add_other p out req (other_of p adm) bs db.options ≡ ok (all, db'.options))
      × (db'.pending_ballots
          ≡ filter (λ b. not (str_eq b.token_hash adm.token_hash)) db.pending_ballots)
      × (db'.participations ≡ db.participations)
      × (db'.votings ≡ db.votings)

  OkCast : Admitted → List Ballot → Database → Result VoteError (List Ballot × Database) → Type 0
  OkCast adm bs db (err e) = Unit
  OkCast adm bs db (ok r) = IsCast adm bs db r

  cast-OkCast :
      (adm : Admitted) (bs : List Ballot) (db : Database)
      → OkCast adm bs db (cast p out req adm bs db)
  unfolding cast OkCast
  cast-OkCast adm bs db = elim (Result-cases (add_other p out req (other_of p adm) bs db.options)) [
    | inr (e, failed) ↦ rw (failed, cast) tt
    | inl ((all, options), added) ↦ elim (Option-cases (create_ballots_tx all db.ballots)) [
      | inl clash ↦ rw (added, clash, cast) tt
      | inr (stored, created) ↦ elim (Bool-cases out.commits) [
        | inr aborted ↦ rw (added, created, aborted, cast) tt
        | inl committed ↦
            rw (added, created, committed, cast)
              (create_ballots_tx-appends all db.ballots stored created, added, refl, refl, refl)
      ]
    ]
  ]

  pub cast-IsCast :
      (adm : Admitted) (bs : List Ballot) (db : Database) (r : List Ballot × Database)
      → cast p out req adm bs db ≡ ok r
      → IsCast adm bs db r
  unfolding OkCast
  cast-IsCast adm bs db r h = subst (OkCast adm bs db) h (cast-OkCast adm bs db)
