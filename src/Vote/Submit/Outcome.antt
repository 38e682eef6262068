-- ===== src/Vote/Submit/Outcome.antt =====
-- Every outcome of a vote: what it answers, what the database holds after it, and what the audit
-- service was called with.
use voting_secure.Base.{
  filter, not, str_eq, ◌≡◌, refl, sym, subst, String, Bool, true, false, if◌then◌else◌, List, [],
  ◌∷◌, ◌++◌, Result, ok, err, Option-cases, Bool-cases, inl, inr, ◌⊎◌,
}
use voting_secure.Redis.{Redis, acquire_lock, release_lock, set_key}
use voting_secure.Vote.Types.{Ballot, Database, VoteState, VotePlatform}
use voting_secure.Vote.Guards.{VoteError, VoteRequest, Admitted, admit, hash_token}
use voting_secure.Vote.Guards
use voting_secure.Vote.Guards.Conditions.{MeetsConditions, admit-MeetsConditions_iff}
use voting_secure.Vote.Cast.{
  Outside, Voted, lock_key, cast, hashes, ballot_cast, other_of, hashed_ballots,
}
use voting_secure.Vote.Submit.Chosen.{IsChosen, add_other-IsChosen}
use voting_secure.Vote.Submit.{follow_up, submit, vote}
use voting_secure.Vote.Submit.Cases.{submit-cases, rejected, practised, recorded}
use voting_secure.Vote.Submit.Stored.{cast-IsCast}

-- The database is as it was, and the audit service was not called.
abbrev pub IsUntouched : VoteState → VoteState → Type 0
IsUntouched s s' = (s'.db ≡ s.db) × (s'.appended ≡ s.appended)

-- The answers of a vote that is not recorded: an error, or the receipts of a practice vote.
abbrev pub IsUnrecorded : Result VoteError Voted → Type 0
IsUnrecorded (err e) = Unit
IsUnrecorded (ok v) = v.is_practice ≡ true

-- The answers of a vote that is recorded: the ballots' receipts, or the failure to delete the cached
-- results or to release the lock.
abbrev pub IsRecordedAnswer : List String → Result VoteError Voted → Type 0
IsRecordedAnswer receipts (err e) = e ≡ Guards.cache_failed
IsRecordedAnswer receipts (ok v) = (v.receipts ≡ receipts) × (v.is_practice ≡ false)

module _ (p : VotePlatform) (out : Outside) (req : VoteRequest) where
  -- A vote that is recorded: the request met its conditions, the ballots that it asks for were added
  -- and none was removed, its pending ballot is gone and no other, participations are as they were,
  -- and the audit service was called with one entry, of the ballots' hashes.
  pub record IsRecorded (s s' : VoteState) (answer : Result VoteError Voted) : Type 0 where
    pub adm : Admitted
    pub all : List Ballot
    pub admitted : MeetsConditions p out.now req s.db s.keys adm
    pub added : s'.db.ballots ≡ s.db.ballots ++ all
    pub chosen : IsChosen p req (other_of p adm) s'.db.options all
    pub pending :
        s'.db.pending_ballots
        ≡ filter (λ b. not (str_eq b.token_hash adm.token_hash)) s.db.pending_ballots
    pub same_participations : s'.db.participations ≡ s.db.participations
    pub entry : s'.appended ≡ s.appended ++ ballot_cast req adm.voting (hashes all) ∷ []
    pub answered : IsRecordedAnswer (hashes all) answer

  abbrev pub Outcome : VoteState → VoteState → Result VoteError Voted → Type 0
  Outcome s s' answer = (IsUntouched s s' × IsUnrecorded answer) ⊎ IsRecorded s s' answer

  follow_up-Outcome :
      (user : String) (adm : Admitted) (bs all : List Ballot) (db : Database) (s : VoteState)
      → MeetsConditions p out.now req s.db s.keys adm
      → hashed_ballots p req ≡ ok bs
      → cast p out req adm bs s.db ≡ ok (all, db)
      → Outcome s (follow_up out req user adm all db s).1 (follow_up out req user adm all db s).0
  unfolding follow_up
  follow_up-Outcome user adm bs all db s admitted made done =
      let (added, others, pending, same, v) = cast-IsCast p out req adm bs s.db (all, db) done in
      let chosen =
        add_other-IsChosen p out req (other_of p adm) bs all s.db.options db.options made others in
      elim (Bool-cases out.snapshot_deleted) [
        | inl deleted ↦ inr (
            rw (deleted, follow_up)
              (record {
                adm = adm;
                all = all;
                admitted = admitted;
                added = added;
                chosen = chosen;
                pending = pending;
                same_participations = same;
                entry = refl;
                answered = (refl, refl);
              }))
        | inr failed ↦ inr (
            rw (failed, follow_up)
              (record {
                adm = adm;
                all = all;
                admitted = admitted;
                added = added;
                chosen = chosen;
                pending = pending;
                same_participations = same;
                entry = refl;
                answered = refl;
              }))
      ]

  submit-Outcome :
      (user : String) (s : VoteState)
      → Outcome s (submit p out req user s).1 (submit p out req user s).0
  submit-Outcome user s = elim (submit-cases p out req user s) [
    | rejected e done ↦ rw done (inl ((refl, refl), tt))
    | practised adm bs a h practice done ↦ rw done (inl ((refl, refl), refl))
    | recorded adm bs all db a h real c done ↦ rw done (
        follow_up-Outcome user adm bs all db s
          ((admit-MeetsConditions_iff p out.now req s.db s.keys adm).0 a) h c)
  ]

  -- The outcome does not look at Redis.
  moved :
      (s s' : VoteState) (a : Result VoteError Voted) (r r' : Redis)
      → Outcome (record s { redis = r }) s' a
      → Outcome s (record s' { redis = r' }) a
  moved s s' a r r' (inl h) = inl h
  moved s s' a r r' (inr h) = inr (record {
    adm = h.adm;
    all = h.all;
    admitted = h.admitted;
    added = h.added;
    chosen = h.chosen;
    pending = h.pending;
    same_participations = h.same_participations;
    entry = h.entry;
    answered = h.answered;
  })

  -- Nor does it end otherwise where the release of the lock throws.
  failed :
      (s s' : VoteState) (a : Result VoteError Voted) (r : Redis)
      → Outcome (record s { redis = r }) s' a
      → Outcome s s' (err Guards.cache_failed)
  failed s s' a r (inl h) = inl (h.0, tt)
  failed s s' a r (inr h) = inr (record {
    adm = h.adm;
    all = h.all;
    admitted = h.admitted;
    added = h.added;
    chosen = h.chosen;
    pending = h.pending;
    same_participations = h.same_participations;
    entry = h.entry;
    answered = refl;
  })

  ended :
      (s s' : VoteState) (a : Result VoteError Voted) (r r' : Redis) (released : Bool)
      → Outcome (record s { redis = r }) s' a
      → (end : Result VoteError Voted × VoteState)
      → end ≡ (if released then (a, record s' { redis = r' }) else (err Guards.cache_failed, s'))
      → Outcome s end.1 end.0
  ended s s' a r r' true h end e =
      subst (λ (x : Result VoteError Voted × VoteState). Outcome s x.1 x.0) (sym e)
        (moved s s' a r r' h)
  ended s s' a r r' false h end e =
      subst (λ (x : Result VoteError Voted × VoteState). Outcome s x.1 x.0) (sym e)
        (failed s s' a r h)

  -- A vote ends in one of two ways. Either the database is as it was and the audit service is not
  -- called, and the answer is an error or is marked as practice. Or the vote is recorded: all
  -- conditions held; one ballot was added for each chosen option, one for an abstention, and one for
  -- a free answer that the voting allows, each with the voting, the signature and the keyed digest of
  -- these and the choice, and no ballot was removed; the token's pending ballot is gone, and no other;
  -- no participation was touched; the audit service was called once, with the ballots' hashes; and
  -- the answer holds these hashes, or is the error of Redis, where the cached results could not be
  -- deleted or the lock not released.
  pub vote-Outcome :
      (user : String) (s : VoteState)
      → Outcome s (vote p out req user s).1 (vote p out req user s).0
  unfolding vote acquire_lock
  vote-Outcome user s = elim (Option-cases (s.redis.locks (lock_key req.voting_id user))) [
    | inr (owner, taken) ↦ rw (taken, vote, acquire_lock) (inl ((refl, refl), tt))
    | inl free ↦
        let key = lock_key req.voting_id user in
        let r = record s.redis { locks = set_key key out.lock_token s.redis.locks } in
        let (answer, s') = submit p out req user (record s { redis = r }) in
        ended s s' answer r (release_lock key out.lock_token s'.redis) out.released
          (submit-Outcome user (record s { redis = r })) (vote p out req user s)
          (rw (free, vote, acquire_lock) refl)
  ]
