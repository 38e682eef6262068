-- ===== src/Vote/Finalize/Closed.antt =====
-- A voting that is finalized stays as it was sealed.
use mathlib.Core.Option
use voting_secure.Base.{
  ℕ, ◌≡◌, refl, sym, subst, ap, ◌∙◌, String, Bool, true, false, not, some, List, [], ◌∷◌, ◌++◌, any,
  find?, is_some, ◌&&◌, str_eq, Result, ok, err, Result-cases, >>=-eq-ok, guard, guard-ok, found,
  found-ok, Bool-cases, Option-cases, inl, inr,
}
use voting_secure.Audit.Types.{Scope}
use voting_secure.Audit.Store.{AuditStore}
use voting_secure.Audit.Status.{AuditStatus, get_audit_status}
use voting_secure.Vote.Types.{Voting, Database, VoteState, VotePlatform, find_voting}
use voting_secure.Vote.Guards.{VoteError, VoteRequest, before}
use voting_secure.Vote.Guards
use voting_secure.Vote.Cast.{Outside}
use voting_secure.Vote.Submit.{vote}
use voting_secure.Vote.Submit.Outcome.{Outcome, IsUntouched, IsUnrecorded, vote-Outcome}
use voting_secure.Vote.Finalize.{
  Sealed, finalized, update_voting, seal, may_finalize, seal_of, result_of, finalize_voting,
}

-- What the transaction leaves: the voting, found as before, is finalized.
find-update_voting :
    (now : ℕ) (id : String) (db : Database) (v : Voting)
    → find_voting id db ≡ some v
    → find_voting id (record db { votings = update_voting now id db.votings })
      ≡ some (finalized now v)
unfolding update_voting
find-update_voting now id db v h = go db.votings h
  where
    go :
        (vs : List Voting)
        → find? (λ w. str_eq w.id id && not (is_some w.deleted_at)) vs ≡ some v
        → find? (λ w. str_eq w.id id && not (is_some w.deleted_at)) (update_voting now id vs)
          ≡ some (finalized now v)
    go [] e = absurd (cc e)
    go (w ∷ vs) e = elim (Bool-cases (str_eq w.id id)) [
      | inr other ↦ rw other (rw other (go vs (rw other at e)))
      | inl same ↦ elim (Option-cases w.deleted_at) [
        | inl there ↦
            rw same (rw (same, there) (ap (Option.map (finalized now)) (rw (same, there) at e)))
        | inr (t, gone) ↦ rw same (rw (same, gone) (go vs (rw (same, gone) at e)))
      ]
    ]

-- What a seal rests on, and leaves: the chain is secure, the voting was there, not finalized, and
-- over; now it is finalized, and no ballot was touched.
pub record IsSealed (p : VotePlatform) (now : ℕ) (id : String) (audit : AuditStore)
    (s s' : VoteState) (sealed : Sealed) : Type 0 where
  pub secure : (get_audit_status now Scope.voting (some id) audit).is_secure ≡ true
  pub voting : Voting
  pub was_there : find_voting id s.db ≡ some voting
  pub was_open : voting.is_finalized ≡ false
  pub is_over : before now voting.end_at ≡ false
  pub counted : sealed ≡ seal_of p now id s.db
  pub now_finalized : find_voting id s'.db ≡ some (finalized now voting)
  pub stored : s'.db.results ≡ s.db.results ++ result_of p id sealed ∷ []
  pub same_ballots : s'.db.ballots ≡ s.db.ballots
  pub same_options : s'.db.options ≡ s.db.options
  pub no_result : any (λ r. str_eq r.voting_id id) s.db.results ≡ false

not-true : (b : Bool) → not b ≡ true → b ≡ false
not-true true h = cc
not-true false h = refl

-- The gate, inverted.
may_finalize-ok :
    (p : VotePlatform) (now : ℕ) (id : String) (status : AuditStatus) (db : Database) (v : Voting)
    → may_finalize p now id status db ≡ ok v
    → (find_voting id db ≡ some v)
      × (v.is_finalized ≡ false)
      × (before now v.end_at ≡ false)
      × (status.is_secure ≡ true)
unfolding may_finalize
may_finalize-ok p now id status db v h =
    let (w, e1, h1) = >>=-eq-ok (found (find_voting id db) Guards.voting_not_found) _ h in
    let (u2, e2, h2) = >>=-eq-ok (guard (not w.is_finalized) Guards.already_finalized) _ h1 in
    let (u3, e3, h3) = >>=-eq-ok (guard (not (before now w.end_at)) Guards.not_ended) _ h2 in
    let (u4, e4, h4) = >>=-eq-ok (guard status.is_secure Guards.not_secure) _ h3 in
    last w (found-ok _ _ e1) (not-true _ (guard-ok _ _ u2 e2)) (not-true _ (guard-ok _ _ u3 e3))
      (guard-ok _ _ u4 e4) h4
  where
    last :
        (w : Voting)
        → find_voting id db ≡ some w
        → w.is_finalized ≡ false
        → before now w.end_at ≡ false
        → status.is_secure ≡ true
        → ◌≡◌ {A = Result VoteError Voting} (ok w) (ok v)
        → (find_voting id db ≡ some v)
          × (v.is_finalized ≡ false)
          × (before now v.end_at ≡ false)
          × (status.is_secure ≡ true)
    last w f n e sec same = subst Held same (f, n, e, sec)
      where
        Held : Result VoteError Voting → Type 0
        Held (err x) = Unit
        Held (ok x) =
            (find_voting id db ≡ some x)
            × (x.is_finalized ≡ false)
            × (before now x.end_at ≡ false)
            × (status.is_secure ≡ true)

module _ (p : VotePlatform) (now : ℕ) (commits : Bool) (id : String) (audit : AuditStore)
    (s : VoteState) where
  abbrev pub SealedOr : Result VoteError Sealed × VoteState → Type 0
  SealedOr (err e, s') = s' ≡ s
  SealedOr (ok sealed, s') = IsSealed p now id audit s s' sealed

  -- Finalizing a voting either answers an error and changes nothing; or the voting's audit chain was
  -- secure and the voting there, not finalized and over, and then the result counted from the
  -- ballots is stored, the voting is finalized and no ballot was touched.
  pub finalize-SealedOr : SealedOr (finalize_voting p now commits id audit s)
  unfolding finalize_voting seal
  finalize-SealedOr =
      elim (Result-cases
        (may_finalize p now id (get_audit_status now Scope.voting (some id) audit) s.db)) [
          | inr (e, refused) ↦ rw (refused, finalize_voting) refl
          | inl (v, admitted) ↦ elim (Bool-cases (any (λ r. str_eq r.voting_id id) s.db.results)) [
            | inl twice ↦ rw (admitted, twice, finalize_voting, seal) refl
            | inr once ↦ elim (Bool-cases commits) [
              | inr aborted ↦ rw (admitted, once, aborted, finalize_voting, seal) refl
              | inl committed ↦
                  let (there, open_before, over, secure) =
                    may_finalize-ok p now id (get_audit_status now Scope.voting (some id) audit)
                      s.db v admitted in
                  rw (admitted, once, committed, finalize_voting, seal)
                    (record {
                      secure = secure;
                      voting = v;
                      was_there = there;
                      was_open = open_before;
                      is_over = over;
                      counted = refl;
                      now_finalized = find-update_voting now id s.db v there;
                      stored = refl;
                      same_ballots = refl;
                      same_options = refl;
                      no_result = once;
                    })
            ]
          ]
        ]

  -- A finalized voting takes no vote: after a finalization that succeeds, a vote in the voting, by
  -- whoever and for whatever, is not recorded, leaves the database as it is and does not call the
  -- audit service.
  pub finalize-closes :
      (sealed : Sealed) (out : Outside) (req : VoteRequest) (user : String)
      → (finalize_voting p now commits id audit s).0 ≡ ok sealed
      → req.voting_id ≡ id
      → IsUntouched
          (finalize_voting p now commits id audit s).1
          (vote p out req user (finalize_voting p now commits id audit s).1).1
        × IsUnrecorded (vote p out req user (finalize_voting p now commits id audit s).1).0
  finalize-closes sealed out req user done same =
      go (finalize_voting p now commits id audit s) done finalize-SealedOr
        (vote-Outcome p out req user (finalize_voting p now commits id audit s).1)
    where
      go :
          (r : Result VoteError Sealed × VoteState)
          → r.0 ≡ ok sealed
          → SealedOr r
          → Outcome p out req r.1 (vote p out req user r.1).1 (vote p out req user r.1).0
          → IsUntouched r.1 (vote p out req user r.1).1 × IsUnrecorded (vote p out req user r.1).0
      go (err e, s') d h o = absurd (cc d)
      go (ok x, s') d h (inl k) = k
      go (ok x, s') d h (inr k) =
          let there = k.admitted.has_voting in
          let closed = k.admitted.not_finalized in
          let found_it : some (finalized now h.voting) ≡ some k.adm.voting =
            sym h.now_finalized ∙ (rw same at there) in
          absurd (cc (found_it, closed))
