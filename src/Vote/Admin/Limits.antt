-- ===== src/Vote/Admin/Limits.antt =====
-- The limits on how many options are chosen, after an update
-- (backend/src/votings/votings.service.ts, update; backend/src/votings/vote.service.ts,
-- assertChoiceCount).
use voting_secure.Base.{
  ℕ, suc, ◌+◌, String, true, false, not, none, some, List, ◌∷◌, length, ltb, ◌&&◌, ◌≡◌, refl,
  if◌then◌else◌, ok, guard, guard-ok, >>=-eq-ok, arith, Bool-cases, inl, inr,
}
use voting_secure.Groups.{GroupStore}
use voting_secure.Vote.Types.{Voting, VoteState, find_voting}
use voting_secure.Vote.Guards.{assert_choice_count, is_single, exceeds}
use voting_secure.Vote.Guards
use voting_secure.Vote.Change.{VotingChange, changed, is_multiple_choice}
use voting_secure.Vote.Admin.{permitted, may_update}

abbrev pub only_min : ℕ → VotingChange
only_min n = record {
  title = none;
  description = none;
  type = none;
  is_public = none;
  allow_other = none;
  min_choices = some n;
  max_choices = none;
  start_at = none;
  end_at = none;
  broadcast_interval = none;
}

-- The limits are compared only where a request names both. Let a voting that is not finalized have an
-- upper limit. Then a user with the permission may raise the lower limit above it, and after that no
-- choice of options without a free answer has an allowed number of options.
pub update-shuts :
    (user id : String) (g : GroupStore) (s : VoteState) (v : Voting) (m : ℕ) (o : String)
    (os : List String)
    → find_voting id s.db ≡ some v
    → permitted user v.group_id g ≡ ok tt
    → v.is_finalized ≡ false
    → v.max_choices ≡ some m
    → (may_update user id (only_min (suc m)) g s ≡ ok tt)
      × ¬ (assert_choice_count (changed (only_min (suc m)) v) (o ∷ os) false ≡ ok tt)
unfolding may_update assert_choice_count
update-shuts user id g s v m o os there allowed running upper = (admits, refuses)
  where
    admits : may_update user id (only_min (suc m)) g s ≡ ok tt
    admits =
        rw (there, allowed, running, may_update)
          (elim (Bool-cases (is_multiple_choice v.type)) [
            | inl several ↦ rw several refl
            | inr single ↦ rw single refl
          ])

    refuses : ¬ (assert_choice_count (changed (only_min (suc m)) v) (o ∷ os) false ≡ ok tt)
    refuses done =
        let n = length (o ∷ os) in
        let (u1, e1, h1) =
          >>=-eq-ok
            (guard (not (is_single v.type && ltb 1 (n + (if false then 1 else 0))))
              Guards.multiple_not_allowed)
            _ done in
        let (u2, e2, h2) =
          >>=-eq-ok (guard (not (ltb 0 n && ltb n (suc m) && not false)) Guards.too_few) _ h1 in
        let few = guard-ok _ _ _ e2 in
        let many : not (ltb m (n + (if false then 1 else 0))) ≡ true =
          guard-ok _ _ _ (rw upper at h2) in
        ground (arith, few, many)
