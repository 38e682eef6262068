-- ===== src/Vote/Admin/Kept.antt =====
-- The administration of votings leaves what is finalized
-- (backend/src/votings/votings.service.ts).
use voting_secure.Base.{
  ℕ, String, Bool, true, some, List, [], ◌∷◌, any, find?-append, str_eq, ltb, ◌&&◌, ◌≡◌, refl, sym,
  ◌∙◌, Result-cases, Bool-cases, inl, inr,
}
use voting_secure.Groups.{GroupStore}
use voting_secure.Vote.Types.{Voting, VoteState, VotePlatform, find_voting}
use voting_secure.Vote.Finalize.{count_ballots_by_voting}
use voting_secure.Vote.Change.{
  NewVoting, VotingChange, changed, change_voting, rename_option, soft_deleted,
}
use voting_secure.Vote.Admin.{
  may_create, create_voting, may_update, may_change, delete_voting, notified,
  update_voting_settings, update_option, AdminRequest, creates, updates, renames, deletes,
  AdminCall, administer, administer_all,
}
use voting_secure.Vote.Admin.Others.{
  Keeps, change_voting-other, may_change-IsOpen, may_update-IsOpen, open-other, Keeps-Keeps,
  notified-Keeps,
}

module _ (p : VotePlatform) (now : ℕ) (commits : Bool) (user id : String) (g : GroupStore)
    (s : VoteState) (v : Voting) (there : find_voting id s.db ≡ some v)
    (final : v.is_finalized ≡ true) where
  create-Keeps :
      (new_id : String) (option_ids : List String) (dto : NewVoting)
      → Keeps id s (create_voting now commits new_id option_ids user dto g s).1
  unfolding create_voting
  create-Keeps new_id option_ids dto = elim (Result-cases (may_create user dto g)) [
    | inr (e, failed) ↦ rw (failed, create_voting) (refl, refl, refl)
    | inl (u, fine) ↦ elim (Bool-cases commits) [
      | inr aborted ↦ rw (fine, aborted, create_voting) (refl, refl, refl)
      | inl committed ↦
          rw (fine, committed, create_voting)
            (find?-append _ s.db.votings _ v there ∙ sym there, refl, refl)
    ]
  ]

  delete-Keeps : (k : String) → Keeps id s (delete_voting now commits user k g s).1
  unfolding delete_voting
  delete-Keeps k = elim (Result-cases (may_change user k g s)) [
    | inr (e, failed) ↦ rw (failed, delete_voting) (refl, refl, refl)
    | inl (u, fine) ↦ elim (Bool-cases commits) [
      | inr aborted ↦ rw (fine, aborted, delete_voting) (refl, refl, refl)
      | inl committed ↦
          let other = open-other k id s v there final (may_change-IsOpen user k g s fine) in
          rw (fine, committed, delete_voting)
            (change_voting-other k id (soft_deleted now) s.db.votings (λ w. refl) other, refl, refl)
    ]
  ]

  update-Keeps :
      (k : String) (c : VotingChange)
      → Keeps id s (update_voting_settings p now commits user k c g s).1
  unfolding update_voting_settings
  update-Keeps k c = elim (Result-cases (may_update user k c g s)) [
    | inr (e, failed) ↦ rw (failed, update_voting_settings) (refl, refl, refl)
    | inl (u, fine) ↦ elim (Bool-cases commits) [
      | inr aborted ↦ rw (fine, aborted, update_voting_settings) (refl, refl, refl)
      | inl committed ↦
          let other = open-other k id s v there final (may_update-IsOpen user k c g s fine) in
          let s1 : VoteState = record s {
            db = record s.db { votings = change_voting k (changed c) s.db.votings };
          } in
          rw (fine, committed, update_voting_settings)
            (Keeps-Keeps id s s1 (notified p now k s1).1
              (change_voting-other k id (changed c) s.db.votings (λ w. refl) other, refl, refl)
              (notified-Keeps p now k id s1 other))
    ]
  ]

  rename-Keeps :
      (k option text : String) → Keeps id s (update_option p now commits user k option text g s).1
  unfolding update_option
  rename-Keeps k option text = elim (Result-cases (may_change user k g s)) [
    | inr (e, failed) ↦ rw (failed, update_option) (refl, refl, refl)
    | inl (u, fine) ↦ elim (Bool-cases (ltb 0 (count_ballots_by_voting k s.db))) [
      | inl cast ↦ rw (fine, cast, update_option) (refl, refl, refl)
      | inr none_cast ↦ elim (Bool-cases (commits && any (λ o. str_eq o.id option) s.db.options)) [
        | inr aborted ↦ rw (fine, none_cast, aborted, update_option) (refl, refl, refl)
        | inl committed ↦
            let other = open-other k id s v there final (may_change-IsOpen user k g s fine) in
            let s1 : VoteState = record s {
              db = record s.db { options = rename_option option text s.db.options };
            } in
            rw (fine, none_cast, committed, update_option)
              (Keeps-Keeps id s s1 (notified p now k s1).1 (refl, refl, refl)
                (notified-Keeps p now k id s1 other))
      ]
    ]
  ]

administer-Keeps :
    (p : VotePlatform) (c : AdminCall) (r : AdminRequest) (id : String) (s : VoteState) (v : Voting)
    → find_voting id s.db ≡ some v
    → v.is_finalized ≡ true
    → Keeps id s (administer p c r s)
unfolding administer
administer-Keeps p c (creates new_id option_ids dto) id s v there final =
    create-Keeps p c.now c.commits c.user_id id c.groups s v there final new_id option_ids dto
administer-Keeps p c (updates k change) id s v there final =
    update-Keeps p c.now c.commits c.user_id id c.groups s v there final k change
administer-Keeps p c (renames k option text) id s v there final =
    rename-Keeps p c.now c.commits c.user_id id c.groups s v there final k option text
administer-Keeps p c (deletes k) id s v there final =
    delete-Keeps p c.now c.commits c.user_id id c.groups s v there final k

-- Let a voting be finalized. Whatever requests come to the service after that, by whomever and for
-- whatever votings, its row is found as it was, and no ballot and no result is touched.
pub administer_all-Keeps :
    (p : VotePlatform) (calls : List AdminCall) (id : String) (s : VoteState) (v : Voting)
    → find_voting id s.db ≡ some v
    → v.is_finalized ≡ true
    → Keeps id s (administer_all p calls s)
unfolding administer_all
administer_all-Keeps p [] id s v there final = (refl, refl, refl)
administer_all-Keeps p (c ∷ cs) id s v there final =
    let step = administer-Keeps p c c.request id s v there final in
    Keeps-Keeps id s (administer p c c.request s) (administer_all p (c ∷ cs) s) step
      (administer_all-Keeps p cs id (administer p c c.request s) v (step.0 ∙ there) final)
