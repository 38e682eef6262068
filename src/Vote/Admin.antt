-- ===== src/Vote/Admin.antt =====
-- The administration of votings: create, update, updateOption and delete of
-- backend/src/votings/votings.service.ts, with the permissions of the groups service and the writes
-- of votings.repository.ts. `commits` tells whether the database takes the write; new ids are
-- arguments.
pub mod Others
pub mod Kept
pub mod Elsewhere
pub mod Limits
pub mod Tests
use voting_secure.Base.{
  ℕ, String, Bool, true, false, not, Option, none, some, get_or, List, [], ◌∷◌, ◌++◌, map, any,
  length, str_eq, ltb, ◌==◌, ◌&&◌, if◌then◌else◌, Result, ok, err, ◌>>=◌, ◌>>◌, guard, found,
}
use voting_secure.Groups.{GroupStore, GroupError, check_admin_permission}
use voting_secure.Vote.Types.{
  VotingType, single_choice, multiple_choice, Voting, VotingOption, VoteState, VotePlatform,
  find_voting,
}
use voting_secure.Vote.Change.{
  NewVoting, VotingChange, is_multiple_choice, min_exceeds, new_voting, new_options, with_ids,
  changed, change_voting, rename_option, soft_deleted,
}
use voting_secure.Vote.Guards.{VoteError}
use voting_secure.Vote.Finalize.{count_ballots_by_voting}
use voting_secure.Vote.Results.{get_results}

pub data AdminError : Type 0 where
  too_few_options min_above_max voting_missing is_final has_ballots not_written : AdminError
  not_permitted : GroupError → AdminError
  no_results : VoteError → AdminError

-- `checkAdminPermission`, whose exception is thrown on.
unfoldable pub permitted : (user_id group_id : String) → GroupStore → Result AdminError (Unit {0})
unfolding check_admin_permission
permitted user_id group_id g = elim (check_admin_permission user_id group_id false g) [
  | ok u ↦ ok tt
  | err e ↦ err (not_permitted e)
]

unfoldable pub may_create :
    (user_id : String) → NewVoting → GroupStore → Result AdminError (Unit {0})
unfolding permitted
may_create user_id dto g = do
  permitted user_id dto.group_id g
  guard (not (ltb (length dto.options) 2)) too_few_options
  guard
      (not (
        is_multiple_choice (get_or dto.type single_choice)
        && min_exceeds dto.min_choices dto.max_choices))
      min_above_max

unfoldable pub create_voting :
    (now : ℕ) (commits : Bool) (new_id : String) (option_ids : List String) (user_id : String)
    → NewVoting
    → GroupStore
    → VoteState
    → Result AdminError Voting × VoteState
unfolding may_create
create_voting now commits new_id option_ids user_id dto g s = elim (may_create user_id dto g) [
  | err e ↦ (err e, s)
  | ok u ↦
      if commits
      then (
        ok (new_voting now new_id user_id dto),
        record s {
          db = record s.db {
            votings = s.db.votings ++ new_voting now new_id user_id dto ∷ [];
            options = s.db.options ++ new_options new_id (with_ids option_ids dto.options);
          };
        },
      )
      else (err not_written, s)
]

unfoldable pub may_update :
    (user_id id : String) → VotingChange → GroupStore → VoteState → Result AdminError (Unit {0})
unfolding permitted
may_update user_id id c g s = do
  v ← found (find_voting id s.db) voting_missing
  permitted user_id v.group_id g
  guard (not v.is_finalized) is_final
  guard (not (is_multiple_choice (get_or c.type v.type) && min_exceeds c.min_choices c.max_choices))
      min_above_max

-- voting.findUnique({ where: { id, deletedAt: null } }), checkAdminPermission, and no result.
unfoldable pub may_change :
    (user_id id : String) → GroupStore → VoteState → Result AdminError (Unit {0})
unfolding permitted
may_change user_id id g s = do
  v ← found (find_voting id s.db) voting_missing
  permitted user_id v.group_id g
  guard (not v.is_finalized) is_final

unfoldable pub delete_voting :
    (now : ℕ) (commits : Bool) (user_id id : String)
    → GroupStore
    → VoteState
    → Result AdminError (Unit {0}) × VoteState
unfolding may_change change_voting
delete_voting now commits user_id id g s = elim (may_change user_id id g s) [
  | err e ↦ (err e, s)
  | ok u ↦
      if commits
      then (
        ok tt,
        record s {
          db = record s.db { votings = change_voting id (soft_deleted now) s.db.votings };
        },
      )
      else (err not_written, s)
]

module _ (p : VotePlatform) where
  -- The results are computed again for the clients.
  abbrev pub notified :
      (now : ℕ) (id : String) → VoteState → Result AdminError (Unit {0}) × VoteState
  notified now id s =
      let (r, s') = get_results p now false id s in
      elim r [ err e ↦ (err (no_results e), s') | ok results ↦ (ok tt, s') ]

  unfoldable pub update_voting_settings :
      (now : ℕ) (commits : Bool) (user_id id : String)
      → VotingChange
      → GroupStore
      → VoteState
      → Result AdminError (Unit {0}) × VoteState
  unfolding may_update change_voting get_results
  update_voting_settings now commits user_id id c g s = elim (may_update user_id id c g s) [
    | err e ↦ (err e, s)
    | ok u ↦
        if commits
        then notified now id
            (record s { db = record s.db { votings = change_voting id (changed c) s.db.votings } })
        else (err not_written, s)
  ]

  -- Whether the option is of the voting is not looked at.
  unfoldable pub update_option :
      (now : ℕ) (commits : Bool) (user_id voting_id option_id text : String)
      → GroupStore
      → VoteState
      → Result AdminError (Unit {0}) × VoteState
  unfolding may_change count_ballots_by_voting rename_option get_results
  update_option now commits user_id voting_id option_id text g s =
      elim (may_change user_id voting_id g s) [
        | err e ↦ (err e, s)
        | ok u ↦
            if ltb 0 (count_ballots_by_voting voting_id s.db)
            then (err has_ballots, s)
            else if commits && any (λ o. str_eq o.id option_id) s.db.options
            then notified now voting_id (record s {
              db = record s.db { options = rename_option option_id text s.db.options };
            })
            else (err not_written, s)
      ]

-- One request to the service, by whom, with the groups as they are then.
pub data AdminRequest : Type 0 where
  creates : (new_id : String) (option_ids : List String) → NewVoting → AdminRequest
  updates : (id : String) → VotingChange → AdminRequest
  renames : (voting_id option_id text : String) → AdminRequest
  deletes : (id : String) → AdminRequest

pub record AdminCall : Type 0 where
  pub now : ℕ
  pub commits : Bool
  pub user_id : String
  pub groups : GroupStore
  pub request : AdminRequest

unfoldable pub administer : VotePlatform → AdminCall → AdminRequest → VoteState → VoteState
unfolding create_voting update_voting_settings update_option delete_voting
administer p c (creates new_id option_ids dto) s =
    (create_voting c.now c.commits new_id option_ids c.user_id dto c.groups s).1
administer p c (updates id change) s =
    (update_voting_settings p c.now c.commits c.user_id id change c.groups s).1
administer p c (renames voting_id option_id text) s =
    (update_option p c.now c.commits c.user_id voting_id option_id text c.groups s).1
administer p c (deletes id) s = (delete_voting c.now c.commits c.user_id id c.groups s).1

unfoldable pub administer_all : VotePlatform → List AdminCall → VoteState → VoteState
unfolding administer
administer_all p [] s = s
administer_all p (c ∷ cs) s = administer_all p cs (administer p c c.request s)
