-- ===== src/Groups/Service.antt =====
-- What changes groups (backend/src/groups/groups.service.ts). Each operation takes the store and
-- gives its answer and the store after it.
pub mod Steps
pub mod Owned
pub mod Locked
pub mod Tests
use voting_secure.Base.{
  String, Bool, true, false, not, Option, none, some, List, [], ◌∷◌, ◌++◌, map, filter, find?, any,
  is_some, str_eq, ◌&&◌, ◌||◌, if◌then◌else◌, Result, ok, err, ◌>>=◌, ◌>>◌, guard, found,
}
use voting_secure.Access.{Role}
use voting_secure.Groups.{
  GroupRole, owner, member, Membership, Group, Dependent, GroupStore, GroupError, is_owner, is_of,
  includes, find_membership, find_group, check_admin_permission, get_user_ids_by_emails,
}
use voting_secure.Groups
use voting_secure.Groups.Emails.{GroupView, process_member_emails}

-- create: allUserIds.map(…), the creator as OWNER and the others as MEMBER.
abbrev pub new_members : (group_id creator : String) → List String → List Membership
new_members group_id creator ids =
    map
      (λ id. record {
        user_id = id;
        group_id = group_id;
        role = if str_eq id creator then owner else member;
      })
      ids

-- votings: { connect } moves each of the votings to the new group, whatever group it belongs to; a
-- voting that is not there is an error.
abbrev pub are_votings : List String → List Dependent → Bool
are_votings [] ds = true
are_votings (id ∷ ids) ds = any (λ d. d.is_voting && str_eq d.id id) ds && are_votings ids ds

unfoldable pub connect :
    (group_id : String) (voting_ids : List String) → List Dependent → List Dependent
connect group_id voting_ids ds =
    map
      (λ d. if d.is_voting && includes d.id voting_ids then record d { group_id = group_id } else d)
      ds

-- createMany({ skipDuplicates }): one who is a member already is left out.
unfoldable pub add_members : (group_id : String) → List String → List Membership → List Membership
unfolding find_membership
add_members group_id [] ms = ms
add_members group_id (id ∷ ids) ms = add_members group_id ids (
    if is_some (find_membership id group_id ms)
    then ms
    else ms ++ record { user_id = id; group_id = group_id; role = member } ∷ [])

-- deleteMany({ userId: { in: userIds } }) of the group
unfoldable pub remove_members :
    (group_id : String) → List String → List Membership → List Membership
remove_members group_id ids ms =
    filter (λ m. not (str_eq m.group_id group_id && includes m.user_id ids)) ms

-- userGroup.update({ data: { role } })
unfoldable pub set_role :
    (user_id group_id : String) → GroupRole → List Membership → List Membership
set_role user_id group_id role ms =
    map (λ m. if is_of user_id group_id m then record m { role = role } else m) ms

-- One request to the service.
pub data Request : Type 0 where
  creates : (new_id : String) (name : String) (emails voting_ids : List String) → Request
  adds : (group_id : String) (ids : List String) → Request
  removes : (group_id : String) (ids : List String) → Request
  changes_role : (group_id : String) (role : GroupRole) (target : Option String) → Request
  deletes : (group_id : String) → Request

-- An operation that throws before it writes.
abbrev pub unless_err :
    Result GroupError (Unit {0})
    → GroupStore
    → Result GroupError GroupView × GroupStore
    → Result GroupError GroupView × GroupStore
unless_err (err e) s done = (err e, s)
unless_err (ok u) s done = done

-- What is checked before a role is written.
unfoldable pub may_change_role :
    (caller group_id : String) (role : GroupRole) (target : Option String)
    → GroupStore
    → Result GroupError String
unfolding check_admin_permission find_group
may_change_role caller group_id role target s = do
  check_admin_permission caller group_id false s
  guard (not (is_owner role)) Groups.cannot_assign_owner
  id ← found target Groups.no_target
  guard (not (str_eq id "")) Groups.no_target
  g ← found (find_group group_id s.groups) Groups.group_not_found
  guard (not (str_eq id g.creator_id)) Groups.cannot_change_owner
  ok id

-- `delete`: the members are deleted first, with no transaction. A group that votings or surveys
-- refer to is not deleted then, nor one that is not there.
unfoldable pub delete :
    (caller group_id : String) → GroupStore → Result GroupError (Unit {0}) × GroupStore
unfolding check_admin_permission find_group
delete caller group_id s = elim (check_admin_permission caller group_id true s) [
  | err e ↦ (err e, s)
  | ok u ↦
      let emptied = record s {
        members = filter (λ m. not (str_eq m.group_id group_id)) s.members;
      } in
      if any (λ d. str_eq d.group_id group_id) s.dependents
        || not (is_some (find_group group_id s.groups))
      then (err Groups.refused, emptied)
      else (ok tt, record emptied { groups = filter (λ g. not (str_eq g.id group_id)) s.groups })
]

module _ (decrypt : String → String) where
  abbrev pub answer :
      String → String → Option Role → GroupStore → Result GroupError GroupView × GroupStore
  answer id caller platform_role s = elim (find_group id s.groups) [
    | none ↦ (err Groups.group_not_found, s)
    | some g ↦ (ok (process_member_emails decrypt (some caller) platform_role g s), s)
  ]

  -- `new_id` is the id that the database gives, which is taken by no group.
  unfoldable pub create :
      (new_id caller : String) (name : String) (emails voting_ids : List String)
      (platform_role : Option Role)
      → GroupStore
      → Result GroupError GroupView × GroupStore
  unfolding get_user_ids_by_emails find_group process_member_emails connect
  create new_id caller name emails voting_ids platform_role s =
      elim (get_user_ids_by_emails emails s.accounts) [
        | err e ↦ (err e, s)
        | ok ids ↦
            if is_some (find_group new_id s.groups) || not (are_votings voting_ids s.dependents)
            then (err Groups.refused, s)
            else answer new_id caller platform_role (record s {
              groups = s.groups ++ record { id = new_id; name = name; creator_id = caller } ∷ [];
              members =
                  s.members
                  ++ new_members new_id caller (if includes caller ids then ids else caller ∷ ids);
              dependents = connect new_id voting_ids s.dependents;
            })
      ]

  unfoldable pub add_users :
      (caller group_id : String) (ids : List String) (platform_role : Option Role)
      → GroupStore
      → Result GroupError GroupView × GroupStore
  unfolding check_admin_permission find_group add_members process_member_emails
  add_users caller group_id ids platform_role s =
      unless_err
        (do
          guard (any (λ id. true) ids) Groups.no_users
          check_admin_permission caller group_id false s)
        s
        (answer group_id caller platform_role
          (record s { members = add_members group_id ids s.members }))

  unfoldable pub remove_users :
      (caller group_id : String) (ids : List String) (platform_role : Option Role)
      → GroupStore
      → Result GroupError GroupView × GroupStore
  unfolding check_admin_permission find_group remove_members process_member_emails
  remove_users caller group_id ids platform_role s =
      unless_err
        (do
          guard (any (λ id. true) ids) Groups.no_users
          check_admin_permission caller group_id false s)
        s
        (answer group_id caller platform_role
          (record s { members = remove_members group_id ids s.members }))

  -- `update` throws where there is no such row.
  unfoldable pub change_user_role :
      (caller group_id : String) (role : GroupRole) (target : Option String)
      (platform_role : Option Role)
      → GroupStore
      → Result GroupError GroupView × GroupStore
  unfolding may_change_role find_membership set_role process_member_emails
  change_user_role caller group_id role target platform_role s =
      elim (may_change_role caller group_id role target s) [
        | err e ↦ (err e, s)
        | ok id ↦
            if is_some (find_membership id group_id s.members)
            then answer group_id caller platform_role
                (record s { members = set_role id group_id role s.members })
            else (err Groups.row_missing, s)
      ]

  unfoldable pub perform : (caller : String) → Option Role → Request → GroupStore → GroupStore
  unfolding create add_users remove_users change_user_role delete
  perform caller role (creates new_id name emails voting_ids) s =
      (create new_id caller name emails voting_ids role s).1
  perform caller role (adds g ids) s = (add_users caller g ids role s).1
  perform caller role (removes g ids) s = (remove_users caller g ids role s).1
  perform caller role (changes_role g r t) s = (change_user_role caller g r t role s).1
  perform caller role (deletes g) s = (delete caller g s).1

  unfoldable pub perform_all : List (String × Option Role × Request) → GroupStore → GroupStore
  unfolding perform
  perform_all [] s = s
  perform_all ((caller, role, q) ∷ qs) s = perform_all qs (perform caller role q s)
