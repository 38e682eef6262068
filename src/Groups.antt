-- ===== src/Groups.antt =====
-- The groups service (backend/src/groups/groups.service.ts): groups, their members and the roles of
-- these. What an operation answers is the group with its members, whose addresses are shown or masked
-- (Groups/Emails).
pub mod Emails
pub mod Service
pub mod Guard
use voting_secure.Base.{
  String, Bool, true, false, not, Option, none, some, List, [], ◌∷◌, ◌++◌, map, filter, find?, any,
  is_some, str_eq, length, ◌==◌, ◌&&◌, ◌||◌, if◌then◌else◌, Result, ok, err, ◌>>=◌, ◌>>◌, guard,
  found,
}

pub data GroupRole : Type 0 where
  owner admin moderator member : GroupRole

-- A row of `UserGroup`; user and group are unique together.
pub record Membership : Type 0 where
  pub user_id : String
  pub group_id : String
  pub role : GroupRole

pub record Group : Type 0 where
  pub id : String
  pub name : String
  pub creator_id : String

pub record Account : Type 0 where
  pub id : String
  pub email : String

-- A voting or a survey, which refers to its group.
pub record Dependent : Type 0 where
  pub id : String
  pub group_id : String
  pub is_voting : Bool

pub record GroupStore : Type 0 where
  pub groups : List Group
  pub members : List Membership
  pub accounts : List Account
  pub dependents : List Dependent

pub data GroupError : Type 0 where
  not_a_member only_owner no_permission users_not_found no_users : GroupError
  cannot_assign_owner no_target group_not_found cannot_change_owner row_missing refused : GroupError

abbrev pub is_owner : GroupRole → Bool
is_owner owner = true
is_owner _ = false

-- ADMIN and MODERATOR have the permission that an owner has for all but deletion.
abbrev pub is_manager : GroupRole → Bool
is_manager owner = false
is_manager admin = true
is_manager moderator = true
is_manager member = false

abbrev pub is_of : (user_id group_id : String) → Membership → Bool
is_of user_id group_id m = str_eq m.user_id user_id && str_eq m.group_id group_id

-- userGroup.findUnique({ where: { userId_groupId } })
unfoldable pub find_membership : (user_id group_id : String) → List Membership → Option Membership
find_membership user_id group_id ms = find? (is_of user_id group_id) ms

unfoldable pub find_group : String → List Group → Option Group
find_group id gs = find? (λ g. str_eq g.id id) gs

unfoldable pub check_membership :
    (user_id group_id : String) → GroupStore → Result GroupError (Unit {0})
unfolding find_membership
check_membership user_id group_id s =
    guard (is_some (find_membership user_id group_id s.members)) not_a_member

-- membership.role === OWNER, then requireOwner, then hasPermission
abbrev pub permit : (require_owner : Bool) → GroupRole → Result GroupError (Unit {0})
permit require_owner role =
    if is_owner role
    then ok tt
    else if require_owner
    then err only_owner
    else guard (is_manager role) no_permission

unfoldable pub check_admin_permission :
    (user_id group_id : String) (require_owner : Bool) → GroupStore → Result GroupError (Unit {0})
unfolding find_membership
check_admin_permission user_id group_id require_owner s = do
  m ← found (find_membership user_id group_id s.members) not_a_member
  permit require_owner m.role

-- user.findMany({ where: { email: { in: emails } } }); a missing address is an error.
abbrev pub includes : String → List String → Bool
includes x xs = any (λ y. str_eq y x) xs

unfoldable pub get_user_ids_by_emails : List String → List Account → Result GroupError (List String)
get_user_ids_by_emails emails accounts =
    let rows = filter (λ a. includes a.email emails) accounts in
    if length rows == length emails then ok (map (λ a. a.id) rows) else err users_not_found
