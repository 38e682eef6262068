-- ===== src/Groups/Guard.antt =====
-- The guard of the routes that belong to a group
-- (backend/src/common/guards/group-role.guard.ts): which group a request is about, and whether the
-- caller's role there passes.
pub mod About
pub mod Admits
pub mod Tests
use voting_secure.Base.{
  String, Bool, true, false, not, Option, none, some, List, [], ◌∷◌, any, is_some, str_eq, ◌≡◌,
  refl, ap, ◌&&◌, ◌||◌, ◌⊎◌, ◌↔◌, inl, inr, if◌then◌else◌, Result, ok, err, ◌>>=◌, ◌>>◌, guard,
  guard-ok, found, found-ok, >>=-eq-ok, Bool-cases, Option-cases, arith,
}
use voting_secure.Access.{Role, Method, AccessError, is_get, role_eq}
use voting_secure.Access
use voting_secure.Audit.Hash.{given}
use voting_secure.Groups.{GroupRole, owner, admin, moderator, member, Membership, find_membership}

-- What the guard reads of a request. `user` is the id and the role that the token names.
pub record RouteRequest : Type 0 where
  pub user : Option (String × Role)
  pub method : Method
  pub group_id : Option String
  pub voting_id : Option String
  pub survey_id : Option String
  pub id : Option String
  pub of_votings : Bool
  pub of_surveys : Bool

-- The group of a voting and of a survey, by its id.
pub record Owners : Type 0 where
  pub voting_group : Option String → Option String
  pub survey_group : Option String → Option String

abbrev pub group_role_eq : GroupRole → GroupRole → Bool
group_role_eq owner owner = true
group_role_eq admin admin = true
group_role_eq moderator moderator = true
group_role_eq member member = true
group_role_eq _ _ = false

-- a || b, where an empty text is falsy
abbrev pub or_else : Option String → Option String → Option String
or_else a b = elim (given a) [ some x ↦ some x | none ↦ b ]

abbrev pub when_missing : Option String → Bool → Option String → Option String
when_missing group_id here looked_up = elim (given group_id) [
  | some g ↦ some g
  | none ↦ if here then looked_up else none
]

-- An explicit group, else the voting's, else the survey's.
unfoldable pub resolve_group : Owners → RouteRequest → Option String
resolve_group db req = given (
    when_missing
      (when_missing req.group_id req.of_votings (db.voting_group (or_else req.voting_id req.id)))
      req.of_surveys (db.survey_group (or_else req.survey_id req.id)))

-- An admin passes, and an auditor who only reads, unless the route is strict.
abbrev pub bypasses : (strict : Bool) → Role → Method → Bool
bypasses strict role method =
    (role_eq role Role.admin && not strict)
    || (role_eq role Role.auditor && is_get method && not strict)

abbrev pub passes_roles : List GroupRole → GroupRole → Bool
passes_roles [] role = true
passes_roles (r ∷ rs) role = any (group_role_eq role) (r ∷ rs)

abbrev pub no_roles : List GroupRole → Bool
no_roles [] = true
no_roles (r ∷ rs) = false

-- `required` is empty where the route lists no roles.
unfoldable pub group_role_guard :
    (required : List GroupRole) (strict : Bool)
    → Owners
    → List Membership
    → RouteRequest
    → Result AccessError (Unit {0})
unfolding resolve_group find_membership
group_role_guard required strict db members req = do
  caller ← found req.user Access.unauthenticated
  if bypasses strict caller.1 req.method then ok tt else elim (resolve_group db req) [
    | none ↦ guard (no_roles required) Access.group_required
    | some group_id ↦ do
      m ← found (find_membership caller.0 group_id members) Access.not_a_member
      guard (passes_roles required m.role) Access.insufficient
  ]
