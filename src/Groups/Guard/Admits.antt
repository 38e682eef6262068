-- ===== src/Groups/Guard/Admits.antt =====
-- What the guard of the routes that belong to a group lets through
-- (backend/src/common/guards/group-role.guard.ts), without its tests.
use voting_secure.Base.{
  String, Bool, true, false, none, some, List, [], ◌∷◌, any, ◌≡◌, refl, ap, ◌⊎◌, ◌↔◌, inl, inr, ok,
  guard-ok, found, found-ok, >>=-eq-ok, Bool-cases, Option-cases, arith,
}
use voting_secure.Access.{Role, Method}
use voting_secure.Access
use voting_secure.Groups.{GroupRole, owner, admin, moderator, member, Membership, find_membership}
use voting_secure.Groups.Guard.{
  RouteRequest, Owners, group_role_eq, resolve_group, bypasses, passes_roles, no_roles,
  group_role_guard,
}
use voting_secure.Groups.Guard.About.{IsAbout, resolve_group-IsAbout}

-- The route is not strict, and the user is an admin, or an auditor who only reads.
abbrev pub IsFree : (strict : Bool) → Role → Method → Type 0
IsFree strict role method =
    (strict ≡ false) × ((role ≡ Role.admin) ⊎ ((role ≡ Role.auditor) × (method ≡ Method.get)))

-- The role is one of the list.
abbrev pub Lists : List GroupRole → GroupRole → Type 0
Lists [] role = ⊥
Lists (r ∷ rs) role = (r ≡ role) ⊎ Lists rs role

-- What lets a request through.
pub data Admits (required : List GroupRole) (strict : Bool) (db : Owners)
    (members : List Membership) (req : RouteRequest) : Type 0 where
  bypass :
      (id : String) (role : Role)
      → req.user ≡ some (id, role)
      → IsFree strict role req.method
      → Admits required strict db members req
  no_group :
      (id : String) (role : Role)
      → req.user ≡ some (id, role)
      → IsAbout db req none
      → required ≡ []
      → Admits required strict db members req
  in_group :
      (id : String) (role : Role) (group_id : String) (m : Membership)
      → req.user ≡ some (id, role)
      → IsAbout db req (some group_id)
      → find_membership id group_id members ≡ some m
      → (required ≡ []) ⊎ Lists required m.role
      → Admits required strict db members req

bypasses-IsFree :
    (strict : Bool) (role : Role) (method : Method)
    → bypasses strict role method ≡ true
    → IsFree strict role method
bypasses-IsFree true Role.user m h = absurd (cc h)
bypasses-IsFree true Role.admin m h = absurd (cc h)
bypasses-IsFree true Role.auditor m h = ground (arith, h)
bypasses-IsFree false Role.user m h = absurd (cc h)
bypasses-IsFree false Role.admin m h = (refl, inl refl)
bypasses-IsFree false Role.auditor Method.get h = (refl, inr (refl, refl))
bypasses-IsFree false Role.auditor Method.post h = absurd (cc h)
bypasses-IsFree false Role.auditor Method.put h = absurd (cc h)
bypasses-IsFree false Role.auditor Method.patch h = absurd (cc h)
bypasses-IsFree false Role.auditor Method.delete h = absurd (cc h)

IsFree-bypasses :
    (strict : Bool) (role : Role) (method : Method)
    → IsFree strict role method
    → bypasses strict role method ≡ true
IsFree-bypasses strict role method (lax, inl who) = rw (lax, who) refl
IsFree-bypasses strict role method (lax, inr (who, reads)) = rw (lax, who, reads) refl

group_role_eq-eq : (a b : GroupRole) → group_role_eq a b ≡ true → b ≡ a
group_role_eq-eq owner owner h = refl
group_role_eq-eq owner admin h = absurd (cc h)
group_role_eq-eq owner moderator h = absurd (cc h)
group_role_eq-eq owner member h = absurd (cc h)
group_role_eq-eq admin owner h = absurd (cc h)
group_role_eq-eq admin admin h = refl
group_role_eq-eq admin moderator h = absurd (cc h)
group_role_eq-eq admin member h = absurd (cc h)
group_role_eq-eq moderator owner h = absurd (cc h)
group_role_eq-eq moderator admin h = absurd (cc h)
group_role_eq-eq moderator moderator h = refl
group_role_eq-eq moderator member h = absurd (cc h)
group_role_eq-eq member owner h = absurd (cc h)
group_role_eq-eq member admin h = absurd (cc h)
group_role_eq-eq member moderator h = absurd (cc h)
group_role_eq-eq member member h = refl

group_role_eq_refl : (a : GroupRole) → group_role_eq a a ≡ true
group_role_eq_refl owner = refl
group_role_eq_refl admin = refl
group_role_eq_refl moderator = refl
group_role_eq_refl member = refl

any-Lists :
    (role : GroupRole) (rs : List GroupRole) → any (group_role_eq role) rs ≡ true → Lists rs role
any-Lists role [] h = absurd (cc h)
any-Lists role (r ∷ rs) h = elim (Bool-cases (group_role_eq role r)) [
  | inl same ↦ inl (group_role_eq-eq role r same)
  | inr other ↦ inr (any-Lists role rs (rw other at h))
]

Lists-any :
    (role : GroupRole) (rs : List GroupRole) → Lists rs role → any (group_role_eq role) rs ≡ true
Lists-any role [] h = absurd h
Lists-any role (r ∷ rs) (inl same) = rw (same, group_role_eq_refl role) refl
Lists-any role (r ∷ rs) (inr h) = elim (Bool-cases (group_role_eq role r)) [
  | inl same ↦ rw same refl
  | inr other ↦ rw other (Lists-any role rs h)
]

passes_roles-Lists :
    (required : List GroupRole) (role : GroupRole)
    → passes_roles required role ≡ true
    → (required ≡ []) ⊎ Lists required role
passes_roles-Lists [] role h = inl refl
passes_roles-Lists (r ∷ rs) role h = inr (any-Lists role (r ∷ rs) h)

Lists-passes_roles :
    (required : List GroupRole) (role : GroupRole)
    → (required ≡ []) ⊎ Lists required role
    → passes_roles required role ≡ true
Lists-passes_roles required role (inl none_) = rw none_ refl
Lists-passes_roles [] role (inr h) = refl
Lists-passes_roles (r ∷ rs) role (inr h) = Lists-any role (r ∷ rs) h

no_roles-nil : (required : List GroupRole) → no_roles required ≡ true → required ≡ []
no_roles-nil [] h = refl
no_roles-nil (r ∷ rs) h = absurd (cc h)

module _ (required : List GroupRole) (strict : Bool) (db : Owners) (members : List Membership)
    (req : RouteRequest) where
  guard-Admits :
      (u : Unit {0})
      → group_role_guard required strict db members req ≡ ok u
      → Admits required strict db members req
  unfolding group_role_guard
  guard-Admits u h =
      let ((id, role), e, h1) = >>=-eq-ok (found req.user Access.unauthenticated) _ h in
      elim (Bool-cases (bypasses strict role req.method)) [
        | inl free ↦ bypass id role (found-ok _ _ e) (bypasses-IsFree strict role req.method free)
        | inr held ↦ elim (Option-cases (resolve_group db req)) [
          | inl missing ↦
              no_group id role (found-ok _ _ e) ((resolve_group-IsAbout db req none).0 missing)
                (no_roles-nil required (guard-ok _ _ u (rw (held, missing) at h1)))
          | inr (g, there) ↦
              let (m, e2, h2) =
                >>=-eq-ok (found (find_membership id g members) Access.not_a_member) _
                  (rw (held, there) at h1) in
              in_group id role g m (found-ok _ _ e)
                ((resolve_group-IsAbout db req (some g)).0 there) (found-ok _ _ e2)
                (passes_roles-Lists required m.role (guard-ok _ _ u h2))
        ]
      ]

  admitted :
      Admits required strict db members req
      → group_role_guard required strict db members req ≡ ok tt
  unfolding group_role_guard
  admitted (bypass id role who free) =
      rw (who, IsFree-bypasses strict role req.method free, group_role_guard) refl
  admitted (no_group id role who missing free) =
      elim (Bool-cases (bypasses strict role req.method)) [
        | inl by ↦ rw (who, by, group_role_guard) refl
        | inr held ↦
            rw
              (
                who,
                held,
                (resolve_group-IsAbout db req none).1 missing,
                ap no_roles free,
                group_role_guard,
              )
              refl
      ]
  admitted (in_group id role g m who there joined passed) =
      elim (Bool-cases (bypasses strict role req.method)) [
        | inl by ↦ rw (who, by, group_role_guard) refl
        | inr held ↦
            rw
              (
                who,
                held,
                (resolve_group-IsAbout db req (some g)).1 there,
                joined,
                Lists-passes_roles required m.role passed,
                group_role_guard,
              )
              refl
      ]

  -- A request passes the guard exactly if its user is known and one of these holds: the route is not
  -- strict, and the user is an admin, or an auditor who only reads; the request is about no group and
  -- the route lists no roles; the user is a member of the group that the request is about, with a role
  -- that the route lists, if it lists any. A request is about the group that it names, else about its
  -- voting's, else about its survey's, where an empty text names none.
  pub group_role_guard-Admits_iff :
      (group_role_guard required strict db members req ≡ ok tt)
      ↔ Admits required strict db members req
  group_role_guard-Admits_iff = (guard-Admits tt, admitted)
