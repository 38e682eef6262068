-- ===== src/Access.antt =====
-- Roles on the platform, and the guard that every controller has
-- (backend/src/common/guards/roles.guard.ts, backend/src/common/enums/role.ts). The token that names
-- the user and the role is verified by Passport.
use voting_secure.Base.{
  Bool, true, false, Option, none, some, List, [], ◌∷◌, any, Result, ok, err, guard,
}

pub data Role : Type 0 where
  user admin auditor : Role

pub data Method : Type 0 where
  get post put patch delete : Method

pub data AccessError : Type 0 where
  unauthenticated read_only forbidden group_required not_a_member insufficient : AccessError

abbrev pub is_get : Method → Bool
is_get get = true
is_get _ = false

abbrev pub role_eq : Role → Role → Bool
role_eq user user = true
role_eq admin admin = true
role_eq auditor auditor = true
role_eq _ _ = false

-- `required` is what the route's decorator lists, `none` without one.
unfoldable pub roles_guard :
    (required : Option (List Role)) (caller : Option Role) → Method → Result AccessError (Unit {0})
roles_guard none caller method = ok tt
roles_guard (some []) caller method = ok tt
roles_guard (some (r ∷ rs)) none method = err unauthenticated
roles_guard (some (r ∷ rs)) (some auditor) method = guard (is_get method) read_only
roles_guard (some (r ∷ rs)) (some user) method = guard (any (role_eq user) (r ∷ rs)) forbidden
roles_guard (some (r ∷ rs)) (some admin) method = guard (any (role_eq admin) (r ∷ rs)) forbidden
