-- ===== src/Auth/Users.antt =====
-- The users service (backend/src/users/users.service.ts). Addresses are stored encrypted and looked
-- up by their blind index; both are unique.
pub mod Escalation
use voting_secure.Base.{
  String, Bool, true, false, not, Option, none, some, List, [], ◌∷◌, ◌++◌, map, filter, find?, any,
  is_some, str_eq, ◌||◌, ◌&&◌, if◌then◌else◌, Result, ok, err, ◌>>=◌, ◌>>◌, guard, found,
}
use voting_secure.Access.{Role, patch, roles_guard}
use voting_secure.Auth.{User, AuthStore, AuthError, AuthPlatform}
use voting_secure.Auth

pub record NewUser : Type 0 where
  pub email : String
  pub password : String
  pub name : String

pub record UserUpdate : Type 0 where
  pub email : Option String
  pub password : Option String
  pub name : Option String
  pub role : Option Role

-- user.findUnique({ where: { id } })
unfoldable pub find_user : String → List User → Option User
find_user id us = find? (λ u. str_eq u.id id) us

unfoldable pub find_by_hash : String → List User → Option User
find_by_hash h us = find? (λ u. str_eq u.email_hash h) us

unfoldable pub update_user : String → (User → User) → List User → List User
update_user id f us = map (λ u. if str_eq u.id id then f u else u) us

-- Another user has the address of this one.
abbrev pub shares_address : (id : String) → User → List User → Bool
shares_address id u us =
    any (λ v. not (str_eq v.id id) && (str_eq v.email u.email || str_eq v.email_hash u.email_hash))
      us

module _ (p : AuthPlatform) where
  -- An empty address stays.
  abbrev pub decrypt_user_email : User → User
  decrypt_user_email u = if str_eq u.email "" then u else record u { email = p.decrypt u.email }

  unfoldable pub find_one : String → AuthStore → Result AuthError User
  unfolding find_user
  find_one id s = do u ← found (find_user id s.users) Auth.user_not_found; ok (decrypt_user_email u)

  unfoldable pub find_one_by_email : String → AuthStore → Result AuthError User
  unfolding find_by_hash
  find_one_by_email email s = do
    u ← found (find_by_hash (p.get_blind_index email) s.users) Auth.user_not_found
    ok (decrypt_user_email u)

  abbrev pub clashes_user : User → List User → Bool
  clashes_user u us =
      any (λ v. str_eq v.id u.id || (str_eq v.email u.email || str_eq v.email_hash u.email_hash)) us

  -- `new_id` is the id that the database gives to the row.
  unfoldable pub create_user :
      (new_id : String) → NewUser → Option Role → AuthStore → Result AuthError User × AuthStore
  create_user new_id new role s =
      let u : User = record {
        id = new_id;
        role = elim role [ none ↦ Role.user | some r ↦ r ];
        email = p.encrypt new.email;
        email_hash = p.get_blind_index new.email;
        password = p.hash_password new.password;
        name = some new.name;
        is_email_verified = false;
      } in
      if clashes_user u s.users
      then (err Auth.write_failed, s)
      else (ok (decrypt_user_email u), record s { users = s.users ++ u ∷ [] })

  abbrev pub with_password : Option String → User → User
  with_password none u = u
  with_password (some t) u = record u { password = if str_eq t "" then t else p.hash_password t }

  abbrev pub with_email : Option String → User → User
  with_email none u = u
  with_email (some e) u =
      if str_eq e ""
      then record u { email = e }
      else record u { email = p.encrypt e; email_hash = p.get_blind_index e }

  abbrev pub with_name : Option String → User → User
  with_name none u = u
  with_name (some n) u = record u { name = some n }

  abbrev pub with_role : Option Role → User → User
  with_role none u = u
  with_role (some r) u = record u { role = r }

  -- Each field that the request names; an empty password or address is written as it is.
  abbrev pub updated : UserUpdate → User → User
  updated change u =
      with_role change.role
        (with_name change.name (with_email change.email (with_password change.password u)))

  unfoldable pub update : String → UserUpdate → AuthStore → Result AuthError User × AuthStore
  unfolding find_user update_user
  update id change s = elim (find_user id s.users) [
    | none ↦ (err Auth.user_not_found, s)
    | some u ↦
        if shares_address id (updated change u) s.users then (err Auth.write_failed, s) else (
          ok (decrypt_user_email (updated change u)),
          record s { users = update_user id (updated change) s.users },
        )
  ]

  unfoldable pub upgrade_to_admin : String → AuthStore → Result AuthError User × AuthStore
  unfolding find_user update_user
  upgrade_to_admin id s = elim (find_user id s.users) [
    | none ↦ (err Auth.write_failed, s)
    | some u ↦ (
      ok (decrypt_user_email (record u { role = Role.admin })),
      record s { users = update_user id (λ v. record v { role = Role.admin }) s.users },
    )
  ]

  -- PATCH /users/me (backend/src/users/users.controller.ts): the guard, and the update of the caller.
  unfoldable pub update_me :
      (caller_id : String) (caller_role : Role)
      → UserUpdate
      → AuthStore
      → Result AuthError User × AuthStore
  unfolding roles_guard update
  update_me caller_id caller_role change s =
      elim (roles_guard (some (Role.user ∷ [])) (some caller_role) patch) [
        | err e ↦ (err Auth.forbidden, s)
        | ok u ↦ update caller_id change s
      ]
