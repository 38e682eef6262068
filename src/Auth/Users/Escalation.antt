-- ===== src/Auth/Users/Escalation.antt =====
-- What a user may change of its own account (backend/src/users/users.service.ts, update, on the route
-- of backend/src/users/users.controller.ts).
use voting_secure.Base.{
  String, false, none, some, List, [], ◌∷◌, str_eq, ◌≡◌, refl, ap, ◌∙◌, Bool-cases, inl, inr, ok,
}
use voting_secure.Access.{Role, roles_guard}
use voting_secure.Auth.{User, AuthStore, AuthPlatform}
use voting_secure.Auth.Users.{
  UserUpdate, find_user, update_user, update, update_me, decrypt_user_email, shares_address,
}

-- An update that keeps the id changes the user that is found.
pub find_user-update_user :
    (id : String) (f : User → User) (us : List User) {u : User}
    → ((v : User) → (f v).id ≡ v.id)
    → find_user id us ≡ some u
    → find_user id (update_user id f us) ≡ some (f u)
unfolding find_user update_user
find_user-update_user id f [] keep e = absurd (cc e)
find_user-update_user id f (v ∷ us) {u} keep e = elim (Bool-cases (str_eq v.id id)) [
  | inl here ↦
      let same : v ≡ u = cc (rw here at e) in
      rw (here, ap (λ (i : String). str_eq i id) (keep v) ∙ here)
        (ap (λ (w : User). some (f w)) same)
  | inr other ↦ rw (other, other) (find_user-update_user id f us keep (rw other at e))
]

-- An update of whichever user loses none.
pub find_user-updated :
    (id k : String) (f : User → User) (us : List User) {u : User}
    → ((v : User) → (f v).id ≡ v.id)
    → find_user id us ≡ some u
    → (u' : User) × (find_user id (update_user k f us) ≡ some u')
unfolding find_user update_user
find_user-updated id k f [] keep e = absurd (cc e)
find_user-updated id k f (v ∷ us) {u} keep e = elim (Bool-cases (str_eq v.id id)) [
  | inl here ↦ elim (Bool-cases (str_eq v.id k)) [
    | inl hit ↦ (f v, rw (hit, ap (λ (i : String). str_eq i id) (keep v) ∙ here) refl)
    | inr miss ↦ (v, rw (miss, here) refl)
  ]
  | inr other ↦
      let (u', there) = find_user-updated id k f us {u = u} keep (rw other at e) in
      elim (Bool-cases (str_eq v.id k)) [
        | inl hit ↦ (u', rw (hit, ap (λ (i : String). str_eq i id) (keep v) ∙ other) there)
        | inr miss ↦ (u', rw (miss, other) there)
      ]
]

abbrev pub only_role : Role → UserUpdate
only_role r = record { email = none; password = none; name = none; role = some r }

-- A user gives itself any role. Let an account be there, whose address no other account has. Then the
-- request of its owner, with the role USER, to change its own role is answered with that role, and the
-- account that is found from then on has it.
pub update_me-role :
    (p : AuthPlatform) (id : String) (r : Role) (s : AuthStore) (u : User)
    → find_user id s.users ≡ some u
    → shares_address id u s.users ≡ false
    → ((update_me p id Role.user (only_role r) s).0
        ≡ ok (decrypt_user_email p (record u { role = r })))
      × (find_user id (update_me p id Role.user (only_role r) s).1.users
          ≡ some (record u { role = r }))
unfolding update_me update roles_guard
update_me-role p id r s u there alone = (
  rw (there, alone, update, update_me) refl,
  rw (there, alone, update, update_me)
      (find_user-update_user id (λ v. record v { role = r }) s.users (λ v. refl) there),
)
