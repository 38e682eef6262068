-- ===== src/Auth/Service.antt =====
-- Sign-in and the tokens around it (backend/src/auth/auth.service.ts). Each operation takes the store
-- and gives its answer and the store after it; the tokens that are drawn are arguments.
pub mod Reset
pub mod Tests
use voting_secure.Base.{
  ℕ, ◌+◌, ◌*◌, String, Bool, true, false, not, Option, none, some, List, [], ◌∷◌, ◌++◌, map, any,
  is_some, str_eq, ltb, if◌then◌else◌, Result, ok, err, ◌>>=◌, ◌>>◌, guard, found,
}
use voting_secure.Access.{Role}
use voting_secure.Audit.Hash.{given}
use voting_secure.Auth.{
  User, RefreshToken, OneTimeToken, AuthStore, AuthError, AuthPlatform, find_token, find_refresh,
}
use voting_secure.Auth
use voting_secure.Auth.Users.{
  NewUser, find_user, update_user, find_one, find_one_by_email, create_user,
}

abbrev pub auth_hour : ℕ
auth_hour = 3600000

-- The catch block of `refresh`: an error that is not the service's own.
abbrev pub hidden {ℓ} : {A : Type ℓ} → Result AuthError A → Result AuthError A
hidden (ok a) = ok a
hidden (err e) = err Auth.refresh_failed

-- What a sign-in answers; the user is what the access token carries.
pub record Session : Type 0 where
  pub access_token : String
  pub refresh_token : Option String
  pub user : User

-- upsert: the token that is there gets the new expiry, and another is added.
unfoldable pub upsert_refresh : RefreshToken → List RefreshToken → List RefreshToken
upsert_refresh t [] = t ∷ []
upsert_refresh t (r ∷ rs) =
    if str_eq r.token_hash t.token_hash
    then record r { expires_at = t.expires_at } ∷ rs
    else r ∷ upsert_refresh t rs

abbrev pub mark_used : (now : ℕ) → String → List OneTimeToken → List OneTimeToken
mark_used now h ts =
    map (λ t. if str_eq t.token_hash h then record t { used_at = some now } else t) ts

module _ (p : AuthPlatform) where
  abbrev pub hash_auth_token : String → Result AuthError String
  hash_auth_token token = do
    secret ← found (given p.token_hash_secret) Auth.secret_unset
    ok (p.hmac_sha256 secret token)

  -- 30 days
  unfoldable pub generate_refresh_token :
      (now : ℕ) (user_id : String) → AuthStore → Result AuthError String × AuthStore
  unfolding upsert_refresh
  generate_refresh_token now user_id s =
      let token = p.sign_refresh_jwt now user_id in
      elim (hash_auth_token token) [
        | err e ↦ (err e, s)
        | ok h ↦ (
          ok token,
          record s {
            refresh_tokens =
                upsert_refresh
                  (record {
                    token_hash = h;
                    user_id = user_id;
                    expires_at = now + 720 * auth_hour;
                    revoked_at = none;
                  })
                  s.refresh_tokens;
          },
        )
      ]

  -- A token that was saved, not expired and of the user that it names. Any error in between but the
  -- service's own becomes 'Refresh failed'.
  unfoldable pub refresh : (now : ℕ) (token : String) → AuthStore → Result AuthError String
  unfolding find_one
  refresh now token s = do
    guard (not (str_eq token "")) Auth.no_refresh_token
    user_id ← found (p.verify_jwt now token) Auth.refresh_failed
    h ← hidden (hash_auth_token token)
    saved ← found (find_refresh h s.refresh_tokens) Auth.invalid_refresh_token
    guard (not (ltb saved.expires_at now)) Auth.invalid_refresh_token
    guard (str_eq saved.user_id user_id) Auth.invalid_refresh_token
    user ← hidden (find_one p user_id s)
    ok (p.sign_jwt user)

  -- With a refresh token, where it is asked for.
  abbrev pub session :
      (now : ℕ) (remember : Bool) → User → AuthStore → Result AuthError Session × AuthStore
  session now remember user s =
      if not remember
      then (ok (record { access_token = p.sign_jwt user; refresh_token = none; user = user }), s)
      else (let (r, s') = generate_refresh_token now user.id s in
          elim r [
            | err e ↦ (err e, s')
            | ok t ↦ (
              ok (record { access_token = p.sign_jwt user; refresh_token = some t; user = user }),
              s',
            )
          ])

  abbrev pub new_token : (h user_id : String) (expires_at : ℕ) → OneTimeToken
  new_token h user_id expires_at = record {
    token_hash = h;
    user_id = user_id;
    expires_at = expires_at;
    used_at = none;
  }

  -- The user is created first, with no transaction; `mailed` tells whether the mail is sent.
  unfoldable pub register :
      (now : ℕ) (new_id token : String) (mailed : Bool)
      → NewUser
      → Option Role
      → AuthStore
      → Result AuthError Session × AuthStore
  unfolding create_user generate_refresh_token
  register now new_id token mailed new role s =
      let (created, s1) = create_user p new_id new role s in
      elim created [
        | err e ↦ (err e, s1)
        | ok user ↦ elim (hash_auth_token token) [
          | err e ↦ (err e, s1)
          | ok h ↦
              if is_some (find_token h s1.verification_tokens)
              then (err Auth.write_failed, s1)
              else (let s2 : AuthStore = record s1 {
                verification_tokens =
                    s1.verification_tokens ++ new_token h user.id (now + 24 * auth_hour) ∷ [];
              } in
                  if mailed then session now true user s2 else (err Auth.mail_failed, s2))
        ]
      ]

  unfoldable pub may_sign_in : (email password : String) → AuthStore → Result AuthError User
  unfolding find_one_by_email
  may_sign_in email password s = do
    user ← find_one_by_email p email s
    guard (p.verify_password user.password password) Auth.invalid_credentials
    guard user.is_email_verified Auth.email_not_verified
    ok user

  unfoldable pub sign_in :
      (now : ℕ) (email password : String) (remember_me : Bool)
      → AuthStore
      → Result AuthError Session × AuthStore
  unfolding may_sign_in generate_refresh_token
  sign_in now email password remember_me s = elim (may_sign_in email password s) [
    | err e ↦ (err e, s)
    | ok user ↦ session now remember_me user s
  ]

  -- !token || expired || used
  unfoldable pub usable :
      (now : ℕ) → AuthError → String → List OneTimeToken → Result AuthError (String × OneTimeToken)
  usable now e token ts = do
    h ← hash_auth_token token
    t ← found (find_token h ts) e
    guard (not (ltb t.expires_at now)) e
    guard (not (is_some t.used_at)) e
    ok (h, t)

  -- The transaction fails where the user is gone.
  unfoldable pub verify_email :
      (now : ℕ) (token : String) → AuthStore → Result AuthError Session × AuthStore
  unfolding usable update_user find_user generate_refresh_token
  verify_email now token s =
      elim (usable now Auth.invalid_verification_token token s.verification_tokens) [
        | err e ↦ (err e, s)
        | ok (h, t) ↦ elim (find_user t.user_id s.users) [
          | none ↦ (err Auth.write_failed, s)
          | some u ↦
              session now true (record u { is_email_verified = true })
                (record s {
                  users =
                      update_user t.user_id (λ v. record v { is_email_verified = true }) s.users;
                  verification_tokens = mark_used now h s.verification_tokens;
                })
        ]
      ]

  -- The answer is the same whether there is such a user or not, but where the mail fails.
  unfoldable pub forgot_password :
      (now : ℕ) (token : String) (mailed : Bool) (email : String)
      → AuthStore
      → Result AuthError (Unit {0}) × AuthStore
  unfolding find_one_by_email
  forgot_password now token mailed email s = elim (find_one_by_email p email s) [
    | err e ↦ (ok tt, s)
    | ok user ↦ elim (hash_auth_token token) [
      | err e ↦ (err e, s)
      | ok h ↦ if is_some (find_token h s.reset_tokens) then (err Auth.write_failed, s) else (
        (if mailed then ok tt else err Auth.mail_failed),
        record s { reset_tokens = s.reset_tokens ++ new_token h user.id (now + auth_hour) ∷ [] },
      )
    ]
  ]

  unfoldable pub reset_password :
      (now : ℕ) (token new_password : String) → AuthStore → Result AuthError (Unit {0}) × AuthStore
  unfolding usable update_user find_user
  reset_password now token new_password s =
      elim (usable now Auth.invalid_reset_token token s.reset_tokens) [
        | err e ↦ (err e, s)
        | ok (h, t) ↦
            if not (is_some (find_user t.user_id s.users)) then (err Auth.write_failed, s) else (
              ok tt,
              record s {
                users =
                    update_user t.user_id
                      (λ u. record u { password = p.hash_password new_password }) s.users;
                reset_tokens = mark_used now h s.reset_tokens;
              },
            )
      ]
