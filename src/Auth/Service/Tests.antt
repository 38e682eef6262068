-- ===== src/Auth/Service/Tests.antt =====
-- Runs of the account services: the operations of backend/src/auth/auth.service.ts and of
-- backend/src/users/users.service.ts on one account.
use voting_secure.Base.{◌<>◌, String, true, false, none, some, [], ◌≡◌, refl, str_eq, ok, err}
use voting_secure.Access.{Role}
use voting_secure.Auth.{User, RefreshToken, OneTimeToken, AuthStore, AuthError, AuthPlatform}
use voting_secure.Auth
use voting_secure.Auth.Users.{NewUser, find_user, decrypt_user_email, update_me}
use voting_secure.Auth.Users.Escalation.{only_role, update_me-role}
use voting_secure.Auth.Service.{register, sign_in, forgot_password, reset_password, refresh}
use voting_secure.Auth.Service.Reset.{reset_password-once, reset_password-keeps_refresh}

-- Ciphers and hashes that only mark what they stand for; a refresh token is its subject.
abbrev platform : AuthPlatform
platform = record {
  sign_jwt = λ u. "access:" <> u.id;
  sign_refresh_jwt = λ now id. id;
  verify_jwt = λ now token. some token;
  hmac_sha256 = λ secret text. secret <> text;
  token_hash_secret = some "s:";
  hash_password = λ t. "h:" <> t;
  verify_password = λ hashed plain. str_eq hashed ("h:" <> plain);
  encrypt = λ t. t;
  decrypt = λ t. t;
  get_blind_index = λ t. "i:" <> t;
}

abbrev no_accounts : AuthStore
no_accounts = record {
  users = [];
  refresh_tokens = [];
  verification_tokens = [];
  reset_tokens = [];
}

abbrev ann : NewUser
ann = record { email = "ann@x.org"; password = "old"; name = "Ann" }

-- Ann has an account, and asks for a reset of her password.
abbrev registered : AuthStore
registered = (register platform 1 "ann" "mail" true ann none no_accounts).1

abbrev forgotten : AuthStore
forgotten = (forgot_password platform 2 "reset" true "ann@x.org" registered).1

abbrev ann_account : User
ann_account = record {
  id = "ann";
  role = Role.user;
  email = "ann@x.org";
  email_hash = "i:ann@x.org";
  password = "h:old";
  name = some "Ann";
  is_email_verified = false;
}

sign_in_before_verification :
    (sign_in platform 2 "ann@x.org" "old" false registered).0 ≡ err Auth.email_not_verified
unfolding sign_in register
sign_in_before_verification = refl

reset_password-once_example :
    reset_password platform 4 "reset" "other" (reset_password platform 3 "reset" "new" forgotten).1
    ≡ (err Auth.invalid_reset_token, (reset_password platform 3 "reset" "new" forgotten).1)
unfolding reset_password forgot_password register
reset_password-once_example = reset_password-once platform 3 4 "reset" "new" "other" forgotten refl

reset_password-keeps_refresh_example :
    (access : String) × (refresh platform 4 "ann"
        (reset_password platform 3 "reset" "new" forgotten).1
      ≡ ok access)
unfolding reset_password forgot_password register refresh
reset_password-keeps_refresh_example =
    reset_password-keeps_refresh platform 3 4 "reset" "new" "ann" "access:ann" forgotten refl refl

update_me-role_example :
    ((update_me platform "ann" Role.user (only_role Role.admin) registered).0
      ≡ ok (decrypt_user_email platform (record ann_account { role = Role.admin })))
    × (find_user "ann"
          (update_me platform "ann" Role.user (only_role Role.admin) registered).1.users
        ≡ some (record ann_account { role = Role.admin }))
unfolding register find_user
update_me-role_example = update_me-role platform "ann" Role.admin registered ann_account refl refl
