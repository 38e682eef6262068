-- ===== src/Auth/Service/Reset.antt =====
-- What a reset of the password leaves (backend/src/auth/auth.service.ts, resetPassword).
use voting_secure.Base.{
  ℕ, String, not, some, List, [], ◌∷◌, is_some, str_eq, ◌≡◌, refl, ap, subst, ltb, Bool-cases,
  Option-cases, Result-cases, inl, inr, Result, ok, err, found, found-ok, guard, >>=-eq-ok, ◌>>=◌,
}
use voting_secure.Auth.{
  User, RefreshToken, OneTimeToken, AuthStore, AuthError, AuthPlatform, find_token, find_refresh,
}
use voting_secure.Auth
use voting_secure.Auth.Users.{find_user, update_user, find_one, decrypt_user_email}
use voting_secure.Auth.Users.Escalation.{find_user-updated}
use voting_secure.Auth.Service.{mark_used, hash_auth_token, usable, hidden, reset_password, refresh}

find_token-mark_used :
    (now : ℕ) (h : String) (ts : List OneTimeToken) {t : OneTimeToken}
    → find_token h ts ≡ some t
    → find_token h (mark_used now h ts) ≡ some (record t { used_at = some now })
find_token-mark_used now h [] e = absurd (cc e)
find_token-mark_used now h (t' ∷ ts) {t} e = elim (Bool-cases (str_eq t'.token_hash h)) [
  | inl here ↦
      let same : t' ≡ t = cc (rw here at e) in
      rw (here, here) (ap (λ (w : OneTimeToken). some (record w { used_at = some now })) same)
  | inr other ↦ rw (other, other) (find_token-mark_used now h ts (rw other at e))
]

-- A chain that goes on in another way still succeeds, where each way to go on that did still does.
>>=-keeps :
    {E A B : Type 0} (m : Result E A) (k k' : A → Result E B) {b : B}
    → ((x : A) → k x ≡ ok b → (c' : B) × (k' x ≡ ok c'))
    → (m >>= k) ≡ ok b
    → (b' : B) × ((m >>= k') ≡ ok b')
>>=-keeps (err e) k k' keeps fresh = absurd (cc fresh)
>>=-keeps (ok x) k k' keeps fresh = keeps x fresh

module _ (p : AuthPlatform) where
  -- A usable token has the hash of the text, and is the one that is found.
  usable_lem :
      (now : ℕ) (e : AuthError) (token : String) (ts : List OneTimeToken) {h : String}
      {t : OneTimeToken}
      → usable p now e token ts ≡ ok (h, t)
      → (hash_auth_token p token ≡ ok h) × (find_token h ts ≡ some t)
  unfolding usable
  usable_lem now e token ts {h} {t} done =
      let (h1, e1, k1) = >>=-eq-ok (hash_auth_token p token) _ done in
      let (t1, e2, k2) = >>=-eq-ok (found (find_token h1 ts) e) _ k1 in
      let (u3, e3, k3) = >>=-eq-ok (guard (not (ltb t1.expires_at now)) e) _ k2 in
      let (u4, e4, k4) = >>=-eq-ok (guard (not (is_some t1.used_at)) e) _ k3 in
      subst Seen k4 (e1, found-ok _ _ e2)
    where
      Seen : Result AuthError (String × OneTimeToken) → Type 0
      Seen (err x) = Unit
      Seen (ok (a, b)) = (hash_auth_token p token ≡ ok a) × (find_token a ts ≡ some b)

  used-usable :
      (now : ℕ) (e : AuthError) (token : String) (ts : List OneTimeToken) {h : String}
      {t : OneTimeToken} {at : ℕ}
      → hash_auth_token p token ≡ ok h
      → find_token h ts ≡ some t
      → t.used_at ≡ some at
      → usable p now e token ts ≡ err e
  unfolding usable
  used-usable now e token ts {h} {t} hashed there used =
      simp (hashed, there, usable)
        (elim (Bool-cases (ltb t.expires_at now)) [
          | inl late ↦ rw late refl
          | inr fresh ↦ rw (fresh, used) refl
        ])

  -- What a successful reset leaves.
  pub record IsReset (now : ℕ) (token new_password : String) (s s' : AuthStore) : Type 0 where
    pub hash : String
    pub hashed : hash_auth_token p token ≡ ok hash
    pub row : OneTimeToken
    pub used : find_token hash s'.reset_tokens ≡ some (record row { used_at = some now })
    pub user : User
    pub there : find_user row.user_id s.users ≡ some user
    pub users :
        s'.users
        ≡ update_user row.user_id
            (λ u. record u { password = p.hash_password new_password })
            s.users
    pub same_refresh : s'.refresh_tokens ≡ s.refresh_tokens

  reset_password-IsReset :
      (now : ℕ) (token new_password : String) (s : AuthStore)
      → (reset_password p now token new_password s).0 ≡ ok tt
      → IsReset now token new_password s (reset_password p now token new_password s).1
  unfolding reset_password
  reset_password-IsReset now token new_password s done =
      elim (Result-cases (usable p now Auth.invalid_reset_token token s.reset_tokens)) [
        | inr (e, failed) ↦ absurd (cc (rw (failed, reset_password) at done))
        | inl ((h, t), fine) ↦ elim (Option-cases (find_user t.user_id s.users)) [
          | inl gone ↦ absurd (cc (rw (fine, gone, reset_password) at done))
          | inr (u, there) ↦
              let (hashed, found_it) =
                usable_lem now Auth.invalid_reset_token token s.reset_tokens fine in
              rw (fine, there, reset_password)
                (record {
                  hash = h;
                  hashed = hashed;
                  row = t;
                  used = find_token-mark_used now h s.reset_tokens found_it;
                  user = u;
                  there = there;
                  users = refl;
                  same_refresh = refl;
                })
        ]
      ]

  refused :
      {now : ℕ} {new_password : String} {s s' : AuthStore} (later : ℕ) (token other : String)
      → IsReset now token new_password s s'
      → reset_password p later token other s' ≡ (err Auth.invalid_reset_token, s')
  unfolding reset_password
  refused {s' = s'} later token other r =
      rw
        (
          used-usable later Auth.invalid_reset_token token s'.reset_tokens r.hashed r.used refl,
          reset_password,
        )
        refl

  -- A reset token works once: after a reset any later one with the same token is refused and changes
  -- nothing.
  pub reset_password-once :
      (now later : ℕ) (token new_password other : String) (s : AuthStore)
      → (reset_password p now token new_password s).0 ≡ ok tt
      → reset_password p later token other (reset_password p now token new_password s).1
        ≡ (err Auth.invalid_reset_token, (reset_password p now token new_password s).1)
  reset_password-once now later token new_password other s done =
      refused later token other (reset_password-IsReset now token new_password s done)

  find_one-kept :
      (id k : String) (f : User → User) (s s' : AuthStore) {access : String}
      → ((v : User) → (f v).id ≡ v.id)
      → s'.users ≡ update_user k f s.users
      → (hidden (find_one p id s) >>= λ user. ok (p.sign_jwt user)) ≡ ok access
      → (access' : String) × ((hidden (find_one p id s') >>= λ user. ok (p.sign_jwt user))
          ≡ ok access')
  unfolding find_one
  find_one-kept id k f s s' keep users fresh = elim (Option-cases (find_user id s.users)) [
    | inl gone ↦ absurd (cc (rw (gone, find_one) at fresh))
    | inr (u, there) ↦
        let (u', there') = find_user-updated id k f s.users keep there in
        (p.sign_jwt (decrypt_user_email p u'), rw (find_one, users, there') refl)
  ]

  refresh-kept :
      (later : ℕ) (token : String) {access : String} (s s' : AuthStore) (k : String)
      (f : User → User)
      → ((v : User) → (f v).id ≡ v.id)
      → s'.users ≡ update_user k f s.users
      → s'.refresh_tokens ≡ s.refresh_tokens
      → refresh p later token s ≡ ok access
      → (access' : String) × (refresh p later token s' ≡ ok access')
  unfolding refresh
  refresh-kept later token s s' k f keep users tokens fresh =
      rw (refresh, tokens)
        (>>=-keeps (guard (not (str_eq token "")) Auth.no_refresh_token) _ _
          (λ x1 h1.
            >>=-keeps (found (p.verify_jwt later token) Auth.refresh_failed) _ _
              (λ id h2.
                >>=-keeps (hidden (hash_auth_token p token)) _ _
                  (λ h h3.
                    >>=-keeps (found (find_refresh h s.refresh_tokens) Auth.invalid_refresh_token) _
                      _
                      (λ saved h4.
                        >>=-keeps
                          (guard (not (ltb saved.expires_at later)) Auth.invalid_refresh_token) _ _
                          (λ x5 h5.
                            >>=-keeps (guard (str_eq saved.user_id id) Auth.invalid_refresh_token) _
                              _ (λ x6 h6. find_one-kept id k f s s' keep users h6) h5)
                          h4)
                      h3)
                  h2)
              h1)
          fresh)

  -- A reset of the password ends no session: a refresh token that gave access before still does.
  pub reset_password-keeps_refresh :
      (now later : ℕ) (token new_password refresh_token access : String) (s : AuthStore)
      → (reset_password p now token new_password s).0 ≡ ok tt
      → refresh p later refresh_token s ≡ ok access
      → (access' : String) × (refresh p later refresh_token
            (reset_password p now token new_password s).1
          ≡ ok access')
  reset_password-keeps_refresh now later token new_password refresh_token access s done fresh =
      let r = reset_password-IsReset now token new_password s done in
      refresh-kept later refresh_token s _ r.row.user_id
        (λ u. record u { password = p.hash_password new_password }) (λ v. refl) r.users
        r.same_refresh fresh
