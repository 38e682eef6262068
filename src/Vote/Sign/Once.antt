-- ===== src/Vote/Sign/Once.antt =====
-- A voter gets one signature that counts.
use voting_secure.Base.{
  ℕ, ◌≡◌, refl, ap, ◌∙◌, String, Bool, true, false, some, List, [], ◌∷◌, ◌++◌, arith, Result, ok,
  err, Result-cases, Option-cases, Bool-cases, inl, inr, is_some, find?, str_eq, str_eq_refl, ◌&&◌,
}
use voting_secure.Crypto.Hex.{Hex}
use voting_secure.Crypto.Blind.{sign_blinded}
use voting_secure.SigningKeys.{KeyInfo, ensure_key}
use voting_secure.SigningKeys
use voting_secure.Vote.Types.{
  Voting, Participation, Database, VoteState, VotePlatform, find_voting, find_pending_ballot,
  find_participation,
}
use voting_secure.Vote.Guards.{VoteError, hash_token}
use voting_secure.Vote.Guards
use voting_secure.Vote.Sign.{
  SignRequest, Signed, create_pending_ballot, create_participation, may_sign, record_signature,
  issue, issued, sign_blinded_token,
}

find?-last :
    (q : Participation → Bool) (xs : List Participation) (x : Participation)
    → q x ≡ true
    → is_some (find? q (xs ++ x ∷ [])) ≡ true
find?-last q [] x h = rw h refl
find?-last q (y ∷ xs) x h = ground (arith, find?-last q xs x h)

module _ (p : VotePlatform) (user : String) where
  -- The voter has a participation, and the votings are as they were.
  abbrev pub HasParticipated : String → Database → Database → Type 0
  HasParticipated voting_id db db' =
      (is_some (find_participation user voting_id db') ≡ true) × (db'.votings ≡ db.votings)

  abbrev OkRecord : String → Database → Result VoteError (Unit {0}) × Database → Type 0
  OkRecord voting_id db (err e, db') = Unit
  OkRecord voting_id db (ok u, db') = HasParticipated voting_id db db'

  record_signature-OkRecord :
      (now : ℕ) (req : SignRequest) (token_hash : String) (sig : Hex) (db : Database)
      → req.is_practice ≡ false
      → OkRecord req.voting_id db (record_signature p now req user token_hash sig db)
  unfolding record_signature create_pending_ballot create_participation
  record_signature-OkRecord now req token_hash sig db real =
      elim (Bool-cases (is_some (find_pending_ballot token_hash db))) [
        | inl taken ↦ rw (taken, record_signature) tt
        | inr free ↦ elim (Bool-cases (is_some (find_participation user req.voting_id db))) [
          | inl twice ↦ rw (free, real, twice, record_signature) tt
          | inr once ↦
              rw (free, real, once, record_signature)
                (
                  find?-last (λ q. str_eq q.user_id user && str_eq q.voting_id req.voting_id)
                      db.participations _ (rw (str_eq_refl user, str_eq_refl req.voting_id) refl),
                  refl,
                )
        ]
      ]

  abbrev OkSign : SignRequest → VoteState → Result VoteError Signed × VoteState → Type 0
  OkSign req s (err e, s') = Unit
  OkSign req s (ok r, s') =
      (is_some (find_voting req.voting_id s.db) ≡ true) × HasParticipated req.voting_id s.db s'.db

  issue-OkSign :
      (now : ℕ) (req : SignRequest) (voting : Voting) (token_hash : String)
      (pair : KeyInfo × String) (s : VoteState)
      → req.is_practice ≡ false
      → find_voting req.voting_id s.db ≡ some voting
      → OkSign req s (issue p now req user voting token_hash pair s)
  unfolding issue
  issue-OkSign now req voting token_hash (key, private_key) s real there =
      elim (Option-cases (sign_blinded p.rsa req.blinded private_key)) [
        | inl failed ↦ rw (failed, issue) tt
        | inr (sig, signed) ↦
            rw (signed, issue)
              (go sig (record_signature p now req user token_hash sig s.db)
                (record_signature-OkRecord now req token_hash sig s.db real))
      ]
    where
      go :
          (sig : Hex) (r : Result VoteError (Unit {0}) × Database)
          → OkRecord req.voting_id s.db r
          → OkSign req s (issued p now req user voting token_hash key sig s r)
      go sig (err e, db) h = tt
      go sig (ok u, db) h = (rw there refl, h)

  sign-OkSign :
      (now : ℕ) (generated : String × String) (req : SignRequest) (s : VoteState)
      → req.is_practice ≡ false
      → OkSign req s (sign_blinded_token p now generated req user s)
  unfolding sign_blinded_token may_sign
  sign-OkSign now generated req s real = elim (Option-cases (find_voting req.voting_id s.db)) [
    | inl missing ↦ rw (missing, sign_blinded_token, may_sign) tt
    | inr (voting, there) ↦
        elim (Bool-cases (is_some (find_participation user req.voting_id s.db))) [
          | inl twice ↦ rw (there, real, twice, sign_blinded_token, may_sign) tt
          | inr once ↦ elim (Result-cases (hash_token p req.token)) [
            | inr (e, failed) ↦ rw (there, real, once, failed, sign_blinded_token, may_sign) tt
            | inl (token_hash, hashed) ↦
                rw (there, real, once, hashed, sign_blinded_token, may_sign)
                  (go voting there token_hash (
                    ensure_key p.rsa p.rsa_key_size SigningKeys.voting generated req.voting_id
                      s.keys))
          ]
        ]
  ]
    where
      go :
          (voting : Voting)
          → find_voting req.voting_id s.db ≡ some voting
          → (token_hash : String)
            (k : Result SigningKeys.KeyError (KeyInfo × String) × SigningKeys.KeyStore)
          → OkSign req s (elim k.0 [
            | err e ↦ (err (Guards.key_failed e), record s { keys = k.1 })
            | ok pair ↦ issue p now req user voting token_hash pair (record s { keys = k.1 })
          ])
      go voting there token_hash (err e, keys) = tt
      go voting there token_hash (ok pair, keys) =
          issue-OkSign now req voting token_hash pair (record s { keys = keys }) real there

  refused :
      (later : ℕ) (other : String × String) (req : SignRequest) (s : VoteState)
      → req.is_practice ≡ false
      → is_some (find_voting req.voting_id s.db) ≡ true
      → is_some (find_participation user req.voting_id s.db) ≡ true
      → sign_blinded_token p later other req user s ≡ (err Guards.already_participated, s)
  unfolding sign_blinded_token may_sign
  refused later other req s real there twice =
      elim (Option-cases (find_voting req.voting_id s.db)) [
        | inl missing ↦ absurd (cc (rw missing at there))
        | inr (voting, found_it) ↦ rw (found_it, real, twice, sign_blinded_token, may_sign) refl
      ]

  -- One signature for each voter: once a voter has got a signature of a voting, not for practice, a
  -- second request of the voter for that voting, not for practice, is refused and changes nothing.
  pub sign-once :
      (now later : ℕ) (generated other : String × String) (req req' : SignRequest) (s : VoteState)
      (r : Signed)
      → (sign_blinded_token p now generated req user s).0 ≡ ok r
      → req.is_practice ≡ false
      → req'.is_practice ≡ false
      → req'.voting_id ≡ req.voting_id
      → sign_blinded_token p later other req' user (sign_blinded_token p now generated req user s).1
        ≡ (err Guards.already_participated, (sign_blinded_token p now generated req user s).1)
  sign-once now later generated other req req' s r done real real' same =
      let (there, twice, votings) =
        unwrap (sign_blinded_token p now generated req user s) done
          (sign-OkSign now generated req s real) in
      refused later other req' (sign_blinded_token p now generated req user s).1 real'
        (rw same (
          ap (λ vs. is_some (find_voting req.voting_id (record s.db { votings = vs }))) votings
          ∙ there))
        (rw same twice)
    where
      unwrap :
          (o : Result VoteError Signed × VoteState)
          → o.0 ≡ ok r
          → OkSign req s o
          → (is_some (find_voting req.voting_id s.db) ≡ true)
            × (is_some (find_participation user req.voting_id o.1.db) ≡ true)
            × (o.1.db.votings ≡ s.db.votings)
      unwrap (err e, s') e' h = absurd (cc e')
      unwrap (ok x, s') e' h = (h.0, h.1.0, h.1.1)
