-- ===== src/Vote/Sign/Issued.antt =====
-- What an issued signature leaves for the vote: the pending ballot and the key.
use voting_secure.Base.{
  ℕ, ◌≡◌, refl, subst, ◌∙◌, String, Bool, true, false, some, List, [], ◌∷◌, ◌++◌, arith, Result, ok,
  err, Result-cases, Option-cases, if◌then◌else◌, Bool-cases, inl, inr, is_some, find?, str_eq,
  str_eq_refl, ◌||◌, not, >>=-eq-ok, found, guard,
}
use voting_secure.Crypto.Hex.{Hex}
use voting_secure.Crypto.Blind.{sign_blinded}
use voting_secure.SigningKeys.{KeyStore, KeyInfo, KeyError, ensure_key}
use voting_secure.SigningKeys
use voting_secure.Vote.Types.{
  Voting, PendingBallot, Database, VoteState, VotePlatform, find_voting, find_pending_ballot,
  find_participation,
}
use voting_secure.Vote.Guards.{VoteError, hash_token}
use voting_secure.Vote.Guards
use voting_secure.Vote.Sign.{
  SignRequest, Signed, create_pending_ballot, create_participation, may_sign, pending_ballot,
  record_signature, issue, issued, sign_blinded_token,
}

-- A signature that was issued: the token's hash, the key pair that signed, the signature, and the
-- pending ballot that is found under the hash.
pub record IsIssued (p : VotePlatform) (now : ℕ) (generated : String × String) (req : SignRequest)
    (user : String) (s : VoteState) (r : Signed) (s' : VoteState) : Type 0 where
  pub token_hash : String
  pub hashed : hash_token p req.token ≡ ok token_hash
  pub info : KeyInfo
  pub private_key : String
  pub ensured :
      ensure_key p.rsa p.rsa_key_size SigningKeys.voting generated req.voting_id s.keys
      ≡ (ok (info, private_key), s'.keys)
  pub signed : sign_blinded p.rsa req.blinded private_key ≡ some r.blind_sig
  pub same_modulus : r.modulus ≡ info.modulus_hex
  pub is_pending :
      find_pending_ballot token_hash s'.db
      ≡ some (pending_ballot p now req user token_hash r.blind_sig)

find?-new :
    (q : PendingBallot → Bool) (xs : List PendingBallot) (x : PendingBallot)
    → is_some (find? q xs) ≡ false
    → q x ≡ true
    → find? q (xs ++ x ∷ []) ≡ some x
find?-new q [] x free h = rw h refl
find?-new q (y ∷ xs) x free h = ground (arith, find?-new q xs x, free, h)

module _ (p : VotePlatform) (now : ℕ) (generated : String × String) (req : SignRequest)
    (user : String) where
  abbrev OkPending : (token_hash : String) → Hex → Result VoteError (Unit {0}) × Database → Type 0
  OkPending token_hash sig (err e, db) = Unit
  OkPending token_hash sig (ok u, db) =
      find_pending_ballot token_hash db ≡ some (pending_ballot p now req user token_hash sig)

  OkPending-if :
      (token_hash : String) (sig : Hex) (b : Bool) (x y : Result VoteError (Unit {0}) × Database)
      → OkPending token_hash sig x
      → OkPending token_hash sig y
      → OkPending token_hash sig (if b then x else y)
  OkPending-if token_hash sig true x y hx hy = hx
  OkPending-if token_hash sig false x y hx hy = hy

  record_signature-OkPending :
      (token_hash : String) (sig : Hex) (db : Database)
      → OkPending token_hash sig (record_signature p now req user token_hash sig db)
  unfolding record_signature create_pending_ballot create_participation
  record_signature-OkPending token_hash sig db =
      elim (Bool-cases (is_some (find_pending_ballot token_hash db))) [
        | inl taken ↦ rw (taken, record_signature) tt
        | inr free ↦
            let made =
              find?-new (λ b. str_eq b.token_hash token_hash) db.pending_ballots
                (pending_ballot p now req user token_hash sig) free (str_eq_refl token_hash) in
            rw (free, record_signature)
              (OkPending-if token_hash sig req.is_practice _ _ made
                (elim (Bool-cases (is_some (find_participation user req.voting_id db))) [
                  | inl twice ↦ rw twice tt
                  | inr once ↦ rw once made
                ]))
      ]

  abbrev OkIssued : VoteState → Result VoteError Signed × VoteState → Type 0
  OkIssued s (err e, s') = Unit
  OkIssued s (ok r, s') = IsIssued p now generated req user s r s'

  issue-OkIssued :
      (voting : Voting) (token_hash : String) (info : KeyInfo) (private_key : String)
      (s : VoteState) (keys : KeyStore)
      → hash_token p req.token ≡ ok token_hash
      → ensure_key p.rsa p.rsa_key_size SigningKeys.voting generated req.voting_id s.keys
        ≡ (ok (info, private_key), keys)
      → OkIssued s
          (issue p now req user voting token_hash (info, private_key) (record s { keys = keys }))
  unfolding issue
  issue-OkIssued voting token_hash info private_key s keys hashed ensured =
      elim (Option-cases (sign_blinded p.rsa req.blinded private_key)) [
        | inl failed ↦ rw (failed, issue) tt
        | inr (sig, signed) ↦
            rw (signed, issue)
              (go sig signed (record_signature p now req user token_hash sig s.db)
                (record_signature-OkPending token_hash sig s.db))
      ]
    where
      go :
          (sig : Hex)
          → sign_blinded p.rsa req.blinded private_key ≡ some sig
          → (o : Result VoteError (Unit {0}) × Database) → OkPending token_hash sig o
          → OkIssued s
              (issued p now req user voting token_hash info sig (record s { keys = keys }) o)
      go sig signed (err e, db) h = tt
      go sig signed (ok u, db) h = record {
        token_hash = token_hash;
        hashed = hashed;
        info = info;
        private_key = private_key;
        ensured = ensured;
        signed = signed;
        same_modulus = refl;
        is_pending = h;
      }

  sign-OkIssued : (s : VoteState) → OkIssued s (sign_blinded_token p now generated req user s)
  unfolding sign_blinded_token may_sign
  sign-OkIssued s = elim (Result-cases (may_sign p req user s.db)) [
    | inr (e, failed) ↦ rw (failed, sign_blinded_token) tt
    | inl ((voting, token_hash), may) ↦
        rw (may, sign_blinded_token)
          (go voting token_hash (may_sign-hashed voting token_hash s.db may) _ refl)
  ]
    where
      may_sign-hashed :
          (voting : Voting) (token_hash : String) (db : Database)
          → may_sign p req user db ≡ ok (voting, token_hash)
          → hash_token p req.token ≡ ok token_hash
      may_sign-hashed voting token_hash db h =
          let (v, e1, h1) = >>=-eq-ok (found (find_voting req.voting_id db) _) _ h in
          let (u, e2, h2) =
            >>=-eq-ok
              (guard (req.is_practice || not (is_some (find_participation user req.voting_id db)))
                _)
              _ h1 in
          let (t, e3, h3) = >>=-eq-ok (hash_token p req.token) _ h2 in e3 ∙ cc

      go :
          (voting : Voting) (token_hash : String)
          → hash_token p req.token ≡ ok token_hash
          → (k : Result KeyError (KeyInfo × String) × KeyStore)
          → ensure_key p.rsa p.rsa_key_size SigningKeys.voting generated req.voting_id s.keys ≡ k
          → OkIssued s (elim k.0 [
            | err e ↦ (err (Guards.key_failed e), record s { keys = k.1 })
            | ok pair ↦ issue p now req user voting token_hash pair (record s { keys = k.1 })
          ])
      go voting token_hash hashed (err e, keys) h = tt
      go voting token_hash hashed (ok (info, private_key), keys) h =
          issue-OkIssued voting token_hash info private_key s keys hashed h

  pub sign-IsIssued :
      (s s' : VoteState) (r : Signed)
      → sign_blinded_token p now generated req user s ≡ (ok r, s')
      → IsIssued p now generated req user s r s'
  sign-IsIssued s s' r done = subst (OkIssued s) done (sign-OkIssued s)
