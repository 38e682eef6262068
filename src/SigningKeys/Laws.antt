-- ===== src/SigningKeys/Laws.antt =====
-- The key that is made once is the key that is found from then on.
use mathlib.Core.Path.{subst}
use voting_secure.Base.{
  ℕ, ◌≡◌, ◌≢◌, refl, String, Bool, true, false, Option, none, some, List, [], ◌∷◌, ◌++◌, arith,
  opt_eq, opt_eq_refl, str_eq, str_eq_refl, str_eq_iff, find?, Result, ok, err, Option-cases, inl,
  inr,
}
use voting_secure.Crypto.Blind.{Rsa}
use voting_secure.SigningKeys.{
  SigningKey, KeyStore, KeyInfo, KeyError, Entity, voting, survey, entity_id, new_row, find_key,
  to_info, ensure_key, get_key, get_private_key, private_key_env_key,
}

find?-last :
    (q : SigningKey → Bool) (rows : List SigningKey) (row : SigningKey)
    → find? q rows ≡ none
    → q row ≡ true
    → find? q (rows ++ row ∷ []) ≡ some row
find?-last q [] row h k = rw k refl
find?-last q (r ∷ rows) row h k = ground (arith, find?-last q rows row, h, k)

module _ (rsa : Rsa) (configured : Option ℕ) (entity : Entity) (id : String) where
  find_key-new :
      (rows : List SigningKey) (k : String)
      → find? (λ row. opt_eq (entity_id entity row) (some id)) rows ≡ none
      → find? (λ row. opt_eq (entity_id entity row) (some id)) (rows ++ new_row entity id k ∷ [])
        ≡ some (new_row entity id k)
  find_key-new rows k h = find?-last _ rows (new_row entity id k) h (named entity)
    where
      named : (e : Entity) → opt_eq (entity_id e (new_row e id k)) (some id) ≡ true
      named voting = opt_eq_refl (some id)
      named survey = opt_eq_refl (some id)

  -- What an answer means for later calls, if it is no error.
  abbrev IsStable : String × String → Result KeyError (KeyInfo × String) × KeyStore → Type 0
  IsStable other (err e, s) = Unit
  IsStable other (ok (info, k), s) =
      (get_key rsa configured entity id s ≡ ok info)
      × (ensure_key rsa configured entity other id s ≡ (ok (info, k), s))

  ensure_key-IsStable :
      (pair other : String × String) (s : KeyStore)
      → pair.1 ≢ ""
      → IsStable other (ensure_key rsa configured entity pair id s)
  unfolding ensure_key get_key
  ensure_key-IsStable pair other s proper = elim (Option-cases (find_key entity id s)) [
    | inl missing ↦
        let made = find_key-new s.rows pair.0 missing in
        rw (missing, ensure_key)
          (rw (made, str_eq_refl (private_key_env_key id), full, ensure_key, get_key) (refl, refl))
    | inr (row, there) ↦ rw (there, ensure_key) (kept row there (get_private_key id s) refl)
  ]
    where
      full : str_eq pair.1 "" ≡ false
      full = ground (arith, str_eq_iff pair.1 "")

      kept :
          (row : SigningKey)
          → find_key entity id s ≡ some row
          → (o : Result KeyError String) → get_private_key id s ≡ o
          → IsStable other (elim o [
            | ok k ↦ (ok (to_info rsa configured row.public_key, k), s)
            | err e ↦ (err e, s)
          ])
      kept row there (err e) h = tt
      kept row there (ok k) h = (rw (there, get_key) refl, rw (there, h, ensure_key) refl)

  -- Let ensuring a key succeed, with a pair generated whose private key is not empty. Then the public
  -- key that it gives is found from then on, and ensuring it again, whatever pair would be generated,
  -- gives the same key pair and changes nothing.
  pub ensure_key-stable :
      (pair other : String × String) (s s' : KeyStore) (info : KeyInfo) (private_key : String)
      → pair.1 ≢ ""
      → ensure_key rsa configured entity pair id s ≡ (ok (info, private_key), s')
      → (get_key rsa configured entity id s' ≡ ok info)
        × (ensure_key rsa configured entity other id s' ≡ (ok (info, private_key), s'))
  ensure_key-stable pair other s s' info private_key proper done =
      subst (IsStable other) done (ensure_key-IsStable pair other s proper)
