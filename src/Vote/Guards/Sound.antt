-- ===== src/Vote/Guards/Sound.antt =====
-- Whatever `vote` admits meets its conditions.
use voting_secure.Base.{
  ℕ, ◌↔◌, ◌≤◌, ◌≡◌, refl, sym, subst, ap, ◌∙◌, String, Bool, true, false, not, some, arith, Result,
  ok, err, ◌>>=◌, ◌>>◌, >>=-eq-ok, guard, guard-ok, found, found-ok, ltb, is_some, ◌||◌,
}
use voting_secure.Crypto.Blind.{verify_blind_signature}
use voting_secure.SigningKeys.{KeyStore, KeyInfo, KeyError, get_key}
use voting_secure.SigningKeys
use voting_secure.Vote.Types.{
  Voting, PendingBallot, Database, VotePlatform, find_voting, find_pending_ballot,
}
use voting_secure.Vote.Guards
use voting_secure.Vote.Guards.{
  VoteError, VoteRequest, Admitted, before, after, assert_timing, assert_answers, of_other_voting,
  hash_token, key_of, admit, trimmed_other,
}

-- The conditions: a pending ballot for the token's hash, of no other voting and not expired; a
-- signature of the token under the voting's key; a voting that is there, not finalized and open now;
-- an answer that the voting allows.
pub record IsAdmitted (p : VotePlatform) (now : ℕ) (req : VoteRequest) (db : Database)
    (keys : KeyStore) (adm : Admitted) : Type 0 where
  pub token_hashed : hash_token p req.token ≡ ok adm.token_hash
  pub pending : PendingBallot
  pub is_pending : find_pending_ballot adm.token_hash db ≡ some pending
  pub not_of_other : of_other_voting req.voting_id pending.voting_id ≡ false
  pub not_expired : now ≤ pending.expires_at
  pub key : KeyInfo
  pub has_key : get_key p.rsa p.rsa_key_size SigningKeys.voting req.voting_id keys ≡ ok key
  pub is_signed : verify_blind_signature p.rsa req.token req.signature key.public_key ≡ true
  pub has_voting : find_voting req.voting_id db ≡ some adm.voting
  pub not_finalized : adm.voting.is_finalized ≡ false
  pub started : before now adm.voting.start_at ≡ false
  pub not_ended : after now adm.voting.end_at ≡ false
  pub answers : assert_answers p db adm.voting req (is_some adm.other) ≡ ok tt
  pub same_other : adm.other ≡ trimmed_other req.other_text
  pub practice : adm.is_practice ≡ (pending.is_practice || req.is_practice)

not-true : (b : Bool) → not b ≡ true → b ≡ false
not-true true h = cc
not-true false h = refl

key_of-ok : (r : Result KeyError KeyInfo) (k : KeyInfo) → key_of r ≡ ok k → r ≡ ok k
key_of-ok (ok x) k h = cc
key_of-ok (err e) k h = cc

module _ (p : VotePlatform) (now : ℕ) (req : VoteRequest) (db : Database) (keys : KeyStore)
    (adm : Admitted) where
  -- The conditions on the voting and the answer.
  abbrev rest : String → PendingBallot → Result VoteError Admitted
  rest token_hash pending = do
    voting ← found (find_voting req.voting_id db) Guards.voting_not_found
    guard (not voting.is_finalized) Guards.voting_finalized
    assert_timing now voting
    let other = trimmed_other req.other_text
    assert_answers p db voting req (is_some other)
    ok (record {
      token_hash = token_hash;
      is_practice = pending.is_practice || req.is_practice;
      voting = voting;
      other = other;
    })

  -- What `rest` leaves open.
  abbrev Remaining : String → PendingBallot → Type 0
  Remaining token_hash pending =
      (adm.token_hash ≡ token_hash)
      × (find_voting req.voting_id db ≡ some adm.voting)
      × (adm.voting.is_finalized ≡ false)
      × (before now adm.voting.start_at ≡ false)
      × (after now adm.voting.end_at ≡ false)
      × (assert_answers p db adm.voting req (is_some adm.other) ≡ ok tt)
      × (adm.other ≡ trimmed_other req.other_text)
      × (adm.is_practice ≡ (pending.is_practice || req.is_practice))

  of_rest :
      (token_hash : String) (pending : PendingBallot)
      → rest token_hash pending ≡ ok adm
      → Remaining token_hash pending
  unfolding assert_timing
  of_rest token_hash pending h =
      let (voting, e7, h7) = >>=-eq-ok (found (find_voting req.voting_id db) _) _ h in
      let (u8, e8, h8) = >>=-eq-ok (guard (not voting.is_finalized) _) _ h7 in
      let (u9, e9, h9) = >>=-eq-ok (assert_timing now voting) _ h8 in
      let (u10, e10, h10) =
        >>=-eq-ok (assert_answers p db voting req (is_some (trimmed_other req.other_text))) _ h9 in
      last voting (found-ok _ _ e7) (not-true _ (guard-ok _ _ u8 e8)) (timing voting u9 e9) e10 h10
    where
      timing :
          (v : Voting) (u : Unit {0})
          → assert_timing now v ≡ ok u
          → (before now v.start_at ≡ false) × (after now v.end_at ≡ false)
      timing v u e =
          let (a, e1, e2) = >>=-eq-ok (guard (not (before now v.start_at)) _) _ e in
          (not-true _ (guard-ok _ _ a e1), not-true _ (guard-ok _ _ u e2))

      admitted : Voting → Admitted
      admitted v = record {
        token_hash = token_hash;
        is_practice = pending.is_practice || req.is_practice;
        voting = v;
        other = trimmed_other req.other_text;
      }

      last :
          (v : Voting)
          → find_voting req.voting_id db ≡ some v
          → v.is_finalized ≡ false
          → (before now v.start_at ≡ false) × (after now v.end_at ≡ false)
          → assert_answers p db v req (is_some (trimmed_other req.other_text)) ≡ ok tt
          → ◌≡◌ {A = Result VoteError Admitted} (ok (admitted v)) (ok adm)
          → Remaining token_hash pending
      last v f n t a e = subst Held e (refl, f, n, t.0, t.1, a, refl, refl)
        where
          Held : Result VoteError Admitted → Type 0
          Held (err x) = Unit
          Held (ok b) =
              (b.token_hash ≡ token_hash)
              × (find_voting req.voting_id db ≡ some b.voting)
              × (b.voting.is_finalized ≡ false)
              × (before now b.voting.start_at ≡ false)
              × (after now b.voting.end_at ≡ false)
              × (assert_answers p db b.voting req (is_some b.other) ≡ ok tt)
              × (b.other ≡ trimmed_other req.other_text)
              × (b.is_practice ≡ (pending.is_practice || req.is_practice))

  pub admit-IsAdmitted : admit p now req db keys ≡ ok adm → IsAdmitted p now req db keys adm
  unfolding admit
  admit-IsAdmitted h =
      let (token_hash, e1, h1) = >>=-eq-ok (hash_token p req.token) _ h in
      let (pending, e2, h2) = >>=-eq-ok (found (find_pending_ballot token_hash db) _) _ h1 in
      let (u3, e3, h3) =
        >>=-eq-ok (guard (not (of_other_voting req.voting_id pending.voting_id)) _) _ h2 in
      let (u4, e4, h4) = >>=-eq-ok (guard (not (ltb pending.expires_at now)) _) _ h3 in
      let (key, e5, h5) =
        >>=-eq-ok (key_of (get_key p.rsa p.rsa_key_size SigningKeys.voting req.voting_id keys)) _
          h4 in
      let (u6, e6, h6) =
        >>=-eq-ok (guard (verify_blind_signature p.rsa req.token req.signature key.public_key) _) _
          h5 in
      let (same, v, n, st, en, an, ot, pr) = of_rest token_hash pending h6 in
      record {
        token_hashed = e1 ∙ ap ok (sym same);
        pending = pending;
        is_pending = ap (λ (t : String). find_pending_ballot t db) same ∙ found-ok _ _ e2;
        not_of_other = not-true _ (guard-ok _ _ u3 e3);
        not_expired = unexpired pending.expires_at (not-true _ (guard-ok _ _ u4 e4));
        key = key;
        has_key = key_of-ok _ key e5;
        is_signed = guard-ok _ _ u6 e6;
        has_voting = v;
        not_finalized = n;
        started = st;
        not_ended = en;
        answers = an;
        same_other = ot;
        practice = pr;
      }
    where
      unexpired : (at : ℕ) → ltb at now ≡ false → now ≤ at
      unexpired at h' = ground (arith, h')

  admitted : IsAdmitted p now req db keys adm → admit p now req db keys ≡ ok adm
  unfolding admit assert_timing
  admitted h =
      let live : ltb h.pending.expires_at now ≡ false = ground (arith, h.not_expired) in
      simp
        (
          h.token_hashed,
          h.is_pending,
          h.not_of_other,
          live,
          h.has_key,
          h.is_signed,
          h.has_voting,
          h.not_finalized,
          h.started,
          h.not_ended,
          admit,
          assert_timing,
          sym h.practice,
          sym h.same_other,
        )
        (ap (λ (r : Result VoteError (Unit {0})). r >>= λ u. ok adm) h.answers)

  -- A request is admitted exactly if all its conditions are met: there is a pending ballot for the
  -- token's hash, of no other voting and not expired; the signature is one of the token under the
  -- voting's key; the voting is there, not finalized and open; and it allows the answer.
  pub admit-IsAdmitted_iff : (admit p now req db keys ≡ ok adm) ↔ IsAdmitted p now req db keys adm
  admit-IsAdmitted_iff = (admit-IsAdmitted, admitted)
