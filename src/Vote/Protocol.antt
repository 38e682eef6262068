-- ===== src/Vote/Protocol.antt =====
-- The whole protocol (backend/src/votings/vote.service.ts and the client's part of
-- backend/src/common/utils/crypto-utils.ts): a token is blinded, signed, unblinded and voted with.
pub mod Tests
use voting_secure.Base.{
  ℕ, ◌+◌, ◌<◌, ◌≤◌, ◌≡◌, ◌≢◌, refl, sym, subst, ap, ◌∙◌, String, Bool, true, false, Option, none,
  some, arith, Result, ok, err, is_some, str_eq, str_eq_refl, ◌||◌, Bool-cases, inl, inr,
}
use voting_secure.Base.Int.{ℤ}
use voting_secure.Crypto.Hex.{Hex, hex_value, to_hex}
use voting_secure.Crypto.Blind.{
  IsKeyPair, blind_token, unblind, blind_signature_accepted, sign_blinded, verify_blind_signature,
}
use voting_secure.Crypto.Euclid.{mod_inverse}
use voting_secure.SigningKeys.{KeyStore, KeyInfo, KeyError, ensure_key, to_info, get_key}
use voting_secure.SigningKeys
use voting_secure.SigningKeys.Laws.{ensure_key-stable}
use voting_secure.Vote.Types.{Voting, PendingBallot, VoteState, VotePlatform, find_voting}
use voting_secure.Vote.Guards.{
  VoteRequest, Admitted, admit, before, after, assert_answers, trimmed_other, of_other_voting,
}
use voting_secure.Vote.Guards.Sound.{admit-IsAdmitted_iff}
use voting_secure.Vote.Sign.{SignRequest, Signed, hour, sign_blinded_token}
use voting_secure.Vote.Sign.Issued.{sign-IsIssued}

of_other_voting_self : (id : String) → of_other_voting id (some id) ≡ false
of_other_voting_self id = elim (Bool-cases (str_eq id "")) [
  | inl empty ↦ rw (empty, of_other_voting) refl
  | inr full ↦ rw (full, str_eq_refl id, of_other_voting) refl
]

-- The vote that the client sends with the unblinded signature.
abbrev pub submitted : SignRequest → VoteRequest → Hex → VoteRequest
submitted req ballot signature = record ballot {
  voting_id = req.voting_id;
  token = req.token;
  signature = signature;
}

module _ (p : VotePlatform) (now later : ℕ) (generated : String × String) (req : SignRequest)
    (ballot : VoteRequest) (user : String) (s s' : VoteState) (r : Signed) (voting : Voting)
    (public_key private_key : String) (factor : ℕ) {x : ℤ} where
  -- The protocol leads to a vote. Let a token below the modulus be blinded by a factor that has an
  -- inverse, and let `signBlindedToken` sign it under the voting's key pair, which is one RSA key,
  -- the private key that Node generates not being empty. Then the client can unblind the signature
  -- and, until the hour is over, `vote` admits the token with the unblinded signature to the voting,
  -- if that is not finalized and open and allows the answer; as practice if either request says so.
  pub sign_blinded_token-admit :
      IsKeyPair p.rsa public_key private_key
      → generated.1 ≢ ""
      → ensure_key p.rsa p.rsa_key_size SigningKeys.voting generated req.voting_id s.keys
        ≡ (ok (to_info p.rsa p.rsa_key_size public_key, private_key), s'.keys)
      → hex_value req.token < (p.rsa.public_params public_key).0
      → mod_inverse factor (p.rsa.public_params public_key).0 ≡ some x
      → req.blinded
        ≡ blind_token req.token factor
            (to_hex (p.rsa.public_params public_key).0)
            (to_hex (p.rsa.public_params public_key).1)
      → sign_blinded_token p now generated req user s ≡ (ok r, s')
      → later ≤ now + hour
      → find_voting req.voting_id s'.db ≡ some voting
      → voting.is_finalized ≡ false
      → before later voting.start_at ≡ false
      → after later voting.end_at ≡ false
      → assert_answers p s'.db voting ballot (is_some (trimmed_other ballot.other_text)) ≡ ok tt
      → (signature : Hex) × (adm : Admitted) × (unblind r.blind_sig factor r.modulus
          ≡ some signature)
        × (admit p later (submitted req ballot signature) s'.db s'.keys ≡ ok adm)
        × (adm.voting ≡ voting)
        × (adm.is_practice ≡ (req.is_practice || ballot.is_practice))
  unfolding assert_answers
  sign_blinded_token-admit key proper ensured token-lt inverse blinded done in_time there open_yet
        started not_ended answers =
      let i = sign-IsIssued p now generated req user s s' r done in
      let same : (i.info ≡ to_info p.rsa p.rsa_key_size public_key)
          × (i.private_key ≡ private_key) =
        (cc (i.ensured, ensured), cc (i.ensured, ensured)) in
      let (sig, signature, signed, unblinded, accepted) =
        blind_signature_accepted p.rsa public_key private_key key req.token factor token-lt
          inverse in
      let same_sig : r.blind_sig ≡ sig = cc (i.signed, signed, same.1, blinded) in
      let adm : Admitted = record {
        token_hash = i.token_hash;
        is_practice = req.is_practice || ballot.is_practice;
        voting = voting;
        other = trimmed_other ballot.other_text;
      } in
      (
        signature,
        adm,
        rw (same_sig, i.same_modulus, same.0) unblinded,
        (admit-IsAdmitted_iff p later (submitted req ballot signature) s'.db s'.keys adm).1
            (record {
              token_hashed = i.hashed;
              pending = _;
              is_pending = i.is_pending;
              not_of_other = of_other_voting_self req.voting_id;
              not_expired = in_time;
              key = _;
              has_key =
                  (ensure_key-stable p.rsa p.rsa_key_size SigningKeys.voting req.voting_id generated
                    generated s.keys s'.keys _ private_key proper ensured).0;
              is_signed = accepted;
              has_voting = there;
              not_finalized = open_yet;
              started = started;
              not_ended = not_ended;
              answers = answers;
              same_other = refl;
              practice = refl;
            }),
        refl,
        refl,
      )
