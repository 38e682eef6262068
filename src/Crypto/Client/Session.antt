-- ===== src/Crypto/Client/Session.antt =====
-- The voter's side and the server's, from the draw of the token to the accepted signature.
use voting_secure.Base.{
  ℕ, ◌-◌, ◌*◌, ◌^◌, ◌<◌, ◌≤◌, ◌≡◌, refl, sym, ap, subst, ◌∙◌, Option-cases, String, true, List, [],
  ◌∷◌, some, ◌==◌, ==_iff, take, take-length_le, length, any, All, Bool-cases, inl, inr, arith,
}
use native.Mathlib.Nat.{mod-lt, mod-eq_of_lt}
use voting_secure.Base.Int.{ℤ}
use voting_secure.Crypto.Hex.{
  Hex, AreDigits, hex_value, to_hex, pad_start, hex_value-lt, length-to_hex, hex_value-to_hex,
  hex_value-pad_start-to_hex, length-pad_start,
}
use voting_secure.Crypto.Euclid.{egcd, mod_inverse, mod_inverse-none_iff}
use voting_secure.Crypto.Euclid.Gcd.{gcd, gcd-egcd}
use voting_secure.Crypto.Blind.{
  Rsa, IsKeyPair, blind_token, sign_blinded, verify_blind_signature, blind_signature_accepted,
}
use voting_secure.Crypto.Client.{
  byte_digits, random_big_int, factor_of, find_factor, gen_token, Prepared, prepare_blind,
  finalize_blind,
}

abbrev pub AreBytes : List ℕ → Type 0
AreBytes = All (λ b. b < 256)

digits_of_bytes : (bs : List ℕ) → AreBytes bs → AreDigits (byte_digits bs)
digits_of_bytes [] h = tt
digits_of_bytes (b ∷ bs) h = (omega (arith, h.0), (omega arith, digits_of_bytes bs h.1))

length-byte_digits : (bs : List ℕ) → length (byte_digits bs) ≡ 2 * length bs
length-byte_digits [] = refl
length-byte_digits (b ∷ bs) = omega (arith, length-byte_digits bs)

random_big_int-lt : (bs : List ℕ) → AreBytes bs → random_big_int bs < 16 ^ (2 * length bs)
unfolding random_big_int
random_big_int-lt bs h =
    rw (← length-byte_digits bs) (hex_value-lt (byte_digits bs) (digits_of_bytes bs h))

-- The token has 64 digits, which are those of the number that was drawn.
gen_token_lem :
    (bytes : List ℕ)
    → AreBytes bytes
    → length bytes ≡ 32
    → (gen_token bytes ≡ pad_start (to_hex (random_big_int bytes)) 64)
      × (length (gen_token bytes) ≡ 64)
      × (hex_value (gen_token bytes) < 16 ^ 64)
unfolding gen_token
gen_token_lem bytes h size =
    let v = random_big_int bytes in
    let small : v < 16 ^ 64 = bounded (random_big_int-lt bytes h) in
    let wide : length (pad_start (to_hex v) 64) ≡ 64 =
      length-pad_start (to_hex v) 64 (length-to_hex v 63 small) in
    let whole : take 64 (pad_start (to_hex v) 64) ≡ pad_start (to_hex v) 64 =
      take-length_le 64 (pad_start (to_hex v) 64) (omega (arith, wide)) in
    (
      whole,
      ap length whole ∙ wide,
      subst (λ (t : ℕ). t < 16 ^ 64) (sym (ap hex_value whole ∙ hex_value-pad_start-to_hex v 64))
          small,
    )
  where
    bounded : random_big_int bytes < 16 ^ (2 * length bytes) → random_big_int bytes < 16 ^ 64
    bounded b = subst (λ (t : ℕ). random_big_int bytes < 16 ^ (2 * t)) size b

above_zero : (n : ℕ) → 1 < n → 0 < n - 1
above_zero n h = omega arith

-- The loop ends if some draw gives a coprime factor, and gives such a factor.
find_factor_lem :
    (n : ℕ) (draws : List (List ℕ))
    → any (λ draw. gcd (factor_of n draw) n == 1) draws ≡ true
    → (r : ℕ) × (find_factor n draws ≡ some r) × (0 < r) × (gcd r n ≡ 1) × (1 < n → r < n)
unfolding find_factor
find_factor_lem n [] h = cc
find_factor_lem n (draw ∷ draws) h = elim (Bool-cases (gcd (factor_of n draw) n == 1)) [
  | inl good ↦ rw good (
    factor_of n draw,
    refl,
    omega arith,
    (==_iff _ 1).0 good,
    λ big. omega (arith, big, mod-lt (random_big_int draw) (above_zero n big)),
  )
  | inr bad ↦ rw bad (find_factor_lem n draws (rw bad at h))
]

coprime-mod_inverse : (r n : ℕ) → r < n → gcd r n ≡ 1 → (x : ℤ) × (mod_inverse r n ≡ some x)
coprime-mod_inverse r n below one = elim (Option-cases (mod_inverse r n)) [
  | inr (x, found_it) ↦ (x, found_it)
  | inl none_ ↦ absurd (
      (mod_inverse-none_iff r n).0 none_
        (ap (λ (t : ℕ). (egcd t n).0) (mod-eq_of_lt below) ∙ sym (gcd-egcd r n) ∙ one))
]

prepared :
    (n : ℕ) (exponent : Hex) (bytes : List ℕ) (draws : List (List ℕ)) {r : ℕ}
    → find_factor n draws ≡ some r
    → prepare_blind (to_hex n) exponent bytes draws
      ≡ some (record {
        token = gen_token bytes;
        r = r;
        blinded = blind_token (gen_token bytes) r (to_hex n) exponent;
      })
unfolding prepare_blind
prepared n exponent bytes draws {r} e = rw (hex_value-to_hex n, e, prepare_blind) refl

-- What the client asks of its generator: the bytes are bytes, the token has 32 of them, and some draw
-- of the loop gives a factor coprime to the modulus.
pub record IsDrawn (n : ℕ) (bytes : List ℕ) (draws : List (List ℕ)) : Type 0 where
  pub are_bytes : AreBytes bytes
  pub size : length bytes ≡ 32
  pub coprime : any (λ draw. gcd (factor_of n draw) n == 1) draws ≡ true

module _ (rsa : Rsa) (public_key private_key : String)
    (key : IsKeyPair rsa public_key private_key) where
  abbrev modulus : ℕ
  modulus = (rsa.public_params public_key).0

  abbrev exponent : ℕ
  exponent = (rsa.public_params public_key).1

  -- The client's loop ends and its session succeeds. Let the key pair be one RSA key with a modulus of
  -- at least 256 bits, let the token's 32 bytes be drawn, and let some draw of the loop give a factor
  -- coprime to the modulus. Then `prepareBlind` gives a token of 64 digits and a blinded message, the
  -- server signs the message, `finalizeBlind` unblinds the answer, and the server accepts the result
  -- as a signature of the token.
  pub session-verifies :
      (bytes : List ℕ) (draws : List (List ℕ))
      → 16 ^ 64 ≤ modulus
      → IsDrawn modulus bytes draws
      → (q : Prepared) × (s signature : Hex) × (prepare_blind
            (to_hex modulus)
            (to_hex exponent)
            bytes
            draws
          ≡ some q)
        × (length q.token ≡ 64)
        × (sign_blinded rsa q.blinded private_key ≡ some s)
        × (finalize_blind s q.r (to_hex modulus) ≡ some signature)
        × (verify_blind_signature rsa q.token signature public_key ≡ true)
  unfolding finalize_blind
  session-verifies bytes draws large drawn =
      let (r, found_it, positive, one, below) = find_factor_lem modulus draws drawn.coprime in
      let (same, wide, small) = gen_token_lem bytes drawn.are_bytes drawn.size in
      let (x, inverse) = coprime-mod_inverse r modulus (below key.modulus-gt) one in
      let (s, signature, signed, unblinded, accepted) =
        blind_signature_accepted rsa public_key private_key key (gen_token bytes) r
          (omega (arith, small, large)) inverse in
      (
        record {
          token = gen_token bytes;
          r = r;
          blinded = blind_token (gen_token bytes) r (to_hex modulus) (to_hex exponent);
        },
        s,
        signature,
        prepared modulus (to_hex exponent) bytes draws found_it,
        wide,
        signed,
        unblinded,
        accepted,
      )
