-- ===== src/Crypto/Client/Tests.antt =====
-- A session under a key with modulus 16 ^ 64 + 1 and both exponents 1, whose private operation is
-- known for each residue.
use voting_secure.Base.{ℕ, ◌+◌, ◌^◌, ◌≡◌, refl, true, List, [], ◌∷◌, some, length, arith, ◌∙◌}
use native.Mathlib.Nat.{mod-eq_of_lt, pow-suc, pow-zero, one-mul}
use voting_secure.Crypto.Hex.{Hex, hex_value, to_hex}
use voting_secure.Crypto.Euclid.Gcd.{gcd}
use voting_secure.Crypto.Blind.{Rsa, IsKeyPair, sign_blinded, verify_blind_signature}
use voting_secure.Crypto.Client.{Prepared, prepare_blind, finalize_blind, random_big_int}
use voting_secure.Crypto.Client.Session.{IsDrawn, session-verifies}

abbrev plain_rsa : Rsa
plain_rsa = record {
  public_params = λ k. (16 ^ 64 + 1, 1);
  modulus_length = λ k. some 264;
  private_decrypt = λ k c. some c;
}

pow_one : (c : ℕ) → c ^ 1 ≡ c
pow_one c = pow-suc c 0 ∙ rw pow-zero (one-mul c)

plain_key : IsKeyPair plain_rsa "public" "private"
plain_key = record {
  bits = 264;
  bits_pos = omega arith;
  has_length = refl;
  modulus-gt = omega arith;
  inverts = λ c h. (c, refl, rw (pow_one (hex_value c)) (mod-eq_of_lt h));
}

abbrev sixteen_bytes : List ℕ
sixteen_bytes =
    0 ∷ 17 ∷ 34 ∷ 51 ∷ 68 ∷ 85 ∷ 102 ∷ 119 ∷ 136 ∷ 153 ∷ 170 ∷ 187 ∷ 204 ∷ 221 ∷ 238 ∷ 255 ∷ []

abbrev token_bytes : List ℕ
token_bytes =
    0 ∷ 17 ∷ 34 ∷ 51 ∷ 68 ∷ 85 ∷ 102 ∷ 119 ∷ 136 ∷ 153 ∷ 170 ∷ 187 ∷ 204 ∷ 221 ∷ 238 ∷ 255
    ∷ sixteen_bytes

abbrev two_draws : List (List ℕ)
two_draws = (1 ∷ []) ∷ (2 ∷ []) ∷ []

drawn : IsDrawn (16 ^ 64 + 1) token_bytes two_draws
unfolding gcd random_big_int hex_value
drawn = record { are_bytes = omega arith; size = refl; coprime = refl }

session-verifies_example :
    (q : Prepared) × (s signature : Hex) × (prepare_blind
        (to_hex (16 ^ 64 + 1))
        (to_hex 1)
        token_bytes
        two_draws
      ≡ some q)
    × (length q.token ≡ 64)
    × (sign_blinded plain_rsa q.blinded "private" ≡ some s)
    × (finalize_blind s q.r (to_hex (16 ^ 64 + 1)) ≡ some signature)
    × (verify_blind_signature plain_rsa q.token signature "public" ≡ true)
session-verifies_example =
    session-verifies plain_rsa "public" "private" plain_key token_bytes two_draws (omega arith)
      drawn
