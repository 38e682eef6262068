-- ===== src/Crypto/Tests.antt =====
-- The blind signature scheme under the RSA key n = 33, e = 3, d = 7.
use voting_secure.Base.{
  ℕ, zero, suc, ◌^◌, ◌%◌, ◌<◌, ◌≡◌, refl, Bool, true, some, [], ◌∷◌, arith, length, ◌&&◌, &&_iff,
  ◌==◌, ==_iff, Bool-cases, inl, inr,
}
use voting_secure.Base.Int.{pos, ◌-ℤ◌, ◌*ℤ◌, ◌+ℤ◌}
use voting_secure.Crypto.Hex.{Hex, hex_value, to_hex, pad_start, hex_value-to_hex}
use voting_secure.Crypto.Power.{mod_pow, mod_pow_lem}
use voting_secure.Crypto.Euclid.{egcd, mod_inverse}
use voting_secure.Crypto.Blind.{
  Rsa, IsKeyPair, blind_token, unblind, sign_blinded, verify_blind_signature,
  blind_signature_accepted, blind_token_hides,
}

abbrev pub test_rsa : Rsa
test_rsa = record {
  public_params = λ k. (33, 3);
  modulus_length = λ k. some 8;
  private_decrypt = λ k c. some (to_hex (hex_value c ^ 7 % 33));
}

-- The private operation undoes the public one on each residue below `n`.
undone_below : ℕ → Bool
undone_below zero = true
undone_below (suc n) = undone_below n && (n ^ 7 % 33) ^ 3 % 33 == n

undone_at : (n k : ℕ) → undone_below n ≡ true → k < n → (k ^ 7 % 33) ^ 3 % 33 ≡ k
unfolding undone_below
undone_at zero k all h = absurd (omega arith)
undone_at (suc n) k all h =
    let (rest, here) = (&&_iff (undone_below n) ((n ^ 7 % 33) ^ 3 % 33 == n)).0 all in
    elim (Bool-cases (k == n)) [
      | inl same ↦ let e = (==_iff k n).0 same in rw e ((==_iff _ n).0 here)
      | inr other ↦ undone_at n k rest (ground (arith, other, h))
    ]

all_undone : undone_below 33 ≡ true
unfolding undone_below
all_undone = refl

pub test_key : IsKeyPair test_rsa "public" "private"
test_key = record {
  bits = 8;
  bits_pos = omega arith;
  has_length = refl;
  modulus-gt = omega arith;
  inverts = λ c h. (
    to_hex (hex_value c ^ 7 % 33),
    refl,
    rw (hex_value-to_hex (hex_value c ^ 7 % 33)) (undone_at 33 (hex_value c) all_undone h),
  );
}

-- The blinding factor 5 has the inverse 20.
pub five_inverse : mod_inverse 5 33 ≡ some (pos 20)
unfolding mod_inverse egcd ◌-ℤ◌ ◌*ℤ◌ ◌+ℤ◌
five_inverse = refl

blind_signature_accepted_example :
    (s signature : Hex) × (sign_blinded test_rsa
        (blind_token (7 ∷ []) 5 (to_hex 33) (to_hex 3))
        "private"
      ≡ some s)
    × (unblind s 5 (to_hex 33) ≡ some signature)
    × (verify_blind_signature test_rsa (7 ∷ []) signature "public" ≡ true)
unfolding hex_value
blind_signature_accepted_example =
    blind_signature_accepted test_rsa "public" "private" test_key (7 ∷ []) 5 (omega arith)
      five_inverse

blind_token_hides_example :
    (r : ℕ) × (blind_token (5 ∷ []) r (to_hex 33) (to_hex 3)
      ≡ pad_start (to_hex (hex_value (9 ∷ []))) (length (to_hex 33)))
unfolding hex_value
blind_token_hides_example =
    blind_token_hides test_rsa "public" "private" test_key (5 ∷ []) (9 ∷ []) (omega arith)
      five_inverse

mod_pow_lem_example : mod_pow 4 13 497 ≡ 4 ^ 13 % 497
mod_pow_lem_example = mod_pow_lem 4 13 497 (omega arith)
