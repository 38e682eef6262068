-- ===== src/Vote/Protocol/Tests.antt =====
-- Ann's vote from the blinding on, under the RSA key n = 33, e = 3, d = 7 and the factor 5.
use voting_secure.Base.{◌≡◌, refl, false, some, [], ◌∷◌, ok, arith, number_text}
use voting_secure.Crypto.Hex.{Hex, hex_value, to_hex, pad_start}
use voting_secure.Crypto.Power.{mod_pow}
use voting_secure.Crypto.Blind.{blind_token, unblind}
use voting_secure.Crypto.Tests.{test_key, five_inverse}
use voting_secure.Vote.Types.{VoteState}
use voting_secure.Vote.Guards.{Admitted, admit, assert_answers}
use voting_secure.Vote.Sign.{SignRequest, Signed, sign_blinded_token}
use voting_secure.Vote.Protocol.{submitted, sign_blinded_token-admit}
use voting_secure.Vote.Tests.{test_platform, test_start, test_voting, vote_request}

abbrev blinded_request : SignRequest
blinded_request = record {
  voting_id = "v";
  token = 7 ∷ [];
  blinded = blind_token (7 ∷ []) 5 (to_hex 33) (to_hex 3);
  is_practice = false;
}

abbrev answer : Signed
answer = record { blind_sig = to_hex 8; modulus = to_hex 33; exponent = to_hex 3; key_size = 2048 }

abbrev after_signing : VoteState
after_signing =
    (sign_blinded_token test_platform 0 ("public", "private") blinded_request "ann" test_start).1

sign_blinded_token-admit_example :
    (signature : Hex) × (adm : Admitted) × (unblind (to_hex 8) 5 (to_hex 33) ≡ some signature)
    × (admit test_platform 10
          (submitted blinded_request vote_request signature)
          after_signing.db
          after_signing.keys
        ≡ ok adm)
    × (adm.voting ≡ test_voting)
    × (adm.is_practice ≡ false)
unfolding sign_blinded_token blind_token number_text mod_pow hex_value pad_start to_hex
    assert_answers
sign_blinded_token-admit_example =
    sign_blinded_token-admit test_platform 0 10 ("public", "private") blinded_request vote_request
      "ann" test_start after_signing answer test_voting "public" "private" 5 test_key (λ e. cc e)
      refl (omega arith) five_inverse refl refl (omega arith) refl refl refl refl refl
