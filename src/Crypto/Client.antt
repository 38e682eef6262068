-- ===== src/Crypto/Client.antt =====
-- The voter's side of the blind signatures (frontend/lib/security/blindSign.ts). Its modPow, egcd,
-- modInverse, blindToken and unblind are those of the backend. What the browser's generator gives is
-- an argument: the bytes of the token, and those of each draw of the loop.
pub mod Session
pub mod Tests
use voting_secure.Base.{
  ℕ, ◌+◌, ◌-◌, ◌/◌, ◌%◌, List, [], ◌∷◌, Option, none, some, ◌==◌, if◌then◌else◌, take,
}
use voting_secure.Crypto.Hex.{Hex, hex_value, to_hex, pad_start}
use voting_secure.Crypto.Blind.{blind_token, unblind}
use voting_secure.Crypto.Euclid.Gcd.{gcd}

-- b.toString(16).padStart(2, "0"), joined
abbrev pub byte_digits : List ℕ → Hex
byte_digits [] = []
byte_digits (b ∷ bs) = b / 16 ∷ b % 16 ∷ byte_digits bs

unfoldable pub random_big_int : List ℕ → ℕ
unfolding hex_value
random_big_int bytes = hex_value (byte_digits bytes)

-- (randomBigInt(32) % (n - 1)) + 1
abbrev pub factor_of : (n : ℕ) → List ℕ → ℕ
factor_of n draw = random_big_int draw % (n - 1) + 1

-- The loop ends with the first factor that is coprime to the modulus; `none` where the draws end.
unfoldable pub find_factor : (n : ℕ) → List (List ℕ) → Option ℕ
unfolding gcd random_big_int
find_factor n [] = none
find_factor n (draw ∷ draws) =
    let more = find_factor n draws in
    if gcd (factor_of n draw) n == 1 then some (factor_of n draw) else more

unfoldable pub gen_token : List ℕ → Hex
unfolding random_big_int to_hex pad_start
gen_token bytes = take 64 (pad_start (to_hex (random_big_int bytes)) 64)

pub record Prepared : Type 0 where
  pub token : Hex
  pub r : ℕ
  pub blinded : Hex

-- `r` goes through its decimal text, which gives it back.
unfoldable pub prepare_blind :
    (modulus exponent : Hex) (bytes : List ℕ) (draws : List (List ℕ)) → Option Prepared
prepare_blind modulus exponent bytes draws = elim (find_factor (hex_value modulus) draws) [
  | none ↦ none
  | some r ↦ some (record {
    token = gen_token bytes;
    r = r;
    blinded = blind_token (gen_token bytes) r modulus exponent;
  })
]

unfoldable pub finalize_blind : (blind_sig : Hex) (r : ℕ) (modulus : Hex) → Option Hex
finalize_blind blind_sig r modulus = unblind blind_sig r modulus
