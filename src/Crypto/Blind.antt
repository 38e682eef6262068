-- ===== src/Crypto/Blind.antt =====
-- Chaum's blind signatures, `CryptoUtils` (backend/src/common/utils/crypto-utils.ts): the client
-- blinds a token and unblinds the answer, the server signs what it cannot read and verifies. The
-- key parsing and the private RSA operation are Node's `crypto`, a parameter here.
use voting_secure.Base.{
  ℕ, ◌*◌, ◌/◌, ◌%◌, ◌^◌, ◌<◌, ◌≡◌, refl, sym, ap, ◌∙◌, Bool, true, Option, none, some, String,
  length, arith, ◌==◌, ==_iff, if◌then◌else◌,
}
use native.Mathlib.Nat.{mod-mod, mod-lt, mod-eq_of_lt, mul-one, mul_assoc, mul_left_comm}
use voting_secure.Base.Int.{ℤ, pos, pos_part}
use voting_secure.Crypto.Hex.{
  Hex, hex_value, to_hex, pad_start, hex_value-pad_start-to_hex, hex_value-pad_start,
  hex_value-to_hex,
}
use voting_secure.Crypto.Modular.{mod-mul_right, mul_congr, pow_congr, mul-pow, one-pow}
use voting_secure.Crypto.Power.{mod_pow, mod_pow_lem}
use voting_secure.Crypto.Euclid.{mod_inverse, mod_inverse_lem}

-- What the code calls of Node's `crypto`, keys being their PEM texts. `private_decrypt` takes and
-- returns a buffer, as its hexadecimal text, and is `none` where OpenSSL throws.
pub record Rsa : Type 0 where
  pub public_params : String → ℕ × ℕ
  pub modulus_length : String → Option ℕ
  pub private_decrypt : String → Hex → Option Hex

-- blinded = T · r^e (mod n)
unfoldable pub blind_token : (token : Hex) (r : ℕ) (modulus exponent : Hex) → Hex
blind_token token r modulus exponent =
    let n = hex_value modulus in
    let e = hex_value exponent in
    let t = hex_value token in pad_start (to_hex (t * mod_pow r e n % n)) (length modulus)

-- `none` is the thrown 'r is not invertible mod n'; the inverse is never negative.
unfoldable pub unblind : (blind_sig : Hex) (r : ℕ) (modulus : Hex) → Option Hex
unblind blind_sig r modulus =
    let n = hex_value modulus in
    elim (mod_inverse r n) [
      | none ↦ none
      | some x ↦ some (pad_start (to_hex (hex_value blind_sig * pos_part x % n)) (length modulus))
    ]

module _ (rsa : Rsa) where
  open rsa use {public_params, modulus_length, private_decrypt}

  -- The buffer has modulusLength / 8 bytes, two digits each. `none` is a thrown error.
  unfoldable pub sign_blinded : (blinded : Hex) (private_key : String) → Option Hex
  sign_blinded blinded private_key = elim (modulus_length private_key) [
    | none ↦ none
    | some bits ↦
        if bits == 0 then none else private_decrypt private_key (pad_start blinded (bits * 2 / 8))
  ]

  -- sig^e ≡ T (mod n)
  unfoldable pub verify_blind_signature : (token signature : Hex) (public_key : String) → Bool
  verify_blind_signature token signature public_key =
      let (n, e) = public_params public_key in mod_pow (hex_value signature) e n == hex_value token

  -- The two texts are one RSA key: the modulus has a length, and the private operation takes every
  -- residue to one of its e-th roots.
  pub record IsKeyPair (public_key private_key : String) : Type 0 where
    pub bits : ℕ
    pub bits_pos : 0 < bits
    pub has_length : modulus_length private_key ≡ some bits
    pub modulus-gt : 1 < (public_params public_key).0
    pub inverts :
        (c : Hex)
        → hex_value c < (public_params public_key).0
        → (s : Hex) × (private_decrypt private_key c ≡ some s)
          × (hex_value s ^ (public_params public_key).1 % (public_params public_key).0
              ≡ hex_value c)

  sign_blinded_lem :
      (public_key private_key : String) (blinded : Hex)
      → IsKeyPair public_key private_key
      → hex_value blinded < (public_params public_key).0
      → (s : Hex) × (sign_blinded blinded private_key ≡ some s)
        × (hex_value s ^ (public_params public_key).1 % (public_params public_key).0
            ≡ hex_value blinded)
  unfolding sign_blinded
  sign_blinded_lem public_key private_key blinded key h =
      let padded = pad_start blinded (key.bits * 2 / 8) in
      let (s, signed, root) = key.inverts padded (rw (hex_value-pad_start) h) in
      (
        s,
        ground (arith, key.has_length, key.bits_pos, signed),
        root ∙ hex_value-pad_start blinded _,
      )

-- The arithmetic of the round trip: `s` is an e-th root of t·r^e, and `k` undoes `r`.
unblinded_root :
    (n e t r k s : ℕ)
    → t < n
    → r * k % n ≡ 1 % n
    → s ^ e % n ≡ t * (r ^ e % n) % n
    → (s * k % n) ^ e % n ≡ t
unblinded_root n e t r k s t-lt inverse root =
    pow_congr n (s * k % n) (s * k) e (mod-mod (s * k) n)
    ∙ ap (λ (a : ℕ). a % n) (mul-pow s k e)
    ∙ mul_congr n (s ^ e) (t * r ^ e) (k ^ e) (k ^ e) (root ∙ mod-mul_right t (r ^ e) n) refl
    ∙ ap (λ (a : ℕ). a % n)
        (mul_assoc t (r ^ e) (k ^ e) ∙ ap (λ (a : ℕ). t * a) (sym (mul-pow r k e)))
    ∙ mul_congr n t t ((r * k) ^ e) 1 refl
        (pow_congr n (r * k) 1 e inverse ∙ ap (λ (a : ℕ). a % n) (one-pow e))
    ∙ ap (λ (a : ℕ). a % n) (mul-one t)
    ∙ mod-eq_of_lt t-lt

-- The number that `blindToken` writes for the published key parameters.
blind_token_value :
    (token : Hex) (r n e : ℕ)
    → 1 < n
    → hex_value (blind_token token r (to_hex n) (to_hex e)) ≡ hex_value token * (r ^ e % n) % n
unfolding blind_token
blind_token_value token r n e h =
    hex_value-pad_start-to_hex _ _
    ∙ rw (hex_value-to_hex n, hex_value-to_hex e, mod_pow_lem r e n h)

undone : (n t b u : ℕ) → b < n → t * u % n ≡ 1 % n → t * (b * u % n) % n ≡ b
undone n t b u b-lt inverse =
    mod-mul_right t (b * u) n
    ∙ ap (λ (a : ℕ). a % n) (mul_left_comm t b u)
    ∙ mul_congr n b b (t * u) 1 refl inverse
    ∙ ap (λ (a : ℕ). a % n) (mul-one b)
    ∙ mod-eq_of_lt b-lt

unblind_value :
    (s : Hex) (r n k : ℕ)
    → mod_inverse r n ≡ some (pos k)
    → unblind s r (to_hex n) ≡ some (pad_start (to_hex (hex_value s * k % n)) (length (to_hex n)))
unfolding unblind
unblind_value s r n k e = rw (hex_value-to_hex n, e, unblind) (rw (hex_value-to_hex n))

module _ (rsa : Rsa) (public_key private_key : String)
    (key : IsKeyPair rsa public_key private_key) where
  abbrev modulus : ℕ
  modulus = (rsa.public_params public_key).0

  abbrev exponent : ℕ
  exponent = (rsa.public_params public_key).1

  -- Under an RSA key pair, let a token be below the modulus and a blinding factor have an inverse. Then
  -- the server signs the blinded token, the client unblinds the answer, and the signature that this
  -- gives is accepted for the token.
  pub blind_signature_accepted :
      (token : Hex) (r : ℕ) {x : ℤ}
      → hex_value token < modulus
      → mod_inverse r modulus ≡ some x
      → (s signature : Hex) × (sign_blinded rsa
            (blind_token token r (to_hex modulus) (to_hex exponent))
            private_key
          ≡ some s)
        × (unblind s r (to_hex modulus) ≡ some signature)
        × (verify_blind_signature rsa token signature public_key ≡ true)
  unfolding verify_blind_signature
  blind_signature_accepted token r {x} t-lt e =
      let blinded = blind_token token r (to_hex modulus) (to_hex exponent) in
      let value = blind_token_value token r modulus exponent key.modulus-gt in
      let (s, signed, root) =
        sign_blinded_lem rsa public_key private_key blinded key
          (rw value (mod-lt _ (omega (arith, key.modulus-gt)))) in
      let (k, k-eq, k-lt, inverse) =
        mod_inverse_lem r modulus x (omega (arith, key.modulus-gt)) e in
      (
        s,
        pad_start (to_hex (hex_value s * k % modulus)) (length (to_hex modulus)),
        signed,
        unblind_value s r modulus k (e ∙ ap some k-eq),
        (==_iff _ _).1 (
            mod_pow_lem _ exponent modulus key.modulus-gt
            ∙ ap (λ (a : ℕ). a ^ exponent % modulus) (hex_value-pad_start-to_hex _ _)
            ∙ unblinded_root modulus exponent (hex_value token) r k (hex_value s) t-lt inverse
                (root ∙ value)),
      )

  -- Under an RSA key pair, for each message below the modulus and each token that has an inverse modulo
  -- it there is a blinding factor that blinds the token to this very message. The factor is one modulo
  -- the modulus, which may be beyond the 256 bits that the client draws from.
  pub blind_token_hides :
      (token blinded : Hex) {x : ℤ}
      → hex_value blinded < modulus
      → mod_inverse (hex_value token) modulus ≡ some x
      → (r : ℕ) × (blind_token token r (to_hex modulus) (to_hex exponent)
          ≡ pad_start (to_hex (hex_value blinded)) (length (to_hex modulus)))
  unfolding blind_token
  blind_token_hides token blinded {x} b-lt e =
      let (u, u-eq, u-lt, inverse) =
        mod_inverse_lem (hex_value token) modulus x (omega (arith, key.modulus-gt)) e in
      let c = hex_value blinded * u % modulus in
      let (s, signed, root) =
        key.inverts (to_hex c) (rw (hex_value-to_hex) (mod-lt _ (omega (arith, key.modulus-gt)))) in
      (
        hex_value s,
        rw
            (
              hex_value-to_hex modulus,
              hex_value-to_hex exponent,
              mod_pow_lem (hex_value s) exponent modulus key.modulus-gt,
              root,
              hex_value-to_hex c,
            )
            (ap (λ (a : ℕ). pad_start (to_hex a) (length (to_hex modulus)))
              (undone modulus (hex_value token) (hex_value blinded) u b-lt inverse)),
      )
