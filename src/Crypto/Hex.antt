-- ===== src/Crypto/Hex.antt =====
-- Hexadecimal texts of crypto-utils.ts: `BigInt("0x" + h)`, `n.toString(16)` and `padStart(w, '0')`.
-- A text of hexadecimal digits is the list of its digits' values, most significant first.
use native.Mathlib.Nat.{mul-le-mul_right, pow-succ'}
use voting_secure.Base.{
  ℕ, zero, suc, ◌+◌, ◌-◌, ◌*◌, ◌/◌, ◌%◌, ◌<◌, ◌≡◌, refl, List, [], ◌∷◌, sym, ap, ◌∙◌, inl, inr,
  arith, ltb, ltb→lt, lt→ltb, ◌^◌, ◌≤◌, All, Bool-cases, if◌then◌else◌, length,
}

abbrev pub Hex : Type 0
Hex = List ℕ

-- The value of the digits read from the left, after those that gave `acc`.
abbrev pub value_from : ℕ → Hex → ℕ
value_from acc [] = acc
value_from acc (d ∷ h) = value_from (acc * 16 + d) h

-- BigInt(`0x${h}`), which throws for an empty text; here that is 0.
unfoldable pub hex_value : Hex → ℕ
hex_value = value_from 0

-- The digits of `n` before those of `rest`.
abbrev digits_onto : ℕ → ℕ → Hex → Hex
digits_onto zero n rest = rest
digits_onto (suc fuel) n rest =
    let more = digits_onto fuel (n / 16) (n % 16 ∷ rest) in if ltb n 16 then n ∷ rest else more

-- `n.toString(16)`: each division by 16 lowers a number, so `suc n` rounds reach the first digit.
unfoldable pub to_hex : ℕ → Hex
to_hex n = digits_onto (suc n) n []

abbrev zeros : ℕ → Hex → Hex
zeros zero h = h
zeros (suc k) h = 0 ∷ zeros k h

-- `h.padStart(width, '0')`
unfoldable pub pad_start : Hex → ℕ → Hex
pad_start h width = zeros (width - length h) h

to_hex_runs : to_hex 4011 ≡ 15 ∷ 10 ∷ 11 ∷ []
unfolding to_hex
to_hex_runs = refl

value_from-onto :
    (fuel n : ℕ) (rest : Hex)
    → n < fuel
    → value_from 0 (digits_onto fuel n rest) ≡ value_from n rest
value_from-onto zero n rest h = absurd (omega arith)
value_from-onto (suc fuel) n rest h = elim (Bool-cases (ltb n 16)) [
  | inl small ↦ rw small (ap (λ (t : ℕ). value_from t rest) (omega arith))
  | inr large ↦ rw large (
      value_from-onto fuel (n / 16) (n % 16 ∷ rest) (ground (arith, large))
      ∙ ap (λ (t : ℕ). value_from t rest) (omega arith))
]

value_from-zeros : (k : ℕ) (h : Hex) → value_from 0 (zeros k h) ≡ value_from 0 h
value_from-zeros zero h = refl
value_from-zeros (suc k) h = value_from-zeros k h

-- Reading back a number that was printed and padded to any width gives the number.
pub hex_value-pad_start-to_hex : (n width : ℕ) → hex_value (pad_start (to_hex n) width) ≡ n
unfolding hex_value pad_start to_hex
hex_value-pad_start-to_hex n width =
    value_from-zeros (width - length (to_hex n)) (to_hex n)
    ∙ value_from-onto (suc n) n [] (omega arith)

length-zeros : (k : ℕ) (h : Hex) → length (zeros k h) ≡ k + length h
length-zeros zero h = omega arith
length-zeros (suc k) h = omega (arith, length-zeros k h)

pub length-pad_start : (h : Hex) (width : ℕ) → length h ≤ width → length (pad_start h width) ≡ width
unfolding pad_start
length-pad_start h width le = omega (arith, length-zeros (width - length h) h, le)

-- Padding with zeros leaves the value alone.
pub hex_value-pad_start : (h : Hex) (width : ℕ) → hex_value (pad_start h width) ≡ hex_value h
unfolding hex_value pad_start
hex_value-pad_start h width = value_from-zeros (width - length h) h

pub hex_value-to_hex : (n : ℕ) → hex_value (to_hex n) ≡ n
hex_value-to_hex n = sym (hex_value-pad_start (to_hex n) 0) ∙ hex_value-pad_start-to_hex n 0

abbrev pub AreDigits : Hex → Type 0
AreDigits = All (λ d. d < 16)

digits_onto-AreDigits :
    (fuel n : ℕ) (rest : Hex) → n < fuel → AreDigits rest → AreDigits (digits_onto fuel n rest)
digits_onto-AreDigits zero n rest h k = absurd (omega arith)
digits_onto-AreDigits (suc fuel) n rest h k = elim (Bool-cases (ltb n 16)) [
  | inl small ↦ rw small (ltb→lt n 16 small, k)
  | inr large ↦
      rw large (
        digits_onto-AreDigits fuel (n / 16) (n % 16 ∷ rest) (ground (arith, large))
          (omega arith, k))
]

sixteen_times : (k : ℕ) → 16 ^ suc k ≡ 16 * 16 ^ k
sixteen_times k = pow-succ' 16 k

shorter : (n t : ℕ) → n < 16 * t → n / 16 < t
shorter n t h = omega arith

-- A number below 16 ^ k has at most k digits.
length-digits_onto :
    (fuel n k : ℕ) (rest : Hex)
    → n < fuel
    → n < 16 ^ suc k
    → length (digits_onto fuel n rest) ≤ suc k + length rest
length-digits_onto zero n k rest h b = absurd (omega arith)
length-digits_onto (suc fuel) n zero rest h b = rw (lt→ltb n 16 (omega arith)) (omega arith)
length-digits_onto (suc fuel) n (suc k) rest h b = elim (Bool-cases (ltb n 16)) [
  | inl small ↦ rw small (omega arith)
  | inr large ↦ rw large (
      omega (
        arith,
        length-digits_onto fuel (n / 16) k (n % 16 ∷ rest) (ground (arith, large))
            (shorter n (16 ^ suc k) (omega (arith, b, sixteen_times (suc k)))),
      ))
]

pub length-to_hex : (n k : ℕ) → n < 16 ^ suc k → length (to_hex n) ≤ suc k
unfolding to_hex
length-to_hex n k b = omega (arith, length-digits_onto (suc n) n k [] (omega arith) b)

at_most : (acc d : ℕ) → d < 16 → acc * 16 + d + 1 ≤ (acc + 1) * 16
at_most acc d h = omega arith

-- Digits make a number below 16 to their count.
value_from-lt : (acc : ℕ) (h : Hex) → AreDigits h → value_from acc h < (acc + 1) * 16 ^ length h
value_from-lt acc [] k = omega arith
value_from-lt acc (d ∷ h) k = omega (
  arith,
  value_from-lt (acc * 16 + d) h k.1,
  ap (λ (t : ℕ). (acc + 1) * t) (sixteen_times (length h)),
  mul-le-mul_right (16 ^ length h) (at_most acc d k.0),
)

pub hex_value-lt : (h : Hex) → AreDigits h → hex_value h < 16 ^ length h
unfolding hex_value
hex_value-lt h k = omega (arith, value_from-lt 0 h k)
