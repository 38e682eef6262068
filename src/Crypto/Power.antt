-- ===== src/Crypto/Power.antt =====
-- `CryptoUtils.modPow` (backend/src/common/utils/crypto-utils.ts): square and multiply.
use mathlib.Core.WellFounded.{Acc}
use mathlib.Core.Logic.{dite, dif_pos, dif_neg}
use native.Mathlib.Bridge.{le_prop}
use native.Mathlib.Decide.{dec_lt}
use native.Mathlib.Nat.{mod-mod, mod-eq_of_lt, mod-lt, pow-zero, mul-one, one-mul, mul_assoc}
use voting_secure.Base.{
  ℕ, ◌*◌, ◌/◌, ◌%◌, ◌^◌, ◌<◌, ◌≡◌, refl, sym, ap, ◌∙◌, inl, inr, arith, ◌==◌, ==_iff, Bool-cases,
  if◌then◌else◌,
}
use voting_secure.Base.Order.{lt_wf}
use voting_secure.Crypto.Modular.{mul_congr, pow_congr, pow-halve_even, pow-halve_odd}

-- while (exp > 0n) { if (exp & 1n) result = (result * base) % mod; base = (base * base) % mod; exp >>= 1n; }
mod_pow_loop : (result base exp m : ℕ) → Acc ◌<◌ exp → ℕ
mod_pow_loop result base exp m (Acc.intro _ smaller) =
    dite (dec_lt 0 exp)
      (λ h.
        mod_pow_loop (if exp % 2 == 1 then result * base % m else result) (base * base % m)
          (exp / 2) m (smaller (exp / 2) (omega arith)))
      (λ _. result)

unfoldable pub mod_pow : (base exp m : ℕ) → ℕ
unfolding mod_pow_loop lt_wf dec_lt
mod_pow base exp m = mod_pow_loop 1 (base % m) exp m (lt_wf.apply exp)

mod_pow_runs : mod_pow 7 560 561 ≡ 1
unfolding mod_pow
mod_pow_runs = refl

-- One round keeps result * base ^ exp, modulo `m`.
round_keeps :
    (result base exp m : ℕ)
    → (if exp % 2 == 1 then result * base % m else result) * (base * base % m) ^ (exp / 2) % m
      ≡ result * base ^ exp % m
round_keeps result base exp m = elim (Bool-cases (exp % 2 == 1)) [
  | inl odd ↦ rw odd (
      mul_congr m _ _ _ _ (mod-mod _ m) (pow_congr m _ _ (exp / 2) (mod-mod _ m))
      ∙ ap (λ (t : ℕ). t % m)
          (mul_assoc result base _
            ∙ ap (λ (t : ℕ). result * t) (sym (pow-halve_odd base exp ((==_iff _ 1).0 odd)))))
  | inr even ↦ rw even (
      mul_congr m result result _ _ refl (pow_congr m _ _ (exp / 2) (mod-mod _ m))
      ∙ ap (λ (t : ℕ). result * t % m) (sym (pow-halve_even base exp (ground (arith, even)))))
]

round-lt :
    (result base exp m : ℕ) → result < m → (if exp % 2 == 1 then result * base % m else result) < m
round-lt result base exp m h = ground (arith, mod-lt (result * base) {m = m})

mod_pow_loop_lem :
    (result base exp m : ℕ) (w : Acc ◌<◌ exp)
    → result < m
    → mod_pow_loop result base exp m w ≡ result * base ^ exp % m
unfolding mod_pow_loop
mod_pow_loop_lem result base exp m (Acc.intro _ smaller) h = elim (dec_lt 0 exp) [
  | yes p ↦ rw (dif_pos _ le_prop p) (
      mod_pow_loop_lem (if exp % 2 == 1 then result * base % m else result) (base * base % m)
        (exp / 2) m (smaller (exp / 2) (omega arith)) (round-lt result base exp m h)
      ∙ round_keeps result base exp m)
  | no p ↦
      let done : exp ≡ 0 = omega arith in
      rw (dif_neg _ p, done, pow-zero, mul-one) (sym (mod-eq_of_lt h))
]

-- `modPow` computes the power modulo `m`, whatever the base and the exponent, for a modulus above 1.
pub mod_pow_lem : (base exp m : ℕ) → 1 < m → mod_pow base exp m ≡ base ^ exp % m
unfolding mod_pow
mod_pow_lem base exp m h =
    mod_pow_loop_lem 1 (base % m) exp m (lt_wf.apply exp) h
    ∙ ap (λ (t : ℕ). t % m) (one-mul _)
    ∙ pow_congr m _ _ exp (mod-mod base m)
