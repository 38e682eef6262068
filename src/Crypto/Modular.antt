-- ===== src/Crypto/Modular.antt =====
-- Congruence of products and powers of natural numbers under `%`.
use voting_secure.Base.{ℕ, zero, suc, ◌+◌, ◌*◌, ◌/◌, ◌%◌, ◌^◌, ◌≡◌, sym, ap, ◌∙◌, arith}
use native.Mathlib.Nat.{
  add-mul-mod_self_left, div-add-mod, pow-suc, pow-zero, mul_comm, mul-one, add-zero, add-suc,
}

pub mod-mul_left : (a b n : ℕ) → (a % n) * b % n ≡ a * b % n
mod-mul_left a b n =
    sym (add-mul-mod_self_left (a % n * b) n (a / n * b)) ∙ ap (λ (t : ℕ). t % n) regrouped
  where
    regrouped : a % n * b + n * (a / n * b) ≡ a * b
    regrouped = omega (arith, ap (λ (t : ℕ). t * b) (div-add-mod a n))

pub mod-mul_right : (a b n : ℕ) → a * (b % n) % n ≡ a * b % n
mod-mul_right a b n = rw (mul_comm a (b % n), mul_comm a b) (mod-mul_left b a n)

-- Congruent factors have congruent products.
pub mul_congr : (n a a' b b' : ℕ) → a % n ≡ a' % n → b % n ≡ b' % n → a * b % n ≡ a' * b' % n
mul_congr n a a' b b' p q =
    sym (mod-mul_left a b n)
    ∙ ap (λ (t : ℕ). t * b % n) p
    ∙ mod-mul_left a' b n
    ∙ sym (mod-mul_right a' b n)
    ∙ ap (λ (t : ℕ). a' * t % n) q
    ∙ mod-mul_right a' b' n

pub pow_congr : (n a a' k : ℕ) → a % n ≡ a' % n → a ^ k % n ≡ a' ^ k % n
pow_congr n a a' zero p = simp pow-zero
pow_congr n a a' (suc k) p = simp pow-suc (mul_congr n _ _ _ _ (pow_congr n a a' k p) p)

pub mul-pow : (a b k : ℕ) → (a * b) ^ k ≡ a ^ k * b ^ k
mul-pow a b zero = simp pow-zero (omega arith)
mul-pow a b (suc k) = simp (pow-suc, mul-pow a b k) (omega arith)

pub one-pow : (k : ℕ) → 1 ^ k ≡ 1
one-pow zero = pow-zero 1
one-pow (suc k) = simp (pow-suc, one-pow k) (omega arith)

pub pow-add : (b m k : ℕ) → b ^ (m + k) ≡ b ^ m * b ^ k
pow-add b m zero = simp (pow-zero, add-zero, mul-one)
pow-add b m (suc k) = simp (add-suc, pow-suc, pow-add b m k) (omega arith)

-- Splitting off the lowest binary digit of the exponent, as square and multiply does.
pub pow-halve_even : (b e : ℕ) → e % 2 ≡ 0 → b ^ e ≡ (b * b) ^ (e / 2)
pow-halve_even b e h =
    let e-eq : e ≡ e / 2 + e / 2 = omega arith in
    ap (λ (t : ℕ). b ^ t) e-eq ∙ pow-add b (e / 2) (e / 2) ∙ sym (mul-pow b b (e / 2))

pub pow-halve_odd : (b e : ℕ) → e % 2 ≡ 1 → b ^ e ≡ b * (b * b) ^ (e / 2)
pow-halve_odd b e h =
    let e-eq : e ≡ suc (e / 2 + e / 2) = omega arith in
    ap (λ (t : ℕ). b ^ t) e-eq
    ∙ pow-suc b (e / 2 + e / 2)
    ∙ ap (λ (t : ℕ). t * b) (pow-add b (e / 2) (e / 2) ∙ sym (mul-pow b b (e / 2)))
    ∙ mul_comm _ b
