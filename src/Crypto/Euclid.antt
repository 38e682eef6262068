-- ===== src/Crypto/Euclid.antt =====
-- `CryptoUtils.egcd` and `modInverse` (backend/src/common/utils/crypto-utils.ts). The numbers that
-- the callers pass are natural; the coefficients are signed.
pub mod Gcd
use mathlib.Core.WellFounded.{Acc}
use Prim.Native.Nat.{◌∣◌}
use native.Mathlib.Nat
use native.Mathlib.Nat.{
  add-zero, mod-add-mod, add-mod_right, add-mul-mod_self_left, mod-mod, mod-lt, div-add-mod,
  mul_comm,
}
use voting_secure.Base.{
  ℕ, zero, suc, ◌+◌, ◌-◌, ◌*◌, ◌/◌, ◌%◌, ◌<◌, ◌≡◌, refl, sym, ap, ◌∙◌, Option, none, some, inl, inr,
  ◌↔◌, ◌≢◌, arith, ◌==◌, ==_iff, Bool-cases, if◌then◌else◌,
}
use voting_secure.Base.Int.{ℤ, pos, negsuc, pos_part, neg_part, ◌-ℤ◌, ◌+ℤ◌, ◌*ℤ◌, -ℤ_parts}
use voting_secure.Base.Order.{lt_wf}
use voting_secure.Crypto.Modular.{mod-mul_left, mul_congr}

egcd_loop : (a b : ℕ) → Acc ◌<◌ b → ℕ × ℤ × ℤ
egcd_loop a zero (Acc.intro _ smaller) = (a, pos 1, pos 0)
egcd_loop a (suc b) (Acc.intro _ smaller) =
    let (g, x1, y1) = egcd_loop (suc b) (a % suc b) (smaller (a % suc b) (omega arith)) in
    (g, y1, x1 -ℤ pos (a / suc b) *ℤ y1)

-- [g, x, y] with g = a·x + b·y
unfoldable pub egcd : (a b : ℕ) → ℕ × ℤ × ℤ
unfolding egcd_loop lt_wf
egcd a b = egcd_loop a b (lt_wf.apply b)

-- `%` of BigInt keeps the sign of its left side.
unfoldable pub rem_ℤ : ℤ → ℕ → ℤ
rem_ℤ (pos n) m = pos (n % m)
rem_ℤ (negsuc n) m = pos 0 -ℤ pos (suc n % m)

-- `none` is the thrown 'r is not invertible mod n'.
unfoldable pub mod_inverse : (a m : ℕ) → Option ℤ
unfolding rem_ℤ
mod_inverse a m =
    let (g, x, y) = egcd (a % m) m in if g == 1 then some (rem_ℤ (rem_ℤ x m +ℤ pos m) m) else none

egcd_runs : egcd 240 46 ≡ (2, negsuc 8, pos 47)
unfolding egcd ◌-ℤ◌ ◌*ℤ◌
egcd_runs = refl

mod_inverse_runs : mod_inverse 7 40 ≡ some (pos 23)
unfolding mod_inverse egcd ◌-ℤ◌ ◌*ℤ◌ ◌+ℤ◌
mod_inverse_runs = refl

-- g = a·x + b·y, with the negative terms on the other side.
abbrev pub IsBezout : (a b : ℕ) → ℕ × ℤ × ℤ → Type 0
IsBezout a b (g, x, y) = a * pos_part x + b * pos_part y ≡ g + a * neg_part x + b * neg_part y

pos-*ℤ_parts :
    (q : ℕ) (y : ℤ)
    → (pos_part (pos q *ℤ y) ≡ q * pos_part y) × (neg_part (pos q *ℤ y) ≡ q * neg_part y)
unfolding ◌*ℤ◌
pos-*ℤ_parts q (pos n) = ground arith
pos-*ℤ_parts q (negsuc n) = ground arith

-- One step of the recursion back: from the coefficients for (b, a % b) to those for (a, b).
IsBezout-step :
    (a b g : ℕ) (x y : ℤ)
    → IsBezout b (a % b) (g, x, y)
    → IsBezout a b (g, y, x -ℤ pos (a / b) *ℤ y)
IsBezout-step a b g x y h =
    let parts = -ℤ_parts x (pos (a / b) *ℤ y) in
    let (py, ny) = pos-*ℤ_parts (a / b) y in
    omega (
      arith,
      ap (λ (t : ℕ). b * t) parts,
      ap (λ (t : ℕ). b * t) py,
      ap (λ (t : ℕ). b * t) ny,
      ap (λ (t : ℕ). t * pos_part y) (div-add-mod a b),
      ap (λ (t : ℕ). t * neg_part y) (div-add-mod a b),
    )

egcd_loop-IsBezout : (a b : ℕ) (w : Acc ◌<◌ b) → IsBezout a b (egcd_loop a b w)
unfolding egcd_loop
egcd_loop-IsBezout a zero (Acc.intro _ smaller) = omega arith
egcd_loop-IsBezout a (suc b) (Acc.intro _ smaller) =
    let r = egcd_loop (suc b) (a % suc b) (smaller (a % suc b) (omega arith)) in
    IsBezout-step a (suc b) r.0 r.1 r.2
      (egcd_loop-IsBezout (suc b) (a % suc b) (smaller (a % suc b) (omega arith)))

egcd_loop-dvd : (a b : ℕ) (w : Acc ◌<◌ b) → ((egcd_loop a b w).0 ∣ a) × ((egcd_loop a b w).0 ∣ b)
unfolding egcd_loop
egcd_loop-dvd a zero (Acc.intro _ smaller) = (Nat.dvd_refl a, Nat.dvd-zero a)
egcd_loop-dvd a (suc b) (Acc.intro _ smaller) =
    let (left, right) = egcd_loop-dvd (suc b) (a % suc b) (smaller (a % suc b) (omega arith)) in
    ((Nat.dvd-mod_iff _ left).0 right, left)

-- `egcd` returns a common divisor of its arguments, with coefficients that combine them to it.
pub egcd_lem : (a b : ℕ) → IsBezout a b (egcd a b) × ((egcd a b).0 ∣ a) × ((egcd a b).0 ∣ b)
unfolding egcd
egcd_lem a b =
    let (left, right) = egcd_loop-dvd a b (lt_wf.apply b) in
    (egcd_loop-IsBezout a b (lt_wf.apply b), left, right)

shift_mod : (u c k : ℕ) → u % suc k ≡ ((u + c) % suc k + k * c) % suc k
shift_mod u c k =
    sym (add-mul-mod_self_left u (suc k) c)
    ∙ ap (λ (t : ℕ). t % suc k) (omega arith)
    ∙ sym (mod-add-mod (u + c) (suc k) (k * c))

-- Equal summands cancel under `%`.
pub mod_cancel : (u v c m : ℕ) → 0 < m → (u + c) % m ≡ (v + c) % m → u % m ≡ v % m
mod_cancel u v c zero h e = absurd (omega arith)
mod_cancel u v c (suc k) h e =
    shift_mod u c k ∙ ap (λ (t : ℕ). (t + k * c) % suc k) e ∙ sym (shift_mod v c k)

rem-negated : (t m : ℕ) → t < m → rem_ℤ (pos 0 -ℤ pos t +ℤ pos m) m ≡ pos ((m - t) % m)
unfolding rem_ℤ ◌+ℤ◌ ◌-ℤ◌
rem-negated zero m h = ground arith
rem-negated (suc t) m h = ground arith

pos-+ℤ : (a b : ℕ) → pos a +ℤ pos b ≡ pos (a + b)
unfolding ◌+ℤ◌
pos-+ℤ a b = ground arith

-- The two remainders bring a coefficient into the range from 0 to m - 1, keeping its class.
reduced :
    (x : ℤ) (m : ℕ)
    → 0 < m
    → (k : ℕ) × (rem_ℤ (rem_ℤ x m +ℤ pos m) m ≡ pos k)
      × (k < m)
      × ((k + neg_part x) % m ≡ pos_part x % m)
unfolding rem_ℤ
reduced (pos n) m h = (
  n % m,
  rw (pos-+ℤ (n % m) m) (ap pos (add-mod_right (n % m) m ∙ mod-mod n m)),
  mod-lt n h,
  rw add-zero (mod-mod n m),
)
reduced (negsuc n) m h = (
  (m - t) % m,
  rem-negated t m (mod-lt (suc n) h),
  mod-lt (m - t) h,
  mod-add-mod (m - t) m (suc n)
      ∙ ap (λ (k : ℕ). k % m) whole
      ∙ add-mul-mod_self_left 0 m (suc (suc n / m)),
)
  where
    t : ℕ
    t = suc n % m

    whole : m - t + suc n ≡ 0 + m * suc (suc n / m)
    whole = omega (arith, div-add-mod (suc n) m, mod-lt (suc n) h)

-- A Bezout identity with greatest common divisor 1 makes the coefficient an inverse.
IsBezout-inverse :
    (a m k : ℕ) (x y : ℤ)
    → 0 < m
    → IsBezout a m (1, x, y)
    → (k + neg_part x) % m ≡ pos_part x % m
    → a * k % m ≡ 1 % m
IsBezout-inverse a m k x y h bezout class = mod_cancel (a * k) 1 (a * neg_part x) m h (
    ap (λ (t : ℕ). t % m) (omega arith)
    ∙ mul_congr m a a _ _ refl class
    ∙ sym (add-mul-mod_self_left (a * pos_part x) m (pos_part y))
    ∙ ap (λ (t : ℕ). t % m) bezout
    ∙ add-mul-mod_self_left (1 + a * neg_part x) m (neg_part y))

-- What `modInverse` returns lies below the modulus and is an inverse modulo it.
pub mod_inverse_lem :
    (a m : ℕ) (x : ℤ)
    → 0 < m
    → mod_inverse a m ≡ some x
    → (k : ℕ) × (x ≡ pos k) × (k < m) × (a * k % m ≡ 1 % m)
unfolding mod_inverse
mod_inverse_lem a m x h e = elim (Bool-cases (r.0 == 1)) [
  | inl one ↦
      let (k, k-eq, k-lt, class) = reduced r.1 m h in
      let bezout : IsBezout (a % m) m (1, r.1, r.2) =
        omega (arith, (egcd_lem (a % m) m).0, (==_iff r.0 1).0 one) in
      (
        k,
        cc (rw one at e, k-eq),
        k-lt,
        sym (mod-mul_left a k m) ∙ IsBezout-inverse (a % m) m k r.1 r.2 h bezout class,
      )
  | inr other ↦ absurd (cc (rw other at e))
]
  where
    r : ℕ × ℤ × ℤ
    r = egcd (a % m) m

-- `modInverse` throws exactly when the two numbers have a common divisor other than 1.
pub mod_inverse-none_iff : (a m : ℕ) → (mod_inverse a m ≡ none) ↔ ((egcd (a % m) m).0 ≢ 1)
unfolding mod_inverse
mod_inverse-none_iff a m = ground arith
