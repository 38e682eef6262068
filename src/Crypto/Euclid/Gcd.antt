-- ===== src/Crypto/Euclid/Gcd.antt =====
-- `gcd` of the client (frontend/lib/security/blindSign.ts), which has its own loop beside `egcd`.
use mathlib.Core.WellFounded.{Acc}
use voting_secure.Base.{ℕ, zero, suc, ◌%◌, ◌<◌, ◌≡◌, refl, arith}
use voting_secure.Base.Order.{lt_wf}
use voting_secure.Crypto.Euclid.{egcd, egcd_loop}

-- while (b !== 0n) { [a, b] = [b, a % b]; }
gcd_loop : (a b : ℕ) → Acc ◌<◌ b → ℕ
gcd_loop a zero (Acc.intro _ smaller) = a
gcd_loop a (suc b) (Acc.intro _ smaller) =
    gcd_loop (suc b) (a % suc b) (smaller (a % suc b) (omega arith))

unfoldable pub gcd : (a b : ℕ) → ℕ
unfolding gcd_loop lt_wf
gcd a b = gcd_loop a b (lt_wf.apply b)

gcd_runs : gcd 240 46 ≡ 2
unfolding gcd
gcd_runs = refl

gcd_loop-egcd_loop : (a b : ℕ) (w : Acc ◌<◌ b) → gcd_loop a b w ≡ (egcd_loop a b w).0
unfolding gcd_loop egcd_loop
gcd_loop-egcd_loop a zero (Acc.intro _ smaller) = refl
gcd_loop-egcd_loop a (suc b) (Acc.intro _ smaller) =
    gcd_loop-egcd_loop (suc b) (a % suc b) (smaller (a % suc b) (omega arith))

-- The two loops agree.
pub gcd-egcd : (a b : ℕ) → gcd a b ≡ (egcd a b).0
unfolding gcd egcd
gcd-egcd a b = gcd_loop-egcd_loop a b (lt_wf.apply b)
