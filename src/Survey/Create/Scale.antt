-- ===== src/Survey/Create/Scale.antt =====
-- The loop that makes the options of a scale (backend/src/surveys/surveys.service.ts, create).
use voting_secure.Base.{
  ℕ, zero, suc, ◌+◌, ◌-◌, ◌/◌, ◌<◌, ◌≤◌, ltb, true, false, List, [], ◌∷◌, ◌≡◌, refl, ap, ◌∙◌,
  Bool-cases, inl, inr, arith,
}
use native.Mathlib.Nat.{div-eq_of_lt, div-eq-sub-div}
use voting_secure.Base.Int.{ℤ, pos, pos_part, neg_part, ◌+ℤ◌, +ℤ_parts, ltb_ℤ}
use voting_secure.Survey.Create.{scale_loop, distance}

-- The first `n` numbers from `i` on, `step` apart.
abbrev pub ticks : (n : ℕ) (i : ℤ) (step : ℕ) → List ℤ
ticks zero i step = []
ticks (suc n) i step = i ∷ ticks n (i +ℤ pos step) step

scale_loop-past :
    (fuel : ℕ) (i max : ℤ) (step : ℕ) → ltb_ℤ max i ≡ true → scale_loop fuel i max step ≡ []
unfolding scale_loop
scale_loop-past zero i max step past = refl
scale_loop-past (suc fuel) i max step past = rw past refl

scale_loop-from :
    (fuel d : ℕ) (i max : ℤ) (step : ℕ)
    → 0 < step
    → pos_part max + neg_part i ≡ d + (pos_part i + neg_part max)
    → suc d < fuel
    → scale_loop fuel i max step ≡ ticks (suc (d / step)) i step
unfolding scale_loop
scale_loop-from zero d i max step h e more = absurd (omega (arith, more))
scale_loop-from (suc fuel) d i max step h e more =
    let not_past : ltb_ℤ max i ≡ false = ground (arith, e) in
    rw not_past (
      ap (λ (r : List ℤ). i ∷ r)
        (elim (Bool-cases (ltb d step)) [
          | inl small ↦
              let under : d < step = ground (arith, small) in
              let past : ltb_ℤ max (i +ℤ pos step) ≡ true =
                ground (arith, +ℤ_parts i (pos step), e, under) in
              rw (div-eq_of_lt under) (scale_loop-past fuel (i +ℤ pos step) max step past)
          | inr large ↦
              let over : step ≤ d = ground (arith, large) in
              let next =
                scale_loop-from fuel (d - step) (i +ℤ pos step) max step h
                  (omega (arith, +ℤ_parts i (pos step), e, over)) (omega (arith, more, h, over)) in
              let count : suc ((d - step) / step) ≡ d / step =
                omega (arith, div-eq-sub-div h over) in
              next ∙ ap (λ (n : ℕ). ticks n (i +ℤ pos step) step) count
        ]))

-- Let a step be at least 1 and a least number not be above the greatest. Then the loop ends: however
-- many more rounds it is given, it lists the least number and all that are a multiple of the step
-- above it and not above the greatest, which are their distance divided by the step, and one.
pub scale_loop-ticks :
    (more : ℕ) (min max : ℤ) (step : ℕ)
    → 0 < step
    → ltb_ℤ max min ≡ false
    → scale_loop (suc (suc (distance min max)) + more) min max step
      ≡ ticks (suc (distance min max / step)) min step
scale_loop-ticks more min max step h ordered =
    scale_loop-from (suc (suc (distance min max)) + more) (distance min max) min max step h
      (ground (arith, ordered)) (omega arith)
