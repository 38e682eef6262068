-- ===== src/Base/Lists.antt =====
-- Lists measured and searched with native numbers and Boolean tests, under the library's names.
use Prim.Native.Nat.{ℕ, zero, suc, ◌+◌, ◌≤◌}
use mathlib.Core.Path.{◌≡◌, refl, ap, subst}
use mathlib.Core.Bool.{Bool, true, false, not}
use mathlib.Core.List.{List, [], ◌∷◌, ◌++◌, map}
use mathlib.Core.Option.{Option, none, some}
use native.Mathlib.Omega.{arith}
use voting_secure.Base.Tests.{if◌then◌else◌, Bool-cases}
use mathlib.Core.Logic.{inl, inr}

module _ {ℓ} {A : Type ℓ} where
  abbrev pub length : List A → ℕ
  length [] = 0
  length (x ∷ xs) = suc (length xs)

  -- `Array.prototype.filter`
  abbrev pub filter : (A → Bool) → List A → List A
  filter p [] = []
  filter p (x ∷ xs) = if p x then x ∷ filter p xs else filter p xs

  -- `Array.prototype.find`
  abbrev pub find? : (A → Bool) → List A → Option A
  find? p [] = none
  find? p (x ∷ xs) = if p x then some x else find? p xs

  -- The first elements, `slice(0, n)`.
  abbrev pub take : ℕ → List A → List A
  take zero xs = []
  take (suc n) [] = []
  take (suc n) (x ∷ xs) = x ∷ take n xs

  abbrev pub any : (A → Bool) → List A → Bool
  any p [] = false
  any p (x ∷ xs) = if p x then true else any p xs

  abbrev pub All {κ} : (A → Type κ) → List A → Type κ
  All P [] = Unit
  All P (x ∷ xs) = P x × All P xs

  -- The sum of a number over a list, `reduce((sum, o) => sum + f(o), 0)`.
  abbrev pub sum_by : (A → ℕ) → List A → ℕ
  sum_by f [] = 0
  sum_by f (x ∷ xs) = f x + sum_by f xs

  pub length-append : (xs ys : List A) → length (xs ++ ys) ≡ length xs + length ys
  length-append [] ys = omega arith
  length-append (x ∷ xs) ys = omega (arith, length-append xs ys)

  pub take-length_le : (n : ℕ) (xs : List A) → length xs ≤ n → take n xs ≡ xs
  take-length_le zero [] h = refl
  take-length_le zero (x ∷ xs) h = absurd (omega arith)
  take-length_le (suc n) [] h = refl
  take-length_le (suc n) (x ∷ xs) h = ap (x ∷◌) (take-length_le n xs (omega arith))

  pub filter-append :
      (p : A → Bool) (xs ys : List A) → filter p (xs ++ ys) ≡ filter p xs ++ filter p ys
  filter-append p [] ys = refl
  filter-append p (x ∷ xs) ys = ground (arith, filter-append p xs ys)

  pub All-map {κ μ} :
      {P : A → Type κ} {Q : A → Type μ}
      → ((x : A) → P x → Q x)
      → (xs : List A) → All P xs
      → All Q xs
  All-map f [] h = tt
  All-map f (x ∷ xs) h = (f x h.0, All-map f xs h.1)

  pub All-map2 {κ μ ν} :
      {P : A → Type κ} {Q : A → Type μ} {R : A → Type ν}
      → ((x : A) → P x → Q x → R x)
      → (xs : List A) → All P xs
      → All Q xs
      → All R xs
  All-map2 f [] h k = tt
  All-map2 f (x ∷ xs) h k = (f x h.0 k.0, All-map2 f xs h.1 k.1)

  pub All-append {κ} : (P : A → Type κ) (xs ys : List A) → All P xs → All P ys → All P (xs ++ ys)
  All-append P [] ys h k = k
  All-append P (x ∷ xs) ys h k = (h.0, All-append P xs ys h.1 k)

  pub All-filter {κ} :
      (P : A → Type κ) (q : A → Bool) (xs : List A) → All P xs → All P (filter q xs)
  All-filter P q [] h = tt
  All-filter P q (x ∷ xs) h = elim (Bool-cases (q x)) [
    | inl keep ↦ rw keep (h.0, All-filter P q xs h.1)
    | inr drop ↦ rw drop (All-filter P q xs h.1)
  ]

  pub All-unfilter {κ} :
      (P : A → Type κ) (q : A → Bool) (xs : List A)
      → All P (filter q xs)
      → All (λ x. q x ≡ true → P x) xs
  All-unfilter P q [] h = tt
  All-unfilter P q (x ∷ xs) h = elim (Bool-cases (q x)) [
    | inl keep ↦ let (here, rest) = rw keep at h in ((λ k. here), All-unfilter P q xs rest)
    | inr drop ↦ ((λ k. absurd (cc (drop, k))), All-unfilter P q xs (rw drop at h))
  ]

  pub find?-append :
      (q : A → Bool) (xs ys : List A) (x : A) → find? q xs ≡ some x → find? q (xs ++ ys) ≡ some x
  find?-append q [] ys x h = absurd (cc h)
  find?-append q (y ∷ xs) ys x h = ground (arith, find?-append q xs ys x)

  pub find?-append_new :
      (q : A → Bool) (xs : List A) (x : A)
      → find? q xs ≡ none
      → q x ≡ true
      → find? q (xs ++ x ∷ []) ≡ some x
  find?-append_new q [] x h k = rw k refl
  find?-append_new q (y ∷ xs) x h k = ground (arith, find?-append_new q xs x, h, k)

  -- What is found is in the list, and passes the test.
  pub find?-All {κ} :
      (P : A → Type κ) (q : A → Bool) (xs : List A) {x : A}
      → All P xs
      → find? q xs ≡ some x
      → P x × (q x ≡ true)
  find?-All P q [] {x} h e = cc
  find?-All P q (y ∷ xs) {x} h e = elim (Bool-cases (q y)) [
    | inl here ↦
        let e' : ◌≡◌ {A = Option A} (some y) (some x) = rw here at e in
        let same : y ≡ x = cc e' in subst (λ z. P z × (q z ≡ true)) same (h.0, here)
    | inr on ↦ find?-All P q xs h.1 (rw on at e)
  ]

  -- A filter that keeps all that the search looks for does not change it.
  pub find?-filter :
      (q r : A → Bool) (xs : List A)
      → ((x : A) → q x ≡ true → r x ≡ true)
      → find? q (filter r xs) ≡ find? q xs
  find?-filter q r [] keep = refl
  find?-filter q r (x ∷ xs) keep = ground (arith, keep x, find?-filter q r xs keep)

  pub All-filter_kept {κ} :
      (P : A → Type κ) (q : A → Bool) (xs : List A)
      → All P xs
      → All (λ x. P x × (q x ≡ true)) (filter q xs)
  All-filter_kept P q [] h = tt
  All-filter_kept P q (x ∷ xs) h = elim (Bool-cases (q x)) [
    | inl keep ↦ rw keep ((h.0, keep), All-filter_kept P q xs h.1)
    | inr drop ↦ rw drop (All-filter_kept P q xs h.1)
  ]

  pub append_nothing : (xs : List A) → xs ++ [] ≡ xs
  append_nothing [] = refl
  append_nothing (x ∷ xs) = ap (x ∷◌) (append_nothing xs)

  pub append_assoc : (xs ys zs : List A) → (xs ++ ys) ++ zs ≡ xs ++ (ys ++ zs)
  append_assoc [] ys zs = refl
  append_assoc (x ∷ xs) ys zs = ap (x ∷◌) (append_assoc xs ys zs)

  pub find?-filter_out : (q : A → Bool) (xs : List A) → find? q (filter (λ x. not (q x)) xs) ≡ none
  find?-filter_out q [] = refl
  find?-filter_out q (x ∷ xs) = elim (Bool-cases (q x)) [
    | inl same ↦ rw same (find?-filter_out q xs)
    | inr other ↦ rw other (rw other (find?-filter_out q xs))
  ]

  -- A filter finds nothing where nothing is found without it.
  pub find?-kept : (q r : A → Bool) (xs : List A) → find? q xs ≡ none → find? q (filter r xs) ≡ none
  find?-kept q r [] h = refl
  find?-kept q r (x ∷ xs) h = elim (Bool-cases (q x)) [
    | inl here ↦ absurd (cc (rw here at h))
    | inr other ↦ elim (Bool-cases (r x)) [
      | inl keep ↦ rw keep (rw other (find?-kept q r xs (rw other at h)))
      | inr drop ↦ rw drop (find?-kept q r xs (rw other at h))
    ]
  ]

module _ {ℓ κ} {A : Type ℓ} {B : Type κ} where
  pub length-map : (f : A → B) (xs : List A) → length (map f xs) ≡ length xs
  length-map f [] = refl
  length-map f (x ∷ xs) = ap suc (length-map f xs)

  pub All-of_map {μ} :
      (P : B → Type μ) (f : A → B) (xs : List A) → All (λ x. P (f x)) xs → All P (map f xs)
  All-of_map P f [] h = tt
  All-of_map P f (x ∷ xs) h = (h.0, All-of_map P f xs h.1)
