-- ===== src/Vote/Guards/Allowed.antt =====
-- The answers that a voting allows (backend/src/votings/vote.service.ts, assertOptionIds,
-- assertChoiceCount and the tests before them), with limits as inequalities.
use voting_secure.Base.{
  ℕ, ◌+◌, ◌<◌, ◌≤◌, ◌≡◌, ◌↔◌, ◌⊎◌, inl, inr, refl, arith, String, Bool, true, false, not, ◌&&◌,
  ◌||◌, Option, none, some, List, [], ◌∷◌, All, any, filter, length, str_eq, str_eq_iff, ltb, ◌==◌,
  if◌then◌else◌, Bool-cases, ok, guard, guard-ok, >>=-eq-ok,
}
use voting_secure.Vote.Types.{
  VotingType, single_choice, multiple_choice, Voting, VotingOption, Database, VotePlatform,
}
use voting_secure.Vote.Guards.{
  VoteRequest, assert_answers, assert_chosen, other_not_allowed, nothing_selected,
  conflicting_abstention, multiple_not_allowed, too_few, assert_option_ids, assert_choice_count,
  has_option, is_single, exceeds,
}

abbrev pub NoLess : Option ℕ → ℕ → Type 0
NoLess none n = Unit
NoLess (some m) n = m ≤ n

abbrev pub NoMore : Option ℕ → ℕ → Type 0
NoMore none n = Unit
NoMore (some m) n = n ≤ m

-- One of the options has the id and belongs to the voting.
abbrev pub IsOption : String → String → List VotingOption → Type 0
IsOption voting_id id [] = ⊥
IsOption voting_id id (o ∷ os) =
    ((o.voting_id ≡ voting_id) × (o.id ≡ id)) ⊎ IsOption voting_id id os

-- What a choice of options has to meet.
pub record IsChoice (db : Database) (v : Voting) (ids : List String) (has_other : Bool)
    : Type 0 where
  pub exist : All (λ id. IsOption v.id id db.options) ids
  pub single : v.type ≡ single_choice → length ids + (if has_other then 1 else 0) ≤ 1
  pub least : has_other ≡ false → v.min_choices ≤ length ids
  pub most : NoMore v.max_choices (length ids + (if has_other then 1 else 0))

-- The answers that a voting allows: a free answer only where the voting allows it; something, and
-- nothing else with an abstention; and where options are chosen, a choice as above.
pub record IsAllowed (db : Database) (v : Voting) (req : VoteRequest) (has_other : Bool)
    : Type 0 where
  pub other_allowed : has_other ≡ true → v.allow_other ≡ true
  pub something : (0 < length req.option_ids) ⊎ ((has_other ≡ true) ⊎ (req.is_abstention ≡ true))
  pub alone : req.is_abstention ≡ true → (length req.option_ids ≡ 0) × (has_other ≡ false)
  pub choice : 0 < length req.option_ids → IsChoice db v req.option_ids has_other

exceeds-NoMore : (n : ℕ) (m : Option ℕ) → (exceeds n m ≡ false) ↔ NoMore m n
exceeds-NoMore n none = ((λ h. tt), λ h. refl)
exceeds-NoMore n (some m) = ground arith

module _ (voting_id id : String) where
  any-IsOption :
      (os : List VotingOption)
      → any (λ o. str_eq o.voting_id voting_id && str_eq o.id id) os ≡ true
      → IsOption voting_id id os
  any-IsOption [] h = absurd (cc h)
  any-IsOption (o ∷ os) h = elim (Bool-cases (str_eq o.voting_id voting_id)) [
    | inr other ↦ inr (any-IsOption os (rw other at h))
    | inl its ↦ elim (Bool-cases (str_eq o.id id)) [
      | inl named ↦ inl ((str_eq_iff _ _).0 its, (str_eq_iff _ _).0 named)
      | inr other ↦ inr (any-IsOption os (rw (its, other) at h))
    ]
  ]

  IsOption-any :
      (os : List VotingOption)
      → IsOption voting_id id os
      → any (λ o. str_eq o.voting_id voting_id && str_eq o.id id) os ≡ true
  IsOption-any [] h = absurd h
  IsOption-any (o ∷ os) (inl (its, named)) =
      rw ((str_eq_iff _ _).1 its, (str_eq_iff _ _).1 named) refl
  IsOption-any (o ∷ os) (inr h) =
      elim (Bool-cases (str_eq o.voting_id voting_id && str_eq o.id id)) [
        | inl here ↦ rw here refl
        | inr other ↦ rw other (IsOption-any os h)
      ]

module _ (db : Database) (v : Voting) where
  all_valid :
      (ids : List String)
      → filter (λ id. not (has_option db v.id id)) ids ≡ []
      → All (λ id. IsOption v.id id db.options) ids
  all_valid [] h = tt
  all_valid (id ∷ ids) h = elim (Bool-cases (has_option db v.id id)) [
    | inl there ↦ (any-IsOption v.id id db.options there, all_valid ids (rw there at h))
    | inr missing ↦ absurd (cc (rw missing at h))
  ]

  none_invalid :
      (ids : List String)
      → All (λ id. IsOption v.id id db.options) ids
      → filter (λ id. not (has_option db v.id id)) ids ≡ []
  none_invalid [] h = refl
  none_invalid (id ∷ ids) h = rw (IsOption-any v.id id db.options h.0) (none_invalid ids h.1)

  ids-valid :
      (ids : List String) (u : Unit {0})
      → assert_option_ids db v.id ids ≡ ok u
      → filter (λ id. not (has_option db v.id id)) ids ≡ []
  unfolding assert_option_ids
  ids-valid ids u h = of_invalid (filter (λ id. not (has_option db v.id id)) ids) refl
    where
      of_invalid :
          (invalid : List String)
          → filter (λ id. not (has_option db v.id id)) ids ≡ invalid
          → filter (λ id. not (has_option db v.id id)) ids ≡ []
      of_invalid [] e = e
      of_invalid (id ∷ more) e = absurd (cc (rw (e, assert_option_ids) at h))

  not-single :
      (t : VotingType) (n : ℕ) → not (is_single t && ltb 1 n) ≡ true → t ≡ single_choice → n ≤ 1
  not-single single_choice n h e = ground (arith, h)
  not-single multiple_choice n h e = absurd (cc e)

  single-not :
      (t : VotingType) (n : ℕ) → (t ≡ single_choice → n ≤ 1) → not (is_single t && ltb 1 n) ≡ true
  single-not single_choice n h = let le = h refl in ground (arith, le)
  single-not multiple_choice n h = refl

  chosen-IsChoice :
      (id : String) (ids : List String) (has_other : Bool) (u : Unit {0})
      → assert_chosen db v (id ∷ ids) has_other ≡ ok u
      → IsChoice db v (id ∷ ids) has_other
  unfolding assert_chosen assert_choice_count
  chosen-IsChoice id ids has_other u h =
      let (a, e1, h1) = >>=-eq-ok (assert_option_ids db v.id (id ∷ ids)) _ h in
      let (b, e2, h2) =
        >>=-eq-ok (guard (not (is_single v.type && ltb 1 (chosen + other))) multiple_not_allowed) _
          h1 in
      let (c, e3, h3) =
        >>=-eq-ok (guard (not (ltb 0 chosen && ltb chosen v.min_choices && not has_other)) too_few)
          _ h2 in
      record {
        exist = all_valid (id ∷ ids) (ids-valid (id ∷ ids) a e1);
        single = not-single v.type _ (guard-ok _ _ b e2);
        least = λ alone. enough has_other alone chosen (omega arith) (guard-ok _ _ c e3);
        most = (exceeds-NoMore _ v.max_choices).0 (false_of _ (guard-ok _ _ u h3));
      }
    where
      chosen : ℕ
      chosen = length (id ∷ ids)

      other : ℕ
      other = if has_other then 1 else 0

      enough :
          (o : Bool)
          → o ≡ false
          → (n : ℕ) → 0 < n
          → not (ltb 0 n && ltb n v.min_choices && not o) ≡ true
          → v.min_choices ≤ n
      enough false e n pos k = ground (arith, pos, k)
      enough true e n pos k = absurd (cc e)

      false_of : (b : Bool) → not b ≡ true → b ≡ false
      false_of true k = cc
      false_of false k = refl

  IsChoice-chosen :
      (id : String) (ids : List String) (has_other : Bool)
      → IsChoice db v (id ∷ ids) has_other
      → assert_chosen db v (id ∷ ids) has_other ≡ ok tt
  unfolding assert_chosen assert_option_ids assert_choice_count
  IsChoice-chosen id ids has_other c =
      rw
        (
          none_invalid (id ∷ ids) c.exist,
          single-not v.type (length (id ∷ ids) + (if has_other then 1 else 0)) c.single,
          enough has_other (length (id ∷ ids)) c.least,
          (exceeds-NoMore (length (id ∷ ids) + (if has_other then 1 else 0)) v.max_choices).1
              c.most,
          assert_chosen,
          assert_option_ids,
          assert_choice_count,
        )
        refl
    where
      enough :
          (o : Bool) (n : ℕ)
          → (o ≡ false → v.min_choices ≤ n)
          → not (ltb 0 n && ltb n v.min_choices && not o) ≡ true
      enough true n k = ground arith
      enough false n k = let le = k refl in ground (arith, le)

module _ (p : VotePlatform) (db : Database) (v : Voting) (req : VoteRequest)
    (has_other : Bool) where
  ids_of-IsChoice :
      (ids : List String) (u : Unit {0})
      → assert_chosen db v ids has_other ≡ ok u
      → 0 < length ids
      → IsChoice db v ids has_other
  ids_of-IsChoice [] u h pos = absurd (omega (arith, pos))
  ids_of-IsChoice (id ∷ ids) u h pos = chosen-IsChoice db v id ids has_other u h

  IsChoice-ids_of :
      (ids : List String)
      → (0 < length ids → IsChoice db v ids has_other)
      → assert_chosen db v ids has_other ≡ ok tt
  unfolding assert_chosen
  IsChoice-ids_of [] c = refl
  IsChoice-ids_of (id ∷ ids) c = IsChoice-chosen db v id ids has_other (c (omega arith))

  pub answers-IsAllowed :
      (u : Unit {0}) → assert_answers p db v req has_other ≡ ok u → IsAllowed db v req has_other
  unfolding assert_answers
  answers-IsAllowed u h =
      let (a, e1, h1) =
        >>=-eq-ok (guard (not (has_other && not v.allow_other)) other_not_allowed) _ h in
      let (b, e2, h2) =
        >>=-eq-ok
          (guard (not ((n == 0) && not has_other && not req.is_abstention)) nothing_selected) _
          h1 in
      let (c, e3, h3) =
        >>=-eq-ok (guard (not (req.is_abstention && (ltb 0 n || has_other))) conflicting_abstention)
          _ h2 in
      record {
        other_allowed = λ o. free_answer has_other v.allow_other o (guard-ok _ _ a e1);
        something = some_answer n has_other req.is_abstention (guard-ok _ _ b e2);
        alone = λ o. only n has_other req.is_abstention o (guard-ok _ _ c e3);
        choice = ids_of-IsChoice req.option_ids u h3;
      }
    where
      n : ℕ
      n = length req.option_ids

      free_answer : (o allowed : Bool) → o ≡ true → not (o && not allowed) ≡ true → allowed ≡ true
      free_answer o true e k = refl
      free_answer true false e k = absurd (cc k)
      free_answer false false e k = absurd (cc e)

      some_answer :
          (m : ℕ) (o a : Bool)
          → not ((m == 0) && not o && not a) ≡ true
          → (0 < m) ⊎ ((o ≡ true) ⊎ (a ≡ true))
      some_answer m true a k = inr (inl refl)
      some_answer m false true k = inr (inr refl)
      some_answer m false false k = inl (ground (arith, k))

      only :
          (m : ℕ) (o a : Bool) → a ≡ true → not (a && (ltb 0 m || o)) ≡ true → (m ≡ 0) × (o ≡ false)
      only m o false e k = absurd (cc e)
      only m true true e k = ground (arith, k)
      only m false true e k = (ground (arith, k), refl)

  pub IsAllowed-answers : IsAllowed db v req has_other → assert_answers p db v req has_other ≡ ok tt
  unfolding assert_answers
  IsAllowed-answers h =
      rw
        (
          free_answer has_other v.allow_other h.other_allowed,
          some_answer (length req.option_ids) has_other req.is_abstention h.something,
          only (length req.option_ids) has_other req.is_abstention h.alone,
          assert_answers,
        )
        (IsChoice-ids_of req.option_ids h.choice)
    where
      free_answer : (o allowed : Bool) → (o ≡ true → allowed ≡ true) → not (o && not allowed) ≡ true
      free_answer false allowed k = refl
      free_answer true true k = refl
      free_answer true false k = absurd (cc (k refl))

      some_answer :
          (m : ℕ) (o a : Bool)
          → (0 < m) ⊎ ((o ≡ true) ⊎ (a ≡ true))
          → not ((m == 0) && not o && not a) ≡ true
      some_answer m o a k = ground (arith, k)

      only :
          (m : ℕ) (o a : Bool)
          → (a ≡ true → (m ≡ 0) × (o ≡ false))
          → not (a && (ltb 0 m || o)) ≡ true
      only m o false k = refl
      only m o true k = let (none_, alone) = k refl in ground (arith, none_, alone)
