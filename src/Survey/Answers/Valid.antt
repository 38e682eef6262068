-- ===== src/Survey/Answers/Valid.antt =====
-- What a response has to answer, without the code's order of tests.
use voting_secure.Base.{
  ℕ, ◌≤◌, Bool, true, false, not, Option, none, some, List, [], ◌∷◌, length, ◌&&◌, if◌then◌else◌,
  ◌≡◌, ◌↔◌, refl, arith, All, ok, >>=-eq-ok, guard, guard-ok,
}
use voting_secure.Survey.Types.{Question, ChoiceConfig}
use voting_secure.Survey.Answers.{
  BallotInput, ballot_of, selected, has_response, is_multiple, below, above, limits_of,
  check_limits, check_question, check_questions,
}

abbrev pub AtLeast : Option ℕ → ℕ → Type 0
AtLeast none n = Unit
AtLeast (some m) n = m ≤ n

abbrev pub AtMost : Option ℕ → ℕ → Type 0
AtMost none n = Unit
AtMost (some m) n = n ≤ m

abbrev pub Within : Option ChoiceConfig → ℕ → Type 0
Within none n = Unit
Within (some c) n = AtLeast c.min_choices n × AtMost c.max_choices n

-- A required question has a response. The options of a response to a multiple choice are as many as
-- the question's limits allow, if it has limits.
pub record IsAnswered (ballots : List BallotInput) (q : Question) : Type 0 where
  pub responded : q.is_required ≡ true → has_response (ballot_of q ballots) ≡ true
  pub within :
      has_response (ballot_of q ballots) ≡ true
      → is_multiple q.type ≡ true
      → Within q.choice_config (length (selected (ballot_of q ballots)))

not-below : (n : ℕ) (m : Option ℕ) → not (below n m) ≡ true → AtLeast m n
not-below n none h = tt
not-below n (some m) h = ground (arith, h)

not-above : (n : ℕ) (m : Option ℕ) → not (above n m) ≡ true → AtMost m n
not-above n none h = tt
not-above n (some m) h = ground (arith, h)

below-not : (n : ℕ) (m : Option ℕ) → AtLeast m n → not (below n m) ≡ true
below-not n none h = refl
below-not n (some m) h = ground (arith, h)

above-not : (n : ℕ) (m : Option ℕ) → AtMost m n → not (above n m) ≡ true
above-not n none h = refl
above-not n (some m) h = ground (arith, h)

limits-Within :
    (q : Question) (n : ℕ) (c : Option ChoiceConfig) (u : Unit {0})
    → check_limits q n c ≡ ok u
    → Within c n
unfolding check_limits
limits-Within q n none u h = tt
limits-Within q n (some c) u h =
    let (v, e, h1) = >>=-eq-ok (guard (not (below n c.min_choices)) _) _ h in
    (not-below n c.min_choices (guard-ok _ _ v e), not-above n c.max_choices (guard-ok _ _ u h1))

Within-check_limits :
    (q : Question) (n : ℕ) (c : Option ChoiceConfig) → Within c n → check_limits q n c ≡ ok tt
unfolding check_limits
Within-check_limits q n none h = refl
Within-check_limits q n (some c) h =
    rw (below-not n c.min_choices h.0, above-not n c.max_choices h.1, check_limits) refl

module _ (ballots : List BallotInput) where
  question-IsAnswered :
      (q : Question) (u : Unit {0}) → check_question ballots q ≡ ok u → IsAnswered ballots q
  unfolding check_question
  question-IsAnswered q u h =
      let (v, e, h1) =
        >>=-eq-ok (guard (not (q.is_required && not (has_response (ballot_of q ballots)))) _) _ h in
      let asked = guard-ok _ _ v e in
      record {
        responded = λ r. ground (arith, asked, r);
        within = λ r m. limits r m (limits-Within q _ _ u h1);
      }
    where
      limits :
          has_response (ballot_of q ballots) ≡ true
          → is_multiple q.type ≡ true
          → Within
              (limits_of q (has_response (ballot_of q ballots)))
              (length (selected (ballot_of q ballots)))
          → Within q.choice_config (length (selected (ballot_of q ballots)))
      limits r m w = rw (r, m) at w

  answered_question : (q : Question) → IsAnswered ballots q → check_question ballots q ≡ ok tt
  unfolding check_question
  answered_question q a =
      rw (asked (has_response ballot) q.is_required a.responded, check_question)
        (Within-check_limits q (length (selected ballot)) _
          (limited (has_response ballot) (is_multiple q.type) a.within))
    where
      ballot : Option BallotInput
      ballot = ballot_of q ballots

      asked : (r required : Bool) → (required ≡ true → r ≡ true) → not (required && not r) ≡ true
      asked true true h = refl
      asked true false h = refl
      asked false false h = refl
      asked false true h = absurd (cc (h refl))

      limited :
          (r many : Bool)
          → (r ≡ true → many ≡ true → Within q.choice_config (length (selected ballot)))
          → Within (if r && many then q.choice_config else none) (length (selected ballot))
      limited true true h = h refl refl
      limited true false h = tt
      limited false many h = tt

  questions-All :
      (qs : List Question) → check_questions ballots qs ≡ ok tt → All (IsAnswered ballots) qs
  unfolding check_questions
  questions-All [] h = tt
  questions-All (q ∷ qs) h =
      let (u, e, h1) = >>=-eq-ok (check_question ballots q) _ h in
      (question-IsAnswered q u e, questions-All qs h1)

  All-questions :
      (qs : List Question) → All (IsAnswered ballots) qs → check_questions ballots qs ≡ ok tt
  unfolding check_questions
  All-questions [] a = refl
  All-questions (q ∷ qs) a = rw (answered_question q a.0, check_questions) (All-questions qs a.1)

  -- The answers pass the checks exactly if each question of the survey is answered: a required one
  -- has a response, and where a response is to a multiple choice with limits, the first ballot of the
  -- question has no fewer options than the least and no more than the greatest number.
  pub check_questions-IsAnswered_iff :
      (qs : List Question) → (check_questions ballots qs ≡ ok tt) ↔ All (IsAnswered ballots) qs
  check_questions-IsAnswered_iff qs = (questions-All qs, All-questions qs)
