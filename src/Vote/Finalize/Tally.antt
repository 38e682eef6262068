-- ===== src/Vote/Finalize/Tally.antt =====
-- The tally counts each ballot once.
use voting_secure.Base.{
  ℕ, ◌+◌, ◌≡◌, refl, String, not, some, List, [], ◌∷◌, map, arith, if◌then◌else◌, filter, length,
  sum_by, All, str_eq, opt_eq, ◌&&◌, Bool-cases, inl, inr,
}
use voting_secure.Vote.Types.{VotingOption, Ballot, Database}
use voting_secure.Vote.Finalize.{
  ballots_for, options_of, option_counts, count_abstentions, count_ballots_by_voting,
}

-- How many of the options a ballot names.
abbrev pub occurrences : List VotingOption → Ballot → ℕ
occurrences options b = length (filter (λ o. opt_eq b.option_id (some o.id)) options)

-- A ballot of the voting that is no abstention names exactly one of its options; all others none.
abbrev pub IsPlaced : String → List VotingOption → Ballot → Type 0
IsPlaced voting_id options b =
    occurrences options b ≡ (if str_eq b.voting_id voting_id && not b.is_abstention then 1 else 0)

sum_zero : (os : List VotingOption) → sum_by (λ o. ballots_for o.id []) os ≡ 0
unfolding ballots_for
sum_zero [] = refl
sum_zero (o ∷ os) = omega (arith, sum_zero os)

sum_one :
    (b : Ballot) (bs : List Ballot) (os : List VotingOption)
    → sum_by (λ o. ballots_for o.id (b ∷ bs)) os
      ≡ occurrences os b + sum_by (λ o. ballots_for o.id bs) os
unfolding ballots_for
sum_one b bs [] = refl
sum_one b bs (o ∷ os) = elim (Bool-cases (opt_eq b.option_id (some o.id))) [
  | inl named ↦ rw named (omega (arith, sum_one b bs os))
  | inr other ↦ rw other (omega (arith, sum_one b bs os))
]

-- Summed over the options or over the ballots, the count is the same.
swapped :
    (os : List VotingOption) (bs : List Ballot)
    → sum_by (λ o. ballots_for o.id bs) os ≡ sum_by (occurrences os) bs
swapped os [] = sum_zero os
swapped os (b ∷ bs) = omega (arith, sum_one b bs os, swapped os bs)

pub sum_map :
    (f : VotingOption → String × ℕ) (os : List VotingOption)
    → sum_by (λ c. c.1) (map f os) ≡ sum_by (λ o. (f o).1) os
sum_map f [] = refl
sum_map f (o ∷ os) = omega (arith, sum_map f os)

placed :
    (voting_id : String) (os : List VotingOption) (bs : List Ballot)
    → All (IsPlaced voting_id os) bs
    → sum_by (occurrences os) bs
        + length (filter (λ b. b.is_abstention) (filter (λ b. str_eq b.voting_id voting_id) bs))
      ≡ length (filter (λ b. str_eq b.voting_id voting_id) bs)
placed voting_id os [] h = refl
placed voting_id os (b ∷ bs) h = elim (Bool-cases (str_eq b.voting_id voting_id)) [
  | inr other ↦
      let none_here : occurrences os b ≡ 0 = rw other at h.0 in
      rw other (omega (arith, none_here, placed voting_id os bs h.1))
  | inl own ↦ elim (Bool-cases b.is_abstention) [
    | inl abstains ↦
        let none_here : occurrences os b ≡ 0 = rw (own, abstains) at h.0 in
        rw (own, abstains) (omega (arith, none_here, placed voting_id os bs h.1))
    | inr votes ↦
        let one_here : occurrences os b ≡ 1 = rw (own, votes) at h.0 in
        rw (own, votes) (omega (arith, one_here, placed voting_id os bs h.1))
  ]
]

-- Let every ballot of the voting that is no abstention name exactly one of its options, and let
-- abstentions and the ballots of other votings name none of them. Then the options' counts and the
-- abstentions add up to the number of the voting's ballots: the tally counts each ballot once.
pub tally-total :
    (voting_id : String) (db : Database)
    → All (IsPlaced voting_id (options_of voting_id db)) db.ballots
    → sum_by (λ c. c.1) (option_counts voting_id db) + count_abstentions voting_id db
      ≡ count_ballots_by_voting voting_id db
unfolding option_counts count_abstentions count_ballots_by_voting
tally-total voting_id db h = omega (
  arith,
  sum_map (λ o. (o.id, ballots_for o.id db.ballots)) (options_of voting_id db),
  swapped (options_of voting_id db) db.ballots,
  placed voting_id (options_of voting_id db) db.ballots h,
)
