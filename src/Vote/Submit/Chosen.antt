-- ===== src/Vote/Submit/Chosen.antt =====
-- The ballots of a vote are those of its request (backend/src/votings/vote.service.ts, vote).
use voting_secure.Base.{
  ◌≡◌, refl, sym, subst, ap, ◌∙◌, String, Bool, true, not, Option, none, some, List, [], ◌∷◌, ◌++◌,
  map, any, find?, is_some, str_eq, str_eq_refl, ◌&&◌, concat, if◌then◌else◌, Result, ok, err,
  Option-cases, Bool-cases, inl, inr, >>=-eq-ok, All, All-append, arith, append_nothing,
}
use voting_secure.Audit.Hash.{given}
use voting_secure.Vote.Types.{VotingOption, Ballot, VotePlatform, hex_text}
use voting_secure.Vote.Guards.{VoteError, VoteRequest}
use voting_secure.Vote.Cast.{
  Outside, ballot_for, chosen_ballots, abstentions, hashed_ballots, add_other, other_option,
}

abbrev pub choice_of : Ballot → Option String
choice_of b = b.option_id

abbrev pub choice_text : Option String → String
choice_text none = "abstention"
choice_text (some id) = id

-- A ballot of the request, whose hash is the keyed digest of the voting, the choice and the signature.
abbrev pub IsBallot : VotePlatform → VoteRequest → Ballot → Type 0
IsBallot p req b =
    (b.voting_id ≡ req.voting_id)
    × (b.blind_signature ≡ req.signature)
    × (b.is_abstention ≡ not (is_some b.option_id))
    × ((secret : String) × (p.ballot_secret ≡ some secret)
        × (b.ballot_hash
            ≡ p.hmac_sha256 secret (
                concat (
                  req.voting_id
                  ∷ ":"
                  ∷ choice_text b.option_id
                  ∷ ":"
                  ∷ hex_text req.signature
                  ∷ []))))

-- An option of the voting that a voter added, with the text.
abbrev pub is_added : (voting_id text id : String) → VotingOption → Bool
is_added voting_id text id o =
    str_eq o.id id && (str_eq o.voting_id voting_id && (str_eq o.text text && o.is_dynamic))

-- The choices that a free answer adds: that of an option with its text.
abbrev pub IsOther :
    (voting_id : String) → Option String → List VotingOption → List (Option String) → Type 0
IsOther voting_id none options ids = ids ≡ []
IsOther voting_id (some text) options ids =
    (id : String) × (ids ≡ some id ∷ []) × (any (is_added voting_id text id) options ≡ true)

-- A ballot for each option of the request, one for an abstention, and one for a free answer.
pub record IsChosen (p : VotePlatform) (req : VoteRequest) (other : Option String)
    (options : List VotingOption) (all : List Ballot) : Type 0 where
  pub others : List (Option String)
  pub choices :
      map choice_of all
      ≡ (map some req.option_ids ++ (if req.is_abstention then none ∷ [] else [])) ++ others
  pub of_other : IsOther req.voting_id other options others
  pub each : All (IsBallot p req) all

given-some : (a : Option String) (t : String) → given a ≡ some t → a ≡ some t
given-some none t h = absurd (cc h)
given-some (some s) t h = elim (Bool-cases (str_eq s "")) [
  | inl empty ↦ absurd (cc (rw empty at h))
  | inr full ↦ rw full at h
]

map-append :
    (as' bs : List Ballot) → map choice_of (as' ++ bs) ≡ map choice_of as' ++ map choice_of bs
map-append [] bs = refl
map-append (a ∷ as') bs = ap (choice_of a ∷◌) (map-append as' bs)

module _ (p : VotePlatform) (req : VoteRequest) where
  OkBallot : String → Result VoteError Ballot → Type 0
  OkBallot id (err e) = Unit
  OkBallot id (ok b) = (choice_of b ≡ some id) × IsBallot p req b

  ballot_for-IsBallot :
      (id : String) (b : Ballot)
      → ballot_for p req id ≡ ok b
      → (choice_of b ≡ some id) × IsBallot p req b
  unfolding OkBallot
  ballot_for-IsBallot id b h = elim (Option-cases (given p.ballot_secret)) [
    | inl unset ↦ absurd (cc (rw unset at h))
    | inr (k, set) ↦
        subst (OkBallot id) (rw set at h)
          (refl, (refl, refl, refl, (k, given-some p.ballot_secret k set, refl)))
  ]

  chosen_ballots-choices :
      (ids : List String) (bs : List Ballot)
      → chosen_ballots p req ids ≡ ok bs
      → (map choice_of bs ≡ map some ids) × All (IsBallot p req) bs
  unfolding chosen_ballots
  chosen_ballots-choices [] bs h =
      let same : [] ≡ bs = cc h in
      subst (λ (x : List Ballot). (map choice_of x ≡ []) × All (IsBallot p req) x) same (refl, tt)
  chosen_ballots-choices (id ∷ ids) bs h =
      let (b, e1, h1) = >>=-eq-ok (ballot_for p req id) _ h in
      let (rest, e2, h2) = >>=-eq-ok (chosen_ballots p req ids) _ h1 in
      let (first, good) = ballot_for-IsBallot id b e1 in
      let (others, all_good) = chosen_ballots-choices ids rest e2 in
      let same : b ∷ rest ≡ bs = cc h2 in
      subst
        (λ (x : List Ballot). (map choice_of x ≡ some id ∷ map some ids) × All (IsBallot p req) x)
        same (rw (first, others) refl, (good, all_good))

  abstentions-choices :
      (bs : List Ballot)
      → abstentions p req ≡ ok bs
      → (map choice_of bs ≡ (if req.is_abstention then none ∷ [] else [])) × All (IsBallot p req) bs
  abstentions-choices bs h = elim (Bool-cases req.is_abstention) [
    | inr votes ↦
        let same : [] ≡ bs = cc (rw votes at h) in
        rw votes (
          subst (λ (x : List Ballot). (map choice_of x ≡ []) × All (IsBallot p req) x) same
            (refl, tt))
    | inl abstains ↦ elim (Option-cases (given p.ballot_secret)) [
      | inl unset ↦ absurd (cc (rw (abstains, unset) at h))
      | inr (k, set) ↦ rw abstains (
          subst Abstained (rw (abstains, set) at h)
            (refl, ((refl, refl, refl, (k, given-some p.ballot_secret k set, refl)), tt)))
    ]
  ]
    where
      Abstained : Result VoteError (List Ballot) → Type 0
      Abstained (err e) = Unit
      Abstained (ok x) = (map choice_of x ≡ none ∷ []) × All (IsBallot p req) x

  hashed_ballots-choices :
      (bs : List Ballot)
      → hashed_ballots p req ≡ ok bs
      → (map choice_of bs
          ≡ map some req.option_ids ++ (if req.is_abstention then none ∷ [] else []))
        × All (IsBallot p req) bs
  unfolding hashed_ballots
  hashed_ballots-choices bs h =
      let (chosen, e1, h1) = >>=-eq-ok (chosen_ballots p req req.option_ids) _ h in
      let (abstained, e2, h2) = >>=-eq-ok (abstentions p req) _ h1 in
      let (c1, g1) = chosen_ballots-choices req.option_ids chosen e1 in
      let (c2, g2) = abstentions-choices abstained e2 in
      let same : chosen ++ abstained ≡ bs = cc h2 in
      subst
        (λ (x : List Ballot).
          (map choice_of x
            ≡ map some req.option_ids ++ (if req.is_abstention then none ∷ [] else []))
          × All (IsBallot p req) x)
        same
        (
          map-append chosen abstained ∙ rw (c1, c2) refl,
          All-append (IsBallot p req) chosen abstained g1 g2,
        )

found-added :
    (voting_id text : String) (os : List VotingOption) {o : VotingOption}
    → find? (λ w. str_eq w.voting_id voting_id && str_eq w.text text && w.is_dynamic) os ≡ some o
    → any (is_added voting_id text o.id) os ≡ true
found-added voting_id text [] h = absurd (cc h)
found-added voting_id text (w ∷ ws) {o} h =
    elim (Bool-cases (str_eq w.voting_id voting_id && str_eq w.text text && w.is_dynamic)) [
      | inr other ↦
          let rest = found-added voting_id text ws {o = o} (rw other at h) in ground (arith, rest)
      | inl here ↦
          let same : w ≡ o = cc (rw here at h) in
          subst (λ (x : VotingOption). any (is_added voting_id text x.id) (w ∷ ws) ≡ true) same
            (rw (str_eq_refl w.id) (ground (arith, here)))
    ]

appended-added :
    (voting_id text id : String) (os : List VotingOption)
    → any
        (is_added voting_id text id)
        (os ++ record { id = id; text = text; voting_id = voting_id; is_dynamic = true } ∷ [])
      ≡ true
appended-added voting_id text id [] =
    rw (str_eq_refl id, str_eq_refl voting_id, str_eq_refl text) refl
appended-added voting_id text id (o ∷ os) = ground (arith, appended-added voting_id text id os)

other_option-added :
    (new_id voting_id text : String) (os : List VotingOption)
    → any
        (is_added voting_id text (other_option new_id voting_id text os).0)
        (other_option new_id voting_id text os).1
      ≡ true
unfolding other_option
other_option-added new_id voting_id text os =
    elim (Option-cases
      (find? (λ o. str_eq o.voting_id voting_id && str_eq o.text text && o.is_dynamic) os)) [
        | inl missing ↦ rw (missing, other_option) (appended-added voting_id text new_id os)
        | inr (o, there) ↦ rw (there, other_option) (found-added voting_id text os there)
      ]

module _ (p : VotePlatform) (out : Outside) (req : VoteRequest) where
  pub add_other-IsChosen :
      (other : Option String) (bs all : List Ballot) (options options' : List VotingOption)
      → hashed_ballots p req ≡ ok bs
      → add_other p out req other bs options ≡ ok (all, options')
      → IsChosen p req other options' all
  unfolding add_other
  add_other-IsChosen none bs all options options' made h =
      let (choices, good) = hashed_ballots-choices p req bs made in
      subst Made h (record {
        others = [];
        choices = choices ∙ sym (append_nothing _);
        of_other = refl;
        each = good;
      })
    where
      Made : Result VoteError (List Ballot × List VotingOption) → Type 0
      Made (err e) = Unit
      Made (ok (x, os)) = IsChosen p req none os x
  add_other-IsChosen (some text) bs all options options' made h =
      let (choices, good) = hashed_ballots-choices p req bs made in
      let picked = other_option out.new_option_id req.voting_id text options in
      let (b, e, h1) = >>=-eq-ok (ballot_for p req picked.0) _ h in
      let (named, own) = ballot_for-IsBallot p req picked.0 b e in
      subst Made h1 (record {
        others = some picked.0 ∷ [];
        choices = map-append bs (b ∷ []) ∙ rw (choices, named) refl;
        of_other =
            (picked.0, refl, other_option-added out.new_option_id req.voting_id text options);
        each = All-append (IsBallot p req) bs (b ∷ []) good (own, tt);
      })
    where
      Made : Result VoteError (List Ballot × List VotingOption) → Type 0
      Made (err e) = Unit
      Made (ok (x, os)) = IsChosen p req (some text) os x
