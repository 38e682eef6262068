-- ===== src/Groups/Guard/About.antt =====
-- The group that a request is about (backend/src/common/guards/group-role.guard.ts), without the
-- guard's tests.
use voting_secure.Base.{
  String, Bool, true, false, Option, none, some, str_eq, str_eq_iff, ◌≡◌, ◌≢◌, refl, sym, ap, ◌∙◌,
  subst, ◌⊎◌, ◌↔◌, inl, inr, if◌then◌else◌, Bool-cases,
}
use voting_secure.Audit.Hash.{given}
use voting_secure.Groups.Guard.{RouteRequest, Owners, or_else, when_missing, resolve_group}

-- The value is there, and it is not the empty text.
abbrev pub Names : Option String → String → Type 0
Names o g = (o ≡ some g) × (g ≢ "")

abbrev pub NamesNone : Option String → Type 0
NamesNone o = (o ≡ none) ⊎ (o ≡ some "")

-- The first of three values that is there, the second and third only where their routes ask for them.
pub data IsFirst (explicit of_voting of_survey : Option String) (votings surveys : Bool)
    : Option String → Type 0 where
  first :
      (g : String)
      → Names explicit g
      → IsFirst explicit of_voting of_survey votings surveys (some g)
  second :
      (g : String)
      → NamesNone explicit
      → votings ≡ true
      → Names of_voting g
      → IsFirst explicit of_voting of_survey votings surveys (some g)
  third :
      (g : String)
      → NamesNone explicit
      → (votings ≡ false) ⊎ NamesNone of_voting
      → surveys ≡ true
      → Names of_survey g
      → IsFirst explicit of_voting of_survey votings surveys (some g)
  nothing :
      NamesNone explicit
      → (votings ≡ false) ⊎ NamesNone of_voting
      → (surveys ≡ false) ⊎ NamesNone of_survey
      → IsFirst explicit of_voting of_survey votings surveys none

-- The group that a request is about: the one it names, else its voting's, else its survey's.
abbrev pub IsAbout : Owners → RouteRequest → Option String → Type 0
IsAbout db req o =
    IsFirst req.group_id (db.voting_group (or_else req.voting_id req.id))
      (db.survey_group (or_else req.survey_id req.id)) req.of_votings req.of_surveys o

Names-given : (o : Option String) (g : String) → Names o g → given o ≡ some g
Names-given none g h = absurd (cc (h.0))
Names-given (some x) g h = elim (Bool-cases (str_eq x "")) [
  | inl empty ↦ absurd (h.1 (cc ((str_eq_iff x "").0 empty, h.0)))
  | inr there ↦ rw there h.0
]

NamesNone-given : (o : Option String) → NamesNone o → given o ≡ none
NamesNone-given o (inl e) = rw e refl
NamesNone-given o (inr e) = rw e refl

given-cases :
    (o : Option String)
    → ((g : String) × Names o g × (given o ≡ some g)) ⊎ (NamesNone o × (given o ≡ none))
given-cases none = inr (inl refl, refl)
given-cases (some x) = elim (Bool-cases (str_eq x "")) [
  | inl empty ↦ inr (inr (ap some ((str_eq_iff x "").0 empty)), rw empty refl)
  | inr there ↦ inl (x, (refl, λ e. cc (there, (str_eq_iff x "").1 e)), rw there refl)
]

abbrev pick : Option String → Bool → Option String → Option String
pick o here looked_up = elim o [ some g ↦ some g | none ↦ if here then looked_up else none ]

when_missing-some :
    (x y : Option String) (here : Bool) (g : String)
    → given x ≡ some g
    → when_missing x here y ≡ some g
when_missing-some x y here g e = ap (λ z. pick z here y) e

when_missing-none :
    (x y : Option String) (here : Bool)
    → given x ≡ none
    → when_missing x here y ≡ (if here then y else none)
when_missing-none x y here e = ap (λ z. pick z here y) e

given_skipped :
    (here : Bool) (y : Option String)
    → (here ≡ false) ⊎ NamesNone y
    → given (if here then y else none) ≡ none
given_skipped false y h = refl
given_skipped true y (inl e) = absurd (cc e)
given_skipped true y (inr n) = NamesNone-given y n

kept :
    (x y : Option String) (here : Bool) (g : String)
    → g ≢ ""
    → given x ≡ some g
    → given (when_missing x here y) ≡ some g
kept x y here g there e =
    ap given (when_missing-some x y here g e) ∙ Names-given (some g) g (refl, there)

passed :
    (x y : Option String) (here : Bool)
    → (here ≡ false) ⊎ NamesNone y
    → given x ≡ none
    → given (when_missing x here y) ≡ none
passed x y here skipped e = ap given (when_missing-none x y here e) ∙ given_skipped here y skipped

taken :
    (x y : Option String) (here : Bool) (g : String)
    → here ≡ true
    → Names y g
    → given x ≡ none
    → given (when_missing x here y) ≡ some g
taken x y here g asked named e =
    ap given (when_missing-none x y here e)
    ∙ ap (λ b. given (if b then y else none)) asked
    ∙ Names-given y g named

module _ (a v s : Option String) (votings surveys : Bool) where
  IsFirst-picked :
      (o : Option String)
      → IsFirst a v s votings surveys o
      → given (when_missing (when_missing a votings v) surveys s) ≡ o
  IsFirst-picked o (first g n) =
      kept (when_missing a votings v) s surveys g n.1 (kept a v votings g n.1 (Names-given a g n))
  IsFirst-picked o (second g m asked n) =
      kept (when_missing a votings v) s surveys g n.1
        (taken a v votings g asked n (NamesNone-given a m))
  IsFirst-picked o (third g m skipped asked n) =
      taken (when_missing a votings v) s surveys g asked n
        (passed a v votings skipped (NamesNone-given a m))
  IsFirst-picked o (nothing m skipped skipped') =
      passed (when_missing a votings v) s surveys skipped'
        (passed a v votings skipped (NamesNone-given a m))

  third_or_nothing :
      NamesNone a
      → (votings ≡ false) ⊎ NamesNone v
      → (o : Option String) × IsFirst a v s votings surveys o
  third_or_nothing m skipped = elim (Bool-cases surveys) [
    | inr off ↦ (none, nothing m skipped (inl off))
    | inl on ↦ elim (given-cases s) [
      | inl (g, n, e) ↦ (some g, third g m skipped on n)
      | inr (n, e) ↦ (none, nothing m skipped (inr n))
    ]
  ]

  some-IsFirst : (o : Option String) × IsFirst a v s votings surveys o
  some-IsFirst = elim (given-cases a) [
    | inl (g, n, e) ↦ (some g, first g n)
    | inr (m, e) ↦ elim (Bool-cases votings) [
      | inr off ↦ third_or_nothing m (inl off)
      | inl on ↦ elim (given-cases v) [
        | inl (g, n, e') ↦ (some g, second g m on n)
        | inr (n, e') ↦ third_or_nothing m (inr n)
      ]
    ]
  ]

  picked-IsFirst :
      IsFirst a v s votings surveys (given (when_missing (when_missing a votings v) surveys s))
  picked-IsFirst =
      let (o, h) = some-IsFirst in
      subst (IsFirst a v s votings surveys) (sym (IsFirst-picked o h)) h

pub resolve_group-IsAbout :
    (db : Owners) (req : RouteRequest) (o : Option String)
    → (resolve_group db req ≡ o) ↔ IsAbout db req o
unfolding resolve_group
resolve_group-IsAbout db req o = (
  (λ e. subst (IsAbout db req) e (
      picked-IsFirst req.group_id (db.voting_group (or_else req.voting_id req.id))
        (db.survey_group (or_else req.survey_id req.id)) req.of_votings req.of_surveys)),
  λ h.
      IsFirst-picked req.group_id (db.voting_group (or_else req.voting_id req.id))
        (db.survey_group (or_else req.survey_id req.id)) req.of_votings req.of_surveys o h,
)
