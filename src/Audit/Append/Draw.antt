-- ===== src/Audit/Append/Draw.antt =====
-- What drawing the sequence numbers of one entry does to each counter.
use mathlib.Core.Option
use voting_secure.Base.{
  ℕ, suc, ◌≡◌, ◌≢◌, refl, sym, ap, ◌∙◌, String, Option, none, some, get_or, arith, str_eq,
  str_eq_iff, str_eq_refl, inl, inr, opt_eq, if◌then◌else◌, Bool-cases,
}
use voting_secure.Audit.Types.{Scope, ChainContext}
use voting_secure.Audit.Hash.{given}
use voting_secure.Audit.Store.{Counters, sequence_key, incr}
use voting_secure.Audit.Store.Keys.{IsEntity, sequence_key-injective, sequence_key-ne}
use voting_secure.Audit.Append.{next_sequence, Drawn, draw}

-- The value of a counter.
abbrev pub count_of : Counters → String → ℕ
count_of c key = get_or (c key) 0

abbrev pub context_id : Scope → ChainContext → Option String
context_id Scope.global ctx = none
context_id Scope.group ctx = ctx.group_id
context_id Scope.voting ctx = ctx.voting_id
context_id Scope.survey ctx = ctx.survey_id

abbrev pub drawn_number : Scope → Drawn → Option ℕ
drawn_number Scope.global d = some d.global_seq
drawn_number Scope.group d = d.group_seq
drawn_number Scope.voting d = d.voting_seq
drawn_number Scope.survey d = d.survey_seq

incr_other : (key k : String) (c : Counters) → k ≢ key → count_of (incr key c).1 k ≡ count_of c k
unfolding incr
incr_other key k c ne = ground (arith, str_eq_iff k key)

incr_self : (key : String) (c : Counters) → count_of (incr key c).1 key ≡ suc (count_of c key)
unfolding incr
incr_self key c = ground (arith, str_eq_refl key)

-- The draw of a scope with ids, in one form for the three.
abbrev entity_draw : Scope → Option String → Counters → Option ℕ × Counters
entity_draw scope none c = (none, c)
entity_draw scope (some i) c = let (n, c') = incr (sequence_key scope i) c in (some n, c')

next_sequence-entity :
    (scope : Scope) (id : Option String) (c : Counters)
    → IsEntity scope
    → next_sequence scope id c ≡ entity_draw scope (given id) c
unfolding next_sequence
next_sequence-entity Scope.global id c entity = absurd entity
next_sequence-entity Scope.group id c entity = ground arith
next_sequence-entity Scope.voting id c entity = ground arith
next_sequence-entity Scope.survey id c entity = ground arith

entity_draw_other :
    (s t : Scope) (id : Option String) (j : String) (c : Counters)
    → t ≢ s
    → count_of (entity_draw s id c).1 (sequence_key t j) ≡ count_of c (sequence_key t j)
entity_draw_other s t none j c ne = refl
entity_draw_other s t (some i) j c ne = incr_other _ _ c (sequence_key-ne t s j i ne)

-- A draw for another scope leaves a counter alone.
next_sequence_other :
    (s t : Scope) (id : Option String) (j : String) (c : Counters)
    → IsEntity s
    → t ≢ s
    → count_of (next_sequence s id c).1 (sequence_key t j) ≡ count_of c (sequence_key t j)
next_sequence_other s t id j c entity ne =
    rw (next_sequence-entity s id c entity) (entity_draw_other s t (given id) j c ne)

-- The count of an id after a draw for an id that may be the same.
abbrev pub advanced : Option String → String → ℕ → ℕ
advanced id j n = if opt_eq id (some j) then suc n else n

entity_draw_count :
    (s : Scope) (id : Option String) (j : String) (c : Counters)
    → IsEntity s
    → count_of (entity_draw s id c).1 (sequence_key s j)
      ≡ advanced id j (count_of c (sequence_key s j))
entity_draw_count s none j c entity = refl
entity_draw_count s (some i) j c entity = elim (Bool-cases (str_eq i j)) [
  | inl same ↦
      let e : i ≡ j = (str_eq_iff i j).0 same in rw same (rw e (incr_self (sequence_key s j) c))
  | inr other ↦ rw other (
      incr_other _ _ c
        (λ e. cc (other, (str_eq_iff i j).1 (sym (sequence_key-injective s j i entity e)))))
]

entity_draw_number :
    (s : Scope) (id : Option String) (c c' : Counters)
    → ((i : String) → count_of c' (sequence_key s i) ≡ count_of c (sequence_key s i))
    → (entity_draw s id c').0 ≡ Option.map (λ i. suc (count_of c (sequence_key s i))) id
unfolding incr
entity_draw_number s none c c' same = refl
entity_draw_number s (some i) c c' same = ap (λ (n : ℕ). some (suc n)) (same i)

module _ (ctx : ChainContext) (c : Counters) where
  -- The counters after the first, second and third draw.
  c1 : Counters
  c1 = (next_sequence Scope.global none c).1

  c2 : Counters
  c2 = (next_sequence Scope.group ctx.group_id c1).1

  c3 : Counters
  c3 = (next_sequence Scope.voting ctx.voting_id c2).1

  after_global :
      (t : Scope) (j : String)
      → t ≢ Scope.global
      → count_of c1 (sequence_key t j) ≡ count_of c (sequence_key t j)
  unfolding c1 next_sequence
  after_global t j ne = incr_other _ _ c (sequence_key-ne t Scope.global j "" ne)

  after_group :
      (t : Scope) (j : String)
      → t ≢ Scope.global
      → t ≢ Scope.group
      → count_of c2 (sequence_key t j) ≡ count_of c (sequence_key t j)
  unfolding c2
  after_group t j ne ne' =
      next_sequence_other Scope.group t ctx.group_id j c1 tt ne' ∙ after_global t j ne

  after_voting :
      (j : String)
      → count_of c3 (sequence_key Scope.survey j) ≡ count_of c (sequence_key Scope.survey j)
  unfolding c3
  after_voting j =
      next_sequence_other Scope.voting Scope.survey ctx.voting_id j c2 tt (λ e. cc e)
      ∙ after_group Scope.survey j (λ e. cc e) (λ e. cc e)

  number_at :
      (s : Scope) (id : Option String) (c' : Counters)
      → IsEntity s
      → ((i : String) → count_of c' (sequence_key s i) ≡ count_of c (sequence_key s i))
      → (next_sequence s id c').0 ≡ Option.map (λ i. suc (count_of c (sequence_key s i))) (given id)
  number_at s id c' entity same =
      rw (next_sequence-entity s id c' entity) (entity_draw_number s (given id) c c' same)

  count_at :
      (s : Scope) (id : Option String) (c' : Counters) (j : String)
      → IsEntity s
      → count_of c' (sequence_key s j) ≡ count_of c (sequence_key s j)
      → count_of (next_sequence s id c').1 (sequence_key s j)
        ≡ advanced (given id) j (count_of c (sequence_key s j))
  count_at s id c' j entity same =
      rw (next_sequence-entity s id c' entity)
        (entity_draw_count s (given id) j c' entity ∙ ap (advanced (given id) j) same)

  -- The numbers that an entry draws: for each id that it names, one more than the count so far.
  pub draw_number :
      (t : Scope)
      → IsEntity t
      → drawn_number t (draw ctx c).0
        ≡ Option.map (λ i. suc (count_of c (sequence_key t i))) (given (context_id t ctx))
  unfolding draw c1 c2 c3
  draw_number Scope.global entity = absurd entity
  draw_number Scope.group entity =
      number_at Scope.group ctx.group_id c1 tt (λ i. after_global Scope.group i (λ e. cc e))
  draw_number Scope.voting entity =
      number_at Scope.voting ctx.voting_id c2 tt
        (λ i. after_group Scope.voting i (λ e. cc e) (λ e. cc e))
  draw_number Scope.survey entity = number_at Scope.survey ctx.survey_id c3 tt after_voting

  -- The counters after an entry: those of the ids that it names are one further, all else is as it was.
  pub draw_count :
      (t : Scope) (j : String)
      → IsEntity t
      → count_of (draw ctx c).1 (sequence_key t j)
        ≡ advanced (given (context_id t ctx)) j (count_of c (sequence_key t j))
  unfolding draw c1 c2 c3
  draw_count Scope.global j entity = absurd entity
  draw_count Scope.group j entity =
      next_sequence_other Scope.survey Scope.group ctx.survey_id j c3 tt (λ e. cc e)
      ∙ next_sequence_other Scope.voting Scope.group ctx.voting_id j c2 tt (λ e. cc e)
      ∙ count_at Scope.group ctx.group_id c1 j tt (after_global Scope.group j (λ e. cc e))
  draw_count Scope.voting j entity =
      next_sequence_other Scope.survey Scope.voting ctx.survey_id j c3 tt (λ e. cc e)
      ∙ count_at Scope.voting ctx.voting_id c2 j tt
          (after_group Scope.voting j (λ e. cc e) (λ e. cc e))
  draw_count Scope.survey j entity = count_at Scope.survey ctx.survey_id c3 j tt (after_voting j)

  pub draw_global :
      ((draw ctx c).0.global_seq ≡ suc (count_of c (sequence_key Scope.global "")))
      × (count_of (draw ctx c).1 (sequence_key Scope.global "")
          ≡ suc (count_of c (sequence_key Scope.global "")))
  unfolding draw c1 c2 c3 next_sequence
  draw_global = (
    refl,
    next_sequence_other Scope.survey Scope.global ctx.survey_id "" c3 tt (λ e. cc e)
        ∙ next_sequence_other Scope.voting Scope.global ctx.voting_id "" c2 tt (λ e. cc e)
        ∙ next_sequence_other Scope.group Scope.global ctx.group_id "" c1 tt (λ e. cc e)
        ∙ incr_self _ c,
  )
