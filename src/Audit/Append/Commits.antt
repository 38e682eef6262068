-- ===== src/Audit/Append/Commits.antt =====
-- Whether an append to a sound store commits: the numbers that it draws are always free.
use voting_secure.Base.{
  All-map, All-unfilter, ℕ, suc, ◌≤◌, ◌≡◌, ◌≢◌, refl, ◌∙◌, String, true, false, Option, none, some,
  List, [], ◌∷◌, any, All, arith, str_eq, str_eq_iff, opt_eq, Bool-cases, Option-cases, inl, inr,
  is_some, get_or, str_eq_refl, ◌&&◌, ◌==◌,
}
use voting_secure.Audit.Types.{Block, Scope, ChainContext}
use voting_secure.Audit.Hash.{Platform, given}
use voting_secure.Audit.Store.{
  AuditStore, number_of, scoped_id, scoped_sequence, in_entity, sequence_key,
}
use voting_secure.Audit.Store.Keys.{IsEntity}
use voting_secure.Audit.Walk.Extend.{All-le-last, number-last}
use voting_secure.Audit.Append.{same_place, clashes, process_append_internal}
use voting_secure.Audit.Append.Draw.{count_of, context_id, draw_number}
use voting_secure.Audit.Append.Sound.{
  IsNumbered, IsSoundAt, IsSound, text_proper, added, added-id, added-sequence, added-IsGlobal,
  appended, appended-IsSound,
}

-- No number of a sound scope exceeds its count.
IsNumbered-bound :
    (p : Platform) (t : Scope) (genesis : String) (bs : List Block) (count : ℕ)
    → IsNumbered p t genesis bs count
    → All (λ b. number_of t b ≤ count) bs
IsNumbered-bound p t genesis [] count h = tt
IsNumbered-bound p t genesis (a ∷ bs) count ((one, link, c), n) =
    All-map (λ b h. omega (arith, h, n, one, number-last p t a bs c)) (a ∷ bs)
      (All-le-last p t a bs c)

number_free :
    (number : Option ℕ) (id : Option String) (i : String) (n : ℕ)
    → ((opt_eq id (some i) && is_some number) ≡ true → get_or number 0 ≤ n)
    → (is_some number && suc n == get_or number 0 && opt_eq (some i) id) ≡ false
number_free none id i n h = refl
number_free (some m) none i n h = ground (arith, h)
number_free (some m) (some j) i n h = elim (Bool-cases (str_eq i j)) [
  | inl same ↦
      let below : m ≤ n = h (rw ((str_eq_iff i j).0 same, str_eq_refl j) refl) in
      rw same (ground (arith, below))
  | inr other ↦ rw other (ground arith)
]

module _ (p : Platform) (now : ℕ) (ctx : ChainContext) (s : AuditStore) where
  -- Where the entry names an id, the number that it draws is not taken.
  free_named :
      (t : Scope) (i : String)
      → IsEntity t
      → i ≢ ""
      → context_id t ctx ≡ some i
      → IsSoundAt p t i s
      → All (λ c. same_place t (added p now ctx s) c ≡ false) s.chain
  free_named t i entity proper named sound = All-map free s.chain (
      All-unfilter (λ c. number_of t c ≤ count_of s.counters (sequence_key t i)) (in_entity t i)
        s.chain (IsNumbered-bound p t _ _ _ sound))
    where
      id_given : given (context_id t ctx) ≡ some i
      id_given = rw (named, text_proper i proper) refl

      number :
          scoped_sequence t (added p now ctx s)
          ≡ some (suc (count_of s.counters (sequence_key t i)))
      number = added-sequence p now ctx s t ∙ draw_number ctx s.counters t entity ∙ rw id_given refl

      free :
          (c : Block)
          → (in_entity t i c ≡ true → number_of t c ≤ count_of s.counters (sequence_key t i))
          → same_place t (added p now ctx s) c ≡ false
      free c bound =
          rw (number, added-id p now ctx s t, named)
            (number_free (scoped_sequence t c) (scoped_id t c) i _ bound)

  free_unnamed :
      (t : Scope)
      → IsEntity t
      → given (context_id t ctx) ≡ none
      → All (λ c. same_place t (added p now ctx s) c ≡ false) s.chain
  free_unnamed t entity other = All-all (λ c. rw number refl) s.chain
    where
      number : scoped_sequence t (added p now ctx s) ≡ none
      number = added-sequence p now ctx s t ∙ draw_number ctx s.counters t entity ∙ rw other refl

      All-all :
          ((c : Block) → same_place t (added p now ctx s) c ≡ false)
          → (bs : List Block) → All (λ c. same_place t (added p now ctx s) c ≡ false) bs
      All-all f [] = tt
      All-all f (b ∷ bs) = (f b, All-all f bs)

  free_entity :
      (t : Scope)
      → IsEntity t
      → IsSound p s
      → All (λ c. same_place t (added p now ctx s) c ≡ false) s.chain
  free_entity t entity sound = elim (Option-cases (given (context_id t ctx))) [
    | inl nothing ↦ free_unnamed t entity nothing
    | inr (i, named) ↦
        let (same, proper) = given_some (context_id t ctx) i named in
        free_named t i entity proper same (sound.1 t i entity proper)
  ]
    where
      given_some : (id : Option String) (i : String) → given id ≡ some i → (id ≡ some i) × (i ≢ "")
      given_some none i h = cc
      given_some (some j) i h = elim (Bool-cases (str_eq j "")) [
        | inl empty ↦ absurd (cc (rw empty at h))
        | inr full ↦
            let e : some j ≡ some i = rw full at h in
            (e, λ none_left. cc (e, none_left, full, str_eq_refl ""))
      ]

  -- Only an equal hash can clash.
  clashes-hash :
      IsSound p s
      → any (clashes (added p now ctx s)) s.chain
        ≡ any (λ c. str_eq (added p now ctx s).hash c.hash) s.chain
  clashes-hash sound =
      only_hash s.chain
        (All-map (λ c h. below c h) s.chain
          (IsNumbered-bound p Scope.global _ s.chain
            (count_of s.counters (sequence_key Scope.global "")) sound.0))
        (free_entity Scope.group tt sound) (free_entity Scope.voting tt sound)
        (free_entity Scope.survey tt sound)
    where
      b : Block
      b = added p now ctx s

      below :
          (c : Block)
          → c.sequence ≤ count_of s.counters (sequence_key Scope.global "")
          → (b.sequence == c.sequence) ≡ false
      below c h = ground (arith, h, (added-IsGlobal p now ctx s sound.0).0, sound.0.1)

      only_hash :
          (bs : List Block)
          → All (λ c. (b.sequence == c.sequence) ≡ false) bs
          → All (λ c. same_place Scope.group b c ≡ false) bs
          → All (λ c. same_place Scope.voting b c ≡ false) bs
          → All (λ c. same_place Scope.survey b c ≡ false) bs
          → any (clashes b) bs ≡ any (λ c. str_eq b.hash c.hash) bs
      only_hash [] h g v u = refl
      only_hash (c ∷ bs) h g v u =
          rw (h.0, g.0, v.0, u.0, only_hash bs h.1 g.1 v.1 u.1) (ground arith)

  -- Let the store be sound, no block of it be later than `now`, the new entry's hash be none of the
  -- stored ones, and the database commit each transaction that breaks no unique index. Then the append
  -- breaks none: it answers no error and adds the entry's block, and the store is sound after it.
  pub append-IsSound :
      IsSound p s
      → All (λ c. c.created_at ≤ now) s.chain
      → any (λ c. str_eq (added p now ctx s).hash c.hash) s.chain ≡ false
      → (process_append_internal p now true ctx s ≡ (none, appended p now ctx s))
        × IsSound p (process_append_internal p now true ctx s).1
  unfolding process_append_internal
  append-IsSound sound times fresh =
      let commits : process_append_internal p now true ctx s ≡ (none, appended p now ctx s) =
        rw (clashes-hash sound ∙ fresh, process_append_internal) refl in
      (commits, rw commits (appended-IsSound p now ctx s sound times))
