-- ===== src/Audit/History/Checkpoints.antt =====
-- The checkpoints of a chain that only grows keep holding.
use voting_secure.Base.{
  All-filter, All-map, All-map2, find?-append, ℕ, ◌<◌, ◌≡◌, refl, Option, none, some, List, [], ◌∷◌,
  ◌++◌, String, All, find?, arith, ◌==◌, ltb, Bool-cases, Option-cases, inl, inr,
}
use voting_secure.Audit.Types.{Block, Scope}
use voting_secure.Audit.Hash.{Platform}
use voting_secure.Audit.Store.{AuditStore, Checkpoint, find_last}
use voting_secure.Audit.Status.{
  check_checkpoint, check_checkpoints, compared, insert_checkpoint, sort_checkpoints,
  verify_checkpoints,
}
use voting_secure.Audit.Walk.Spec.{IsChain}
use voting_secure.Audit.Walk.Extend.{IsChain-tail}
use mathlib.Core.Path.{subst}

-- A checkpoint that holds of a chain.
abbrev pub Holds : List Block → Checkpoint → Type 0
Holds chain c = check_checkpoint chain c ≡ none

check_checkpoints-All :
    (chain : List Block) (cs : List Checkpoint)
    → All (Holds chain) cs
    → check_checkpoints chain cs ≡ none
unfolding check_checkpoints
check_checkpoints-All chain [] h = refl
check_checkpoints-All chain (c ∷ cs) h =
    rw (h.0, check_checkpoints) (check_checkpoints-All chain cs h.1)

All-insert_checkpoint {ℓ} :
    (P : Checkpoint → Type ℓ) (c : Checkpoint) (cs : List Checkpoint)
    → P c
    → All P cs
    → All P (insert_checkpoint c cs)
unfolding insert_checkpoint
All-insert_checkpoint P c [] h hs = (h, tt)
All-insert_checkpoint P c (d ∷ cs) h hs = elim (Bool-cases (ltb d.sequence c.sequence)) [
  | inl less ↦ rw (less, insert_checkpoint) (hs.0, All-insert_checkpoint P c cs h hs.1)
  | inr more ↦ rw (more, insert_checkpoint) (h, hs)
]

All-sort_checkpoints {ℓ} :
    (P : Checkpoint → Type ℓ) (cs : List Checkpoint) → All P cs → All P (sort_checkpoints cs)
unfolding sort_checkpoints
All-sort_checkpoints P [] h = tt
All-sort_checkpoints P (c ∷ cs) h =
    All-insert_checkpoint P c (sort_checkpoints cs) h.0 (All-sort_checkpoints P cs h.1)

-- Every scope's checkpoints are found to hold.
pub verify_checkpoints-All :
    (scope : Scope) (id : Option String) (s : AuditStore)
    → All (Holds s.chain) s.checkpoints
    → verify_checkpoints scope id s ≡ none
unfolding verify_checkpoints
verify_checkpoints-All scope id s h =
    check_checkpoints-All s.chain _
      (All-sort_checkpoints (Holds s.chain) _ (All-filter (Holds s.chain) _ s.checkpoints h))

pub Holds-append :
    (chain more : List Block) (c : Checkpoint) → Holds chain c → Holds (chain ++ more) c
Holds-append chain more c h =
    go (find? (λ b. b.sequence == c.sequence) chain)
      (find? (λ b. b.sequence == c.sequence) (chain ++ more))
      (λ b found. find?-append _ chain more b found) h
  where
    go :
        (before after : Option Block)
        → ((b : Block) → before ≡ some b → after ≡ some b)
        → compared before c ≡ none
        → compared after c ≡ none
    go none after keeps k = absurd (cc k)
    go (some b) after keeps k = rw (keeps b refl) k

-- The block that carries a sequence is the one that is found by it.
abbrev pub IsFound : List Block → Block → Type 0
IsFound chain b = find? (λ c. c.sequence == b.sequence) chain ≡ some b

pub find_last-All {ℓ} :
    (P : Block → Type ℓ) (key : Block → ℕ) (bs : List Block) (b : Block)
    → All P bs
    → find_last key bs ≡ some b
    → P b
unfolding find_last
find_last-All P key [] b h e = absurd (cc e)
find_last-All P key (a ∷ bs) b h e = elim (Option-cases (find_last key bs)) [
  | inl empty ↦ subst P (ground (arith, empty)) h.0
  | inr (c, found) ↦ elim (Bool-cases (ltb (key c) (key a))) [
    | inl less ↦ subst P (ground (arith, found, less)) h.0
    | inr more ↦ subst P (ground (arith, found, more)) (find_last-All P key bs c h.1 found)
  ]
]

module _ (p : Platform) where
  above :
      (a : Block) (bs : List Block)
      → IsChain p Scope.global (a ∷ bs)
      → All (λ b. a.sequence < b.sequence) bs
  above a [] c = tt
  above a (b ∷ bs) (self, (n, l, t), c) =
      (omega (arith, n), All-map (λ d h. omega (arith, n, h)) bs (above b bs c))

  pub IsFound-chain : (bs : List Block) → IsChain p Scope.global bs → All (IsFound bs) bs
  IsFound-chain [] c = tt
  IsFound-chain (a ∷ bs) c = (
    ground arith,
    All-map2 (λ d less found. ground (arith, less, found)) bs (above a bs c)
        (IsFound-chain bs (IsChain-tail p Scope.global a bs c)),
  )
