-- ===== src/Audit/Store/Sorting.antt =====
-- The queries that sort: what holds of a sorted list holds of the collection, and a bound on the
-- collection bounds the greatest document.
use voting_secure.Base.{
  ℕ, ◌≤◌, ◌≡◌, some, List, [], ◌∷◌, All, arith, inl, inr, Bool-cases, ltb, Option-cases,
}
use voting_secure.Audit.Types.{Block}
use voting_secure.Audit.Store.{find_last, insert_block, sort_blocks}

module _ (key : Block → ℕ) where
  All-insert_block {ℓ} :
      (P : Block → Type ℓ) (b : Block) (bs : List Block)
      → All P (insert_block key b bs)
      → P b × All P bs
  unfolding insert_block
  All-insert_block P b [] h = h
  All-insert_block P b (c ∷ bs) h = elim (Bool-cases (ltb (key c) (key b))) [
    | inl less ↦
        let (head, tail) = rw less at h in
        let (here, rest) = All-insert_block P b bs tail in (here, (head, rest))
    | inr more ↦ rw more at h
  ]

  pub All-sort_blocks {ℓ} :
      (P : Block → Type ℓ) (bs : List Block) → All P (sort_blocks key bs) → All P bs
  unfolding sort_blocks
  All-sort_blocks P [] h = tt
  All-sort_blocks P (b ∷ bs) h =
      let (here, rest) = All-insert_block P b (sort_blocks key bs) h in
      (here, All-sort_blocks P bs rest)

  pub find_last-le :
      (n : ℕ) (bs : List Block) (m : Block)
      → All (λ b. key b ≤ n) bs
      → find_last key bs ≡ some m
      → key m ≤ n
  unfolding find_last
  find_last-le n [] m h e = cc
  find_last-le n (b ∷ bs) m h e = elim (Option-cases (find_last key bs)) [
    | inl empty ↦ ground (arith, empty)
    | inr (c, found) ↦ ground (arith, found, find_last-le n bs c h.1 found)
  ]
