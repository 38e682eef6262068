-- ===== src/Audit/Walk/Extend.antt =====
-- Intact chains as the queries see them: already sorted, the last block is the greatest, and a
-- block that follows it extends the chain.
use voting_secure.Base.{
  suc, ◌+◌, ◌≤◌, ◌≡◌, refl, String, some, List, [], ◌∷◌, ◌++◌, length, All, arith, le→not-ltb,
}
use voting_secure.Audit.Types.{Block, Scope}
use voting_secure.Audit.Hash.{Platform}
use voting_secure.Audit.Store.{number_of, scoped_prev_hash, find_last, insert_block, sort_blocks}
use voting_secure.Audit.Walk.Spec.{IsSelfHashed, Follows, IsChain, IsRooted}
use voting_secure.Audit.Walk.Correct.{last_of}

-- The hash that the next block is linked to.
abbrev pub head_hash : String → List Block → String
head_hash genesis [] = genesis
head_hash genesis (a ∷ bs) = (last_of a bs).hash

module _ (p : Platform) (scope : Scope) where
  pub IsChain-tail : (a : Block) (bs : List Block) → IsChain p scope (a ∷ bs) → IsChain p scope bs
  IsChain-tail a [] c = tt
  IsChain-tail a (b ∷ bs) c = c.2

  -- Numbers go up by one.
  pub number-last :
      (a : Block) (bs : List Block)
      → IsChain p scope (a ∷ bs)
      → number_of scope (last_of a bs) ≡ number_of scope a + length bs
  number-last a [] c = omega arith
  number-last a (b ∷ bs) (self, (n, l, t), c) = omega (arith, number-last b bs c, n)

  pub find_last-chain :
      (a : Block) (bs : List Block)
      → IsChain p scope (a ∷ bs)
      → find_last (number_of scope) (a ∷ bs) ≡ some (last_of a bs)
  unfolding find_last
  find_last-chain a [] c = refl
  find_last-chain a (b ∷ bs) (self, (n, l, t), c) =
      ground (arith, find_last-chain b bs c, number-last b bs c)

  pub sort_blocks-chain :
      (bs : List Block) → IsChain p scope bs → sort_blocks (number_of scope) bs ≡ bs
  unfolding sort_blocks
  sort_blocks-chain [] c = refl
  sort_blocks-chain (a ∷ []) c = refl
  sort_blocks-chain (a ∷ b ∷ bs) (self, (n, l, t), c) =
      rw (sort_blocks-chain (b ∷ bs) c)
        (rw (le→not-ltb (number_of scope b) (number_of scope a) (omega (arith, n)), insert_block))

  -- No number of a chain exceeds its last block's.
  pub All-le-last :
      (a : Block) (bs : List Block)
      → IsChain p scope (a ∷ bs)
      → All (λ b. number_of scope b ≤ number_of scope (last_of a bs)) (a ∷ bs)
  All-le-last a [] c = (omega arith, tt)
  All-le-last a (b ∷ bs) (self, (n, l, t), c) =
      let rest = All-le-last b bs c in (omega (arith, n, rest.0), rest)

  IsChain-append :
      (a : Block) (bs : List Block) (b : Block)
      → IsChain p scope (a ∷ bs)
      → IsSelfHashed p b
      → Follows scope (last_of a bs) b
      → IsChain p scope (a ∷ bs ++ b ∷ [])
  IsChain-append a [] b c self follows = (c, follows, self)
  IsChain-append a (x ∷ bs) b (sa, fx, c) self follows =
      (sa, fx, IsChain-append x bs b c self follows)

  last_of-All :
      (P : Block → Type 0) (a : Block) (bs : List Block) → All P (a ∷ bs) → P (last_of a bs)
  last_of-All P a [] h = h.0
  last_of-All P a (b ∷ bs) h = last_of-All P b bs h.1

  -- A block whose number is one more than the chain is long, linked to the chain's last hash,
  -- hashed as its fields say and not earlier than any block before it, extends a rooted chain.
  pub IsRooted-append :
      (genesis : String) (bs : List Block) (b : Block)
      → IsRooted p scope genesis bs
      → IsSelfHashed p b
      → number_of scope b ≡ suc (length bs)
      → scoped_prev_hash scope b ≡ some (head_hash genesis bs)
      → All (λ c. c.created_at ≤ b.created_at) bs
      → IsRooted p scope genesis (bs ++ b ∷ [])
  IsRooted-append genesis [] b r self n l t = (n, l, self)
  IsRooted-append genesis (a ∷ bs) b (one, link, c) self n l t = (
    one,
    link,
    IsChain-append a bs b c self (
      omega (arith, n, one, number-last a bs c),
      l,
      last_of-All (λ c. c.created_at ≤ b.created_at) a bs t,
    ),
  )
