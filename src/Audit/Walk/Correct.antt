-- ===== src/Audit/Walk/Correct.antt =====
-- A walk passes exactly the intact chains.
use voting_secure.Base.{
  ℕ, suc, ◌+◌, ◌≡◌, refl, ap, ◌∙◌, String, true, Option, none, some, List, [], ◌∷◌, length, arith,
  str_eq_iff, opt_eq_iff,
}
use voting_secure.Audit.Types.{Block, Scope}
use voting_secure.Audit.Hash.{Platform, compute_hash, params_of}
use voting_secure.Audit.Store.{number_of, scoped_prev_hash}
use voting_secure.Audit.Walk.{Walk, from_genesis, Outcome, stopped, passed, check_block, walk, gap}
use voting_secure.Audit.Walk.Spec.{IsSelfHashed, Follows, IsChain, IsAnchored}

-- The last block, of one and those after it.
abbrev pub last_of : Block → List Block → Block
last_of a [] = a
last_of a (b ∷ bs) = last_of b bs

module _ (p : Platform) (scope : Scope) where
  -- The loop's variables just behind a block.
  abbrev pub behind : ℕ → Block → Walk
  behind total a = record {
    total_checked = total;
    expected_prev_hash = some a.hash;
    prev_sequence = some (number_of scope a);
    prev_created_at = some a.created_at;
    head_sequence = number_of scope a;
  }

  -- Behind `a`, the body of the loop passes `b` exactly if `b` follows `a` and has its own hash.
  check_block-passed :
      (total : ℕ) (a b : Block)
      → IsSelfHashed p b
      → Follows scope a b
      → check_block p scope true (behind total a) b ≡ passed (behind (suc total) b)
  unfolding check_block
  check_block-passed total a b self (n, l, t) = ground (
    arith,
    str_eq_iff (compute_hash p (params_of b)) b.hash,
    opt_eq_iff (scoped_prev_hash scope b) (some a.hash),
  )

  check_block-inv :
      (total : ℕ) (a b : Block) (w : Walk)
      → check_block p scope true (behind total a) b ≡ passed w
      → IsSelfHashed p b × Follows scope a b × (w ≡ behind (suc total) b)
  unfolding check_block
  check_block-inv total a b w h = ground (
    arith,
    str_eq_iff (compute_hash p (params_of b)) b.hash,
    opt_eq_iff (scoped_prev_hash scope b) (some a.hash),
  )

  IsChain-head : (a : Block) (bs : List Block) → IsChain p scope (a ∷ bs) → IsSelfHashed p a
  IsChain-head a [] c = c
  IsChain-head a (b ∷ bs) c = c.0

  walk-behind :
      (total : ℕ) (a : Block) (bs : List Block)
      → IsChain p scope (a ∷ bs)
      → walk p scope true (behind total a) bs ≡ passed (behind (total + length bs) (last_of a bs))
  unfolding walk
  walk-behind total a [] c = ground arith
  walk-behind total a (b ∷ bs) (self, follows, c) =
      rw (check_block-passed total a b (IsChain-head b bs c) follows, walk)
        (walk-behind (suc total) b bs c
          ∙ ap (λ (n : ℕ). passed (behind n (last_of b bs))) (omega arith))

  walk-behind_inv :
      (total : ℕ) (a : Block) (bs : List Block) (w : Walk)
      → IsSelfHashed p a
      → walk p scope true (behind total a) bs ≡ passed w
      → IsChain p scope (a ∷ bs)
  unfolding walk
  walk-behind_inv total a [] w self h = self
  walk-behind_inv total a (b ∷ bs) w self h =
      go (λ self_b k. walk-behind_inv (suc total) b bs w self_b k)
        (check_block p scope true (behind total a) b) refl h
    where
      go :
          (IsSelfHashed p b
            → walk p scope true (behind (suc total) b) bs ≡ passed w
            → IsChain p scope (b ∷ bs))
          → (o : Outcome) → check_block p scope true (behind total a) b ≡ o
          → (elim o [ stopped n c f ↦ stopped n c f | passed w' ↦ walk p scope true w' bs ])
            ≡ passed w
          → IsChain p scope (a ∷ b ∷ bs)
      go rest (stopped n c f) e k = absurd (cc k)
      go rest (passed w') e k =
          let (self_b, follows, w'-eq) = check_block-inv total a b w' e in
          (self, follows, rest self_b (rw w'-eq at k))

  -- The first block of a walk from genesis. `root` is what precedes number 1, or nothing.
  first-passed :
      (genesis : String) (root : Option ℕ) (a : Block)
      → IsSelfHashed p a
      → scoped_prev_hash scope a ≡ some genesis
      → gap root (number_of scope a) ≡ none
      → check_block p scope true (from_genesis genesis root) a ≡ passed (behind 1 a)
  unfolding check_block
  first-passed genesis root a self link free = ground (
    arith,
    str_eq_iff (compute_hash p (params_of a)) a.hash,
    opt_eq_iff (scoped_prev_hash scope a) (some genesis),
  )

  first-inv :
      (genesis : String) (root : Option ℕ) (a : Block) (w : Walk)
      → check_block p scope true (from_genesis genesis root) a ≡ passed w
      → IsSelfHashed p a
        × (scoped_prev_hash scope a ≡ some genesis)
        × (gap root (number_of scope a) ≡ none)
        × (w ≡ behind 1 a)
  unfolding check_block
  first-inv genesis root a w h = ground (
    arith,
    str_eq_iff (compute_hash p (params_of a)) a.hash,
    opt_eq_iff (scoped_prev_hash scope a) (some genesis),
  )

  pub walk-IsAnchored :
      (genesis : String) (root : Option ℕ) (a : Block) (bs : List Block)
      → IsAnchored p scope genesis (a ∷ bs)
      → gap root (number_of scope a) ≡ none
      → walk p scope true (from_genesis genesis root) (a ∷ bs)
        ≡ passed (behind (length (a ∷ bs)) (last_of a bs))
  unfolding walk
  walk-IsAnchored genesis root a bs (link, c) free =
      rw (first-passed genesis root a (IsChain-head a bs c) link free, walk)
        (walk-behind 1 a bs c ∙ ap (λ (n : ℕ). passed (behind n (last_of a bs))) (omega arith))

  pub walk-IsAnchored_inv :
      (genesis : String) (root : Option ℕ) (a : Block) (bs : List Block) (w : Walk)
      → walk p scope true (from_genesis genesis root) (a ∷ bs) ≡ passed w
      → IsAnchored p scope genesis (a ∷ bs) × (gap root (number_of scope a) ≡ none)
  unfolding walk
  walk-IsAnchored_inv genesis root a bs w h =
      go (check_block p scope true (from_genesis genesis root) a) refl h
    where
      go :
          (o : Outcome)
          → check_block p scope true (from_genesis genesis root) a ≡ o
          → (elim o [ stopped n c f ↦ stopped n c f | passed w' ↦ walk p scope true w' bs ])
            ≡ passed w
          → IsAnchored p scope genesis (a ∷ bs) × (gap root (number_of scope a) ≡ none)
      go (stopped n c f) e k = absurd (cc k)
      go (passed w') e k =
          let (self, link, free, w'-eq) = first-inv genesis root a w' e in
          ((link, walk-behind_inv 1 a bs w self (rw w'-eq at k)), free)
