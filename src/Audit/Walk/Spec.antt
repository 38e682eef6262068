-- ===== src/Audit/Walk/Spec.antt =====
-- What an intact chain is, said of neighbouring blocks only: every block carries the hash of its own
-- fields, and every block follows the one before it in number, link and time.
use voting_secure.Base.{suc, ◌≤◌, ◌≡◌, String, some, List, [], ◌∷◌}
use voting_secure.Audit.Types.{Block, Scope}
use voting_secure.Audit.Hash.{Platform, compute_hash, params_of}
use voting_secure.Audit.Store.{number_of, scoped_prev_hash}

abbrev pub IsSelfHashed : Platform → Block → Type 0
IsSelfHashed p b = compute_hash p (params_of b) ≡ b.hash

-- `b` comes directly after `a` in the scope.
abbrev pub Follows : Scope → Block → Block → Type 0
Follows scope a b =
    (number_of scope b ≡ suc (number_of scope a))
    × (scoped_prev_hash scope b ≡ some a.hash)
    × (a.created_at ≤ b.created_at)

abbrev pub IsChain : Platform → Scope → List Block → Type 0
IsChain p scope [] = Unit
IsChain p scope (a ∷ []) = IsSelfHashed p a
IsChain p scope (a ∷ b ∷ bs) = IsSelfHashed p a × Follows scope a b × IsChain p scope (b ∷ bs)

-- The first block is linked to the scope's genesis hash.
abbrev pub IsAnchored : Platform → Scope → String → List Block → Type 0
IsAnchored p scope genesis [] = Unit
IsAnchored p scope genesis (a ∷ bs) =
    (scoped_prev_hash scope a ≡ some genesis) × IsChain p scope (a ∷ bs)

-- The chain's first block has number 1 and is linked to the scope's genesis hash.
abbrev pub IsRooted : Platform → Scope → String → List Block → Type 0
IsRooted p scope genesis [] = Unit
IsRooted p scope genesis (a ∷ bs) =
    (number_of scope a ≡ 1) × (scoped_prev_hash scope a ≡ some genesis) × IsChain p scope (a ∷ bs)
