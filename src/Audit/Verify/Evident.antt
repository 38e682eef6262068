-- ===== src/Audit/Verify/Evident.antt =====
-- Tamper evidence: two chains that verify and end in the same hash hold the same texts under their
-- hashes, unless two of their blocks hold different texts with one digest.
use text.Mathlib.TextLemmas.{cons-append, head-eq_of_cons-eq, tail-eq_of_cons-eq}
use voting_secure.Base.{
  ℕ, suc, ◌≡◌, ◌≢◌, refl, sym, subst, ap, ap₂, ◌∙◌, String, true, none, List, [], ◌∷◌, length,
  arith, ◌<>◌, str_eq, str_eq_iff, Bool-cases, inl, inr, ◌⊎◌,
}
use voting_secure.Audit.Types.{Block, Scope}
use voting_secure.Audit.Hash.{Platform, params_of, hash_data, compute_hash}
use voting_secure.Audit.Store.{AuditStore, number_of, sort_blocks}
use voting_secure.Audit.Walk.Spec.{IsSelfHashed, IsChain, IsAnchored}
use voting_secure.Audit.Walk.Correct.{last_of}
use voting_secure.Audit.Verify.{verify_chain}
use voting_secure.Audit.Verify.Full.{is_valid}
use voting_secure.Audit.Verify.Intact.{verify_chain-full_iff}

-- The number of characters of a text.
unfoldable pub size : String → ℕ
size String.[] = 0
size (String.◌∷◌ c s) = suc (size s)

prefix_same : (x y t u : String) → size x ≡ size y → x <> t ≡ y <> u → x ≡ y
unfolding size
prefix_same String.[] String.[] t u s e = refl
prefix_same String.[] (String.◌∷◌ d y) t u s e = absurd (omega (arith, s))
prefix_same (String.◌∷◌ c x) String.[] t u s e = absurd (omega (arith, s))
prefix_same (String.◌∷◌ c x) (String.◌∷◌ d y) t u s e =
    let joined = sym (cons-append c x t) ∙ e ∙ cons-append d y u in
    ap₂ String.◌∷◌ (head-eq_of_cons-eq joined)
      (prefix_same x y t u (omega (arith, s)) (tail-eq_of_cons-eq joined))

-- Two blocks with different texts under their hashes, of one digest.
abbrev pub Collide : Platform → Block → Block → Type 0
Collide p a b =
    (hash_data p (params_of a) ≢ hash_data p (params_of b))
    × (p.sha256 (hash_data p (params_of a)) ≡ p.sha256 (hash_data p (params_of b)))

-- Blocks that collide, at one position of two chains.
abbrev pub HasCollision : Platform → List Block → List Block → Type 0
HasCollision p (a ∷ as') (b ∷ bs) = Collide p a b ⊎ HasCollision p as' bs
HasCollision p _ _ = ⊥

-- The texts under two chains' hashes are the same, block by block.
abbrev pub IsSameText : Platform → List Block → List Block → Type 0
IsSameText p [] [] = Unit
IsSameText p (a ∷ as') (b ∷ bs) =
    (hash_data p (params_of a) ≡ hash_data p (params_of b)) × IsSameText p as' bs
IsSameText p _ _ = ⊥

module _ (p : Platform) (digits : ℕ) (digest_size : (x : String) → size (p.sha256 x) ≡ digits) where
  hash-text :
      (a b : Block)
      → IsSelfHashed p a
      → IsSelfHashed p b
      → a.hash ≡ b.hash
      → (hash_data p (params_of a) ≡ hash_data p (params_of b)) ⊎ Collide p a b
  unfolding compute_hash
  hash-text a b self_a self_b same =
      elim (Bool-cases (str_eq (hash_data p (params_of a)) (hash_data p (params_of b)))) [
        | inl equal ↦ inl ((str_eq_iff _ _).0 equal)
        | inr other ↦ inr (λ e. cc (other, (str_eq_iff _ _).1 e), self_a ∙ same ∙ sym self_b)
      ]

  -- A digest is the first thing that a block's text holds.
  link-text :
      (a b : Block) (x y : String)
      → a.prev_hash ≡ p.sha256 x
      → b.prev_hash ≡ p.sha256 y
      → hash_data p (params_of a) ≡ hash_data p (params_of b)
      → a.prev_hash ≡ b.prev_hash
  unfolding hash_data
  link-text a b x y ea eb e =
      prefix_same a.prev_hash b.prev_hash _ _
        (ap size ea ∙ digest_size x ∙ sym (digest_size y) ∙ ap size (sym eb)) e

  evident :
      (a b : Block) (as' bs : List Block)
      → IsChain p Scope.global (a ∷ as')
      → IsChain p Scope.global (b ∷ bs)
      → length as' ≡ length bs
      → (last_of a as').hash ≡ (last_of b bs).hash
      → IsSameText p (a ∷ as') (b ∷ bs) ⊎ HasCollision p (a ∷ as') (b ∷ bs)
  unfolding compute_hash
  evident a b [] [] ca cb l same = elim (hash-text a b ca cb same) [
    | inl text ↦ inl (text, tt)
    | inr collision ↦ inr (inl collision)
  ]
  evident a b [] (y ∷ bs) ca cb l same = absurd (omega (arith, l))
  evident a b (x ∷ as') [] ca cb l same = absurd (omega (arith, l))
  evident a b (x ∷ as') (y ∷ bs) (self_a, (na, la, ta), ca) (self_b, (nb, lb, tb), cb) l same =
      elim (evident x y as' bs ca cb (omega (arith, l)) same) [
        | inr collision ↦ inr (inr collision)
        | inl texts ↦
            let prev_a : x.prev_hash ≡ a.hash = cc la in
            let prev_b : y.prev_hash ≡ b.hash = cc lb in
            let linked =
              link-text x y (hash_data p (params_of a)) (hash_data p (params_of b))
                (prev_a ∙ sym self_a) (prev_b ∙ sym self_b) texts.0 in
            elim (hash-text a b self_a self_b (sym prev_a ∙ linked ∙ prev_b)) [
              | inr collision ↦ inr (inl collision)
              | inl text ↦ inl (text, texts)
            ]
      ]

  -- Let digests have a fixed number of characters, let the full verifications of two stores be valid,
  -- and let their chains have the same number of blocks and end in blocks of the same hash. Then the
  -- chains hold the same texts under their hashes, block by block, or at some position their blocks
  -- hold two different texts with one digest. This is about the texts that are hashed: it does not say
  -- that the blocks' other fields are the same, nor the values that were serialized.
  pub verify_chain-evident :
      (now now' : ℕ) (s s' : AuditStore) (a b : Block) (as' bs : List Block)
      → is_valid (verify_chain p now none true s).0 ≡ true
      → is_valid (verify_chain p now' none true s').0 ≡ true
      → sort_blocks (number_of Scope.global) s.chain ≡ a ∷ as'
      → sort_blocks (number_of Scope.global) s'.chain ≡ b ∷ bs
      → length as' ≡ length bs
      → (last_of a as').hash ≡ (last_of b bs).hash
      → IsSameText p (a ∷ as') (b ∷ bs) ⊎ HasCollision p (a ∷ as') (b ∷ bs)
  verify_chain-evident now now' s s' a b as' bs valid valid' e e' l same =
      evident a b as' bs
        (subst (IsAnchored p Scope.global (p.sha256 p.genesis_seed)) e
          ((verify_chain-full_iff p now s).0 valid).1).1
        (subst (IsAnchored p Scope.global (p.sha256 p.genesis_seed)) e'
          ((verify_chain-full_iff p now' s').0 valid').1).1
        l same
