-- ===== src/Audit/Receipts/Found.antt =====
-- An entry of ballots that is appended has its receipts found
-- (backend/src/audit/audit.service.ts, processAppendInternal and findBallotReceipt).
use native.Mathlib.Nat.{add-zero}
use voting_secure.Base.{
  ◌+◌, length, ℕ, suc, String, Bool, true, false, List, [], ◌∷◌, ◌++◌, find?, any, is_some, ◌≡◌,
  refl, ap, ◌∙◌, sym, Bool-cases, Option-cases, inl, inr, arith, &&_iff,
}
use voting_secure.Audit.Types.{ChainContext, Scope}
use voting_secure.Audit.Hash.{Platform}
use voting_secure.Audit.Store.{AuditStore}
use voting_secure.Audit.Append.{clashes, draw, new_block, process_append_internal}
use voting_secure.Audit.Receipts.{
  append_chain, append_all, Receipt, holds_receipt, receipt_of, process_queue,
}

abbrev pub IsFound : Receipt → Type 0
IsFound r = is_some r.block ≡ true

is_some-find?-append :
    {A : Type 0} (q : A → Bool) (xs : List A) (x : A)
    → q x ≡ true
    → is_some (find? q (xs ++ x ∷ [])) ≡ true
is_some-find?-append q [] x h = rw h refl
is_some-find?-append q (y ∷ xs) x h = elim (Bool-cases (q y)) [
  | inl here ↦ rw here refl
  | inr other ↦ rw other (is_some-find?-append q xs x h)
]

-- An append that is not refused adds its block.
append-chain :
    (p : Platform) (now : ℕ) (ctx : ChainContext) (s : AuditStore)
    → is_some (process_append_internal p now true ctx s).0 ≡ false
    → (process_append_internal p now true ctx s).1.chain
      ≡ s.chain ++ new_block p now ctx (draw ctx s.counters).0 s.chain ∷ []
unfolding process_append_internal
append-chain p now ctx s done =
    elim (Bool-cases
      (any (clashes (new_block p now ctx (draw ctx s.counters).0 s.chain)) s.chain)) [
        | inl twice ↦ absurd (cc (rw (twice, process_append_internal) at done))
        | inr once ↦ rw (once, process_append_internal) refl
      ]

-- The last entry of a queue that was appended throughout was appended.
queue-last :
    (p : Platform) (times : ℕ → ℕ) (k : ℕ) (before : List ChainContext) (ctx : ChainContext)
    (s : AuditStore)
    → (process_queue p times k (before ++ ctx ∷ []) s).0 ≡ true
    → (now : ℕ) × (s0 : AuditStore) × (is_some (process_append_internal p now true ctx s0).0
        ≡ false)
      × ((process_queue p times k (before ++ ctx ∷ []) s).1
          ≡ (process_append_internal p now true ctx s0).1)
unfolding process_queue
queue-last p times k [] ctx s done = (times k, s, ground (arith, done), refl)
queue-last p times k (b ∷ before) ctx s done =
    queue-last p times (suc k) before ctx (process_append_internal p (times k) true b s).1
      ((&&_iff _ _).0 done).1

module _ (entity_id : String) (type : Scope) where
  -- What the last entry of the queue holds is found in the store that the queue leaves.
  pub queue-IsFound :
      (p : Platform) (times : ℕ → ℕ) (before : List ChainContext) (ctx : ChainContext)
      (s : AuditStore) (h : String)
      → ((now : ℕ) (s0 : AuditStore)
          → holds_receipt entity_id type h (new_block p now ctx (draw ctx s0.counters).0 s0.chain)
            ≡ true)
      → (process_queue p times 0 (before ++ ctx ∷ []) s).0 ≡ true
      → IsFound
          (receipt_of entity_id type (process_queue p times 0 (before ++ ctx ∷ []) s).1.chain h)
  queue-IsFound p times before ctx s h holds done =
      let (now, s0, went, same) = queue-last p times 0 before ctx s done in
      let chain = ap (λ (w : AuditStore). w.chain) same ∙ append-chain p now ctx s0 went in
      elim (Option-cases (
        find? (holds_receipt entity_id type h)
          (process_queue p times 0 (before ++ ctx ∷ []) s).1.chain)) [
            | inr (b, there) ↦ rw (receipt_of, there) refl
            | inl gone ↦
                let found_it =
                  is_some-find?-append (holds_receipt entity_id type h) s0.chain
                    (new_block p now ctx (draw ctx s0.counters).0 s0.chain) (holds now s0) in
                absurd (cc (rw (sym chain, gone) at found_it))
          ]

-- A call of `appendChain` that the queue takes puts its entry at the end.
pub append_all-last :
    (takes : ℕ → Bool) (k : ℕ) (before : List ChainContext) (ctx : ChainContext)
    (queue : List ChainContext)
    → takes (k + length before) ≡ true
    → append_all takes k (before ++ ctx ∷ []) queue ≡ append_all takes k before queue ++ ctx ∷ []
unfolding append_all
append_all-last takes k [] ctx queue taken =
    let now : takes k ≡ true = ap takes (sym (add-zero k)) ∙ taken in rw now refl
append_all-last takes k (b ∷ before) ctx queue taken =
    append_all-last takes (suc k) before ctx (append_chain (takes k) b queue)
      (ap takes (index (length before)) ∙ taken)
  where
    index : (n : ℕ) → suc k + n ≡ k + suc n
    index n = omega arith
