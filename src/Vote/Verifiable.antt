-- ===== src/Vote/Verifiable.antt =====
-- A voter can check that the ballots of a vote are in the audit chain: from `vote`
-- (backend/src/votings/vote.service.ts) through the audit queue (backend/src/audit/audit.processor.ts)
-- to `findBallotReceipt` (backend/src/audit/audit.service.ts).
use native.Mathlib.Nat.{zero-add}
use voting_secure.Base.{
  length, Bool, ap, ◌∙◌, ℕ, String, true, false, List, [], ◌∷◌, ◌++◌, All, All-map, All-of_map,
  str_eq_refl, opt_eq_refl, some, ◌≡◌, refl, subst, ok, inl, inr, arith,
}
use voting_secure.Audit.Types.{Scope}
use voting_secure.Audit.Hash.{Platform}
use voting_secure.Audit.Store.{AuditStore}
use voting_secure.Audit.Append.{draw, new_block}
use voting_secure.Audit.Receipts.{
  items_hold, many, holds_receipt, receipt_of, find_ballot_receipt, hash_list, process_queue,
  append_all,
}
use voting_secure.Audit.Receipts.Found.{IsFound, queue-IsFound, append_all-last}
use voting_secure.Vote.Types.{Voting, VoteState, VotePlatform}
use voting_secure.Vote.Guards.{VoteRequest}
use voting_secure.Vote.Cast.{Outside, Voted, texts, hashes, ballot_cast}
use voting_secure.Vote.Submit.{vote}
use voting_secure.Vote.Submit.Outcome.{IsUnrecorded, IsRecordedAnswer, vote-Outcome}

items_hold-texts : (hs : List String) → All (λ h. items_hold h (texts hs) ≡ true) hs
items_hold-texts [] = tt
items_hold-texts (h ∷ hs) =
    (rw (str_eq_refl h) refl, All-map (λ x e. ground (arith, e)) hs (items_hold-texts hs))

-- The entry of a vote, once it is appended, is found under each of its receipts.
ballot_cast-holds :
    (p : Platform) (req : VoteRequest) (v : Voting) (hs : List String) (h : String)
    → items_hold h (texts hs) ≡ true
    → (now : ℕ) (s : AuditStore)
    → holds_receipt req.voting_id Scope.voting h
        (new_block p now (ballot_cast req v hs) (draw (ballot_cast req v hs) s.counters).0 s.chain)
      ≡ true
unfolding new_block
ballot_cast-holds p req v hs h held now s =
    rw (holds_receipt, opt_eq_refl (some req.voting_id), held) refl

-- Let a vote be answered with receipts, not for practice, let the queue take the entry that the vote
-- hands to the audit service, and let all that the queue took be appended, by the worker, without an
-- error. Then every receipt is found in the chain of the voting.
pub vote-receipts :
    (p : VotePlatform) (out : Outside) (req : VoteRequest) (user : String) (s : VoteState)
    (v : Voted) (q : Platform) (takes : ℕ → Bool) (times : ℕ → ℕ) (audit : AuditStore)
    → (vote p out req user s).0 ≡ ok v
    → v.is_practice ≡ false
    → takes (length s.appended) ≡ true
    → (process_queue q times 0 (append_all takes 0 (vote p out req user s).1.appended []) audit).0
      ≡ true
    → All IsFound (
        find_ballot_receipt req.voting_id
          (many v.receipts)
          Scope.voting
          (process_queue q times 0
            (append_all takes 0 (vote p out req user s).1.appended [])
            audit).1)
unfolding find_ballot_receipt hash_list
vote-receipts p out req user s v q takes times audit done real taken appended =
    elim (vote-Outcome p out req user s) [
      | inl (same, unrecorded) ↦ absurd (cc (subst IsUnrecorded done unrecorded, real))
      | inr k ↦
          let answered = (subst (IsRecordedAnswer (hashes k.all)) done k.answered).0 in
          let entry = ballot_cast req k.adm.voting (hashes k.all) in
          let before = append_all takes 0 s.appended [] in
          let queued : append_all takes 0 (vote p out req user s).1.appended []
              ≡ before ++ entry ∷ [] =
            rw k.entry
              (append_all-last takes 0 s.appended entry [] (ap takes (zero-add _) ∙ taken)) in
          let went = rw queued at appended in
          rw (queued, answered)
            (All-of_map IsFound
              (receipt_of req.voting_id Scope.voting
                (process_queue q times 0 (before ++ entry ∷ []) audit).1.chain)
              (hashes k.all)
              (All-map
                (λ h held.
                  queue-IsFound req.voting_id Scope.voting q times before entry audit h
                    (ballot_cast-holds q req k.adm.voting (hashes k.all) h held) went)
                (hashes k.all) (items_hold-texts (hashes k.all))))
    ]
