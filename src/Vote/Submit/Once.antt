-- ===== src/Vote/Submit/Once.antt =====
-- A token is spent by a vote, for as long as no signature is asked for with it again
-- (backend/src/votings/vote.service.ts).
use voting_secure.Base.{
  ◌≡◌, sym, subst, ap, ◌∙◌, String, false, not, none, List, [], ◌∷◌, find?-filter_out, find?-kept,
  str_eq, Result, ok, inl, inr,
}
use voting_secure.Vote.Types.{VoteState, VotePlatform, find_pending_ballot}
use voting_secure.Vote.Guards.{VoteError, VoteRequest, hash_token}
use voting_secure.Vote.Cast.{Outside, Voted}
use voting_secure.Vote.Submit.{vote}
use voting_secure.Vote.Submit.Outcome.{IsUntouched, IsUnrecorded, vote-Outcome}

ok_injective : {x y : String} → ◌≡◌ {A = Result VoteError String} (ok x) (ok y) → x ≡ y
ok_injective e = cc

-- One call of `vote`: what the outside answers, the request and the user.
pub record VoteCall : Type 0 where
  pub outside : Outside
  pub request : VoteRequest
  pub user : String

abbrev pub vote_all : VotePlatform → List VoteCall → VoteState → VoteState
vote_all p [] s = s
vote_all p (c ∷ cs) s = vote_all p cs (vote p c.outside c.request c.user s).1

module _ (p : VotePlatform) where
  -- No vote brings a pending ballot back.
  vote-spent :
      (h : String) (out : Outside) (req : VoteRequest) (user : String) (s : VoteState)
      → find_pending_ballot h s.db ≡ none
      → find_pending_ballot h (vote p out req user s).1.db ≡ none
  vote-spent h out req user s gone = elim (vote-Outcome p out req user s) [
    | inl (same, unrecorded) ↦ rw same.0 gone
    | inr k ↦ rw k.pending (
        find?-kept (λ b. str_eq b.token_hash h) (λ b. not (str_eq b.token_hash k.adm.token_hash))
          s.db.pending_ballots gone)
  ]

  vote_all-spent :
      (h : String) (calls : List VoteCall) (s : VoteState)
      → find_pending_ballot h s.db ≡ none
      → find_pending_ballot h (vote_all p calls s).db ≡ none
  vote_all-spent h [] s gone = gone
  vote_all-spent h (c ∷ cs) s gone =
      vote_all-spent h cs _ (vote-spent h c.outside c.request c.user s gone)

  -- A recorded vote leaves no pending ballot for its token.
  recorded-spent :
      (out : Outside) (req : VoteRequest) (user : String) (s : VoteState) (v : Voted)
      → (vote p out req user s).0 ≡ ok v
      → v.is_practice ≡ false
      → (h : String) × (hash_token p req.token ≡ ok h)
        × (find_pending_ballot h (vote p out req user s).1.db ≡ none)
  recorded-spent out req user s v done real = elim (vote-Outcome p out req user s) [
    | inl (same, unrecorded) ↦ absurd (cc (subst IsUnrecorded done unrecorded, real))
    | inr k ↦ (
      k.adm.token_hash,
      k.admitted.token_hashed,
      rw k.pending
          (find?-filter_out (λ b. str_eq b.token_hash k.adm.token_hash) s.db.pending_ballots),
    )
  ]

  spent-refused :
      (out : Outside) (req : VoteRequest) (user h : String) (s : VoteState)
      → hash_token p req.token ≡ ok h
      → find_pending_ballot h s.db ≡ none
      → IsUntouched s (vote p out req user s).1 × IsUnrecorded (vote p out req user s).0
  spent-refused out req user h s hashed gone = elim (vote-Outcome p out req user s) [
    | inl k ↦ k
    | inr k ↦
        let equal = ok_injective (sym hashed ∙ k.admitted.token_hashed) in
        absurd (cc (gone, k.admitted.is_pending, equal))
  ]

  -- After a vote that is recorded, and whatever votes come after it, a vote with the same token, by
  -- whoever and for whatever, is not recorded, leaves the database as it is and does not call the
  -- audit service. This holds as long as nothing but votes comes in between: asking for a signature
  -- with the token again makes it pending again.
  pub vote-once :
      (out out' : Outside) (req req' : VoteRequest) (user user' : String) (s : VoteState)
      (v : Voted) (between : List VoteCall)
      → (vote p out req user s).0 ≡ ok v
      → v.is_practice ≡ false
      → req'.token ≡ req.token
      → IsUntouched
          (vote_all p between (vote p out req user s).1)
          (vote p out' req' user' (vote_all p between (vote p out req user s).1)).1
        × IsUnrecorded (vote p out' req' user' (vote_all p between (vote p out req user s).1)).0
  vote-once out out' req req' user user' s v between done real same =
      let (h, hashed, gone) = recorded-spent out req user s v done real in
      spent-refused out' req' user' h (vote_all p between (vote p out req user s).1)
        (ap (hash_token p) same ∙ hashed) (vote_all-spent h between _ gone)
