-- ===== src/Vote/Results/Sealed.antt =====
-- What is told of a voting after it is finalized (backend/src/votings/vote.service.ts, getResults and
-- finalizeVoting).
use voting_secure.Base.{ℕ, String, Bool}
use voting_secure.Audit.Store.{AuditStore}
use voting_secure.Vote.Types.{Tally, VoteState, VotePlatform}
use voting_secure.Vote.Finalize.{option_counts, count_abstentions}

module _ (p : VotePlatform) (now : ℕ) (commits : Bool) (id : String) (audit : AuditStore)
    (s : VoteState) where
  abbrev tally_of : Tally
  tally_of = record { counts = option_counts id s.db; abstentions = count_abstentions id s.db }
