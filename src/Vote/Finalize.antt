-- ===== src/Vote/Finalize.antt =====
-- Counting and sealing: `findOptionsWithBallotCounts`, `countAbstentions`, `countBallotsByVoting` and
-- `finalizeVoting` (backend/src/votings/vote.service.ts, backend/src/votings/votings.repository.ts).
-- The audit store is that of the audit service, which the call asks for the voting's status.
pub mod Tally
pub mod Closed
use voting_secure.Base.{
  ℕ, ◌+◌, String, Bool, true, false, not, Option, none, some, List, [], ◌∷◌, ◌++◌, map, is_some,
  any, str_eq, opt_eq, ◌&&◌, if◌then◌else◌, Result, ok, err, ◌>>=◌, ◌>>◌, guard, found, filter,
  length, concat, join, number_text, ◌<>◌,
}
use voting_secure.Audit.Types.{ChainAction, ChainContext, Value, Fields, Scope}
use voting_secure.Audit.Store.{AuditStore}
use voting_secure.Audit.Status.{AuditStatus, get_audit_status}
use voting_secure.Vote.Types.{
  Voting, VotingOption, Ballot, VotingResult, Database, VoteState, VotePlatform, find_voting,
}
use voting_secure.Vote.Guards.{VoteError, before}
use voting_secure.Vote.Guards

-- _count: { ballots }
unfoldable pub ballots_for : String → List Ballot → ℕ
ballots_for option_id ballots = length (filter (λ b. opt_eq b.option_id (some option_id)) ballots)

abbrev pub options_of : String → Database → List VotingOption
options_of voting_id db = filter (λ o. str_eq o.voting_id voting_id) db.options

abbrev pub ballots_of : String → Database → List Ballot
ballots_of voting_id db = filter (λ b. str_eq b.voting_id voting_id) db.ballots

-- findMany({ where: { votingId } }), each option with its count.
unfoldable pub option_counts : String → Database → List (String × ℕ)
unfolding ballots_for
option_counts voting_id db =
    map (λ o. (o.id, ballots_for o.id db.ballots)) (options_of voting_id db)

unfoldable pub count_abstentions : String → Database → ℕ
count_abstentions voting_id db = length (filter (λ b. b.is_abstention) (ballots_of voting_id db))

unfoldable pub count_ballots_by_voting : String → Database → ℕ
count_ballots_by_voting voting_id db = length (ballots_of voting_id db)

-- JSON.stringify(tally). An option's id is a UUID, which needs no escapes.
abbrev quoted : String → String
quoted t = "\"" <> (t <> "\"")

abbrev pub tally_json : List (String × ℕ) → ℕ → String
tally_json counts abstentions = concat (
    "{\"options\":{"
    ∷ join "," (map (λ c. concat (quoted c.0 ∷ ":" ∷ number_text c.1 ∷ [])) counts)
    ∷ "},\"abstentionsCount\":"
    ∷ number_text abstentions
    ∷ "}"
    ∷ [])

pub record Sealed : Type 0 where
  pub tally_hash : String
  pub total_ballots : ℕ
  pub sealed_at : ℕ
  pub counts : List (String × ℕ)
  pub abstentions : ℕ

-- payload of VOTING_RESULT_SEALED
abbrev pub result_sealed : (tally_hash : String) (total blocks_checked : ℕ) → Voting → ChainContext
result_sealed tally_hash total blocks_checked voting = record {
  action = ChainAction.voting_result_sealed;
  payload = Value.obj (
      Fields.field "tallyHash" (Value.text tally_hash) (
        Fields.field "totalBallots" (Value.num total) (
          Fields.field "chainVerified" (Value.bool true)
            (Fields.field "chainBlocksChecked" (Value.num blocks_checked) Fields.end))));
  user_id = none;
  group_id = some voting.group_id;
  voting_id = some voting.id;
  survey_id = none;
}

-- voting.update({ isFinalized, finalizedAt })
abbrev pub finalized : ℕ → Voting → Voting
finalized now v = record v { is_finalized = true; finalized_at = some now }

unfoldable pub update_voting : ℕ → String → List Voting → List Voting
update_voting now id [] = []
update_voting now id (v ∷ vs) =
    if str_eq v.id id
    then finalized now v ∷ update_voting now id vs
    else v ∷ update_voting now id vs

-- The transaction: the voting is marked and its result created; a voting has one result.
unfoldable pub seal :
    (now : ℕ) (commits : Bool) → String → VotingResult → Database → Result VoteError Database
unfolding update_voting
seal now commits voting_id result db = do
  guard (not (any (λ r. str_eq r.voting_id voting_id) db.results)) Guards.write_failed
  guard commits Guards.write_failed
  ok (record db {
    votings = update_voting now voting_id db.votings;
    results = db.results ++ result ∷ [];
  })

module _ (p : VotePlatform) where
  -- The gate: the voting is there, not finalized, over, and its audit chain is secure.
  unfoldable pub may_finalize :
      (now : ℕ) → String → AuditStatus → Database → Result VoteError Voting
  may_finalize now voting_id status db = do
    voting ← found (find_voting voting_id db) Guards.voting_not_found
    guard (not voting.is_finalized) Guards.already_finalized
    guard (not (before now voting.end_at)) Guards.not_ended
    guard status.is_secure Guards.not_secure
    ok voting

  abbrev pub seal_of : (now : ℕ) → String → Database → Sealed
  seal_of now voting_id db =
      let counts = option_counts voting_id db in
      let abstentions = count_abstentions voting_id db in
      let total = count_ballots_by_voting voting_id db in
      record {
        tally_hash = p.sha256 (tally_json counts abstentions <> number_text total);
        total_ballots = total;
        sealed_at = now;
        counts = counts;
        abstentions = abstentions;
      }

  abbrev pub result_of : String → Sealed → VotingResult
  result_of voting_id sealed = record {
    voting_id = voting_id;
    tally = p.encrypt (tally_json sealed.counts sealed.abstentions);
    total_ballots = sealed.total_ballots;
    tally_hash = sealed.tally_hash;
    sealed_at = sealed.sealed_at;
  }

  unfoldable pub finalize_voting :
      (now : ℕ) (commits : Bool)
      → String
      → AuditStore
      → VoteState
      → Result VoteError Sealed × VoteState
  unfolding get_audit_status may_finalize option_counts count_abstentions count_ballots_by_voting
      seal
  finalize_voting now commits voting_id audit s =
      let status = get_audit_status now Scope.voting (some voting_id) audit in
      elim (may_finalize now voting_id status s.db) [
        | err e ↦ (err e, s)
        | ok voting ↦
            let sealed = seal_of now voting_id s.db in
            elim (seal now commits voting_id (result_of voting_id sealed) s.db) [
              | err e ↦ (err e, s)
              | ok db ↦ (
                ok sealed,
                record s {
                  db = db;
                  appended =
                      s.appended
                      ++ result_sealed sealed.tally_hash sealed.total_ballots
                          status.last_verified_sequence voting
                        ∷ [];
                },
              )
            ]
      ]
