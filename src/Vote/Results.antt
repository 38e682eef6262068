-- ===== src/Vote/Results.antt =====
-- What is told of a voting's results: `getResults` and `getSealedResult`
-- (backend/src/votings/vote.service.ts). Failures of Redis are not modelled here.
pub mod Sealed
use voting_secure.Base.{
  ℕ, ◌+◌, ◌*◌, String, Bool, true, false, not, Option, none, some, get_or, List, map, find?, filter,
  is_some, str_eq, ◌||◌, ◌&&◌, ltb, concat, [], ◌∷◌, if◌then◌else◌, Result, ok, err, ◌>>=◌, found,
  sum_by,
}
use voting_secure.Redis.{OptionResult, VotingResults, set_snapshot}
use voting_secure.Vote.Types.{
  Voting, VotingOption, VotingResult, Tally, Database, VoteState, VotePlatform, find_voting,
}
use voting_secure.Vote.Guards.{VoteError, after}
use voting_secure.Vote.Guards
use voting_secure.Vote.Finalize.{ballots_for, options_of, count_abstentions}

abbrev pub snapshot_key : String → String
snapshot_key id = concat ("results:snapshot:" ∷ id ∷ [])

-- Each option with the votes that `count` gives it.
unfoldable pub option_results : (count : String → ℕ) → List VotingOption → List OptionResult
option_results count options =
    map
      (λ o. record { id = o.id; text = o.text; is_dynamic = o.is_dynamic; vote_count = count o.id })
      options

abbrev pub static_of : List OptionResult → List OptionResult
static_of rs = filter (λ r. not r.is_dynamic) rs

abbrev pub dynamic_of : List OptionResult → List OptionResult
dynamic_of rs = filter (λ r. r.is_dynamic) rs

abbrev pub votes_of : List OptionResult → ℕ
votes_of rs = sum_by (λ r. r.vote_count) rs

-- The options that voters added are told only where the voting allows them.
abbrev pub results_of :
    (is_closed : Bool) → Voting → List OptionResult → (total abstentions : ℕ) → VotingResults
results_of is_closed v rs total abstentions = record {
  options = static_of rs;
  total_ballots = total;
  abstentions_count = abstentions;
  other_total = if v.allow_other then some (votes_of (dynamic_of rs)) else none;
  dynamic_options = if v.allow_other then some (dynamic_of rs) else none;
  is_closed = is_closed;
}

-- Counted from the ballots.
unfoldable pub live_results : (is_closed : Bool) → Voting → String → Database → VotingResults
unfolding option_results ballots_for count_abstentions
live_results is_closed v id db =
    let rs = option_results (λ o. ballots_for o db.ballots) (options_of id db) in
    let abstentions = count_abstentions id db in
    results_of is_closed v rs (votes_of (static_of rs) + votes_of (dynamic_of rs) + abstentions)
      abstentions

-- votingResult.findUnique({ where: { votingId } })
abbrev pub find_result : String → Database → Option VotingResult
find_result id db = find? (λ r. str_eq r.voting_id id) db.results

-- tally.options?.[o.id] || 0
unfoldable pub count_in : List (String × ℕ) → String → ℕ
count_in [] id = 0
count_in (c ∷ cs) id = if str_eq c.0 id then c.1 else count_in cs id

-- A text that does not parse is left as it is, which has no counts.
abbrev pub read_or_empty : Option Tally → Tally
read_or_empty none = record { counts = []; abstentions = 0 }
read_or_empty (some t) = t

-- updateVoting(votingId, { lastBroadcastAt })
unfoldable pub mark_broadcast : (now : ℕ) → String → List Voting → List Voting
mark_broadcast now id vs =
    map (λ v. if str_eq v.id id then record v { last_broadcast_at = some now } else v) vs

-- The hour that the next broadcast is due.
abbrev pub next_broadcast : Voting → ℕ
next_broadcast v = get_or v.last_broadcast_at v.created_at + v.broadcast_interval * 3600000

-- Counted afresh; cached until the voting is closed.
abbrev pub answer_live :
    (is_closed : Bool) → Voting → String → VoteState → Result VoteError VotingResults × VoteState
answer_live is_closed v id s =
    let results = live_results is_closed v id s.db in
    (
      ok results,
      (if is_closed
          then s
          else record s { redis = set_snapshot (snapshot_key id) results s.redis }),
    )

-- Between two broadcasts what is cached is told; the first count after a broadcast is due marks it.
abbrev pub answer_broadcast :
    (now : ℕ) → Voting → String → VoteState → Result VoteError VotingResults × VoteState
answer_broadcast now v id s =
    if ltb now (next_broadcast v)
    then elim (s.redis.snapshots (snapshot_key id)) [
      | some results ↦ (ok results, s)
      | none ↦ answer_live false v id s
    ]
    else answer_live false v id
        (record s { db = record s.db { votings = mark_broadcast now id s.db.votings } })

module _ (p : VotePlatform) where
  unfoldable pub get_sealed_result : String → Database → Result VoteError (VotingResult × Tally)
  get_sealed_result id db = do
    r ← found (find_result id db) Guards.not_finalized
    text ← found (p.decrypt r.tally) Guards.unreadable
    ok (r, read_or_empty (p.read_tally text))

  -- The sealed results of a voting that is finalized; `none` where they cannot be fetched.
  unfoldable pub sealed_results :
      (is_closed : Bool) → Voting → String → Database → Option VotingResults
  unfolding get_sealed_result option_results count_in
  sealed_results is_closed v id db = elim (get_sealed_result id db) [
    | err e ↦ none
    | ok (r, t) ↦
        if v.is_finalized
        then some (
            results_of is_closed v (option_results (count_in t.counts) (options_of id db))
              r.total_ballots t.abstentions)
        else none
  ]

  unfoldable pub get_results :
      (now : ℕ) (force_fresh : Bool)
      → String
      → VoteState
      → Result VoteError VotingResults × VoteState
  unfolding sealed_results live_results set_snapshot mark_broadcast
  get_results now force_fresh id s = elim (find_voting id s.db) [
    | none ↦ (err Guards.voting_not_found, s)
    | some v ↦ elim (sealed_results (after now v.end_at) v id s.db) [
      | some results ↦ (ok results, s)
      | none ↦
          if after now v.end_at
          then answer_live true v id s
          else if force_fresh
          then answer_live false v id s
          else answer_broadcast now v id s
    ]
  ]
