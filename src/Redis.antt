-- ===== src/Redis.antt =====
-- The part of Redis that the voting services share (backend/src/redis/redis.service.ts): locks,
-- counters, the receipts that are kept for five minutes and the cached results. That a key expires
-- after its time to live is not modelled.
pub mod Exclusion
use voting_secure.Base.{
  ℕ, suc, String, Bool, true, false, Option, none, some, get_or, List, [], ◌∷◌, str_eq, opt_eq,
  concat, if◌then◌else◌,
}

-- A key-value part of Redis.
abbrev pub Keys {ℓ} : Type ℓ → Type ℓ
Keys A = String → Option A

unfoldable pub set_key {ℓ} : {A : Type ℓ} → String → A → Keys A → Keys A
set_key key x m k = if str_eq k key then some x else m k

unfoldable pub del_key {ℓ} : {A : Type ℓ} → String → Keys A → Keys A
del_key key m k = if str_eq k key then none else m k

-- What the results of a voting are answered as, and cached as. The text of a snapshot is JSON; what is
-- read back is what was written.
pub record OptionResult : Type 0 where
  pub id : String
  pub text : String
  pub is_dynamic : Bool
  pub vote_count : ℕ

pub record VotingResults : Type 0 where
  pub options : List OptionResult
  pub total_ballots : ℕ
  pub abstentions_count : ℕ
  pub other_total : Option ℕ
  pub dynamic_options : Option (List OptionResult)
  pub is_closed : Bool

pub record Redis : Type 0 where
  pub locks : Keys String
  pub counters : Keys ℕ
  pub trends : Keys ℕ
  pub receipts : Keys (List String)
  pub snapshots : Keys VotingResults

-- INCR and HINCRBY … 1
unfoldable pub increment : String → Keys ℕ → Keys ℕ
unfolding set_key
increment key m = set_key key (suc (get_or (m key) 0)) m

-- SET lockKey token EX ttl NX; false where the key is taken.
unfoldable pub acquire_lock : (lock_key token : String) → Redis → Bool × Redis
unfolding set_key
acquire_lock lock_key token r = elim (r.locks lock_key) [
  | none ↦ (true, record r { locks = set_key lock_key token r.locks })
  | some _ ↦ (false, r)
]

-- The script deletes the key only if it holds the token.
unfoldable pub release_lock : (lock_key token : String) → Redis → Redis
unfolding del_key
release_lock lock_key token r =
    if opt_eq (r.locks lock_key) (some token)
    then record r { locks = del_key lock_key r.locks }
    else r

-- `minute` is the current time, to the minute.
unfoldable pub perform_vote : (minute voting_id : String) → (is_practice : Bool) → Redis → Redis
unfolding increment
perform_vote minute voting_id is_practice r = if is_practice then r else record r {
  counters =
      increment "global:vote_count"
        (increment (concat ("voting:" ∷ voting_id ∷ ":total_votes" ∷ [])) r.counters);
  trends = increment minute r.trends;
}

unfoldable pub set_temporary_receipts : (voting_id user_id : String) → List String → Redis → Redis
unfolding set_key
set_temporary_receipts voting_id user_id hashes r = record r {
  receipts = set_key (concat ("vote_receipts:" ∷ voting_id ∷ ":" ∷ user_id ∷ [])) hashes r.receipts;
}

unfoldable pub del_snapshot : String → Redis → Redis
unfolding del_key
del_snapshot key r = record r { snapshots = del_key key r.snapshots }

unfoldable pub set_snapshot : String → VotingResults → Redis → Redis
unfolding set_key
set_snapshot key results r = record r { snapshots = set_key key results r.snapshots }
