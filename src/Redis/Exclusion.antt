-- ===== src/Redis/Exclusion.antt =====
-- The lock of redis.service.ts excludes: between an acquisition and its holder's release nobody else
-- acquires, and nobody else's release frees it.
use voting_secure.Base.{◌≡◌, ◌≢◌, refl, String, false, some, List, [], ◌∷◌, arith, str_eq_iff, All}
use voting_secure.Redis.{Redis, acquire_lock, release_lock}

-- What clients do with one lock, each with a token of its own.
pub data LockCall : Type 0 where
  acquires : String → LockCall
  releases : String → LockCall

abbrev pub token_of : LockCall → String
token_of (acquires t) = t
token_of (releases t) = t

-- The calls in their order; how many acquisitions were granted is counted by `granted`.
unfoldable pub run : String → List LockCall → Redis → Redis
unfolding acquire_lock release_lock
run key [] r = r
run key (acquires t ∷ calls) r = run key calls (acquire_lock key t r).1
run key (releases t ∷ calls) r = run key calls (release_lock key t r)

-- Every acquisition among the calls is refused.
abbrev pub AllRefused : String → List LockCall → Redis → Type 0
AllRefused key [] r = Unit
AllRefused key (acquires t ∷ calls) r =
    ((acquire_lock key t r).0 ≡ false) × AllRefused key calls (acquire_lock key t r).1
AllRefused key (releases t ∷ calls) r = AllRefused key calls (release_lock key t r)

acquire_held :
    (key owner t : String) (r : Redis)
    → r.locks key ≡ some owner
    → acquire_lock key t r ≡ (false, r)
unfolding acquire_lock
acquire_held key owner t r h = rw (h, acquire_lock) refl

release_other :
    (key owner t : String) (r : Redis)
    → r.locks key ≡ some owner
    → t ≢ owner
    → release_lock key t r ≡ r
unfolding release_lock
release_other key owner t r h ne = ground (arith, h, str_eq_iff owner t)

-- While a token holds the lock, calls with other tokens, however many and in whatever order, leave
-- Redis as it is, and every acquisition among them is refused.
pub held-excludes :
    (key owner : String) (calls : List LockCall) (r : Redis)
    → r.locks key ≡ some owner
    → All (λ c. token_of c ≢ owner) calls
    → (run key calls r ≡ r) × AllRefused key calls r
unfolding run
held-excludes key owner [] r h others = (refl, tt)
held-excludes key owner (acquires t ∷ calls) r h others =
    let (same, refused) = held-excludes key owner calls r h others.1 in
    rw (acquire_held key owner t r h) (same, (refl, refused))
held-excludes key owner (releases t ∷ calls) r h others =
    let (same, refused) = held-excludes key owner calls r h others.1 in
    rw (release_other key owner t r h others.0) (same, refused)
