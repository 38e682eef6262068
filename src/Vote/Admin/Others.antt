-- ===== src/Vote/Admin/Others.antt =====
-- What a change of one voting leaves of the others, and what the guards of the administration let pass
-- (backend/src/votings/votings.service.ts).
use voting_secure.Base.{
  ℕ, String, true, false, not, some, List, [], ◌∷◌, find?, is_some, str_eq, str_eq_iff, ltb, ◌&&◌,
  ◌≡◌, ◌⊎◌, refl, sym, ap, subst, ◌∙◌, ok, Result-cases, Option-cases, Bool-cases, inl, inr,
  >>=-eq-ok, guard, guard-ok, found, found-ok,
}
use voting_secure.Groups.{GroupStore}
use voting_secure.Vote.Types.{Voting, Database, VoteState, VotePlatform, find_voting}
use voting_secure.Vote.Guards.{after}
use voting_secure.Vote.Results.{
  snapshot_key, sealed_results, next_broadcast, mark_broadcast, get_results,
}
use voting_secure.Vote.Change.{VotingChange, change_voting}
use voting_secure.Vote.Admin.{
  AdminError, permitted, may_create, create_voting, may_update, may_change, delete_voting, notified,
  update_voting_settings, update_option, AdminRequest, creates, updates, renames, deletes,
  AdminCall, administer, administer_all,
}
use voting_secure.Vote.Admin

-- What a step leaves of a voting: its row, all ballots and all results.
abbrev pub Keeps : (id : String) → VoteState → VoteState → Type 0
Keeps id s s' =
    (find_voting id s'.db ≡ find_voting id s.db)
    × (s'.db.ballots ≡ s.db.ballots)
    × (s'.db.results ≡ s.db.results)

abbrev pub SameVoting : (id : String) → List Voting → List Voting → Type 0
SameVoting id vs ws =
    find? (λ v. str_eq v.id id && not (is_some v.deleted_at)) vs
    ≡ find? (λ v. str_eq v.id id && not (is_some v.deleted_at)) ws

-- A change of one voting keeps the others.
pub change_voting-other :
    (k id : String) (f : Voting → Voting) (vs : List Voting)
    → ((v : Voting) → (f v).id ≡ v.id)
    → str_eq k id ≡ false
    → SameVoting id (change_voting k f vs) vs
unfolding change_voting
change_voting-other k id f [] keep other = refl
change_voting-other k id f (v ∷ vs) keep other = elim (Bool-cases (str_eq v.id k)) [
  | inr miss ↦ let rest = change_voting-other k id f vs keep other in rw miss (rw rest refl)
  | inl hit ↦
      let not_it : str_eq v.id id ≡ false =
        ap (λ (i : String). str_eq i id) ((str_eq_iff v.id k).0 hit) ∙ other in
      rw (hit, ap (λ (i : String). str_eq i id) (keep v) ∙ not_it, not_it)
        (change_voting-other k id f vs keep other)
]

-- Telling the results changes no row but the mark of the voting's broadcast.
pub get_results-db :
    (p : VotePlatform) (now : ℕ) (k : String) (s : VoteState)
    → ((get_results p now false k s).1.db ≡ s.db)
      ⊎ ((get_results p now false k s).1.db
          ≡ record s.db { votings = mark_broadcast now k s.db.votings })
unfolding get_results
get_results-db p now k s = elim (Option-cases (find_voting k s.db)) [
  | inl gone ↦ rw (gone, get_results) (inl refl)
  | inr (v, there) ↦ elim (Option-cases (sealed_results p (after now v.end_at) v k s.db)) [
    | inr (results, final) ↦ rw (there, final, get_results) (inl refl)
    | inl running ↦ elim (Bool-cases (after now v.end_at)) [
      | inl closed ↦ rw (there, running, closed, get_results) (inl refl)
      | inr still ↦ elim (Bool-cases (ltb now (next_broadcast v))) [
        | inr due ↦ rw (there, running, still, due, get_results) (inr refl)
        | inl early ↦ elim (Option-cases (s.redis.snapshots (snapshot_key k))) [
          | inl none_cached ↦ rw (there, running, still, early, none_cached, get_results) (inl refl)
          | inr (results, cached) ↦
              rw (there, running, still, early, cached, get_results) (inl refl)
        ]
      ]
    ]
  ]
]

-- The state that a notification leaves is that of the results.
notified-db :
    (p : VotePlatform) (now : ℕ) (k : String) (s : VoteState)
    → (notified p now k s).1 ≡ (get_results p now false k s).1
notified-db p now k s = elim (Result-cases (get_results p now false k s).0) [
  | inr (e, failed) ↦ rw (notified, failed) refl
  | inl (r, fine) ↦ rw (notified, fine) refl
]

pub notified-options :
    (p : VotePlatform) (now : ℕ) (k : String) (s : VoteState)
    → (notified p now k s).1.db.options ≡ s.db.options
notified-options p now k s =
    ap (λ (w : VoteState). w.db.options) (notified-db p now k s) ∙ elim (get_results-db p now k s) [
      | inl same ↦ ap (λ (d : Database). d.options) same
      | inr marked ↦ ap (λ (d : Database). d.options) marked
    ]

pub notified-Keeps :
    (p : VotePlatform) (now : ℕ) (k id : String) (s : VoteState)
    → str_eq k id ≡ false
    → Keeps id s (notified p now k s).1
unfolding mark_broadcast change_voting
notified-Keeps p now k id s other =
    subst (λ (w : VoteState). Keeps id s w) (sym (notified-db p now k s))
      (elim (get_results-db p now k s) [
        | inl same ↦ subst Kept (sym same) (refl, refl, refl)
        | inr marked ↦ subst Kept (sym marked) (
          change_voting-other k id (λ w. record w { last_broadcast_at = some now }) s.db.votings
              (λ w. refl) other,
          refl,
          refl,
        )
      ])
  where
    Kept : Database → Type 0
    Kept d =
        (find_voting id d ≡ find_voting id s.db)
        × (d.ballots ≡ s.db.ballots)
        × (d.results ≡ s.db.results)

-- A voting that passes the guards is there and not finalized.
abbrev pub IsOpen : String → VoteState → Type 0
IsOpen k s = (v : Voting) × (find_voting k s.db ≡ some v) × (not v.is_finalized ≡ true)

pub may_change-IsOpen :
    (user k : String) (g : GroupStore) (s : VoteState) {u : Unit {0}}
    → may_change user k g s ≡ ok u
    → IsOpen k s
unfolding may_change
may_change-IsOpen user k g s done =
    let (v, e1, h1) = >>=-eq-ok (found (find_voting k s.db) Admin.voting_missing) _ done in
    let (u2, e2, h2) = >>=-eq-ok (permitted user v.group_id g) _ h1 in
    (v, found-ok _ _ e1, guard-ok _ _ _ h2)

pub may_update-IsOpen :
    (user k : String) (c : VotingChange) (g : GroupStore) (s : VoteState) {u : Unit {0}}
    → may_update user k c g s ≡ ok u
    → IsOpen k s
unfolding may_update
may_update-IsOpen user k c g s done =
    let (v, e1, h1) = >>=-eq-ok (found (find_voting k s.db) Admin.voting_missing) _ done in
    let (u2, e2, h2) = >>=-eq-ok (permitted user v.group_id g) _ h1 in
    let (u3, e3, h3) = >>=-eq-ok (guard (not v.is_finalized) Admin.is_final) _ h2 in
    (v, found-ok _ _ e1, guard-ok _ _ _ e3)

pub open-other :
    (k id : String) (s : VoteState) (v : Voting)
    → find_voting id s.db ≡ some v
    → v.is_finalized ≡ true
    → IsOpen k s
    → str_eq k id ≡ false
open-other k id s v there final (w, here, running) = elim (Bool-cases (str_eq k id)) [
  | inr other ↦ other
  | inl same ↦
      let here' : find_voting id s.db ≡ some w =
        subst (λ (i : String). find_voting i s.db ≡ some w) ((str_eq_iff k id).0 same) here in
      let equal : v ≡ w = cc (sym there ∙ here') in absurd (cc (equal, final, running))
]

pub Keeps-Keeps :
    (id : String) (s1 s2 s3 : VoteState) → Keeps id s1 s2 → Keeps id s2 s3 → Keeps id s1 s3
Keeps-Keeps id s1 s2 s3 (a, b, c) (d, e, f) = (d ∙ a, e ∙ b, f ∙ c)
