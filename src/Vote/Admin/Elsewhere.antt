-- ===== src/Vote/Admin/Elsewhere.antt =====
-- The option that a request renames need not be of the voting that it names
-- (backend/src/votings/votings.service.ts, updateOption).
use voting_secure.Base.{
  ℕ, String, true, Option, none, some, List, [], ◌∷◌, any, find?, str_eq, ◌≡◌, refl, ap, ◌∙◌, ok,
  Bool-cases, inl, inr,
}
use voting_secure.Groups.{GroupStore}
use voting_secure.Vote.Types.{VotingOption, Database, VoteState, VotePlatform}
use voting_secure.Vote.Finalize.{count_ballots_by_voting}
use voting_secure.Vote.Change.{rename_option}
use voting_secure.Vote.Admin.{may_change, update_option}
use voting_secure.Vote.Admin.Others.{notified-options}

abbrev pub find_option : String → Database → Option VotingOption
find_option id db = find? (λ o. str_eq o.id id) db.options

find-rename_option :
    (id text : String) (os : List VotingOption) {o : VotingOption}
    → find? (λ w. str_eq w.id id) os ≡ some o
    → find? (λ w. str_eq w.id id) (rename_option id text os) ≡ some (record o { text = text })
unfolding rename_option
find-rename_option id text [] h = absurd (cc h)
find-rename_option id text (w ∷ ws) h = elim (Bool-cases (str_eq w.id id)) [
  | inl here ↦
      rw (here, here)
        (ap
          (λ (x : Option VotingOption). elim x [
            | none ↦ none
            | some y ↦ some (record y { text = text })
          ])
          (rw here at h))
  | inr other ↦ rw (other, other) (find-rename_option id text ws (rw other at h))
]

found_any :
    (id : String) (os : List VotingOption) {o : VotingOption}
    → find? (λ w. str_eq w.id id) os ≡ some o
    → any (λ w. str_eq w.id id) os ≡ true
found_any id [] h = absurd (cc h)
found_any id (w ∷ ws) h = elim (Bool-cases (str_eq w.id id)) [
  | inl here ↦ rw here refl
  | inr other ↦ rw other (found_any id ws (rw other at h))
]

-- Let a user be permitted to change a voting in which no ballot is cast. Then a request that names that
-- voting changes the text of any option that is there, of whatever voting, also of one that is
-- finalized or in which ballots are cast.
pub update_option-elsewhere :
    (p : VotePlatform) (now : ℕ) (user k option text : String) (g : GroupStore) (s : VoteState)
    (o : VotingOption)
    → may_change user k g s ≡ ok tt
    → count_ballots_by_voting k s.db ≡ 0
    → find_option option s.db ≡ some o
    → find_option option (update_option p now true user k option text g s).1.db
      ≡ some (record o { text = text })
unfolding update_option
update_option-elsewhere p now user k option text g s o allowed none_cast there =
    let s1 : VoteState = record s {
      db = record s.db { options = rename_option option text s.db.options };
    } in
    rw (update_option, allowed, none_cast, found_any option s.db.options there)
      (ap (λ (os : List VotingOption). find? (λ w. str_eq w.id option) os)
          (notified-options p now k s1)
        ∙ find-rename_option option text s.db.options there)
