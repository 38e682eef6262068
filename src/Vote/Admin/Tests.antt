-- ===== src/Vote/Admin/Tests.antt =====
-- Two votings of Ann's group, the first finalized: requests of
-- backend/src/votings/votings.service.ts.
use voting_secure.Base.{true, false, none, some, List, [], ◌∷◌, ◌≡◌, refl, ok, err}
use voting_secure.Groups.{GroupStore, owner, not_a_member}
use voting_secure.Vote.Types.{Voting, VotingOption, VoteState}
use voting_secure.Vote.Guards.{assert_choice_count}
use voting_secure.Vote.Finalize.{count_ballots_by_voting}
use voting_secure.Vote.Tests.{test_platform, test_voting, test_start}
use voting_secure.Vote.Change.{changed}
use voting_secure.Vote.Admin.{
  AdminCall, updates, deletes, may_update, may_change, permitted, administer_all, update_option,
  delete_voting, not_permitted,
}
use voting_secure.Vote.Admin.Others.{Keeps}
use voting_secure.Vote.Admin.Kept.{administer_all-Keeps}
use voting_secure.Vote.Admin.Elsewhere.{find_option, update_option-elsewhere}
use voting_secure.Vote.Admin.Limits.{only_min, update-shuts}

abbrev ann_group : GroupStore
ann_group = record {
  groups = record { id = "g"; name = "Board"; creator_id = "ann" } ∷ [];
  members = record { user_id = "ann"; group_id = "g"; role = owner } ∷ [];
  accounts = [];
  dependents = [];
}

abbrev sealed_voting : Voting
sealed_voting = record test_voting { is_finalized = true; finalized_at = some 120 }

abbrev open_voting : Voting
open_voting = record test_voting { id = "w"; end_at = none }

abbrev sealed_option : VotingOption
sealed_option = record { id = "o"; text = "Yes"; voting_id = "v"; is_dynamic = false }

abbrev two_votings : VoteState
two_votings = record test_start {
  db = record test_start.db { votings = sealed_voting ∷ open_voting ∷ [] };
}

abbrev calls : List AdminCall
calls =
    record { now = 130; commits = true; user_id = "ann"; groups = ann_group; request = deletes "v" }
    ∷ record {
      now = 131;
      commits = true;
      user_id = "ann";
      groups = ann_group;
      request = updates "w" (only_min 2);
    }
    ∷ []

refuses_strangers :
    (delete_voting 130 true "bob" "w" ann_group two_votings).0 ≡ err (not_permitted not_a_member)
unfolding delete_voting
refuses_strangers = refl

administer_all-Keeps_example :
    Keeps "v" two_votings (administer_all test_platform calls two_votings)
administer_all-Keeps_example =
    administer_all-Keeps test_platform calls "v" two_votings sealed_voting refl refl

update_option-elsewhere_example :
    find_option "o"
      (update_option test_platform 130 true "ann" "w" "o" "No" ann_group two_votings).1.db
    ≡ some (record sealed_option { text = "No" })
unfolding may_change count_ballots_by_voting
update_option-elsewhere_example =
    update_option-elsewhere test_platform 130 "ann" "w" "o" "No" ann_group two_votings sealed_option
      refl refl refl

update-shuts_example :
    (may_update "ann" "w" (only_min 2) ann_group two_votings ≡ ok tt)
    × ¬ (assert_choice_count (changed (only_min 2) open_voting) ("o" ∷ []) false ≡ ok tt)
unfolding permitted
update-shuts_example =
    update-shuts "ann" "w" ann_group two_votings open_voting 1 "o" [] refl refl refl refl
