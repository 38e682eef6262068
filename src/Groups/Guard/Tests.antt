-- ===== src/Groups/Guard/Tests.antt =====
-- A moderator's request about a voting of the group.
use voting_secure.Base.{◌≡◌, ◌↔◌, refl, true, false, none, some, List, [], ◌∷◌, ok}
use voting_secure.Access.{Role, patch}
use voting_secure.Groups.{owner, admin, moderator, Membership}
use voting_secure.Groups.Guard.{RouteRequest, Owners, group_role_guard}
use voting_secure.Groups.Guard.Admits.{Admits, group_role_guard-Admits_iff}

abbrev voting_of_board : Owners
voting_of_board = record { voting_group = λ id. some "g"; survey_group = λ id. none }

abbrev bob : List Membership
bob = record { user_id = "bob"; group_id = "g"; role = moderator } ∷ []

abbrev patch_voting : RouteRequest
patch_voting = record {
  user = some ("bob", Role.user);
  method = patch;
  group_id = none;
  voting_id = none;
  survey_id = none;
  id = some "v";
  of_votings = true;
  of_surveys = false;
}

passes : group_role_guard (admin ∷ moderator ∷ []) false voting_of_board bob patch_voting ≡ ok tt
unfolding group_role_guard
passes = refl

group_role_guard-Admits_iff_example :
    (group_role_guard (owner ∷ []) true voting_of_board bob patch_voting ≡ ok tt)
    ↔ Admits (owner ∷ []) true voting_of_board bob patch_voting
group_role_guard-Admits_iff_example =
    group_role_guard-Admits_iff (owner ∷ []) true voting_of_board bob patch_voting
