-- ===== src/Groups/Service/Tests.antt =====
-- Ann's group, in which Bob is a moderator and Cat a member.
use voting_secure.Base.{String, ◌≡◌, refl, true, none, some, List, [], ◌∷◌, err, Option}
use voting_secure.Access.{Role}
use voting_secure.Groups.{
  Group, GroupRole, owner, admin, moderator, member, GroupStore, GroupError, no_permission,
}
use voting_secure.Groups
use voting_secure.Groups.Emails.{GroupView, mask_email}
use voting_secure.Groups.Service.{
  Request, creates, adds, removes, changes_role, remove_users, change_user_role, delete, perform,
  perform_all,
}
use voting_secure.Groups.Service.Steps.{Step, perform-Step}
use voting_secure.Groups.Service.Owned.{IsOwned, perform_all-IsOwned}
use voting_secure.Groups.Service.Locked.{remove_users-locks}

abbrev own_text : String → String
own_text t = t

abbrev board : Group
board = record { id = "g"; name = "Board"; creator_id = "ann" }

abbrev test_store : GroupStore
test_store = record {
  groups = board ∷ [];
  members =
      record { user_id = "ann"; group_id = "g"; role = owner }
      ∷ record { user_id = "bob"; group_id = "g"; role = moderator }
      ∷ record { user_id = "cat"; group_id = "g"; role = member }
      ∷ [];
  accounts =
      record { id = "ann"; email = "anna@x.org" }
      ∷ record { id = "bob"; email = "bo@x.org" }
      ∷ record { id = "cat"; email = "" }
      ∷ [];
  dependents = [];
}

mask_runs : mask_email "anna@x.org" ≡ "an*******@x.org"
unfolding mask_email
mask_runs = refl

mask_short_runs : mask_email "bo@x.org" ≡ "bo*******@x.org"
unfolding mask_email
mask_short_runs = refl

-- A member may not add.
add_runs : (perform own_text "cat" none (adds "g" ("dan" ∷ [])) test_store) ≡ test_store
unfolding perform
add_runs = refl

-- A moderator may make itself an admin.
promote_runs :
    (change_user_role own_text "bob" "g" admin (some "bob") none test_store).1.members
    ≡ record { user_id = "ann"; group_id = "g"; role = owner }
      ∷ record { user_id = "bob"; group_id = "g"; role = admin }
      ∷ record { user_id = "cat"; group_id = "g"; role = member }
      ∷ []
unfolding change_user_role
promote_runs = refl

delete_runs : (delete "ann" "g" test_store).1.members ≡ []
unfolding delete
delete_runs = refl

test_store-IsOwned : IsOwned test_store
unfolding Groups.find_group
test_store-IsOwned =
    ((board, refl, λ e. refl), ((board, refl, λ e. cc e), ((board, refl, λ e. cc e), tt)))

abbrev later_requests : List (String × Option Role × Request)
later_requests =
    ("bob", none, adds "g" ("ann" ∷ [])) ∷ ("bob", none, changes_role "g" admin (some "cat")) ∷ []

abbrev without_ann : GroupView
without_ann = record {
  id = "g";
  name = "Board";
  creator_id = "ann";
  creator_email = "an*******@x.org";
  users =
      record { user_id = "bob"; role = moderator; email = "bo@x.org" }
      ∷ record { user_id = "cat"; role = member; email = "" }
      ∷ [];
}

perform-Step_example :
    Step "bob" test_store (perform own_text "bob" none (removes "g" ("ann" ∷ [])) test_store)
perform-Step_example = perform-Step own_text "bob" none test_store (removes "g" ("ann" ∷ []))

perform_all-IsOwned_example : IsOwned (perform_all own_text later_requests test_store)
perform_all-IsOwned_example =
    perform_all-IsOwned own_text later_requests test_store test_store-IsOwned

remove_users-locks_example :
    (e : GroupError) × (delete "ann" "g" (
        perform_all own_text later_requests
          (remove_users own_text "bob" "g" ("ann" ∷ []) none test_store).1)
      ≡ (
        err e,
        perform_all own_text later_requests
            (remove_users own_text "bob" "g" ("ann" ∷ []) none test_store).1,
      ))
unfolding remove_users Groups.find_group
remove_users-locks_example =
    remove_users-locks "g" own_text "bob" ("ann" ∷ []) none test_store board without_ann
      test_store-IsOwned refl refl refl later_requests "ann"

-- Whoever creates a group takes the votings that it names out of their groups.
takes_votings_runs :
    (perform own_text "cat" none
      (creates "h" "Mine" ("anna@x.org" ∷ []) ("v" ∷ []))
      (record test_store {
        dependents = record { id = "v"; group_id = "g"; is_voting = true } ∷ [];
      })).dependents
    ≡ record { id = "v"; group_id = "h"; is_voting = true } ∷ []
unfolding perform
takes_votings_runs = refl
