-- ===== src/Groups/Emails.antt =====
-- Which addresses a caller sees (backend/src/groups/groups.service.ts, `maskEmail` and
-- `processMemberEmails`). Lengths count code points, which are UTF-16 units in an ASCII address.
use voting_secure.Base.{
  ℕ, String, Bool, true, false, Option, none, some, List, [], ◌∷◌, map, filter, find?, str_eq,
  opt_eq, ◌==◌, ◌||◌, ltb, if◌then◌else◌, concat, suc,
}
use Prim.Native.Char.{code}
use voting_secure.Access.{Role}
use voting_secure.Groups.{GroupRole, Membership, Group, Account, GroupStore}

-- text.split('@'); the parts are the text before, between and after.
unfoldable pub split_at_sign : String → List String
split_at_sign String.[] = "" ∷ []
split_at_sign (String.◌∷◌ c s) = elim (split_at_sign s) [
  | [] ↦ []
  | part ∷ parts ↦ if code c == 64 then "" ∷ part ∷ parts else String.◌∷◌ c part ∷ parts
]

abbrev pub text_length : String → ℕ
text_length String.[] = 0
text_length (String.◌∷◌ c s) = suc (text_length s)

-- local.substring(0, 2)
abbrev pub first_two : String → String
first_two (String.◌∷◌ c (String.◌∷◌ d s)) = String.◌∷◌ c (String.◌∷◌ d "")
first_two s = s

-- What is left of the address where a part is missing is the address.
abbrev pub masked : String → List String → String
masked email [] = email
masked email (local ∷ []) = email
masked email (local ∷ domain ∷ more) =
    if str_eq local "" || str_eq domain ""
    then email
    else if ltb 2 (text_length local)
    then concat (first_two local ∷ "*******@" ∷ domain ∷ [])
    else concat (local ∷ "*******@" ∷ domain ∷ [])

unfoldable pub mask_email : String → String
unfolding split_at_sign
mask_email email = masked email (split_at_sign email)

-- A member as the caller sees it.
pub record MemberView : Type 0 where
  pub user_id : String
  pub role : GroupRole
  pub email : String

pub record GroupView : Type 0 where
  pub id : String
  pub name : String
  pub creator_id : String
  pub creator_email : String
  pub users : List MemberView

abbrev pub is_admin_role : Option Role → Bool
is_admin_role (some Role.admin) = true
is_admin_role _ = false

abbrev pub sees_full : Option GroupRole → Bool
sees_full (some GroupRole.owner) = true
sees_full (some GroupRole.admin) = true
sees_full _ = false

abbrev pub email_of : String → List Account → String
email_of user_id accounts = elim (find? (λ a. str_eq a.id user_id) accounts) [
  | none ↦ ""
  | some a ↦ a.email
]

-- userMembership?.role among the members of the group
abbrev pub role_of : Option String → List Membership → Option GroupRole
role_of none ms = none
role_of (some id) ms = elim (find? (λ m. str_eq m.user_id id) ms) [
  | none ↦ none
  | some m ↦ some m.role
]

module _ (decrypt : String → String) where
  -- An empty address stays.
  abbrev pub shown : (full self : Bool) → (email : String) → String
  shown full self email =
      if str_eq email ""
      then email
      else if full || self
      then decrypt email
      else mask_email (decrypt email)

  abbrev pub can_see_full : Option String → Option Role → List Membership → Bool
  can_see_full viewer platform_role ms =
      is_admin_role platform_role || sees_full (role_of viewer ms)

  abbrev pub member_view : Bool → Option String → List Account → Membership → MemberView
  member_view full viewer accounts m = record {
    user_id = m.user_id;
    role = m.role;
    email = shown full (opt_eq (some m.user_id) viewer) (email_of m.user_id accounts);
  }

  abbrev pub members_of : String → List Membership → List Membership
  members_of group_id ms = filter (λ m. str_eq m.group_id group_id) ms

  -- `processMemberEmails`
  unfoldable pub process_member_emails :
      (viewer : Option String) (platform_role : Option Role) → Group → GroupStore → GroupView
  unfolding mask_email
  process_member_emails viewer platform_role g s =
      let ms = members_of g.id s.members in
      let full = can_see_full viewer platform_role ms in
      record {
        id = g.id;
        name = g.name;
        creator_id = g.creator_id;
        creator_email =
            shown full (opt_eq (some g.creator_id) viewer) (email_of g.creator_id s.accounts);
        users = map (member_view full viewer s.accounts) ms;
      }

  -- `findMembers`: whoever asks, member or not.
  unfoldable pub find_members :
      String → (viewer : Option String) (platform_role : Option Role) → GroupStore → List MemberView
  unfolding mask_email
  find_members group_id viewer platform_role s =
      let ms = members_of group_id s.members in
      map (member_view (can_see_full viewer platform_role ms) viewer s.accounts) ms
