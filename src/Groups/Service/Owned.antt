-- ===== src/Groups/Service/Owned.antt =====
-- The invariant of the groups: each membership is of a group that is there, and only the group's
-- creator is its OWNER.
use voting_secure.Base.{
  String, true, false, not, Option, none, some, List, [], ◌∷◌, ◌++◌, filter, is_some, str_eq,
  str_eq_iff, str_eq_refl, ◌≡◌, refl, sym, ap, ◌∙◌, if◌then◌else◌, Bool-cases, inl, inr, arith, All,
  All-map, All-append, All-filter, All-filter_kept, All-of_map, find?-append, find?-append_new,
  find?-All, find?-filter, &&_iff,
}
use voting_secure.Access.{Role}
use voting_secure.Groups.{
  GroupRole, Membership, Group, GroupStore, is_owner, is_of, find_membership, find_group,
}
use voting_secure.Groups.Service.{
  new_members, add_members, remove_members, set_role, Request, perform_all,
}
use voting_secure.Groups.Service.Steps.{
  Step, kept, created, added, removed, role_set, emptied, deleted, perform-Step,
}

abbrev pub Placed : List Group → Membership → Type 0
Placed gs m =
    (g : Group) × (find_group m.group_id gs ≡ some g)
    × (is_owner m.role ≡ true → m.user_id ≡ g.creator_id)

abbrev pub IsOwned : GroupStore → Type 0
IsOwned s = All (Placed s.groups) s.members

-- The group of a membership that is found is there.
find_membership-Placed :
    (user_id group_id : String) (gs : List Group) (ms : List Membership) {m : Membership}
    → All (Placed gs) ms
    → find_membership user_id group_id ms ≡ some m
    → (g : Group) × (find_group group_id gs ≡ some g)
unfolding find_membership
find_membership-Placed user_id group_id gs ms {m} placed e =
    let ((g, there, own), here) = find?-All (Placed gs) (is_of user_id group_id) ms placed e in
    let same = (str_eq_iff m.group_id group_id).0 ((&&_iff _ _).0 here).1 in
    (g, ap (λ (i : String). find_group i gs) (sym same) ∙ there)

new_members-Placed :
    (g : Group) (gs : List Group) (ids : List String)
    → find_group g.id gs ≡ none
    → All (Placed (gs ++ g ∷ [])) (new_members g.id g.creator_id ids)
unfolding find_group
new_members-Placed g gs [] free = tt
new_members-Placed g gs (id ∷ ids) free = (
  (
    g,
    find?-append_new (λ h. str_eq h.id g.id) gs g free (str_eq_refl g.id),
    λ own. ground (arith, str_eq_iff id g.creator_id, own),
  ),
  new_members-Placed g gs ids free,
)

add_members-Placed :
    (gs : List Group) (g : Group) (group_id : String) (ids : List String) (ms : List Membership)
    → find_group group_id gs ≡ some g
    → All (Placed gs) ms
    → All (Placed gs) (add_members group_id ids ms)
unfolding add_members
add_members-Placed gs g group_id [] ms there placed = placed
add_members-Placed gs g group_id (id ∷ ids) ms there placed =
    add_members-Placed gs g group_id ids _ there
      (elim (Bool-cases (is_some (find_membership id group_id ms))) [
        | inl old ↦ rw old placed
        | inr new ↦ rw new (All-append (Placed gs) ms _ placed ((g, there, λ own. cc own), tt))
      ])

set_role-Placed :
    (gs : List Group) (id group_id : String) (role : GroupRole) (ms : List Membership)
    → is_owner role ≡ false
    → All (Placed gs) ms
    → All (Placed gs) (set_role id group_id role ms)
unfolding set_role
set_role-Placed gs id group_id role ms low placed =
    All-of_map (Placed gs) _ ms (All-map keep ms placed)
  where
    keep :
        (m : Membership)
        → Placed gs m
        → Placed gs (if is_of id group_id m then record m { role = role } else m)
    keep m (g, there, own) = elim (Bool-cases (is_of id group_id m)) [
      | inl here ↦ rw here (g, there, λ o. cc (low, o))
      | inr other ↦ rw other (g, there, own)
    ]

Placed-append :
    (gs : List Group) (g : Group) (m : Membership) → Placed gs m → Placed (gs ++ g ∷ []) m
unfolding find_group
Placed-append gs g m (h, there, own) =
    (h, find?-append (λ k. str_eq k.id m.group_id) gs (g ∷ []) h there, own)

-- A deleted group is not that of a membership that stays.
Placed-filter :
    (gs : List Group) (group_id : String) (m : Membership)
    → Placed gs m × (not (str_eq m.group_id group_id) ≡ true)
    → Placed (filter (λ g. not (str_eq g.id group_id)) gs) m
unfolding find_group
Placed-filter gs group_id m ((g, there, own), other) = (
  g,
  find?-filter (λ h. str_eq h.id m.group_id) (λ h. not (str_eq h.id group_id)) gs
        (λ h e. ground (
          arith,
          str_eq_iff h.id m.group_id,
          str_eq_iff h.id group_id,
          str_eq_iff m.group_id group_id,
          e,
          other,
        ))
      ∙ there,
  own,
)

pub none_of : {A : Type 0} (o : Option A) → is_some o ≡ false → o ≡ none
none_of none h = refl
none_of (some a) h = cc

pub Step-IsOwned : {caller : String} {s s' : GroupStore} → Step caller s s' → IsOwned s → IsOwned s'
unfolding remove_members
Step-IsOwned kept h = h
Step-IsOwned {s = s} (created g ids ds own free) h =
    All-append _ s.members _ (All-map (Placed-append s.groups g) s.members h)
      (new_members-Placed g s.groups ids (none_of _ free))
Step-IsOwned {caller} {s} (added group_id ids holds) h =
    let (g, there) = find_membership-Placed caller group_id s.groups s.members h holds.is_member in
    add_members-Placed s.groups g group_id ids s.members there h
Step-IsOwned {s = s} (removed group_id ids holds) h = All-filter _ _ s.members h
Step-IsOwned {s = s} (role_set id group_id role g holds low there other) h =
    set_role-Placed s.groups id group_id role s.members low h
Step-IsOwned {s = s} (emptied group_id holds) h = All-filter _ _ s.members h
Step-IsOwned {s = s} (deleted group_id holds) h =
    All-map (Placed-filter s.groups group_id) _ (All-filter_kept _ _ s.members h)

-- If in the beginning each membership is of a group that is there and only the group's creator is its
-- OWNER, then so it is after any sequence of requests, whoever makes them.
pub perform_all-IsOwned :
    (decrypt : String → String) (qs : List (String × Option Role × Request)) (s : GroupStore)
    → IsOwned s
    → IsOwned (perform_all decrypt qs s)
unfolding perform_all
perform_all-IsOwned decrypt [] s h = h
perform_all-IsOwned decrypt ((caller, role, q) ∷ qs) s h =
    perform_all-IsOwned decrypt qs _ (Step-IsOwned (perform-Step decrypt caller role s q) h)
