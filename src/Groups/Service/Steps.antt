-- ===== src/Groups/Service/Steps.antt =====
-- The changes that the groups service makes, as a step relation: who may make each, and what it does
-- to groups and members. Invariants are proved of the steps.
use voting_secure.Base.{
  String, Bool, true, false, not, Option, some, List, [], ◌∷◌, ◌++◌, filter, any, is_some, str_eq,
  ◌≡◌, refl, sym, ◌||◌, if◌then◌else◌, Result, ok, err, >>=-eq-ok, guard-ok, found-ok, guard, found,
  Bool-cases, Option-cases, Result-cases, inl, inr, arith,
}
use voting_secure.Access.{Role}
use voting_secure.Groups.{
  GroupRole, owner, admin, moderator, member, Membership, Group, Dependent, GroupStore, GroupError,
  is_owner, is_manager, includes, find_membership, find_group, check_admin_permission,
  get_user_ids_by_emails, permit,
}
use voting_secure.Groups
use voting_secure.Groups.Emails.{GroupView}
use voting_secure.Groups.Service.{
  new_members, are_votings, connect, add_members, remove_members, set_role, answer, create,
  add_users, remove_users, may_change_role, change_user_role, delete, Request, creates, adds,
  removes, changes_role, deletes, perform, unless_err,
}

-- The caller is a member of the group, with a role that passes.
pub record Holds (passes : GroupRole → Bool) (caller group_id : String) (s : GroupStore)
    : Type 0 where
  pub membership : Membership
  pub is_member : find_membership caller group_id s.members ≡ some membership
  pub passed : passes membership.role ≡ true

abbrev pub manages : GroupRole → Bool
manages role = is_owner role || is_manager role

pub data Step (caller : String) (s : GroupStore) : GroupStore → Type 0 where
  kept : Step caller s s
  created :
      (g : Group) (ids : List String) (ds : List Dependent)
      → g.creator_id ≡ caller
      → is_some (find_group g.id s.groups) ≡ false
      → Step caller s (record s {
        groups = s.groups ++ g ∷ [];
        members = s.members ++ new_members g.id g.creator_id ids;
        dependents = ds;
      })
  added :
      (group_id : String) (ids : List String)
      → Holds manages caller group_id s
      → Step caller s (record s { members = add_members group_id ids s.members })
  removed :
      (group_id : String) (ids : List String)
      → Holds manages caller group_id s
      → Step caller s (record s { members = remove_members group_id ids s.members })
  role_set :
      (id group_id : String) (role : GroupRole) (g : Group)
      → Holds manages caller group_id s
      → is_owner role ≡ false
      → find_group group_id s.groups ≡ some g
      → str_eq id g.creator_id ≡ false
      → Step caller s (record s { members = set_role id group_id role s.members })
  emptied :
      (group_id : String)
      → Holds is_owner caller group_id s
      → Step caller s
          (record s { members = filter (λ m. not (str_eq m.group_id group_id)) s.members })
  deleted :
      (group_id : String)
      → Holds is_owner caller group_id s
      → Step caller s (record s {
        members = filter (λ m. not (str_eq m.group_id group_id)) s.members;
        groups = filter (λ g. not (str_eq g.id group_id)) s.groups;
      })

not-true : (b : Bool) → not b ≡ true → b ≡ false
not-true true h = cc
not-true false h = refl

left_false : (a b : Bool) → (a || b) ≡ false → a ≡ false
left_false true b h = cc
left_false false b h = refl

permit-manages : (r : GroupRole) (u : Unit {0}) → permit false r ≡ ok u → manages r ≡ true
permit-manages r u h = ground arith

permit-owner : (r : GroupRole) (u : Unit {0}) → permit true r ≡ ok u → is_owner r ≡ true
permit-owner r u h = ground arith

module _ (caller group_id : String) (s : GroupStore) where
  check-Holds :
      (u : Unit {0})
      → check_admin_permission caller group_id false s ≡ ok u
      → Holds manages caller group_id s
  unfolding check_admin_permission
  check-Holds u h =
      let (m, e, e') =
        >>=-eq-ok (found (find_membership caller group_id s.members) Groups.not_a_member) _ h in
      record { membership = m; is_member = found-ok _ _ e; passed = permit-manages m.role u e' }

  pub check-Holds_owner :
      (u : Unit {0})
      → check_admin_permission caller group_id true s ≡ ok u
      → Holds is_owner caller group_id s
  unfolding check_admin_permission
  check-Holds_owner u h =
      let (m, e, e') =
        >>=-eq-ok (found (find_membership caller group_id s.members) Groups.not_a_member) _ h in
      record { membership = m; is_member = found-ok _ _ e; passed = permit-owner m.role u e' }

module _ (decrypt : String → String) (caller : String) (role : Option Role) (s : GroupStore) where
  answer-Step :
      (id : String) {t : GroupStore}
      → Step caller s t
      → Step caller s (answer decrypt id caller role t).1
  answer-Step id {t} st = elim (Option-cases (find_group id t.groups)) [
    | inl missing ↦ rw (missing, answer) st
    | inr (g, there) ↦ rw (there, answer) st
  ]

  unless_err-Step :
      (r : Result GroupError (Unit {0})) (id : String) {t : GroupStore}
      → ((u : Unit {0}) → r ≡ ok u → Step caller s t)
      → Step caller s (unless_err r s (answer decrypt id caller role t)).1
  unless_err-Step (err e) id st = kept
  unless_err-Step (ok u) id st = answer-Step id (st u refl)

  -- An operation that answers has written.
  pub unless_err-ok :
      (r : Result GroupError (Unit {0})) (id : String) {t : GroupStore} {view : GroupView}
      → (unless_err r s (answer decrypt id caller role t)).0 ≡ ok view
      → (unless_err r s (answer decrypt id caller role t)).1 ≡ t
  unless_err-ok (err e) id done = cc
  unless_err-ok (ok u) id {t} done = elim (Option-cases (find_group id t.groups)) [
    | inl missing ↦ rw (missing, answer) refl
    | inr (g, there) ↦ rw (there, answer) refl
  ]

  create-Step :
      (new_id name : String) (emails voting_ids : List String)
      → Step caller s (create decrypt new_id caller name emails voting_ids role s).1
  unfolding create
  create-Step new_id name emails voting_ids =
      elim (Result-cases (get_user_ids_by_emails emails s.accounts)) [
        | inr (e, failed) ↦ rw (failed, create) kept
        | inl (ids, known) ↦
            elim (Bool-cases
              (is_some (find_group new_id s.groups) || not (are_votings voting_ids s.dependents))) [
                | inl taken ↦ rw (known, taken, create) kept
                | inr free ↦
                    rw (known, free, create)
                      (answer-Step new_id (
                        created (record { id = new_id; name = name; creator_id = caller })
                          (if includes caller ids then ids else caller ∷ ids)
                          (connect new_id voting_ids s.dependents) refl (left_false _ _ free)))
              ]
      ]

  add_users-Step :
      (g : String) (ids : List String) → Step caller s (add_users decrypt caller g ids role s).1
  unfolding add_users
  add_users-Step g ids = unless_err-Step _ g (λ u h.
      added g ids
        (check-Holds caller g s u (>>=-eq-ok (guard (any (λ id. true) ids) Groups.no_users) _ h).2))

  remove_users-Step :
      (g : String) (ids : List String) → Step caller s (remove_users decrypt caller g ids role s).1
  unfolding remove_users
  remove_users-Step g ids = unless_err-Step _ g (λ u h.
      removed g ids
        (check-Holds caller g s u (>>=-eq-ok (guard (any (λ id. true) ids) Groups.no_users) _ h).2))

  change_user_role-Step :
      (g : String) (r : GroupRole) (target : Option String)
      → Step caller s (change_user_role decrypt caller g r target role s).1
  unfolding change_user_role may_change_role
  change_user_role-Step g r target = elim (Result-cases (may_change_role caller g r target s)) [
    | inr (e, failed) ↦ rw (failed, change_user_role) kept
    | inl (id, may) ↦ elim (Bool-cases (is_some (find_membership id g s.members))) [
      | inr missing ↦ rw (may, missing, change_user_role) kept
      | inl there ↦ rw (may, there, change_user_role) (answer-Step g (allowed id may))
    ]
  ]
    where
      allowed :
          (id : String)
          → may_change_role caller g r target s ≡ ok id
          → Step caller s (record s { members = set_role id g r s.members })
      allowed id h =
          let (u1, e1, h1) = >>=-eq-ok (check_admin_permission caller g false s) _ h in
          let (u2, e2, h2) = >>=-eq-ok (guard (not (is_owner r)) Groups.cannot_assign_owner) _ h1 in
          let (t, e3, h3) = >>=-eq-ok (found target Groups.no_target) _ h2 in
          let (u4, e4, h4) = >>=-eq-ok (guard (not (str_eq t "")) Groups.no_target) _ h3 in
          let (row, e5, h5) =
            >>=-eq-ok (found (find_group g s.groups) Groups.group_not_found) _ h4 in
          let (u6, e6, h6) =
            >>=-eq-ok (guard (not (str_eq t row.creator_id)) Groups.cannot_change_owner) _ h5 in
          let same : t ≡ id = cc h6 in
          role_set id g r row (check-Holds caller g s u1 e1) (not-true _ (guard-ok _ _ u2 e2))
            (found-ok _ _ e5) (rw (sym same) (not-true _ (guard-ok _ _ u6 e6)))

  delete-Step : (g : String) → Step caller s (delete caller g s).1
  unfolding delete
  delete-Step g = elim (Result-cases (check_admin_permission caller g true s)) [
    | inr (e, failed) ↦ rw (failed, delete) kept
    | inl (u, may) ↦
        let holds = check-Holds_owner caller g s u may in
        elim (Bool-cases
          (any (λ d. str_eq d.group_id g) s.dependents || not (is_some (find_group g s.groups)))) [
            | inl stays ↦ rw (may, stays, delete) (emptied g holds)
            | inr goes ↦ rw (may, goes, delete) (deleted g holds)
          ]
  ]

  -- Whatever the caller requests, the service keeps its store or makes one of the steps: a new group
  -- of the caller's; members added, removed or given a role other than OWNER, by an owner, an admin
  -- or a moderator of the group; the group emptied or deleted, by an owner.
  pub perform-Step : (q : Request) → Step caller s (perform decrypt caller role q s)
  unfolding perform
  perform-Step (creates new_id name emails voting_ids) = create-Step new_id name emails voting_ids
  perform-Step (adds g ids) = add_users-Step g ids
  perform-Step (removes g ids) = remove_users-Step g ids
  perform-Step (changes_role g r t) = change_user_role-Step g r t
  perform-Step (deletes g) = delete-Step g
