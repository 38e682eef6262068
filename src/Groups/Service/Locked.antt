-- ===== src/Groups/Service/Locked.antt =====
-- What follows once a group's OWNER is removed, which any moderator may do.
use voting_secure.Base.{
  String, Bool, true, false, not, Option, some, List, [], ◌∷◌, ◌++◌, is_some, str_eq, str_eq_iff,
  ◌≡◌, refl, sym, ap, subst, ◌∙◌, Result-cases, ◌&&◌, if◌then◌else◌, Bool-cases, Option-cases, inl,
  inr, arith, All, All-map, All-append, All-filter, All-filter_kept, All-of_map, find?-append,
  find?-All, find?-filter, &&_iff, ok, err,
}
use voting_secure.Access.{Role}
use voting_secure.Groups.{
  GroupRole, Membership, Group, GroupStore, GroupError, is_owner, is_of, includes, find_membership,
  find_group, check_admin_permission,
}
use voting_secure.Groups.Emails.{GroupView}
use voting_secure.Groups.Service.{
  new_members, add_members, remove_members, set_role, Request, perform_all, remove_users, delete,
}
use voting_secure.Groups.Service.Steps.{
  Step, kept, created, added, removed, role_set, emptied, deleted, Holds, perform-Step,
  check-Holds_owner, unless_err-ok,
}
use voting_secure.Groups.Service.Owned.{Placed, IsOwned}

module _ (group_id : String) where
  abbrev IsCommon : Membership → Type 0
  IsCommon m = str_eq m.group_id group_id ≡ true → is_owner m.role ≡ false

  -- The group is there, and none of its members is an OWNER.
  pub record IsLocked (s : GroupStore) : Type 0 where
    pub exists : is_some (find_group group_id s.groups) ≡ true
    pub ownerless : All IsCommon s.members

  no_owner : {b : Bool} → b ≡ false → b ≡ true → ⊥
  no_owner low high = cc (low, high)

  locked-not-Holds :
      {caller : String} {s : GroupStore} → IsLocked s → ¬ Holds is_owner caller group_id s
  unfolding find_membership
  locked-not-Holds {caller} {s} l h =
      let (common, here) =
        find?-All IsCommon (is_of caller group_id) s.members l.ownerless h.is_member in
      let low : is_owner h.membership.role ≡ false = common ((&&_iff _ _).0 here).1 in
      no_owner low h.passed

  add_members-IsCommon :
      (g : String) (ids : List String) (ms : List Membership)
      → All IsCommon ms
      → All IsCommon (add_members g ids ms)
  unfolding add_members
  add_members-IsCommon g [] ms h = h
  add_members-IsCommon g (id ∷ ids) ms h =
      add_members-IsCommon g ids _ (elim (Bool-cases (is_some (find_membership id g ms))) [
        | inl old ↦ rw old h
        | inr new ↦ rw new (All-append IsCommon ms _ h ((λ e. refl), tt))
      ])

  set_role-IsCommon :
      (id g : String) (role : GroupRole) (ms : List Membership)
      → is_owner role ≡ false
      → All IsCommon ms
      → All IsCommon (set_role id g role ms)
  unfolding set_role
  set_role-IsCommon id g role ms low h = All-of_map IsCommon _ ms (All-map keep ms h)
    where
      keep :
          (m : Membership)
          → IsCommon m
          → IsCommon (if is_of id g m then record m { role = role } else m)
      keep m common = elim (Bool-cases (is_of id g m)) [
        | inl here ↦ rw here (λ e. low)
        | inr other ↦ rw other common
      ]

  new_members-IsCommon :
      (g : Group) (ids : List String)
      → str_eq g.id group_id ≡ false
      → All IsCommon (new_members g.id g.creator_id ids)
  new_members-IsCommon g [] other = tt
  new_members-IsCommon g (id ∷ ids) other =
      ((λ e. absurd (cc (e, other))), new_members-IsCommon g ids other)

  -- A new group has another id than one that is there.
  fresh_other :
      (g : Group) (gs : List Group)
      → is_some (find_group g.id gs) ≡ false
      → is_some (find_group group_id gs) ≡ true
      → str_eq g.id group_id ≡ false
  fresh_other g gs free there = elim (Bool-cases (str_eq g.id group_id)) [
    | inr other ↦ other
    | inl same ↦ absurd (
        cc (
          ap (λ (i : String). is_some (find_group i gs)) ((str_eq_iff g.id group_id).0 same),
          free,
          there,
        ))
  ]

  exists-append :
      (g : Group) (gs : List Group)
      → is_some (find_group group_id gs) ≡ true
      → is_some (find_group group_id (gs ++ g ∷ [])) ≡ true
  unfolding find_group
  exists-append g gs h = elim (Option-cases (find_group group_id gs)) [
    | inl missing ↦ absurd (cc (ap is_some missing, h))
    | inr (k, there) ↦ ap is_some (find?-append (λ g. str_eq g.id group_id) gs (g ∷ []) k there)
  ]

  pub Step-IsLocked :
      {caller : String} {s s' : GroupStore} → Step caller s s' → IsLocked s → IsLocked s'
  unfolding remove_members find_group
  Step-IsLocked kept l = l
  Step-IsLocked {s = s} (created g ids ds own free) l = record {
    exists = exists-append g s.groups l.exists;
    ownerless =
        All-append IsCommon s.members _ l.ownerless
          (new_members-IsCommon g ids (fresh_other g s.groups free l.exists));
  }
  Step-IsLocked {s = s} (added g ids holds) l = record {
    exists = l.exists;
    ownerless = add_members-IsCommon g ids s.members l.ownerless;
  }
  Step-IsLocked {s = s} (removed g ids holds) l = record {
    exists = l.exists;
    ownerless = All-filter IsCommon _ s.members l.ownerless;
  }
  Step-IsLocked {s = s} (role_set id g role row holds low there other) l = record {
    exists = l.exists;
    ownerless = set_role-IsCommon id g role s.members low l.ownerless;
  }
  Step-IsLocked {s = s} (emptied g holds) l = record {
    exists = l.exists;
    ownerless = All-filter IsCommon _ s.members l.ownerless;
  }
  Step-IsLocked {caller} {s} (deleted g holds) l = elim (Bool-cases (str_eq group_id g)) [
    | inl same ↦ absurd (
        locked-not-Holds l (
          subst (λ (i : String). Holds is_owner caller i s) (sym ((str_eq_iff group_id g).0 same))
            holds))
    | inr other ↦ record {
      exists =
          ap is_some (
            find?-filter (λ h. str_eq h.id group_id) (λ h. not (str_eq h.id g)) s.groups
              (λ h e. ground (
                arith,
                str_eq_iff h.id group_id,
                str_eq_iff h.id g,
                str_eq_iff group_id g,
                e,
                other,
              )))
          ∙ l.exists;
      ownerless = All-filter IsCommon _ s.members l.ownerless;
    }
  ]

  pub perform_all-IsLocked :
      (decrypt : String → String) (qs : List (String × Option Role × Request)) (s : GroupStore)
      → IsLocked s
      → IsLocked (perform_all decrypt qs s)
  unfolding perform_all
  perform_all-IsLocked decrypt [] s l = l
  perform_all-IsLocked decrypt ((caller, role, q) ∷ qs) s l =
      perform_all-IsLocked decrypt qs _ (Step-IsLocked (perform-Step decrypt caller role s q) l)

  delete-refused :
      (user : String) (s : GroupStore)
      → IsLocked s
      → (e : GroupError) × (delete user group_id s ≡ (err e, s))
  unfolding delete check_admin_permission
  delete-refused user s l = elim (Result-cases (check_admin_permission user group_id true s)) [
    | inr (e, failed) ↦ (e, rw (failed, delete) refl)
    | inl (u, may) ↦ absurd (locked-not-Holds l (check-Holds_owner user group_id s u may))
  ]

  -- Once the creator is removed nobody owns the group.
  remove-IsLocked :
      (ids : List String) (s : GroupStore) (g : Group)
      → IsOwned s
      → find_group group_id s.groups ≡ some g
      → includes g.creator_id ids ≡ true
      → IsLocked (record s { members = remove_members group_id ids s.members })
  unfolding remove_members
  remove-IsLocked ids s g owned there gone = record {
    exists = ap is_some there;
    ownerless = All-map low _ (All-filter_kept (Placed s.groups) _ s.members owned);
  }
    where
      low :
          (m : Membership)
          → Placed s.groups m × (not (str_eq m.group_id group_id && includes m.user_id ids) ≡ true)
          → IsCommon m
      low m ((h, at, own), stays) here = elim (Bool-cases (is_owner m.role)) [
        | inr common ↦ common
        | inl o ↦
            let same : some h ≡ some g =
              sym at
              ∙ ap (λ (i : String). find_group i s.groups) ((str_eq_iff m.group_id group_id).0 here)
              ∙ there in
            let creator : m.user_id ≡ g.creator_id = own o ∙ cc same in
            absurd (cc (rw (here, creator, gone) at stays))
      ]

  removed_state :
      (decrypt : String → String) (caller : String) (ids : List String) (role : Option Role)
      (s : GroupStore) (view : GroupView)
      → (remove_users decrypt caller group_id ids role s).0 ≡ ok view
      → (remove_users decrypt caller group_id ids role s).1
        ≡ record s { members = remove_members group_id ids s.members }
  unfolding remove_users
  removed_state decrypt caller ids role s view done =
      unless_err-ok decrypt caller role s _ group_id done

  -- A group whose creator was removed can never be deleted again. Let each membership be of a group
  -- that is there, with only the group's creator as OWNER, and let the service remove the creator of
  -- a group on the request of any caller. Then after any further requests, whoever makes them, each
  -- user's request to delete the group is refused and changes nothing.
  pub remove_users-locks :
      (decrypt : String → String) (caller : String) (ids : List String) (role : Option Role)
      (s : GroupStore) (g : Group) (view : GroupView)
      → IsOwned s
      → find_group group_id s.groups ≡ some g
      → includes g.creator_id ids ≡ true
      → (remove_users decrypt caller group_id ids role s).0 ≡ ok view
      → (qs : List (String × Option Role × Request)) (user : String)
      → (e : GroupError) × (delete user group_id
            (perform_all decrypt qs (remove_users decrypt caller group_id ids role s).1)
          ≡ (err e, perform_all decrypt qs (remove_users decrypt caller group_id ids role s).1))
  remove_users-locks decrypt caller ids role s g view owned there gone done qs user =
      delete-refused user _ (
        perform_all-IsLocked decrypt qs _ (
          subst IsLocked (sym (removed_state decrypt caller ids role s view done))
            (remove-IsLocked ids s g owned there gone)))
