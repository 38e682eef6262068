-- ===== src/Audit/Status/Marks.antt =====
-- A mark that was set is the one that is read.
use voting_secure.Base.{
  ℕ, ◌≡◌, String, Bool, true, Option, some, List, [], ◌∷◌, arith, str_eq_refl, opt_eq_refl,
}
use voting_secure.Audit.Types.{Scope, scope_text}
use voting_secure.Audit.Store.{AuditStore, Verification}
use voting_secure.Audit.Status.{
  upsert_mark, set_last_verified_sequence, find_mark, full_of, verified_of, last_full,
  last_verified_or_zero,
}

module _ (now : ℕ) (scope : Scope) (id : Option String) (sequence : ℕ) where
  verified-upsert_mark :
      (full : Bool) (vs : List Verification)
      → verified_of (find_mark scope id (upsert_mark now scope id sequence full vs)) ≡ sequence
  unfolding upsert_mark
  verified-upsert_mark full [] = ground (arith, str_eq_refl (scope_text scope), opt_eq_refl id)
  verified-upsert_mark full (v ∷ vs) = ground (arith, verified-upsert_mark full vs)

  full-upsert_mark :
      (vs : List Verification)
      → full_of (find_mark scope id (upsert_mark now scope id sequence true vs)) ≡ some now
  unfolding upsert_mark
  full-upsert_mark [] = ground (arith, str_eq_refl (scope_text scope), opt_eq_refl id)
  full-upsert_mark (v ∷ vs) = ground (arith, full-upsert_mark vs)

  -- The sequence that is set is the one that is read.
  pub last_verified-set :
      (full : Bool) (s : AuditStore)
      → last_verified_or_zero scope id (set_last_verified_sequence now scope id sequence full s)
        ≡ sequence
  unfolding set_last_verified_sequence
  last_verified-set full s = verified-upsert_mark full s.verifications

  -- A full verification leaves its time.
  pub last_full-set :
      (s : AuditStore)
      → last_full scope id (set_last_verified_sequence now scope id sequence true s) ≡ some now
  unfolding set_last_verified_sequence
  last_full-set s = full-upsert_mark s.verifications
