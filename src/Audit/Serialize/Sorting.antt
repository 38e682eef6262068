-- ===== src/Audit/Serialize/Sorting.antt =====
-- The order of keys is total, and insertion into a list commutes for distinct keys.
use voting_secure.Base.{ℕ, ◌≡◌, ◌≢◌, ◌⊎◌, refl, inl, inr, true, List, [], ◌∷◌, arith}
use voting_secure.Audit.Serialize.{units, units_le, Entry, insert_entry}

units_le_total : (a b : List ℕ) → (units_le a b ≡ true) ⊎ (units_le b a ≡ true)
unfolding units_le
units_le_total [] b = inl refl
units_le_total (x ∷ a) [] = inr refl
units_le_total (x ∷ a) (y ∷ b) = ground (arith, units_le_total a b)

units_le_antisymm : (a b : List ℕ) → units_le a b ≡ true → units_le b a ≡ true → a ≡ b
unfolding units_le
units_le_antisymm [] [] h k = refl
units_le_antisymm [] (y ∷ b) h k = cc
units_le_antisymm (x ∷ a) [] h k = cc
units_le_antisymm (x ∷ a) (y ∷ b) h k = ground (arith, units_le_antisymm a b)

units_le_trans : (a b c : List ℕ) → units_le a b ≡ true → units_le b c ≡ true → units_le a c ≡ true
unfolding units_le
units_le_trans [] b c h k = refl
units_le_trans (x ∷ a) [] c h k = cc
units_le_trans (x ∷ a) (y ∷ b) [] h k = cc
units_le_trans (x ∷ a) (y ∷ b) (z ∷ c) h k = ground (arith, units_le_trans a b c)

-- Two entries with different keys may be inserted in either order.
pub insert_entry_comm :
    (e f : Entry) (l : List Entry)
    → units e.0 ≢ units f.0
    → insert_entry e (insert_entry f l) ≡ insert_entry f (insert_entry e l)
unfolding insert_entry
insert_entry_comm e f [] ne =
    ground
      (arith, units_le_total (units e.0) (units f.0), units_le_antisymm (units e.0) (units f.0))
insert_entry_comm e f (x ∷ l) ne = ground (
  arith,
  insert_entry_comm e f l ne,
  units_le_total (units e.0) (units f.0),
  units_le_antisymm (units e.0) (units f.0),
  units_le_trans (units e.0) (units f.0) (units x.0),
  units_le_trans (units f.0) (units e.0) (units x.0),
)
