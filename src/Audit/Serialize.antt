-- ===== src/Audit/Serialize.antt =====
-- `deterministicSerialize` (backend/src/audit/audit.service.ts): the text of a payload under a hash.
mod Sorting
pub mod Laws
use Prim.Native.Char.{code}
use Prim.Native.String
use voting_secure.Base.{
  ℕ, ◌+◌, ◌-◌, ◌/◌, ◌%◌, ◌≡◌, refl, String, Bool, true, false, List, [], ◌∷◌, ◌++◌, map, arith, ltb,
  if◌then◌else◌, ◌<>◌, join, number_text,
}
use voting_secure.Audit.Types.{Value, Items, Fields, nil, cons, end, field}

-- The UTF-16 code units of a character, and of a text.
abbrev pub char_units : ℕ → List ℕ → List ℕ
char_units c rest =
    if ltb c 65536
    then c ∷ rest
    else (55296 + (c - 65536) / 1024) ∷ (56320 + (c - 65536) % 1024) ∷ rest

unfoldable pub units : String → List ℕ
units String.[] = []
units (String.◌∷◌ c s) = char_units (code c) (units s)

-- The order of `Array.prototype.sort` without a comparison function.
unfoldable pub units_le : List ℕ → List ℕ → Bool
units_le [] ys = true
units_le (x ∷ xs) [] = false
units_le (x ∷ xs) (y ∷ ys) = if ltb x y then true else if ltb y x then false else units_le xs ys

-- A field's key, with the text of its value.
abbrev pub Entry : Type 0
Entry = String × String

unfoldable pub insert_entry : Entry → List Entry → List Entry
unfolding units units_le
insert_entry e [] = e ∷ []
insert_entry e (x ∷ l) =
    if units_le (units e.0) (units x.0) then e ∷ x ∷ l else x ∷ insert_entry e l

-- `Object.keys(value).sort()`, with the values' texts beside the keys. Keys are distinct.
unfoldable pub sort_entries : List Entry → List Entry
unfolding insert_entry
sort_entries [] = []
sort_entries (e ∷ l) = insert_entry e (sort_entries l)

abbrev pub entry_text : Entry → String
entry_text (k, s) = k <> (":" <> s)

abbrev pub boolean_text : Bool → String
boolean_text true = "true"
boolean_text false = "false"

-- `to_iso_string` is `Date.prototype.toISOString`, on milliseconds.
module _ (to_iso_string : ℕ → String) where
  unfoldable mutual
    unfolding sort_entries number_text

    pub serialize : Value → String
    serialize Value.null = "null"
    serialize Value.undefined = "undefined"
    serialize (Value.date t) = to_iso_string t
    serialize (Value.num n) = number_text n
    serialize (Value.bool b) = boolean_text b
    serialize (Value.text s) = s
    serialize (Value.arr xs) = "[" <> (join "," (serialize_items xs) <> "]")
    serialize (Value.obj fs) =
        "{" <> (join "," (map entry_text (sort_entries (serialize_fields fs))) <> "}")

    pub serialize_items : Items → List String
    serialize_items nil = []
    serialize_items (cons v xs) = serialize v ∷ serialize_items xs

    pub serialize_fields : Fields → List Entry
    serialize_fields end = []
    serialize_fields (field k v fs) = (k, serialize v) ∷ serialize_fields fs

serialize_runs :
    serialize
      (λ t. "")
      (Value.obj (
        field "votingId"
          (Value.text "v1")
          (field "count" (Value.num 12) (field "none" Value.null end))))
    ≡ "{count:12,none:null,votingId:v1}"
unfolding serialize
serialize_runs = refl
