-- ===== src/Audit/Serialize/Laws.antt =====
-- What a serialized payload depends on: not the order in which fields were set, and not every
-- difference between two payloads.
use voting_secure.Base.{ℕ, ◌≡◌, ◌≢◌, refl, ap, ap₂, sym, ◌∙◌, String, List, ◌∷◌, map, join, ◌<>◌}
use text.Mathlib.TextLemmas.{append_assoc}
use voting_secure.Audit.Types.{Value, Items, Fields}
use voting_secure.Audit.Serialize.{
  units, Entry, entry_text, insert_entry, sort_entries, serialize, serialize_items,
  serialize_fields,
}
use voting_secure.Audit.Serialize.Sorting.{insert_entry_comm}

-- Two payloads are the same up to the order of the fields of the objects in them, at any depth.
mutual
  pub data SameValue : Value → Value → Type 0 where
    same : (v : Value) → SameValue v v
    arr : {xs ys : Items} → SameItems xs ys → SameValue (Value.arr xs) (Value.arr ys)
    obj : {fs gs : Fields} → SameFields fs gs → SameValue (Value.obj fs) (Value.obj gs)

  pub data SameItems : Items → Items → Type 0 where
    nil : SameItems Items.nil Items.nil
    cons :
        {v w : Value} {xs ys : Items}
        → SameValue v w
        → SameItems xs ys
        → SameItems (Items.cons v xs) (Items.cons w ys)

  pub data SameFields : Fields → Fields → Type 0 where
    end : SameFields Fields.end Fields.end
    keep :
        {v w : Value} {fs gs : Fields} (k : String)
        → SameValue v w
        → SameFields fs gs
        → SameFields (Fields.field k v fs) (Fields.field k w gs)
    swap :
        (j k : String) (v w : Value) (fs : Fields)
        → units j ≢ units k
        → SameFields
            (Fields.field j v (Fields.field k w fs))
            (Fields.field k w (Fields.field j v fs))
    after : {fs gs hs : Fields} → SameFields fs gs → SameFields gs hs → SameFields fs hs

module _ (to_iso_string : ℕ → String) where
  abbrev sorted_fields : Fields → List Entry
  sorted_fields fs = sort_entries (serialize_fields to_iso_string fs)

  mutual
    unfolding serialize

    same_value :
        {v w : Value} → SameValue v w → serialize to_iso_string v ≡ serialize to_iso_string w
    same_value (SameValue.same v) = refl
    same_value (SameValue.arr s) = ap (λ l. "[" <> (join "," l <> "]")) (same_items s)
    same_value (SameValue.obj s) =
        ap (λ l. "{" <> (join "," (map entry_text l) <> "}")) (same_fields s)

    same_items :
        {xs ys : Items}
        → SameItems xs ys
        → serialize_items to_iso_string xs ≡ serialize_items to_iso_string ys
    same_items SameItems.nil = refl
    same_items (SameItems.cons s r) = ap₂ ◌∷◌ (same_value s) (same_items r)

    same_fields : {fs gs : Fields} → SameFields fs gs → sorted_fields fs ≡ sorted_fields gs
    same_fields SameFields.end = refl
    same_fields (SameFields.keep k s r) =
        ap₂ (λ t l. insert_entry (k, t) l) (same_value s) (same_fields r)
    same_fields (SameFields.swap j k v w fs ne) =
        insert_entry_comm (j, serialize to_iso_string v) (k, serialize to_iso_string w)
          (sorted_fields fs) ne
    same_fields (SameFields.after s r) = same_fields s ∙ same_fields r

  -- Serialization is deterministic: payloads that differ only in the order in which the fields of
  -- objects were inserted, at any depth, have the same text.
  pub serialize-SameValue :
      (v w : Value) → SameValue v w → serialize to_iso_string v ≡ serialize to_iso_string w
  serialize-SameValue v w s = same_value s

-- Serialization is not injective: texts are written without quotes or escapes, so a text value that
-- holds a comma, a key and a colon reads as one more field. A field `b` after a field `a` has the
-- text of a single field `a` whose value goes on with ",b:".
pub serialize-collides :
    (to_iso_string : ℕ → String) (v w : String)
    → serialize to_iso_string
        (Value.obj (Fields.field "a" (Value.text v) (Fields.field "b" (Value.text w) Fields.end)))
      ≡ serialize to_iso_string
          (Value.obj (Fields.field "a" (Value.text (v <> (",b:" <> w))) Fields.end))
unfolding serialize
serialize-collides to_iso_string v w =
    ap (λ (t : String). "{" <> (t <> "}"))
      (append_assoc "a" (":" <> v) _
        ∙ ap (λ (t : String). "a" <> t)
            (append_assoc ":" v _ ∙ ap (λ (t : String). ":" <> (v <> t)) joined))
  where
    joined : "," <> ("b" <> (":" <> w)) ≡ ",b:" <> w
    joined = sym (append_assoc "," "b" (":" <> w)) ∙ sym (append_assoc ",b" ":" w)
