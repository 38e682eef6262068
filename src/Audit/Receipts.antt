-- ===== src/Audit/Receipts.antt =====
-- `findBallotReceipt` (backend/src/audit/audit.service.ts) and the worker that appends the entries of
-- the queue one at a time (backend/src/audit/audit.processor.ts).
pub mod Found
use voting_secure.Base.{
  ℕ, suc, String, Bool, true, false, not, Option, none, some, List, [], ◌∷◌, ◌++◌, map, filter,
  find?, any, is_some, str_eq, str_eq_refl, opt_eq, opt_eq_refl, ◌==◌, ◌&&◌, ◌||◌, if◌then◌else◌,
  trim, All, All-map, ◌≡◌, refl, ap, ◌∙◌, sym, find?-append, Bool-cases, Option-cases, inl, inr,
  arith,
}
use Prim.Native.String
use Prim.Native.Char.{code}
use voting_secure.Audit.Types.{
  ChainAction, action_text, Value, Items, Fields, Block, ChainContext, Scope,
}
use voting_secure.Audit.Hash.{Platform}
use voting_secure.Audit.Store.{AuditStore, scoped_id}
use voting_secure.Audit.Append.{AppendError, clashes, draw, new_block, process_append_internal}

pub record FoundBlock : Type 0 where
  pub sequence : ℕ
  pub block_hash : String
  pub prev_hash : String
  pub timestamp : ℕ

-- `found: false` has no block.
pub record Receipt : Type 0 where
  pub hash : String
  pub block : Option FoundBlock

-- string | string[]
pub data Hashes : Type 0 where
  many : List String → Hashes
  joined : String → Hashes

-- hashes.split(',')
unfoldable pub split_commas : String → List String
split_commas String.[] = "" ∷ []
split_commas (String.◌∷◌ c s) = elim (split_commas s) [
  | [] ↦ []
  | part ∷ parts ↦ if code c == 44 then "" ∷ part ∷ parts else String.◌∷◌ c part ∷ parts
]

unfoldable pub hash_list : Hashes → List String
unfolding split_commas trim
hash_list (many hs) = hs
hash_list (joined t) = filter (λ h. not (str_eq h "")) (map trim (split_commas t))

abbrev pub is_text : String → Value → Bool
is_text h (Value.text t) = str_eq t h
is_text h _ = false

abbrev pub items_hold : String → Items → Bool
items_hold h Items.nil = false
items_hold h (Items.cons v vs) = is_text h v || items_hold h vs

-- { field: h } matches the text, and an array that has it.
abbrev pub value_holds : String → Value → Bool
value_holds h (Value.text t) = str_eq t h
value_holds h (Value.arr vs) = items_hold h vs
value_holds h _ = false

abbrev pub field_holds : (name h : String) → Fields → Bool
field_holds name h Fields.end = false
field_holds name h (Fields.field n v fs) =
    if str_eq n name then value_holds h v else field_holds name h fs

abbrev pub has_ballot_hash : String → Value → Bool
has_ballot_hash h (Value.obj fs) = field_holds "ballotHashes" h fs
has_ballot_hash h _ = false

-- type === 'voting' ? BALLOT_CAST : SURVEY_BALLOT_CAST
abbrev pub cast_action : Scope → ChainAction
cast_action Scope.voting = ChainAction.ballot_cast
cast_action _ = ChainAction.survey_ballot_cast

abbrev pub holds_receipt : (entity_id : String) → Scope → String → Block → Bool
holds_receipt entity_id type h b =
    str_eq (action_text b.action) (action_text (cast_action type))
    && (opt_eq (scoped_id type b) (some entity_id) && has_ballot_hash h b.payload)

abbrev pub found_block : Block → FoundBlock
found_block b = record {
  sequence = b.sequence;
  block_hash = b.hash;
  prev_hash = b.prev_hash;
  timestamp = b.created_at;
}

abbrev pub receipt_of : (entity_id : String) → Scope → List Block → String → Receipt
receipt_of entity_id type chain h = record {
  hash = h;
  block = elim (find? (holds_receipt entity_id type h) chain) [
    | none ↦ none
    | some b ↦ some (found_block b)
  ];
}

unfoldable pub find_ballot_receipt :
    (entity_id : String) → Hashes → (type : Scope) → AuditStore → List Receipt
unfolding hash_list
find_ballot_receipt entity_id hashes type s =
    map (receipt_of entity_id type s.chain) (hash_list hashes)

-- `appendChain`: whether the queue takes the entry is not told to the caller.
abbrev pub append_chain : (takes : Bool) → ChainContext → List ChainContext → List ChainContext
append_chain takes ctx queue = if takes then queue ++ ctx ∷ [] else queue

-- The calls of `appendChain`, one after the other; `takes` tells whether the queue takes each.
unfoldable pub append_all :
    (takes : ℕ → Bool) (k : ℕ) → List ChainContext → List ChainContext → List ChainContext
append_all takes k [] queue = queue
append_all takes k (ctx ∷ rest) queue =
    append_all takes (suc k) rest (append_chain (takes k) ctx queue)

-- The jobs 'append-chain' of the queue, one after the other; `times` gives the time of each. What is
-- answered tells whether each of them was appended.
unfoldable pub process_queue :
    Platform → (times : ℕ → ℕ) (k : ℕ) → List ChainContext → AuditStore → Bool × AuditStore
unfolding process_append_internal
process_queue p times k [] s = (true, s)
process_queue p times k (ctx ∷ rest) s =
    let (e, s1) = process_append_internal p (times k) true ctx s in
    let (all, s2) = process_queue p times (suc k) rest s1 in (not (is_some e) && all, s2)

hash_list_runs : hash_list (joined "a, b,,c") ≡ "a" ∷ "b" ∷ "c" ∷ []
unfolding hash_list
hash_list_runs = refl
