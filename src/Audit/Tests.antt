-- ===== src/Audit/Tests.antt =====
-- The audit chain on small stores, with a digest that is its own input.
use voting_secure.Base.{
  ◌⊎◌, ◌≡◌, ◌≢◌, ◌↔◌, refl, sym, String, true, false, none, some, [], ◌∷◌, arith, number_text,
}
use voting_secure.Audit.Types.{Value, Fields, ChainAction, ChainContext, Scope, Block}
use voting_secure.Audit.Serialize.{serialize, units}
use voting_secure.Audit.Serialize.Laws.{
  SameValue, SameFields, serialize-SameValue, serialize-collides,
}
use voting_secure.Audit.Hash.{Platform, hash_data}
use voting_secure.Audit.Store.{AuditStore, sort_blocks}
use voting_secure.Audit.Append.{process_append_internal}
use voting_secure.Audit.Append.Sound.{IsSound, added, appended}
use voting_secure.Audit.Append.Commits.{append-IsSound}
use voting_secure.Audit.Status.{get_audit_status}
use voting_secure.Audit.Verify.{verify_voting_chain, verify_chain, entity_genesis}
use voting_secure.Audit.Verify.Full.{is_valid}
use voting_secure.Audit.Walk.Spec.{IsRooted}
use voting_secure.Audit.Verify.Intact.{entity_blocks, IsUnhindered, verify_voting_chain-full_iff}
use voting_secure.Audit.Verify.Secure.{verify_voting_chain-secure}
use voting_secure.Audit.Walk.{check_block}
use voting_secure.Audit.Verify.Evident.{size, HasCollision, IsSameText, verify_chain-evident}
use voting_secure.Audit.History.{
  empty_store, History, begins, then_step, appends, of_voting, verify,
}
use voting_secure.Audit.History.Intact.{History-IsKept, History-verifies}
use voting_secure.Audit.History.Leak.{failed_append-breaks}

abbrev test_platform : Platform
test_platform = record { sha256 = λ t. t; to_iso_string = number_text; genesis_seed = "seed" }

abbrev cast_entry : ChainContext
cast_entry = record {
  action = ChainAction.ballot_cast;
  payload = Value.obj (Fields.field "n" (Value.num 1) Fields.end);
  user_id = none;
  group_id = some "g";
  voting_id = some "v";
  survey_id = none;
}

abbrev one_entry : AuditStore
one_entry = (process_append_internal test_platform 5 true cast_entry empty_store).1

abbrev two_entries : AuditStore
two_entries = (process_append_internal test_platform 7 true cast_entry one_entry).1

first_commits : (process_append_internal test_platform 5 true cast_entry empty_store).0 ≡ none
unfolding process_append_internal
first_commits = refl

second_commits : (process_append_internal test_platform 7 true cast_entry one_entry).0 ≡ none
unfolding process_append_internal hash_data number_text serialize
second_commits = refl

history : History test_platform 7 two_entries
history =
    then_step 5 one_entry 7 two_entries
      (then_step 0 empty_store 5 one_entry begins (omega arith) (appends cast_entry first_commits))
      (omega arith) (appends cast_entry second_commits)

proper_v : ◌≢◌ {A = String} "v" ""
proper_v = λ e. cc e

History-verifies_example :
    is_valid (verify test_platform 9 (of_voting "v") true two_entries).0 ≡ true
unfolding process_append_internal hash_data number_text serialize
History-verifies_example =
    History-verifies test_platform 7 two_entries 9 (of_voting "v") history proper_v refl

append-IsSound_example :
    (process_append_internal test_platform 7 true cast_entry one_entry
      ≡ (none, appended test_platform 7 cast_entry one_entry))
    × IsSound test_platform (process_append_internal test_platform 7 true cast_entry one_entry).1
unfolding process_append_internal hash_data number_text serialize
append-IsSound_example =
    append-IsSound test_platform 7 cast_entry one_entry one_sound (omega arith, tt) refl
  where
    one_sound : IsSound test_platform one_entry
    one_sound =
        (History-IsKept test_platform 5 one_entry (
          then_step 0 empty_store 5 one_entry begins (omega arith)
            (appends cast_entry first_commits))).0

verify_voting_chain-full_iff_example :
    (is_valid (verify_voting_chain test_platform 9 "v" true two_entries).0 ≡ true) ↔ (
      IsUnhindered 9 Scope.voting (some "v") two_entries
      × IsRooted test_platform Scope.voting
          (entity_genesis test_platform Scope.voting "v")
          (entity_blocks Scope.voting "v" two_entries))
verify_voting_chain-full_iff_example = verify_voting_chain-full_iff test_platform 9 two_entries "v"

abbrev first_block : Block
first_block = added test_platform 5 cast_entry empty_store

abbrev second_block : Block
second_block = added test_platform 7 cast_entry one_entry

verify_voting_chain-secure_example :
    (get_audit_status 11 Scope.voting
      (some "v")
      (verify_voting_chain test_platform 9 "v" true two_entries).1).is_secure
    ≡ true
unfolding process_append_internal hash_data number_text serialize sort_blocks verify_voting_chain
    verify
verify_voting_chain-secure_example =
    verify_voting_chain-secure test_platform 9 "v" two_entries 11 first_block (second_block ∷ [])
      proper_v refl History-verifies_example (omega arith)

failed_append-breaks_example :
    is_valid
      (verify_chain test_platform 9 none true
        (process_append_internal test_platform 8 true cast_entry
          (process_append_internal test_platform 6 false cast_entry one_entry).1).1).0
    ≡ false
unfolding process_append_internal hash_data number_text serialize
failed_append-breaks_example =
    failed_append-breaks test_platform one_entry 6 8 9 cast_entry cast_entry
      (History-IsKept test_platform 5 one_entry (
        then_step 0 empty_store 5 one_entry begins (omega arith)
          (appends cast_entry first_commits))).0
      (λ e. cc (sym e)) refl

serialize-SameValue_example :
    serialize number_text
      (Value.obj (Fields.field "a" (Value.num 1) (Fields.field "ab" (Value.num 2) Fields.end)))
    ≡ serialize number_text
        (Value.obj (Fields.field "ab" (Value.num 2) (Fields.field "a" (Value.num 1) Fields.end)))
unfolding units
serialize-SameValue_example =
    serialize-SameValue number_text _ _
      (SameValue.obj (SameFields.swap "a" "ab" (Value.num 1) (Value.num 2) Fields.end (λ e. cc e)))

serialize-collides_example :
    serialize number_text
      (Value.obj (Fields.field "a" (Value.text "1") (Fields.field "b" (Value.text "2") Fields.end)))
    ≡ serialize number_text (Value.obj (Fields.field "a" (Value.text "1,b:2") Fields.end))
serialize-collides_example = serialize-collides number_text "1" "2"

-- A digest of fixed length, for the next test.
abbrev short_platform : Platform
short_platform = record { sha256 = λ t. "0"; to_iso_string = number_text; genesis_seed = "seed" }

abbrev short_entry : AuditStore
short_entry = (process_append_internal short_platform 5 true cast_entry empty_store).1

verify_chain-evident_example :
    IsSameText short_platform
      (added short_platform 5 cast_entry empty_store ∷ [])
      (added short_platform 5 cast_entry empty_store ∷ [])
    ⊎ HasCollision short_platform
        (added short_platform 5 cast_entry empty_store ∷ [])
        (added short_platform 5 cast_entry empty_store ∷ [])
unfolding process_append_internal hash_data number_text serialize sort_blocks verify_chain size
    check_block
verify_chain-evident_example =
    verify_chain-evident short_platform 1 (λ x. refl) 9 9 short_entry short_entry
      (added short_platform 5 cast_entry empty_store)
      (added short_platform 5 cast_entry empty_store) [] [] refl refl refl refl refl refl
