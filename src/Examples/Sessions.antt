-- ===== src/Examples/Sessions.antt =====
-- Witnesses and tests of src/domain/domain.cpp.
use stream_labs_test_assingm.Base.{
  ℕ, ◌≡◌, ◌≢◌, refl, true, false, ◌+◌, length, ◌^◌, ◌-◌, none, some, [], ◌∷◌, arith, ◌⊎◌,
}
use stream_labs_test_assingm.Base.Int.{pos, ◌-ℤ◌, ◌+ℤ◌}
use stream_labs_test_assingm.Base.Text.{codes, text_eq, text_lt}
use stream_labs_test_assingm.Base.Word.{add64, sub64}
use stream_labs_test_assingm.Contracts.{
  release_object, get_object, value, get_value, invoke_method, int64, value_record, object_snapshot,
  released, remote_error, ErrorCode, Value, ValueRecord, ObjectSnapshot, Operation,
}
use stream_labs_test_assingm.Validation.{
  make_error, valid_value, value_bytes, kind_of, kind_eq, holds_kind, valid_arguments,
  valid_named_values, valid_names, valid_names_from, valid_name, name_seen, name_character,
  valid_page_size, valid_description, valid_parameters, count_methods, fits_message, valid_kind,
}
use stream_labs_test_assingm.SortedMap
use stream_labs_test_assingm.Registry
use stream_labs_test_assingm.Registry.{add, find, insert_sorted}
use stream_labs_test_assingm.Registry.Laws.{add-lookup, TakesIn}
use stream_labs_test_assingm.Identifiers.{next, next_lem, IssuesNext}
use stream_labs_test_assingm.Store.State.{
  refusal, StoredObject, new_store, charge_from, attributes_match, state_matches,
}
use stream_labs_test_assingm.Store.Values.{apply_put_value, widen, fill_values}
use stream_labs_test_assingm.Store.Objects.{
  apply_create_object, create_with, retain_created, apply_release_object,
}
use stream_labs_test_assingm.Store.Methods.{apply_invoke_method, invoke_on, run_candidate, publish}
use stream_labs_test_assingm.Store.Execute.{apply, execute}
use stream_labs_test_assingm.Store.Invariant.{Inv}
use stream_labs_test_assingm.Store.Preservation.{execute-Inv}
use stream_labs_test_assingm.Store.Atomicity.{execute-Atomic}
use stream_labs_test_assingm.Store.Retention.{run, put-get}
use stream_labs_test_assingm.Store.ObjectReads.{create-get, get_object-found, release-get}
use stream_labs_test_assingm.Store.Cursors.{records, page_not_empty}
use stream_labs_test_assingm.Store.Paging.{read_pages, read_pages_complete}
use stream_labs_test_assingm.Builtins.{
  builtin_class, counter_definition, text_buffer_definition, create_counter, single_argument,
  as_integer, Builtin, state, clone, invoke,
}
use stream_labs_test_assingm.Examples.Sample.{
  ascii, no_classes, fresh_ids, fresh, fresh-Inv, put_five, create_seven, stored, stored_ids,
  stored-Inv, made, made_ids, made-Inv,
}

abbrev five : ValueRecord
five = record { id = 1; datum = int64 (pos 5) }

abbrev seven : ObjectSnapshot
seven = record {
  id = 2;
  class_name = codes "Counter";
  state = record { name = codes "value"; datum = int64 (pos 7) } ∷ [];
}

abbrev unknown_method : Operation
unknown_method = invoke_method (record { id = 2; name = codes "decrement"; arguments = [] })

abbrev add_two : Operation
add_two = invoke_method (record {
  id = 2;
  name = codes "increment";
  arguments = record { name = codes "delta"; datum = int64 (pos 2) } ∷ [];
})

-- The outcomes of the session's operations, and that it stays open.
session_runs :
    (fresh.closed ≡ false)
    × ((execute fresh fresh_ids put_five).2 ≡ value_record five)
    × (stored.closed ≡ false)
    × ((execute stored stored_ids create_seven).2 ≡ object_snapshot seven)
    × (made.closed ≡ false)
    × ((execute made made_ids add_two).2 ≡ value (int64 (pos 9)))
    × ((execute made made_ids unknown_method).2 ≡ remote_error (make_error ErrorCode.not_found))
    × ((execute made made_ids (release_object (record { id = 2 }))).2 ≡ released)
unfolding apply_invoke_method invoke_on run_candidate publish ◌-ℤ◌ ◌+ℤ◌ apply_release_object
    builtin_class add64 sub64 text_eq text_lt invoke execute apply apply_put_value
    apply_create_object create_with retain_created new_store add insert_sorted Registry.find
    SortedMap.find SortedMap.emplace next charge_from attributes_match state_matches
    counter_definition text_buffer_definition create_counter single_argument as_integer state clone
    valid_value value_bytes kind_of kind_eq holds_kind valid_arguments valid_named_values
    valid_names valid_names_from valid_name name_seen name_character valid_description
    valid_parameters count_methods fits_message valid_kind
session_runs = (refl, refl, refl, refl, refl, refl, refl, refl)

execute-Inv_example : Inv (execute made made_ids add_two).0 (execute made made_ids add_two).1
execute-Inv_example = execute-Inv made made_ids add_two made-Inv

execute-Atomic_example :
    ((execute made made_ids unknown_method).0 ≡ made)
    × ((execute made made_ids unknown_method).1 ≡ made_ids)
    × (code : ErrorCode) × (make_error ErrorCode.not_found ≡ make_error code)
execute-Atomic_example =
    execute-Atomic made made_ids unknown_method (make_error ErrorCode.not_found) made-Inv.word
      session_runs.6

put-get_example :
    let later = run stored stored_ids (create_seven ∷ put_five ∷ []) in
    (int64 (pos 5) ≡ int64 (pos 5))
    × ((execute later.0 later.1 (get_value (record { id = 1 }))).2 ≡ value_record five)
put-get_example =
    put-get fresh fresh_ids (record { datum = int64 (pos 5) }) five (create_seven ∷ put_five ∷ [])
      fresh-Inv session_runs.0 session_runs.1

create-get_example :
    (execute made made_ids (get_object (record { id = 2 }))).2 ≡ object_snapshot seven
create-get_example =
    create-get stored stored_ids
      (record {
        class_name = codes "Counter";
        arguments = record { name = codes "initial"; datum = int64 (pos 7) } ∷ [];
      })
      seven stored-Inv session_runs.2 session_runs.3

object_reads :
    ((SortedMap.find 2 made.objects ≡ none)
      × ((execute made made_ids (get_object (record { id = 2 }))).2 ≡ refusal ErrorCode.not_found))
    ⊎ ((entry : StoredObject Builtin) × (SortedMap.find 2 made.objects ≡ some entry)
        × ((execute made made_ids (get_object (record { id = 2 }))).2
            ≡ object_snapshot (record {
              id = 2;
              class_name = entry.definition.description.name;
              state = builtin_class.state entry.held;
            })))
object_reads = get_object-found made made_ids 2 made-Inv session_runs.4 (ground arith)

pub made_releases : (execute made made_ids (release_object (record { id = 2 }))).2 ≡ released
made_releases = session_runs.7

release-get_example :
    let after = execute made made_ids (release_object (record { id = 2 })) in
    ((execute after.0 after.1 (get_object (record { id = 2 }))).2 ≡ refusal ErrorCode.not_found)
    × ((j : ℕ) → j ≢ 2 → SortedMap.find j after.0.objects ≡ SortedMap.find j made.objects)
release-get_example = release-get made made_ids 2 made-Inv session_runs.4 session_runs.7

one_is_valid : valid_page_size 1 ≡ true
unfolding valid_page_size
one_is_valid = refl

read_pages_complete_example : read_pages (length made.values + 1) made 1 0 ≡ records made.values
read_pages_complete_example = read_pages_complete made made_ids 1 made-Inv one_is_valid

add-lookup_example : TakesIn no_classes counter_definition
add-lookup_example = add-lookup no_classes counter_definition tt

last_id : IssuesNext (record { upcoming = 2 ^ 64 - 1 })
last_id = next_lem (record { upcoming = 2 ^ 64 - 1 }) (omega arith)

abbrev two_values : SortedMap.SortedMap Value
two_values = (1, int64 (pos 5)) ∷ (2, int64 (pos 6)) ∷ []

one_filled :
    ((fill_values 1 0 [] two_values).1 ≡ (2, int64 (pos 6)) ∷ [])
    × (valid_value (int64 (pos 5)) ≡ true)
    × (valid_value (int64 (pos 6)) ≡ true)
unfolding fill_values widen value_bytes valid_value sub64 add64
one_filled = (refl, refl, refl)

one_page : (fill_values 1 0 [] two_values).0 ≢ []
one_page =
    page_not_empty 1 two_values one_is_valid (one_filled.1, (one_filled.2, tt))
      (λ e. absurd (cc (e, one_filled.0)))
