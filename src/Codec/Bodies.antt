-- ===== src/Codec/Bodies.antt =====
-- src/protocol/codec.cpp: `read_operation`, `write_operation`, `read_outcome` and `write_outcome`.
use stream_labs_test_assingm.Base.{
  ◌+◌, ℕ, zero, suc, ◌&&◌, ◌||◌, not, Bool, true, false, Option, none, some, List, [], ◌∷◌, ◌++◌,
  leb, ◌==◌, if◌then◌else◌,
}
use stream_labs_test_assingm.Base.Text.{Text, text_eq, text_lt}
use stream_labs_test_assingm.Base.Result.{all_of, back}
use stream_labs_test_assingm.Contracts.{
  ErrorCode, ValueRecord, ClassesPage, Operation, list_classes, describe_class, put_value,
  get_value, list_values, create_object, get_object, release_object, get_attribute, invoke_method,
  Outcome, classes_page, class_description, value_record, values_page, object_snapshot, released,
  value, remote_error,
}
use stream_labs_test_assingm.Validation.{valid_name, valid_page_size}
use stream_labs_test_assingm.Codec.Wire.{
  WireOperation, WireOutcome, WireValueRecord, value_or_default,
}
use stream_labs_test_assingm.Codec.Fields.{
  read_value, write_value, read_named, write_named, read_record, write_record, read_description,
  write_description,
}

unfoldable pub read_operation : WireOperation → Option Operation
read_operation (WireOperation.list_classes q) =
    if valid_name q.after true && valid_page_size q.limit
    then some (list_classes (record { after = q.after; limit = q.limit }))
    else none
read_operation (WireOperation.describe_class q) =
    if valid_name q.name false then some (describe_class (record { name = q.name })) else none
read_operation (WireOperation.put_value q) = elim (read_value (value_or_default q.value)) [
  | none ↦ none
  | some datum ↦ some (put_value (record { datum = datum }))
]
read_operation (WireOperation.get_value q) =
    if q.id == 0 then none else some (get_value (record { id = q.id }))
read_operation (WireOperation.list_values q) =
    if valid_page_size q.limit
    then some (list_values (record { after = q.after; limit = q.limit }))
    else none
read_operation (WireOperation.create_object q) =
    if valid_name q.class_name false
    then elim (read_named q.arguments) [
      | none ↦ none
      | some arguments ↦
          some (create_object (record { class_name = q.class_name; arguments = arguments }))
    ]
    else none
read_operation (WireOperation.get_object q) =
    if q.id == 0 then none else some (get_object (record { id = q.id }))
read_operation (WireOperation.release_object q) =
    if q.id == 0 then none else some (release_object (record { id = q.id }))
read_operation (WireOperation.get_attribute q) =
    if not (q.id == 0) && valid_name q.name false
    then some (get_attribute (record { id = q.id; name = q.name }))
    else none
read_operation (WireOperation.invoke_method q) =
    if not (q.id == 0) && valid_name q.name false
    then elim (read_named q.arguments) [
      | none ↦ none
      | some arguments ↦
          some (invoke_method (record { id = q.id; name = q.name; arguments = arguments }))
    ]
    else none
read_operation WireOperation.operation_not_set = none

unfoldable pub write_operation : Operation → WireOperation
write_operation (list_classes q) =
    WireOperation.list_classes (record { after = q.after; limit = q.limit })
write_operation (describe_class q) = WireOperation.describe_class (record { name = q.name })
write_operation (put_value q) =
    WireOperation.put_value (record { value = some (write_value q.datum) })
write_operation (get_value q) = WireOperation.get_value (record { id = q.id })
write_operation (list_values q) =
    WireOperation.list_values (record { after = q.after; limit = q.limit })
write_operation (create_object q) =
    WireOperation.create_object
      (record { class_name = q.class_name; arguments = write_named q.arguments })
write_operation (get_object q) = WireOperation.get_object (record { id = q.id })
write_operation (release_object q) = WireOperation.release_object (record { id = q.id })
write_operation (get_attribute q) =
    WireOperation.get_attribute (record { id = q.id; name = q.name })
write_operation (invoke_method q) =
    WireOperation.invoke_method
      (record { id = q.id; name = q.name; arguments = write_named q.arguments })

-- std::ranges::is_sorted
unfoldable pub is_sorted : List Text → Bool
is_sorted [] = true
is_sorted (a ∷ []) = true
is_sorted (a ∷ b ∷ names) = not (text_lt b a) && is_sorted (b ∷ names)

-- std::ranges::adjacent_find(names) != names.end()
unfoldable pub has_adjacent : List Text → Bool
has_adjacent [] = false
has_adjacent (a ∷ []) = false
has_adjacent (a ∷ b ∷ names) = text_eq a b || has_adjacent (b ∷ names)

-- `!next.empty() && (names.empty() || next != names.back())`
unfoldable pub wrong_cursor : Text → List Text → Bool
wrong_cursor [] names = false
wrong_cursor (c ∷ next) names = elim (back names) [
  | none ↦ true
  | some n ↦ not (text_eq (c ∷ next) n)
]

unfoldable pub read_classes : ClassesPage → Option Outcome
unfolding is_sorted has_adjacent wrong_cursor
read_classes output =
    if not (all_of (λ name. valid_name name false) output.names)
      || not (is_sorted output.names)
      || has_adjacent output.names
      || wrong_cursor output.next output.names
    then none
    else some (classes_page output)

-- The loop over the records of a values page: `previous`, and the records read.
unfoldable pub read_records :
    ℕ → List ValueRecord → List WireValueRecord → Option (ℕ × List ValueRecord)
read_records previous output [] = some (previous, output)
read_records previous output (entry ∷ entries) = elim (read_record entry) [
  | none ↦ none
  | some datum ↦
      let next = read_records datum.id (output ++ datum ∷ []) entries in
      if leb datum.id previous then none else next
]

abbrev pub is_empty {ℓ} : {A : Type ℓ} → List A → Bool
is_empty [] = true
is_empty (x ∷ xs) = false

-- What follows that loop.
unfoldable pub finish_values : ℕ → Option (ℕ × List ValueRecord) → Option Outcome
finish_values next none = none
finish_values next (some (previous, output)) =
    if not (next == 0) && (is_empty output || not (next == previous))
    then none
    else some (values_page (record { values = output; next = next }))

abbrev pub error_byte : ErrorCode → ℕ
error_byte ErrorCode.invalid_request = 1
error_byte ErrorCode.not_found = 2
error_byte ErrorCode.quota_exceeded = 3
error_byte ErrorCode.timeout = 4
error_byte ErrorCode.cancelled = 5
error_byte ErrorCode.access_denied = 6
error_byte ErrorCode.transport_failure = 7
error_byte ErrorCode.internal_failure = 8
error_byte ErrorCode.unsupported_version = 9
error_byte ErrorCode.numeric_overflow = 10
error_byte (ErrorCode.unknown_code zero) = 0
error_byte (ErrorCode.unknown_code (suc n)) = n + 11

-- `static_cast<error_code>` of a byte.
abbrev pub error_of_byte : ℕ → ErrorCode
error_of_byte zero = ErrorCode.unknown_code 0
error_of_byte (suc zero) = ErrorCode.invalid_request
error_of_byte (suc (suc zero)) = ErrorCode.not_found
error_of_byte (suc (suc (suc zero))) = ErrorCode.quota_exceeded
error_of_byte (suc (suc (suc (suc zero)))) = ErrorCode.timeout
error_of_byte (suc (suc (suc (suc (suc zero))))) = ErrorCode.cancelled
error_of_byte (suc (suc (suc (suc (suc (suc zero)))))) = ErrorCode.access_denied
error_of_byte (suc (suc (suc (suc (suc (suc (suc zero))))))) = ErrorCode.transport_failure
error_of_byte (suc (suc (suc (suc (suc (suc (suc (suc zero)))))))) = ErrorCode.internal_failure
error_of_byte (suc (suc (suc (suc (suc (suc (suc (suc (suc zero))))))))) =
    ErrorCode.unsupported_version
error_of_byte (suc (suc (suc (suc (suc (suc (suc (suc (suc (suc zero)))))))))) =
    ErrorCode.numeric_overflow
error_of_byte (suc (suc (suc (suc (suc (suc (suc (suc (suc (suc (suc n))))))))))) =
    ErrorCode.unknown_code (suc n)

unfoldable pub read_outcome : WireOutcome → Option Outcome
unfolding read_classes read_records finish_values
read_outcome (WireOutcome.classes page) =
    read_classes (record { names = page.names; next = page.next })
read_outcome (WireOutcome.description d) = elim (read_description d) [
  | none ↦ none
  | some d' ↦ some (class_description d')
]
read_outcome (WireOutcome.value_record r) = elim (read_record r) [
  | none ↦ none
  | some r' ↦ some (value_record r')
]
read_outcome (WireOutcome.values page) = finish_values page.next (read_records 0 [] page.values)
read_outcome (WireOutcome.object o) =
    if not (o.id == 0) && valid_name o.class_name false
    then elim (read_named o.state) [
      | none ↦ none
      | some state ↦
          some (object_snapshot (record { id = o.id; class_name = o.class_name; state = state }))
    ]
    else none
read_outcome WireOutcome.released = some released
read_outcome (WireOutcome.value v) = elim (read_value v) [ none ↦ none | some v' ↦ some (value v') ]
read_outcome (WireOutcome.error e) =
    if leb 1 e.code && leb e.code 10
    then some (remote_error (record { code = error_of_byte e.code; message = e.message }))
    else none
read_outcome WireOutcome.outcome_not_set = none

-- The loop of `write_outcome` over a page's records.
unfoldable pub write_records : List ValueRecord → List WireValueRecord
write_records [] = []
write_records (r ∷ records) = write_record r ∷ write_records records

unfoldable pub write_outcome : Outcome → WireOutcome
unfolding write_records
write_outcome (classes_page page) =
    WireOutcome.classes (record { names = page.names; next = page.next })
write_outcome (class_description d) = WireOutcome.description (write_description d)
write_outcome (value_record r) = WireOutcome.value_record (write_record r)
write_outcome (values_page page) =
    WireOutcome.values (record { values = write_records page.values; next = page.next })
write_outcome (object_snapshot o) =
    WireOutcome.object
      (record { id = o.id; class_name = o.class_name; state = write_named o.state })
write_outcome released = WireOutcome.released
write_outcome (value v) = WireOutcome.value (write_value v)
write_outcome (remote_error e) =
    WireOutcome.error (record { code = error_byte e.code; message = e.message })
