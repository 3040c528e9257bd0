-- ===== src/Store/Values.antt =====
-- src/domain/domain.cpp, `session_store`: the operations on values, and the two reads of the registry.
use stream_labs_test_assingm.Base.{
  ℕ, ◌/◌, false, ◌||◌, not, none, some, List, [], ◌∷◌, ◌++◌, ltb, leb, ◌==◌, if◌then◌else◌, length,
}
use stream_labs_test_assingm.Base.Result.{Result, ok, err, back}
use stream_labs_test_assingm.Base.Word.{add64, sub64}
use stream_labs_test_assingm.Contracts.{
  Value, ValueRecord, ClassesPage, ErrorCode, RemoteError, Outcome, classes_page, class_description,
  value_record, values_page, remote_error, ListClasses, DescribeClass, PutValue, GetValue,
  ListValues, max_payload_bytes,
}
use stream_labs_test_assingm.Validation.{
  Utf8, valid_name, valid_value, valid_page_size, value_bytes,
}
use stream_labs_test_assingm.SortedMap
use stream_labs_test_assingm.SortedMap.{SortedMap}
use stream_labs_test_assingm.Objects.{record_charge}
use stream_labs_test_assingm.Registry
use stream_labs_test_assingm.Registry.{ClassRegistry}
use stream_labs_test_assingm.Identifiers.{IdentifierSource, next}
use stream_labs_test_assingm.Store.State.{SessionStore, Step, fail, refusal}

abbrev pub page_byte_budget : ℕ
page_byte_budget = max_payload_bytes / 2

unfoldable pub widen : Result RemoteError ClassesPage → Outcome
widen (ok page) = classes_page page
widen (err e) = remote_error e

-- The loop of `list_values`: the page's records, and the entries left.
unfoldable pub fill_values :
    ℕ → ℕ → List ValueRecord → SortedMap Value → List ValueRecord × SortedMap Value
fill_values limit bytes page [] = (page, [])
fill_values limit bytes page ((id, datum) ∷ items) =
    let charge = add64 record_charge (value_bytes datum) in
    let next =
      fill_values limit (add64 bytes charge) (page ++ record { id = id; datum = datum } ∷ [])
        items in
    if ltb (length page) limit
    then if ltb (sub64 page_byte_budget bytes) charge then (page, (id, datum) ∷ items) else next
    else (page, (id, datum) ∷ items)

-- `page.values.back().id`, which is undefined on no records, with 0 in its place.
abbrev pub last_id : List ValueRecord → ℕ
last_id page = elim (back page) [ none ↦ 0 | some r ↦ r.id ]

abbrev pub value_cursor : List ValueRecord → SortedMap Value → ℕ
value_cursor page [] = 0
value_cursor page (item ∷ items) = last_id page

module _ {Obj : Type 0} where
  unfoldable pub apply_list_classes : SessionStore Obj → ListClasses → Outcome
  apply_list_classes s query = widen (Registry.list s.registry query)

  unfoldable pub apply_describe_class : SessionStore Obj → DescribeClass → Outcome
  apply_describe_class s query =
      if not (valid_name query.name false)
      then refusal ErrorCode.invalid_request
      else elim (Registry.find s.registry query.name) [
        | none ↦ refusal ErrorCode.not_found
        | some definition ↦ class_description definition.description
      ]

  unfoldable pub apply_get_value : SessionStore Obj → GetValue → Outcome
  apply_get_value s query =
      if query.id == 0
      then refusal ErrorCode.invalid_request
      else elim (SortedMap.find query.id s.values) [
        | none ↦ refusal ErrorCode.not_found
        | some datum ↦ value_record (record { id = query.id; datum = datum })
      ]

  unfoldable pub apply_list_values : SessionStore Obj → ListValues → Outcome
  apply_list_values s query =
      if not (valid_page_size query.limit)
      then refusal ErrorCode.invalid_request
      else let (page, left) =
          fill_values query.limit 0 [] (SortedMap.upper_bound query.after s.values) in
        values_page (record { values = page; next = value_cursor page left })

module _ {Obj : Type 0} ⦃u : Utf8⦄ where
  unfoldable pub apply_put_value : SessionStore Obj → IdentifierSource → PutValue → Step Obj
  apply_put_value s ids query =
      if not (valid_value query.datum)
      then fail s ids ErrorCode.invalid_request
      else let charge = add64 record_charge (value_bytes query.datum) in
        if leb s.limits.values (length s.values) || ltb (sub64 s.limits.bytes s.used) charge
        then fail s ids ErrorCode.quota_exceeded
        else elim (next ids).1 [
          | none ↦ fail s (next ids).0 ErrorCode.quota_exceeded
          | some id ↦ (
            record s {
              values = SortedMap.emplace id query.datum s.values;
              used = add64 s.used charge;
            },
            (next ids).0,
            value_record (record { id = id; datum = query.datum }),
          )
        ]
