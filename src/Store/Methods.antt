-- ===== src/Store/Methods.antt =====
-- src/domain/domain.cpp, `session_store`: a method runs on a clone, which is published or discarded.
use stream_labs_test_assingm.Base.{ℕ, false, ◌||◌, not, none, some, ltb, ◌==◌, if◌then◌else◌}
use stream_labs_test_assingm.Base.Text.{text_eq}
use stream_labs_test_assingm.Base.Result.{ok, err, find_if}
use stream_labs_test_assingm.Base.Word.{add64, sub64}
use stream_labs_test_assingm.Contracts.{Value, Method, ErrorCode, Outcome, value, InvokeMethod}
use stream_labs_test_assingm.Validation.{
  Utf8, valid_name, valid_value, valid_arguments, kind_of, kind_eq,
}
use stream_labs_test_assingm.SortedMap
use stream_labs_test_assingm.SortedMap.{SortedMap}
use stream_labs_test_assingm.Objects.{ObjectClass}
use stream_labs_test_assingm.Store.State.{
  StoredObject, SessionStore, refusal, state_matches, object_charge,
}

module _ {Obj : Type 0} ⦃o : ObjectClass Obj⦄ ⦃u : Utf8⦄ where
  -- `apply(const invoke_method&)` once the candidate has run: its result and state are checked,
  -- charged and published.
  unfoldable pub publish :
      SessionStore Obj → ℕ → StoredObject Obj → Method → Obj → Value → SessionStore Obj × Outcome
  publish s id entry method candidate result =
      let state = o.state candidate in
      if not (valid_value result)
        || not (kind_eq (kind_of result) method.result_kind)
        || not (state_matches entry.definition state)
      then (s, refusal ErrorCode.internal_failure)
      else let charge = object_charge entry.definition.description state in
        let retained = sub64 s.used entry.charge in
        if ltb (sub64 s.limits.bytes retained) charge
        then (s, refusal ErrorCode.quota_exceeded)
        else (
          record s {
            objects =
                SortedMap.assign id (record entry { held = candidate; charge = charge }) s.objects;
            used = add64 retained charge;
          },
          value result,
        )

  -- `apply(const invoke_method&)` from the call of `clone` on.
  unfoldable pub run_candidate :
      SessionStore Obj → InvokeMethod → StoredObject Obj → Method → SessionStore Obj × Outcome
  run_candidate s query entry method = elim (o.clone entry.held) [
    | none ↦ (s, refusal ErrorCode.internal_failure)
    | some candidate ↦ elim (o.invoke candidate query.name query.arguments).1 [
      | err e ↦ (s, refusal e.code)
      | ok result ↦
          publish s query.id entry method (o.invoke candidate query.name query.arguments).0 result
    ]
  ]

  unfoldable pub invoke_on :
      SessionStore Obj → InvokeMethod → StoredObject Obj → SessionStore Obj × Outcome
  invoke_on s query entry =
      elim (find_if (λ m. text_eq m.name query.name) entry.definition.description.methods) [
        | none ↦ (s, refusal ErrorCode.not_found)
        | some method ↦
            if not (valid_arguments query.arguments method.parameters)
            then (s, refusal ErrorCode.invalid_request)
            else run_candidate s query entry method
      ]

  unfoldable pub apply_invoke_method : SessionStore Obj → InvokeMethod → SessionStore Obj × Outcome
  apply_invoke_method s query =
      if query.id == 0 || not (valid_name query.name false)
      then (s, refusal ErrorCode.invalid_request)
      else elim (SortedMap.find query.id s.objects) [
        | none ↦ (s, refusal ErrorCode.not_found)
        | some entry ↦ invoke_on s query entry
      ]
