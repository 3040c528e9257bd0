-- ===== src/Store/Invocations.antt =====
-- src/domain/domain.cpp, `session_store::apply(const p::invoke_method&)`: what a call does.
use stream_labs_test_assingm.Base.{
  ℕ, ◌≤◌, ◌≡◌, refl, true, false, ◌||◌, not, some, ltb, ◌==◌, arith, ◌⊎◌, inl, inr, Bool-cases,
  Option-cases,
}
use stream_labs_test_assingm.Base.Result.{Result, ok, err, find_if}
use stream_labs_test_assingm.Base.Text.{text_eq}
use stream_labs_test_assingm.Base.Word.{add64, sub64}
use stream_labs_test_assingm.Contracts.{
  Value, ErrorCode, RemoteError, Outcome, value, InvokeMethod, Method,
}
use stream_labs_test_assingm.Validation.{
  Utf8, valid_value, valid_name, valid_arguments, kind_of, kind_eq,
}
use stream_labs_test_assingm.SortedMap.{find, assign}
use stream_labs_test_assingm.Objects.{ObjectClass}
use stream_labs_test_assingm.Store.State.{
  SessionStore, StoredObject, refusal, state_matches, object_charge,
}
use stream_labs_test_assingm.Store.Methods.{apply_invoke_method, invoke_on, run_candidate, publish}

-- The candidate ran, and keeps to its definition and to the limits.
pub record InvokeFits {Obj : Type 0} ⦃o : ObjectClass Obj⦄ ⦃u : Utf8⦄ (s : SessionStore Obj)
    (query : InvokeMethod) (entry : StoredObject Obj) (method : Method) (copy candidate : Obj)
    (result : Value) : Type 0 where
  pub stored : find query.id s.objects ≡ some entry
  pub cloned : o.clone entry.held ≡ some copy
  pub ran : (o.invoke copy query.name query.arguments).1 ≡ ok result
  pub changed : (o.invoke copy query.name query.arguments).0 ≡ candidate
  pub valid : valid_value result ≡ true
  pub typed : kind_eq (kind_of result) method.result_kind ≡ true
  pub matches : state_matches entry.definition (o.state candidate) ≡ true
  pub fits :
      object_charge entry.definition.description (o.state candidate)
      ≤ sub64 s.limits.bytes (sub64 s.used entry.charge)

module _ {Obj : Type 0} ⦃o : ObjectClass Obj⦄ ⦃u : Utf8⦄ where
  abbrev pub after_invoke :
      SessionStore Obj → ℕ → StoredObject Obj → Obj → Value → SessionStore Obj × Outcome
  after_invoke s id entry candidate result =
      let charge = object_charge entry.definition.description (o.state candidate) in
      (
        record s {
          objects = assign id (record entry { held = candidate; charge = charge }) s.objects;
          used = add64 (sub64 s.used entry.charge) charge;
        },
        value result,
      )

  abbrev pub Invoked : SessionStore Obj → InvokeMethod → SessionStore Obj × Outcome → Type 0
  Invoked s query out =
      ((code : ErrorCode) × (out ≡ (s, refusal code)))
      ⊎ ((entry : StoredObject Obj) × (method : Method) × (copy : Obj) × (candidate : Obj)
          × (result : Value) × InvokeFits s query entry method copy candidate result
          × (out ≡ after_invoke s query.id entry candidate result))

  publish-Invoked :
      (s : SessionStore Obj) (query : InvokeMethod) (entry : StoredObject Obj) (method : Method)
      (copy candidate : Obj) (result : Value)
      → find query.id s.objects ≡ some entry
      → o.clone entry.held ≡ some copy
      → (o.invoke copy query.name query.arguments).1 ≡ ok result
      → (o.invoke copy query.name query.arguments).0 ≡ candidate
      → Invoked s query (publish s query.id entry method candidate result)
  unfolding publish
  publish-Invoked s query entry method copy candidate result stored cloned ran changed =
      let broken =
        not (valid_value result)
        || not (kind_eq (kind_of result) method.result_kind)
        || not (state_matches entry.definition (o.state candidate)) in
      let charge = object_charge entry.definition.description (o.state candidate) in
      elim (Bool-cases broken) [
        | inl bad ↦ inl (ErrorCode.internal_failure, rw bad)
        | inr good ↦
            elim (Bool-cases (ltb (sub64 s.limits.bytes (sub64 s.used entry.charge)) charge)) [
              | inl full ↦ inl (ErrorCode.quota_exceeded, rw (good, full))
              | inr small ↦ inr (
                entry,
                method,
                copy,
                candidate,
                result,
                record {
                  stored = stored;
                  cloned = cloned;
                  ran = ran;
                  changed = changed;
                  valid = ground arith;
                  typed = ground arith;
                  matches = ground arith;
                  fits = ground arith;
                },
                rw (good, small),
              )
            ]
      ]

  result-Invoked :
      (s : SessionStore Obj) (query : InvokeMethod) (entry : StoredObject Obj) (method : Method)
      (copy : Obj) (answer : Result RemoteError Value)
      → find query.id s.objects ≡ some entry
      → o.clone entry.held ≡ some copy
      → (o.invoke copy query.name query.arguments).1 ≡ answer
      → Invoked s query (run_candidate s query entry method)
  unfolding run_candidate
  result-Invoked s query entry method copy (err e) stored cloned ran =
      inl (e.code, rw (cloned, ran, run_candidate))
  result-Invoked s query entry method copy (ok result) stored cloned ran =
      rw (cloned, ran, run_candidate)
        (publish-Invoked s query entry method copy _ result stored cloned ran refl)

  invoke_on-Invoked :
      (s : SessionStore Obj) (query : InvokeMethod) (entry : StoredObject Obj)
      → find query.id s.objects ≡ some entry
      → Invoked s query (invoke_on s query entry)
  unfolding invoke_on run_candidate
  invoke_on-Invoked s query entry stored =
      elim (Option-cases
        (find_if (λ m. text_eq m.name query.name) entry.definition.description.methods)) [
          | inl unknown ↦ inl (ErrorCode.not_found, rw (unknown, invoke_on))
          | inr (method, known) ↦
              elim (Bool-cases (valid_arguments query.arguments method.parameters)) [
                | inr wrong ↦ inl (ErrorCode.invalid_request, rw (known, wrong, invoke_on))
                | inl args ↦ elim (Option-cases (o.clone entry.held)) [
                  | inl null ↦
                      inl (
                        ErrorCode.internal_failure,
                        rw (known, args, null, invoke_on, run_candidate),
                      )
                  | inr (copy, cloned) ↦
                      rw (known, args, invoke_on)
                        (result-Invoked s query entry method copy
                          (o.invoke copy query.name query.arguments).1 stored cloned refl)
                ]
              ]
        ]

  pub apply_invoke_method-Invoked :
      (s : SessionStore Obj) (query : InvokeMethod) → Invoked s query (apply_invoke_method s query)
  unfolding apply_invoke_method
  apply_invoke_method-Invoked s query =
      elim (Bool-cases (query.id == 0 || not (valid_name query.name false))) [
        | inl wrong ↦ inl (ErrorCode.invalid_request, rw wrong)
        | inr right ↦ elim (Option-cases (find query.id s.objects)) [
          | inl missing ↦ inl (ErrorCode.not_found, rw (right, missing))
          | inr (entry, stored) ↦ rw (right, stored) (invoke_on-Invoked s query entry stored)
        ]
      ]
