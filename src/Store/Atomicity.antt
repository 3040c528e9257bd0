-- ===== src/Store/Atomicity.antt =====
-- src/domain/domain.cpp, `session_store::execute`: an operation that fails.
use stream_labs_test_assingm.Base.{
  ◌≡◌, refl, true, false, ◌||◌, not, ◌==◌, arith, inl, inr, Bool-cases, Option-cases,
}
use stream_labs_test_assingm.Contracts.{
  ErrorCode, RemoteError, Outcome, object_snapshot, remote_error, Operation, list_classes,
  describe_class, put_value, get_value, list_values, create_object, get_object, release_object,
  get_attribute, invoke_method, ListClasses, DescribeClass, GetValue, ListValues, GetObject,
  GetAttribute,
}
use stream_labs_test_assingm.Validation.{Utf8, valid_name, valid_page_size, make_error, find_named}
use stream_labs_test_assingm.SortedMap.{find}
use stream_labs_test_assingm.Objects.{ObjectClass}
use stream_labs_test_assingm.Identifiers.{IdentifierSource, IsWord}
use stream_labs_test_assingm.Registry
use stream_labs_test_assingm.Store.State.{SessionStore, Step, refusal, state_matches}
use stream_labs_test_assingm.Store.Values.{
  widen, apply_list_classes, apply_describe_class, apply_get_value, apply_list_values,
}
use stream_labs_test_assingm.Store.Objects.{apply_get_object, apply_get_attribute, read_attribute}
use stream_labs_test_assingm.Store.Execute.{apply, execute}
use stream_labs_test_assingm.Store.Outcomes.{
  apply_put_value-Outcome, apply_create_object-Created, apply_release_object-Released,
}
use stream_labs_test_assingm.Store.Invocations.{apply_invoke_method-Invoked}

-- An error in the outcome is one of the server's own texts.
abbrev pub IsFixed : Outcome → Type 0
IsFixed out = (e : RemoteError) → out ≡ remote_error e → (code : ErrorCode) × (e ≡ make_error code)

refusal-IsFixed : (code : ErrorCode) → IsFixed (refusal code)
refusal-IsFixed code e h = (code, ground arith)

module _ {Obj : Type 0} (s : SessionStore Obj) where
  list_classes-IsFixed : (query : ListClasses) → IsFixed (apply_list_classes s query)
  unfolding apply_list_classes Registry.list widen
  list_classes-IsFixed query =
      elim (Bool-cases (not (valid_name query.after true) || not (valid_page_size query.limit))) [
        | inl bad ↦ rw bad (refusal-IsFixed ErrorCode.invalid_request)
        | inr good ↦ rw good (λ e h. absurd (cc))
      ]

  describe_class-IsFixed : (query : DescribeClass) → IsFixed (apply_describe_class s query)
  unfolding apply_describe_class
  describe_class-IsFixed query = elim (Bool-cases (valid_name query.name false)) [
    | inr bad ↦ rw bad (refusal-IsFixed ErrorCode.invalid_request)
    | inl good ↦ elim (Option-cases (Registry.find s.registry query.name)) [
      | inl missing ↦ rw (good, missing) (refusal-IsFixed ErrorCode.not_found)
      | inr (d, found) ↦ rw (good, found) (λ e h. absurd (cc))
    ]
  ]

  get_value-IsFixed : (query : GetValue) → IsFixed (apply_get_value s query)
  unfolding apply_get_value
  get_value-IsFixed query = elim (Bool-cases (query.id == 0)) [
    | inl bad ↦ rw bad (refusal-IsFixed ErrorCode.invalid_request)
    | inr good ↦ elim (Option-cases (find query.id s.values)) [
      | inl missing ↦ rw (good, missing) (refusal-IsFixed ErrorCode.not_found)
      | inr (d, found) ↦ rw (good, found) (λ e h. absurd (cc))
    ]
  ]

  list_values-IsFixed : (query : ListValues) → IsFixed (apply_list_values s query)
  unfolding apply_list_values
  list_values-IsFixed query = elim (Bool-cases (valid_page_size query.limit)) [
    | inr bad ↦ rw bad (refusal-IsFixed ErrorCode.invalid_request)
    | inl good ↦ rw good (λ e h. absurd (cc))
  ]

read_attribute-IsFixed :
    (query : GetAttribute) (out : Outcome) → IsFixed out → IsFixed (read_attribute query out)
unfolding read_attribute
read_attribute-IsFixed query (remote_error e) f = f
read_attribute-IsFixed query (object_snapshot o) f =
    elim (Option-cases (find_named query.name o.state)) [
      | inl missing ↦ rw (missing, read_attribute) (refusal-IsFixed ErrorCode.not_found)
      | inr (v, found) ↦ rw (found, read_attribute) (λ e h. absurd (cc))
    ]
read_attribute-IsFixed query other f = f

module _ {Obj : Type 0} ⦃o : ObjectClass Obj⦄ ⦃u : Utf8⦄ (s : SessionStore Obj) where
  get_object-IsFixed : (query : GetObject) → IsFixed (apply_get_object s query)
  unfolding apply_get_object
  get_object-IsFixed query = elim (Bool-cases (query.id == 0)) [
    | inl bad ↦ rw bad (refusal-IsFixed ErrorCode.invalid_request)
    | inr good ↦ elim (Option-cases (find query.id s.objects)) [
      | inl missing ↦ rw (good, missing) (refusal-IsFixed ErrorCode.not_found)
      | inr (entry, found) ↦
          elim (Bool-cases (state_matches entry.definition (o.state entry.held))) [
            | inr broken ↦ rw (good, found, broken) (refusal-IsFixed ErrorCode.internal_failure)
            | inl whole ↦ rw (good, found, whole) (λ e h. absurd (cc))
          ]
    ]
  ]

  get_attribute-IsFixed : (query : GetAttribute) → IsFixed (apply_get_attribute s query)
  unfolding apply_get_attribute
  get_attribute-IsFixed query = elim (Bool-cases (valid_name query.name false)) [
    | inr bad ↦ rw bad (refusal-IsFixed ErrorCode.invalid_request)
    | inl good ↦ rw good (read_attribute-IsFixed query _ (get_object-IsFixed _))
  ]

-- What an operation leaves behind when its outcome is an error.
abbrev pub Atomic : {Obj : Type 0} → SessionStore Obj → IdentifierSource → Step Obj → Type 0
Atomic s ids out =
    (e : RemoteError)
    → out.2 ≡ remote_error e
    → (out.0 ≡ s) × (out.1 ≡ ids) × (code : ErrorCode) × (e ≡ make_error code)

module _ {Obj : Type 0} ⦃o : ObjectClass Obj⦄ ⦃u : Utf8⦄ where
  read-Atomic :
      (s : SessionStore Obj) (ids : IdentifierSource) (out : Outcome)
      → IsFixed out
      → Atomic s ids (s, ids, out)
  read-Atomic s ids out f e h = (refl, refl, (f e h).0, (f e h).1)

  apply-Atomic :
      (s : SessionStore Obj) (ids : IdentifierSource) (operation : Operation)
      → IsWord ids
      → Atomic s ids (apply s ids operation)
  unfolding apply
  apply-Atomic s ids (list_classes query) w = read-Atomic s ids _ (list_classes-IsFixed s query)
  apply-Atomic s ids (describe_class query) w = read-Atomic s ids _ (describe_class-IsFixed s query)
  apply-Atomic s ids (put_value query) w = elim (apply_put_value-Outcome s ids query w) [
    | inl (code, failed) ↦ rw failed (read-Atomic s ids _ (refusal-IsFixed code))
    | inr (_, _, stored) ↦ rw stored (λ e h. absurd (cc))
  ]
  apply-Atomic s ids (get_value query) w = read-Atomic s ids _ (get_value-IsFixed s query)
  apply-Atomic s ids (list_values query) w = read-Atomic s ids _ (list_values-IsFixed s query)
  apply-Atomic s ids (create_object query) w = elim (apply_create_object-Created s ids query w) [
    | inl (code, failed) ↦ rw failed (read-Atomic s ids _ (refusal-IsFixed code))
    | inr (_, _, _, _, stored) ↦ rw stored (λ e h. absurd (cc))
  ]
  apply-Atomic s ids (get_object query) w = read-Atomic s ids _ (get_object-IsFixed s query)
  apply-Atomic s ids (release_object query) w = elim (apply_release_object-Released s query) [
    | inl (code, failed) ↦ rw failed (read-Atomic s ids _ (refusal-IsFixed code))
    | inr (_, _, stored) ↦ rw stored (λ e h. absurd (cc))
  ]
  apply-Atomic s ids (get_attribute query) w = read-Atomic s ids _ (get_attribute-IsFixed s query)
  apply-Atomic s ids (invoke_method query) w = elim (apply_invoke_method-Invoked s query) [
    | inl (code, failed) ↦ rw failed (read-Atomic s ids _ (refusal-IsFixed code))
    | inr (_, _, _, _, _, _, stored) ↦ rw stored (λ e h. absurd (cc))
  ]

  pub execute_open :
      (s : SessionStore Obj) (ids : IdentifierSource) (operation : Operation)
      → s.closed ≡ false
      → execute s ids operation ≡ apply s ids operation
  unfolding execute
  execute_open s ids operation h = ground arith

  pub execute_closed :
      (s : SessionStore Obj) (ids : IdentifierSource) (operation : Operation)
      → s.closed ≡ true
      → execute s ids operation ≡ (s, ids, refusal ErrorCode.access_denied)
  unfolding execute
  execute_closed s ids operation h = ground arith

  -- Whatever the class of objects does, an operation whose outcome is an error has left the store
  -- and the id source as they were, and the error is one of the server's fixed texts.
  pub execute-Atomic :
      (s : SessionStore Obj) (ids : IdentifierSource) (operation : Operation) (e : RemoteError)
      → IsWord ids
      → (execute s ids operation).2 ≡ remote_error e
      → ((execute s ids operation).0 ≡ s)
        × ((execute s ids operation).1 ≡ ids)
        × (code : ErrorCode) × (e ≡ make_error code)
  execute-Atomic s ids operation e w = elim (Bool-cases s.closed) [
    | inl closed ↦
        rw (execute_closed s ids operation closed)
          (read-Atomic s ids _ (refusal-IsFixed ErrorCode.access_denied) e)
    | inr open_store ↦
        rw (execute_open s ids operation open_store) (apply-Atomic s ids operation w e)
  ]
