-- ===== src/Store/Objects.antt =====
-- src/domain/domain.cpp, `session_store`: creating, reading and releasing objects.
use stream_labs_test_assingm.Base.{false, not, none, some, ltb, leb, ◌==◌, if◌then◌else◌, length}
use stream_labs_test_assingm.Base.Result.{ok, err}
use stream_labs_test_assingm.Base.Word.{add64, sub64}
use stream_labs_test_assingm.Contracts.{
  ErrorCode, Outcome, object_snapshot, released, value, remote_error, CreateObject, GetObject,
  ReleaseObject, GetAttribute,
}
use stream_labs_test_assingm.Validation.{Utf8, valid_name, valid_arguments, find_named}
use stream_labs_test_assingm.SortedMap
use stream_labs_test_assingm.SortedMap.{SortedMap}
use stream_labs_test_assingm.Objects.{ObjectClass, ClassDefinition, record_charge}
use stream_labs_test_assingm.Registry
use stream_labs_test_assingm.Registry.{ClassRegistry}
use stream_labs_test_assingm.Identifiers.{IdentifierSource, next}
use stream_labs_test_assingm.Store.State.{
  SessionStore, Step, fail, refusal, state_charge, state_matches,
}

-- The rest of `apply(const get_attribute&)` once `apply(get_object)` has answered: it answers
-- with an error or with a snapshot.
unfoldable pub read_attribute : GetAttribute → Outcome → Outcome
read_attribute query (remote_error e) = remote_error e
read_attribute query (object_snapshot snapshot) = elim (find_named query.name snapshot.state) [
  | none ↦ refusal ErrorCode.not_found
  | some entry ↦ value entry.datum
]
read_attribute query other = other

module _ {Obj : Type 0} where
  unfoldable pub apply_release_object :
      SessionStore Obj → ReleaseObject → SessionStore Obj × Outcome
  apply_release_object s query =
      if query.id == 0
      then (s, refusal ErrorCode.invalid_request)
      else elim (SortedMap.find query.id s.objects) [
        | none ↦ (s, refusal ErrorCode.not_found)
        | some entry ↦ (
          record s {
            used = sub64 s.used entry.charge;
            objects = SortedMap.erase query.id s.objects;
          },
          released,
        )
      ]

module _ {Obj : Type 0} ⦃o : ObjectClass Obj⦄ ⦃u : Utf8⦄ where
  -- `apply(const create_object&)` from the call of `instance->state()` on.
  unfoldable pub retain_created :
      SessionStore Obj → IdentifierSource → CreateObject → ClassDefinition Obj → Obj → Step Obj
  retain_created s ids query definition created =
      let state = o.state created in
      if not (state_matches definition state)
      then fail s ids ErrorCode.internal_failure
      else let charge =
          add64 (add64 record_charge (length query.class_name)) (state_charge state) in
        if ltb (sub64 s.limits.bytes s.used) charge
        then fail s ids ErrorCode.quota_exceeded
        else elim (next ids).1 [
          | none ↦ fail s (next ids).0 ErrorCode.quota_exceeded
          | some id ↦ (
            record s {
              objects =
                  SortedMap.emplace id
                    (record { definition = definition; held = created; charge = charge }) s.objects;
              used = add64 s.used charge;
            },
            (next ids).0,
            object_snapshot (record { id = id; class_name = query.class_name; state = state }),
          )
        ]

  -- `apply(const create_object&)` from the check of the arguments on.
  unfoldable pub create_with :
      SessionStore Obj → IdentifierSource → CreateObject → ClassDefinition Obj → Step Obj
  create_with s ids query definition =
      if not (valid_arguments query.arguments definition.description.constructor_parameters)
      then fail s ids ErrorCode.invalid_request
      else if leb s.limits.objects (length s.objects)
      then fail s ids ErrorCode.quota_exceeded
      else elim (definition.create query.arguments) [
        | err e ↦ fail s ids e.code
        | ok none ↦ fail s ids ErrorCode.internal_failure
        | ok (some created) ↦ retain_created s ids query definition created
      ]

  unfoldable pub apply_create_object : SessionStore Obj → IdentifierSource → CreateObject → Step Obj
  apply_create_object s ids query =
      if not (valid_name query.class_name false)
      then fail s ids ErrorCode.invalid_request
      else elim (Registry.find s.registry query.class_name) [
        | none ↦ fail s ids ErrorCode.not_found
        | some definition ↦ create_with s ids query definition
      ]

  unfoldable pub apply_get_object : SessionStore Obj → GetObject → Outcome
  apply_get_object s query =
      if query.id == 0
      then refusal ErrorCode.invalid_request
      else elim (SortedMap.find query.id s.objects) [
        | none ↦ refusal ErrorCode.not_found
        | some entry ↦
            if not (state_matches entry.definition (o.state entry.held))
            then refusal ErrorCode.internal_failure
            else object_snapshot (record {
              id = query.id;
              class_name = entry.definition.description.name;
              state = o.state entry.held;
            })
      ]

  unfoldable pub apply_get_attribute : SessionStore Obj → GetAttribute → Outcome
  apply_get_attribute s query =
      if not (valid_name query.name false)
      then refusal ErrorCode.invalid_request
      else read_attribute query (apply_get_object s (record { id = query.id }))
