-- ===== src/Store/Outcomes.antt =====
-- src/domain/domain.cpp, `session_store`: what each operation that changes the store can do, which
-- is to refuse and leave all as it was, or to write once.
use stream_labs_test_assingm.Base.{
  ◌+◌, ◌≤◌, ◌<◌, ◌≡◌, refl, true, false, ◌||◌, Option, none, some, ltb, leb, ◌==◌, arith, length,
  ◌⊎◌, inl, inr, Bool-cases, Option-cases,
}
use stream_labs_test_assingm.Base.Result.{Result, ok, err}
use stream_labs_test_assingm.Base.Word.{add64, sub64}
use stream_labs_test_assingm.Contracts.{
  Value, ErrorCode, RemoteError, Outcome, value_record, object_snapshot, released, PutValue,
  CreateObject, ReleaseObject,
}
use stream_labs_test_assingm.Validation.{
  Utf8, valid_value, value_bytes, valid_name, valid_arguments,
}
use stream_labs_test_assingm.SortedMap.{find, emplace, erase}
use stream_labs_test_assingm.Objects.{ObjectClass, ClassDefinition, record_charge}
use stream_labs_test_assingm.Identifiers.{IdentifierSource, next, next_lem, horizon, IsWord}
use stream_labs_test_assingm.Registry
use stream_labs_test_assingm.Store.State.{
  SessionStore, StoredObject, Step, fail, refusal, state_matches, state_charge,
}
use stream_labs_test_assingm.Store.Values.{apply_put_value}
use stream_labs_test_assingm.Store.Objects.{
  apply_create_object, create_with, retain_created, apply_release_object,
}

-- An id was issued: the horizon of the source, which moved past it.
pub record Issued (ids ids' : IdentifierSource) : Type 0 where
  pub nonzero : 0 < horizon ids
  pub moved : horizon ids' ≡ horizon ids + 1
  pub word : IsWord ids'

pub record PutFits {Obj : Type 0} ⦃u : Utf8⦄ (s : SessionStore Obj) (datum : Value) : Type 0 where
  pub valid : valid_value datum ≡ true
  pub room : length s.values < s.limits.values
  pub fits : add64 record_charge (value_bytes datum) ≤ sub64 s.limits.bytes s.used

module _ {Obj : Type 0} ⦃u : Utf8⦄ where
  abbrev pub after_put : SessionStore Obj → IdentifierSource → Value → Step Obj
  after_put s ids datum = (
    record s {
      values = emplace (horizon ids) datum s.values;
      used = add64 s.used (add64 record_charge (value_bytes datum));
    },
    (next ids).0,
    value_record (record { id = horizon ids; datum = datum }),
  )

  pub apply_put_value-Outcome :
      (s : SessionStore Obj) (ids : IdentifierSource) (query : PutValue)
      → IsWord ids
      → ((code : ErrorCode) × (apply_put_value s ids query ≡ fail s ids code))
        ⊎ (PutFits s query.datum
            × Issued ids (next ids).0
            × (apply_put_value s ids query ≡ after_put s ids query.datum))
  unfolding apply_put_value
  apply_put_value-Outcome s ids query w = elim (Bool-cases (valid_value query.datum)) [
    | inr invalid ↦ inl (ErrorCode.invalid_request, rw invalid)
    | inl valid ↦
        elim (Bool-cases (
          leb s.limits.values (length s.values)
          || ltb (sub64 s.limits.bytes s.used) (add64 record_charge (value_bytes query.datum)))) [
            | inl full ↦ inl (ErrorCode.quota_exceeded, rw (valid, full))
            | inr room ↦ elim (next_lem ids w) [
              | inl (_, e, k) ↦ inl (ErrorCode.quota_exceeded, rw (valid, room, e, k))
              | inr (z, e, m, w') ↦ inr (
                record { valid = valid; room = ground arith; fits = ground arith },
                record { nonzero = z; moved = m; word = w' },
                rw (valid, room, e),
              )
            ]
          ]
  ]

-- The object that a factory returned keeps to its definition and to the limits.
pub record CreateFits {Obj : Type 0} ⦃o : ObjectClass Obj⦄ ⦃u : Utf8⦄ (s : SessionStore Obj)
    (query : CreateObject) (definition : ClassDefinition Obj) (created : Obj) : Type 0 where
  pub known : Registry.find s.registry query.class_name ≡ some definition
  pub made : definition.create query.arguments ≡ ok (some created)
  pub matches : state_matches definition (o.state created) ≡ true
  pub room : length s.objects < s.limits.objects
  pub fits :
      add64 (add64 record_charge (length query.class_name)) (state_charge (o.state created))
      ≤ sub64 s.limits.bytes s.used

module _ {Obj : Type 0} ⦃o : ObjectClass Obj⦄ ⦃u : Utf8⦄ where
  abbrev pub after_create :
      SessionStore Obj → IdentifierSource → CreateObject → ClassDefinition Obj → Obj → Step Obj
  after_create s ids query definition created =
      let charge =
        add64 (add64 record_charge (length query.class_name)) (state_charge (o.state created)) in
      (
        record s {
          objects =
              emplace (horizon ids)
                (record { definition = definition; held = created; charge = charge }) s.objects;
          used = add64 s.used charge;
        },
        (next ids).0,
        object_snapshot
            (record { id = horizon ids; class_name = query.class_name; state = o.state created }),
      )

  abbrev pub Created : SessionStore Obj → IdentifierSource → CreateObject → Step Obj → Type 0
  Created s ids query out =
      ((code : ErrorCode) × (out ≡ fail s ids code))
      ⊎ ((definition : ClassDefinition Obj) × (created : Obj) × CreateFits s query definition
            created
          × Issued ids (next ids).0
          × (out ≡ after_create s ids query definition created))

  retain_created-Created :
      (s : SessionStore Obj) (ids : IdentifierSource) (query : CreateObject)
      (definition : ClassDefinition Obj) (created : Obj)
      → IsWord ids
      → Registry.find s.registry query.class_name ≡ some definition
      → definition.create query.arguments ≡ ok (some created)
      → length s.objects < s.limits.objects
      → Created s ids query (retain_created s ids query definition created)
  unfolding retain_created
  retain_created-Created s ids query definition created w known made room =
      let charge =
        add64 (add64 record_charge (length query.class_name)) (state_charge (o.state created)) in
      elim (Bool-cases (state_matches definition (o.state created))) [
        | inr broken ↦ inl (ErrorCode.internal_failure, rw broken)
        | inl matches ↦ elim (Bool-cases (ltb (sub64 s.limits.bytes s.used) charge)) [
          | inl full ↦ inl (ErrorCode.quota_exceeded, rw (matches, full))
          | inr small ↦ elim (next_lem ids w) [
            | inl (_, e, k) ↦ inl (ErrorCode.quota_exceeded, rw (matches, small, e, k))
            | inr (z, e, m, w') ↦ inr (
              definition,
              created,
              record {
                known = known;
                made = made;
                matches = matches;
                room = room;
                fits = ground arith;
              },
              record { nonzero = z; moved = m; word = w' },
              rw (matches, small, e),
            )
          ]
        ]
      ]

  factory-Created :
      (s : SessionStore Obj) (ids : IdentifierSource) (query : CreateObject)
      (definition : ClassDefinition Obj) (result : Result RemoteError (Option Obj))
      → IsWord ids
      → Registry.find s.registry query.class_name ≡ some definition
      → valid_arguments query.arguments definition.description.constructor_parameters ≡ true
      → leb s.limits.objects (length s.objects) ≡ false
      → definition.create query.arguments ≡ result
      → Created s ids query (create_with s ids query definition)
  unfolding create_with
  factory-Created s ids query definition (err e) w known args room made =
      inl (e.code, rw (args, room, made))
  factory-Created s ids query definition (ok none) w known args room made =
      inl (ErrorCode.internal_failure, rw (args, room, made))
  factory-Created s ids query definition (ok (some created)) w known args room made =
      rw (args, room, made)
        (retain_created-Created s ids query definition created w known made (ground arith))

  create_with-Created :
      (s : SessionStore Obj) (ids : IdentifierSource) (query : CreateObject)
      (definition : ClassDefinition Obj)
      → IsWord ids
      → Registry.find s.registry query.class_name ≡ some definition
      → Created s ids query (create_with s ids query definition)
  unfolding create_with
  create_with-Created s ids query definition w known =
      elim (Bool-cases
        (valid_arguments query.arguments definition.description.constructor_parameters)) [
          | inr wrong ↦ inl (ErrorCode.invalid_request, rw wrong)
          | inl args ↦ elim (Bool-cases (leb s.limits.objects (length s.objects))) [
            | inl full ↦ inl (ErrorCode.quota_exceeded, rw (args, full))
            | inr room ↦
                factory-Created s ids query definition (definition.create query.arguments) w known
                  args room refl
          ]
        ]

  pub apply_create_object-Created :
      (s : SessionStore Obj) (ids : IdentifierSource) (query : CreateObject)
      → IsWord ids
      → Created s ids query (apply_create_object s ids query)
  unfolding apply_create_object
  apply_create_object-Created s ids query w =
      elim (Bool-cases (valid_name query.class_name false)) [
        | inr wrong ↦ inl (ErrorCode.invalid_request, rw wrong)
        | inl name ↦ elim (Option-cases (Registry.find s.registry query.class_name)) [
          | inl unknown ↦ inl (ErrorCode.not_found, rw (name, unknown))
          | inr (definition, known) ↦
              rw (name, known) (create_with-Created s ids query definition w known)
        ]
      ]

module _ {Obj : Type 0} where
  abbrev pub Released : SessionStore Obj → ReleaseObject → SessionStore Obj × Outcome → Type 0
  Released s query out =
      ((code : ErrorCode) × (out ≡ (s, refusal code)))
      ⊎ ((entry : StoredObject Obj) × (find query.id s.objects ≡ some entry)
          × (out ≡ (
            record s { used = sub64 s.used entry.charge; objects = erase query.id s.objects },
            released,
          )))

  pub apply_release_object-Released :
      (s : SessionStore Obj) (query : ReleaseObject)
      → Released s query (apply_release_object s query)
  unfolding apply_release_object
  apply_release_object-Released s query = elim (Bool-cases (query.id == 0)) [
    | inl zero ↦ inl (ErrorCode.invalid_request, rw zero)
    | inr nonzero ↦ elim (Option-cases (find query.id s.objects)) [
      | inl missing ↦ inl (ErrorCode.not_found, rw (nonzero, missing))
      | inr (entry, held) ↦ inr (entry, held, rw (nonzero, held))
    ]
  ]
