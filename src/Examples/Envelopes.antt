-- ===== src/Examples/Envelopes.antt =====
-- Witnesses and tests of src/protocol/codec.cpp and src/server/dispatcher.cpp, with a serializer of
-- envelopes that carry small numbers in place of Protobuf.
use stream_labs_test_assingm.Base.{
  ℕ, ◌≡◌, ◌≤◌, ◌<◌, ◌+◌, refl, false, [], ◌∷◌, arith, length, subst, Option, none, some,
}
use stream_labs_test_assingm.Base.Result.{ok}
use stream_labs_test_assingm.Contracts
use stream_labs_test_assingm.Contracts.{
  FailureCode, Failure, Request, Response, version, max_payload_bytes,
}
use stream_labs_test_assingm.Framing.{Bytes}
use stream_labs_test_assingm.Codec.Wire.{WireEnvelope, WireOperation, WireOutcome}
use stream_labs_test_assingm.Codec.Limits.{
  Message, message, no_fields, number_field, no_unknowns, message_field, one_message, no_messages,
  group, number, validate_message, validate_messages, validate_fields, guard_count, enter_message,
  bounded_unknowns, check_unknowns, refuses_unknowns, field_count, count_messages,
}
use stream_labs_test_assingm.Codec.Bodies.{
  write_operation, read_operation, write_outcome, read_outcome,
}
use stream_labs_test_assingm.Codec.Bounds.{validate_message-Spent, all_nodes, message_unknowns}
use stream_labs_test_assingm.Codec.Envelope.{
  Protobuf, encode_request, decode_request, encode_response, decode_response, validate_envelope,
  serialize,
}
use stream_labs_test_assingm.Codec.Exchange.{
  IsFaithful, decode-encode_request, decode-encode_response,
}
use stream_labs_test_assingm.Dispatcher.Laws.{Rejected, reject-answers}
use stream_labs_test_assingm.Dispatcher.{process, reject}
use stream_labs_test_assingm.Dispatcher.Serving.{Serves, process-Serves}
use stream_labs_test_assingm.Builtins.{builtin_class}
use stream_labs_test_assingm.Examples.Sample.{ascii, made, made_ids, made-Inv, put_five}

abbrev shown : {Body : Type 0} → WireEnvelope Body → Message
shown w = message no_unknowns (number_field 1 no_fields)

-- Requests of one release, in three numbers.
abbrev write_release : Option ℕ → ℕ → WireOperation → Option Bytes
write_release (some v) id (WireOperation.release_object q) = some (v ∷ id ∷ q.id ∷ [])
write_release _ _ _ = none

abbrev read_release : Bytes → Option (WireEnvelope WireOperation × Message)
read_release (v ∷ id ∷ object ∷ []) = some (
  record {
    version = some v;
    request_id = id;
    body = WireOperation.release_object (record { id = object });
  },
  message no_unknowns (number_field 1 no_fields),
)
read_release _ = none

abbrev pub releases : Protobuf WireOperation
releases = record {
  parse = read_release;
  reflect = shown;
  byte_size = λ w. 3;
  serialize = λ w. write_release w.version w.request_id w.body;
}

written_release :
    (version : Option ℕ) (id : ℕ) (body : WireOperation) (b : Bytes)
    → write_release version id body ≡ some b
    → (read_release b
        ≡ some (
          record { version = version; request_id = id; body = body },
          message no_unknowns (number_field 1 no_fields),
        ))
      × (length b ≡ 3)
written_release none id body b h = absurd (ground arith)
written_release (some v) id (WireOperation.release_object q) b h =
    let e : v ∷ id ∷ q.id ∷ [] ≡ b = ground arith in
    subst
      (λ c.
        (read_release c
          ≡ some (
            record { version = some v; request_id = id; body = WireOperation.release_object q },
            message no_unknowns (number_field 1 no_fields),
          ))
        × (length c ≡ 3))
      e (refl, refl)
written_release (some v) id WireOperation.operation_not_set b h = absurd (ground arith)
written_release (some v) id (WireOperation.list_classes q) b h = absurd (ground arith)
written_release (some v) id (WireOperation.describe_class q) b h = absurd (ground arith)
written_release (some v) id (WireOperation.put_value q) b h = absurd (ground arith)
written_release (some v) id (WireOperation.get_value q) b h = absurd (ground arith)
written_release (some v) id (WireOperation.list_values q) b h = absurd (ground arith)
written_release (some v) id (WireOperation.create_object q) b h = absurd (ground arith)
written_release (some v) id (WireOperation.get_object q) b h = absurd (ground arith)
written_release (some v) id (WireOperation.get_attribute q) b h = absurd (ground arith)
written_release (some v) id (WireOperation.invoke_method q) b h = absurd (ground arith)

pub releases-Faithful : IsFaithful releases
releases-Faithful = record {
  parse_serialize = λ w b v h small. (written_release w.version w.request_id w.body b h).0;
  size = λ w b h. (written_release w.version w.request_id w.body b h).1;
  not_empty =
      λ w b h nonzero. ground (arith, (written_release w.version w.request_id w.body b h).1);
}

-- Responses to a release, in two numbers.
abbrev write_released : Option ℕ → ℕ → WireOutcome → Option Bytes
write_released (some v) id WireOutcome.released = some (v ∷ id ∷ [])
write_released _ _ _ = none

abbrev read_released : Bytes → Option (WireEnvelope WireOutcome × Message)
read_released (v ∷ id ∷ []) = some (
  record { version = some v; request_id = id; body = WireOutcome.released },
  message no_unknowns (number_field 1 no_fields),
)
read_released _ = none

abbrev pub releaseds : Protobuf WireOutcome
releaseds = record {
  parse = read_released;
  reflect = shown;
  byte_size = λ w. 2;
  serialize = λ w. write_released w.version w.request_id w.body;
}

written_released :
    (version : Option ℕ) (id : ℕ) (body : WireOutcome) (b : Bytes)
    → write_released version id body ≡ some b
    → (read_released b
        ≡ some (
          record { version = version; request_id = id; body = body },
          message no_unknowns (number_field 1 no_fields),
        ))
      × (length b ≡ 2)
written_released none id body b h = absurd (ground arith)
written_released (some v) id WireOutcome.released b h =
    let e : v ∷ id ∷ [] ≡ b = ground arith in
    subst
      (λ c.
        (read_released c
          ≡ some (
            record { version = some v; request_id = id; body = WireOutcome.released },
            message no_unknowns (number_field 1 no_fields),
          ))
        × (length c ≡ 2))
      e (refl, refl)
written_released (some v) id WireOutcome.outcome_not_set b h = absurd (ground arith)
written_released (some v) id (WireOutcome.classes q) b h = absurd (ground arith)
written_released (some v) id (WireOutcome.description q) b h = absurd (ground arith)
written_released (some v) id (WireOutcome.value_record q) b h = absurd (ground arith)
written_released (some v) id (WireOutcome.values q) b h = absurd (ground arith)
written_released (some v) id (WireOutcome.object q) b h = absurd (ground arith)
written_released (some v) id (WireOutcome.value q) b h = absurd (ground arith)
written_released (some v) id (WireOutcome.error q) b h = absurd (ground arith)

pub releaseds-Faithful : IsFaithful releaseds
releaseds-Faithful = record {
  parse_serialize = λ w b v h small. (written_released w.version w.request_id w.body b h).0;
  size = λ w b h. (written_released w.version w.request_id w.body b h).1;
  not_empty =
      λ w b h nonzero. ground (arith, (written_released w.version w.request_id w.body b h).1);
}

abbrev release_nine : Request
release_nine = record {
  id = 4;
  body = Contracts.release_object (record { id = 9 });
  protocol_version = version;
}

abbrev released_nine : Response
released_nine = record { id = 4; body = Contracts.released; protocol_version = version }

-- A message with one child, and one unknown field inside a group.
abbrev nested : Message
nested =
    message (group (number no_unknowns) no_unknowns)
      (message_field (one_message (message no_unknowns no_fields) no_messages) no_fields)

encoded :
    (encode_request releases release_nine ≡ ok (1 ∷ 4 ∷ 9 ∷ []))
    × (encode_response releaseds released_nine ≡ ok (1 ∷ 4 ∷ []))
    × (validate_message nested (record { nodes = 5; unknowns = 3 })
        ≡ ok (record { nodes = 3; unknowns = 1 }))
unfolding encode_request encode_response validate_envelope serialize write_operation read_operation
    write_outcome read_outcome validate_message validate_messages validate_fields guard_count
    enter_message bounded_unknowns check_unknowns refuses_unknowns field_count count_messages
encoded = (refl, refl, refl)

decode-encode_request_example :
    (decode_request releases (1 ∷ 4 ∷ 9 ∷ []) ≡ ok release_nine) × (0 < 3) × (3 ≤ max_payload_bytes)
decode-encode_request_example =
    decode-encode_request releases release_nine (1 ∷ 4 ∷ 9 ∷ []) releases-Faithful encoded.0

decode-encode_response_example :
    (decode_response releaseds (1 ∷ 4 ∷ []) ≡ ok released_nine) × (0 < 2) × (2 ≤ max_payload_bytes)
decode-encode_response_example =
    decode-encode_response releaseds released_nine (1 ∷ 4 ∷ []) releaseds-Faithful encoded.1

validate_message-Spent_example : (3 + all_nodes nested ≡ 5) × (1 + message_unknowns nested ≡ 3)
validate_message-Spent_example =
    validate_message-Spent nested (record { nodes = 5; unknowns = 3 })
      (record { nodes = 3; unknowns = 1 }) encoded.2

abbrev put_request : Request
put_request = record { id = 4; body = put_five; protocol_version = version }

process-Serves_example : Serves made made_ids put_request (process made made_ids put_request)
process-Serves_example = process-Serves made made_ids put_request made-Inv

abbrev over_limit : Failure
over_limit = record {
  code = FailureCode.limit_exceeded;
  close_session = false;
  request_id = some 4;
}

reject-answers_example : Rejected over_limit (reject over_limit)
reject-answers_example = reject-answers over_limit
