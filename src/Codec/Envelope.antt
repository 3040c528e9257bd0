-- ===== src/Codec/Envelope.antt =====
-- src/protocol/codec.cpp: `validate_envelope`, `parse`, `serialize`, and the four codec functions.
-- Protobuf's parser, its reflection and its serializer are the fields of `Protobuf`.
use stream_labs_test_assingm.Base.{
  ℕ, ◌||◌, not, true, false, Option, none, some, ltb, ◌==◌, if◌then◌else◌, length,
}
use stream_labs_test_assingm.Base.Result.{ok, err}
use stream_labs_test_assingm.Contracts.{
  FailureCode, Failure, Fallible, Request, Response, version, max_payload_bytes, max_message_nodes,
}
use stream_labs_test_assingm.Validation.{Utf8}
use stream_labs_test_assingm.Framing.{Bytes}
use stream_labs_test_assingm.Codec.Wire.{WireEnvelope, WireOperation, WireOutcome}
use stream_labs_test_assingm.Codec.Limits.{Message, validate_message, max_unknown_fields}
use stream_labs_test_assingm.Codec.Bodies.{
  read_operation, write_operation, read_outcome, write_outcome,
}

-- The generated class of an envelope. `parse` is `ParseFromCodedStream` under the limits that the
-- code sets, with `ConsumedEntireMessage`: the message's fields, and what reflection shows of it,
-- unknown fields included. `reflect` is what reflection shows of a message that setters built.
pub record Protobuf (Body : Type 0) : Type 0 where
  pub parse : Bytes → Option (WireEnvelope Body × Message)
  pub reflect : WireEnvelope Body → Message
  pub byte_size : WireEnvelope Body → ℕ
  pub serialize : WireEnvelope Body → Option Bytes

-- A failure that leaves the session usable, with the envelope's id.
abbrev pub recoverable : FailureCode → ℕ → Failure
recoverable code id = record { code = code; close_session = false; request_id = some id }

abbrev pub fatal : FailureCode → Failure
fatal code = record { code = code; close_session = true; request_id = none }

-- `message.version()`, 0 where it is absent.
abbrev pub version_or_default : Option ℕ → ℕ
version_or_default none = 0
version_or_default (some v) = v

module _ {Body : Type 0} ⦃u : Utf8⦄ where
  unfoldable pub validate_envelope : WireEnvelope Body → Message → Option Failure
  validate_envelope w shown =
      if w.request_id == 0 then some (fatal FailureCode.invalid_fields) else elim w.version [
        | none ↦ some (recoverable FailureCode.invalid_fields w.request_id)
        | some v ↦
            if not (v == version)
            then some (recoverable FailureCode.unsupported_version w.request_id)
            else elim (validate_message shown
                (record { nodes = max_message_nodes; unknowns = max_unknown_fields })) [
                  | err code ↦ some (recoverable code w.request_id)
                  | ok budget ↦ none
                ]
      ]

  -- `err` is the failure that the source's `parse` returns, `ok` the message that it fills.
  unfoldable pub parse : Protobuf Body → Bytes → Fallible (WireEnvelope Body)
  unfolding validate_envelope
  parse p payload =
      if length payload == 0 || ltb max_payload_bytes (length payload)
      then err (fatal FailureCode.limit_exceeded)
      else elim (p.parse payload) [
        | none ↦ err (fatal FailureCode.malformed)
        | some (w, shown) ↦ elim (validate_envelope w shown) [
          | some failure ↦ err failure
          | none ↦ ok w
        ]
      ]

unfoldable pub serialize : {Body : Type 0} → Protobuf Body → WireEnvelope Body → Fallible Bytes
serialize p w =
    if ltb max_payload_bytes (p.byte_size w)
    then err (recoverable FailureCode.limit_exceeded w.request_id)
    else elim (p.serialize w) [ none ↦ err (fatal FailureCode.malformed) | some output ↦ ok output ]

module _ ⦃u : Utf8⦄ where
  unfoldable pub decode_request : Protobuf WireOperation → Bytes → Fallible Request
  decode_request p payload = elim (parse p payload) [
    | err failure ↦ err failure
    | ok w ↦ elim (read_operation w.body) [
      | some body ↦ ok (record {
        id = w.request_id;
        body = body;
        protocol_version = version_or_default w.version;
      })
      | none ↦ err (recoverable FailureCode.invalid_fields w.request_id)
    ]
  ]

  unfoldable pub decode_response : Protobuf WireOutcome → Bytes → Fallible Response
  decode_response p payload = elim (parse p payload) [
    | err failure ↦ err failure
    | ok w ↦ elim (read_outcome w.body) [
      | some body ↦ ok (record {
        id = w.request_id;
        body = body;
        protocol_version = version_or_default w.version;
      })
      | none ↦ err (recoverable FailureCode.invalid_fields w.request_id)
    ]
  ]

  unfoldable pub encode_request : Protobuf WireOperation → Request → Fallible Bytes
  unfolding validate_envelope serialize
  encode_request p input =
      let w : WireEnvelope WireOperation = record {
        version = some input.protocol_version;
        request_id = input.id;
        body = write_operation input.body;
      } in
      elim (validate_envelope w (p.reflect w)) [
        | some failure ↦ err failure
        | none ↦ elim (read_operation w.body) [
          | none ↦ err (recoverable FailureCode.invalid_fields input.id)
          | some body ↦ serialize p w
        ]
      ]

  unfoldable pub encode_response : Protobuf WireOutcome → Response → Fallible Bytes
  unfolding validate_envelope serialize
  encode_response p input =
      let w : WireEnvelope WireOutcome = record {
        version = some input.protocol_version;
        request_id = input.id;
        body = write_outcome input.body;
      } in
      elim (validate_envelope w (p.reflect w)) [
        | some failure ↦ err failure
        | none ↦ elim (read_outcome w.body) [
          | none ↦ err (recoverable FailureCode.invalid_fields input.id)
          | some body ↦ serialize p w
        ]
      ]
