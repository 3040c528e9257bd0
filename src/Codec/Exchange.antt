-- ===== src/Codec/Exchange.antt =====
-- src/protocol/codec.cpp: an encoded envelope against its decoding, through Protobuf.
use stream_labs_test_assingm.Base.{
  ◌≡◌, ◌≢◌, ◌≤◌, ◌<◌, false, ◌||◌, none, some, ltb, ◌==◌, arith, inl, inr, Bool-cases, Option-cases,
  length,
}
use stream_labs_test_assingm.Base.Result.{ok}
use stream_labs_test_assingm.Contracts.{Request, Response, max_payload_bytes}
use stream_labs_test_assingm.Validation.{Utf8}
use stream_labs_test_assingm.Framing.{Bytes}
use stream_labs_test_assingm.Codec.Wire.{WireEnvelope, WireOperation, WireOutcome}
use stream_labs_test_assingm.Codec.Limits.{Message}
use stream_labs_test_assingm.Codec.Bodies.{
  read_operation, write_operation, read_outcome, write_outcome,
}
use stream_labs_test_assingm.Codec.Envelope.{
  Protobuf, validate_envelope, parse, serialize, decode_request, decode_response, encode_request,
  encode_response,
}
use stream_labs_test_assingm.Codec.Roundtrip.{read-write_operation, read-write_outcome}

-- What Protobuf documents of a message that it serialized within the limits: the parser gives it
-- back whole if it is a valid envelope, its strings UTF-8 among others, its bytes are as many as
-- `ByteSizeLong` said, and a field that is not at its default leaves at least one.
pub record IsFaithful {Body : Type 0} ⦃u : Utf8⦄ (p : Protobuf Body) : Type 0 where
  pub parse_serialize :
      (w : WireEnvelope Body) (b : Bytes)
      → validate_envelope w (p.reflect w) ≡ none
      → p.serialize w ≡ some b
      → p.byte_size w ≤ max_payload_bytes
      → p.parse b ≡ some (w, p.reflect w)
  pub size : (w : WireEnvelope Body) (b : Bytes) → p.serialize w ≡ some b → length b ≡ p.byte_size w
  pub not_empty :
      (w : WireEnvelope Body) (b : Bytes) → p.serialize w ≡ some b → w.request_id ≢ 0 → 0 < length b

module _ {Body : Type 0} ⦃u : Utf8⦄ (p : Protobuf Body) where
  validated_id :
      (w : WireEnvelope Body) (shown : Message)
      → validate_envelope w shown ≡ none
      → w.request_id ≢ 0
  unfolding validate_envelope
  validated_id w shown h = elim (Bool-cases (w.request_id == 0)) [
    | inl zero_id ↦ λ e. absurd (cc (rw zero_id at h))
    | inr id ↦ ground arith
  ]

  serialized :
      (w : WireEnvelope Body) (b : Bytes)
      → serialize p w ≡ ok b
      → (p.byte_size w ≤ max_payload_bytes) × (p.serialize w ≡ some b)
  unfolding serialize
  serialized w b h = elim (Bool-cases (ltb max_payload_bytes (p.byte_size w))) [
    | inl large ↦ absurd (cc (rw large at h))
    | inr small ↦ elim (Option-cases (p.serialize w)) [
      | inl failed ↦ absurd (ground arith)
      | inr (output, e) ↦ (ground arith, ground arith)
    ]
  ]

  -- A message that was validated and serialized is parsed back.
  pub parse-serialize :
      (w : WireEnvelope Body) (b : Bytes)
      → IsFaithful p
      → validate_envelope w (p.reflect w) ≡ none
      → serialize p w ≡ ok b
      → (parse p b ≡ ok w) × (0 < length b) × (length b ≤ max_payload_bytes)
  unfolding parse
  parse-serialize w b f v h =
      let s = serialized w b h in
      let full = f.not_empty w b s.1 (validated_id w (p.reflect w) v) in
      let size = f.size w b s.1 in
      let fits : (length b == 0 || ltb max_payload_bytes (length b)) ≡ false =
        ground (arith, s.0, full, size) in
      (rw (fits, f.parse_serialize w b v s.1 s.0, v), full, omega (arith, s.0, size))

abbrev request_wire : Request → WireEnvelope WireOperation
request_wire r = record {
  version = some r.protocol_version;
  request_id = r.id;
  body = write_operation r.body;
}

abbrev response_wire : Response → WireEnvelope WireOutcome
response_wire r = record {
  version = some r.protocol_version;
  request_id = r.id;
  body = write_outcome r.body;
}

module _ ⦃u : Utf8⦄ where
  encoded_request :
      (p : Protobuf WireOperation) (r : Request) (b : Bytes)
      → encode_request p r ≡ ok b
      → (validate_envelope (request_wire r) (p.reflect (request_wire r)) ≡ none)
        × (read_operation (write_operation r.body) ≡ some r.body)
        × (serialize p (request_wire r) ≡ ok b)
  unfolding encode_request
  encoded_request p r b h =
      elim (Option-cases (validate_envelope (request_wire r) (p.reflect (request_wire r)))) [
        | inr (e, bad) ↦ absurd (cc (rw (bad, encode_request) at h))
        | inl good ↦ elim (read-write_operation r.body) [
          | inl bad ↦ absurd (cc (rw (good, bad, encode_request) at h))
          | inr read ↦ (good, read, rw (good, read, encode_request) at h)
        ]
      ]

  -- A request that the client encodes is decoded by the server as the same request, and its payload
  -- is one that the framing carries: neither empty nor over the limit.
  pub decode-encode_request :
      (p : Protobuf WireOperation) (r : Request) (b : Bytes)
      → IsFaithful p
      → encode_request p r ≡ ok b
      → (decode_request p b ≡ ok r) × (0 < length b) × (length b ≤ max_payload_bytes)
  unfolding decode_request
  decode-encode_request p r b f h =
      let e = encoded_request p r b h in
      let back = parse-serialize p (request_wire r) b f e.0 e.2 in
      (rw (back.0, e.1, decode_request), back.1, back.2)

  encoded_response :
      (p : Protobuf WireOutcome) (r : Response) (b : Bytes)
      → encode_response p r ≡ ok b
      → (validate_envelope (response_wire r) (p.reflect (response_wire r)) ≡ none)
        × (read_outcome (write_outcome r.body) ≡ some r.body)
        × (serialize p (response_wire r) ≡ ok b)
  unfolding encode_response
  encoded_response p r b h =
      elim (Option-cases (validate_envelope (response_wire r) (p.reflect (response_wire r)))) [
        | inr (e, bad) ↦ absurd (cc (rw (bad, encode_response) at h))
        | inl good ↦ elim (read-write_outcome r.body) [
          | inl bad ↦ absurd (cc (rw (good, bad, encode_response) at h))
          | inr read ↦ (good, read, rw (good, read, encode_response) at h)
        ]
      ]

  -- A response that the server encodes is decoded by the client as the same response, and its
  -- payload is one that the framing carries.
  pub decode-encode_response :
      (p : Protobuf WireOutcome) (r : Response) (b : Bytes)
      → IsFaithful p
      → encode_response p r ≡ ok b
      → (decode_response p b ≡ ok r) × (0 < length b) × (length b ≤ max_payload_bytes)
  unfolding decode_response
  decode-encode_response p r b f h =
      let e = encoded_response p r b h in
      let back = parse-serialize p (response_wire r) b f e.0 e.2 in
      (rw (back.0, e.1, decode_response), back.1, back.2)
