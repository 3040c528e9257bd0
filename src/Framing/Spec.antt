-- ===== src/Framing/Spec.antt =====
-- What the decoder of src/protocol/framing.cpp promises, as a function of the bytes received since
-- the last frame boundary, and the invariant of its fields.
use stream_labs_test_assingm.Base.{
  ℕ, ◌≤◌, ◌<◌, ◌≡◌, false, ◌||◌, [], ◌++◌, ltb, ◌==◌, if◌then◌else◌, length, take, drop,
}
use stream_labs_test_assingm.Contracts.{max_payload_bytes, frame_header_bytes}
use stream_labs_test_assingm.Framing.{Bytes, FrameDecoder, read_header}

-- A prefix of the stream is not yet a frame, starts with a refused length, or is a frame and more.
pub data Parsed : Type 0 where
  incomplete : Parsed
  refused : Parsed
  complete : Bytes → Bytes → Parsed

abbrev pub parse_body : ℕ → Bytes → Parsed
parse_body size body =
    if size == 0 || ltb max_payload_bytes size
    then refused
    else if ltb (length body) size
    then incomplete
    else complete (take size body) (drop size body)

unfoldable pub parse : Bytes → Parsed
parse stream =
    if ltb (length stream) frame_header_bytes
    then incomplete
    else parse_body (read_header 0 0 (take frame_header_bytes stream))
        (drop frame_header_bytes stream)

-- The bytes received since the last frame boundary.
abbrev pub pending : FrameDecoder → Bytes
pending d = take d.header_used d.header ++ d.payload

-- Before the header is complete no payload is buffered.
abbrev pub PayloadFits : FrameDecoder → Type 0
PayloadFits d =
    if ltb d.header_used frame_header_bytes
    then (d.payload ≡ []) × (d.expected ≡ 0)
    else (length d.payload < d.expected)
      × (d.expected ≤ max_payload_bytes)
      × (d.expected ≡ read_header 0 0 d.header)

-- The invariant of a decoder that has not failed.
pub record IsSound (d : FrameDecoder) : Type 0 where
  pub live : d.poisoned ≡ false
  pub whole_header : length d.header ≡ 4
  pub used_bound : d.header_used ≤ 4
  pub payload_fits : PayloadFits d
