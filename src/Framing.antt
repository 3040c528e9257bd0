-- ===== src/Framing.antt =====
-- src/protocol/framing.cpp: the little-endian length prefix, and the incremental decoder of the
-- class `frame_decoder` of include/pipeforge/protocol.hpp.
-- A byte is a number below 256. Bytes at different shifts share no bit, so `|=` adds them up.
pub mod Spec
pub mod Refinement
pub mod Body
pub mod Roundtrip
pub mod Extension
use stream_labs_test_assingm.Base.{
  ℕ, zero, suc, ◌+◌, ◌-◌, ◌*◌, ◌/◌, ◌%◌, ◌^◌, min, Bool, true, false, ◌||◌, not, Option, none, some,
  List, [], ◌∷◌, ◌++◌, ltb, ◌==◌, if◌then◌else◌, length, take, drop, replicate,
}
use stream_labs_test_assingm.Base.Result.{ok, err}
use stream_labs_test_assingm.Base.Word.{sub64}
use stream_labs_test_assingm.Contracts.{
  FailureCode, Failure, Fallible, max_payload_bytes, frame_header_bytes,
}

abbrev pub Bytes : Type 0
Bytes = List ℕ

-- A framing failure closes the session and trusts no correlation id.
abbrev pub framing_failure : FailureCode → Failure
framing_failure c = record { code = c; close_session = true; request_id = none }

-- The loop of `frame` over the header's bytes, by the rounds left.
unfoldable pub write_header : ℕ → ℕ → ℕ → Bytes
write_header zero index size = []
write_header (suc rounds) index size =
    (size / 2 ^ (index * 8) % 256) ∷ write_header rounds (index + 1) size

unfoldable pub frame : Bytes → Fallible Bytes
unfolding write_header
frame payload =
    if length payload == 0 || ltb max_payload_bytes (length payload)
    then err (framing_failure FailureCode.limit_exceeded)
    else ok (write_header frame_header_bytes 0 (length payload % 2 ^ 32) ++ payload)

-- The loop of `consume` over the header's bytes.
unfoldable pub read_header : ℕ → ℕ → Bytes → ℕ
read_header size shift [] = size
read_header size shift (byte ∷ header) = read_header (size + byte * 2 ^ shift) (shift + 8) header

pub record FrameProgress : Type 0 where
  pub consumed : ℕ
  pub payload : Option Bytes

pub record FrameDecoder : Type 0 where
  pub header : Bytes
  pub header_used : ℕ
  pub expected : ℕ
  pub payload : Bytes
  pub poisoned : Bool

abbrev pub new_decoder : FrameDecoder
new_decoder = record {
  header = 0 ∷ 0 ∷ 0 ∷ 0 ∷ [];
  header_used = 0;
  expected = 0;
  payload = [];
  poisoned = false;
}

-- From the line `const auto count = std::min(input.size(), expected_ - payload_.size())` on.
-- What is left of the input is a suffix of it, so `original_size - input.size()` does not wrap.
unfoldable pub consume_payload : FrameDecoder → ℕ → Bytes → FrameDecoder × Fallible FrameProgress
consume_payload d original_size input =
    let count = min (length input) (sub64 d.expected (length d.payload)) in
    let grown = d.payload ++ take count input in
    let rest = drop count input in
    if not (length grown == d.expected)
    then (
      record d { payload = grown },
      ok (record { consumed = original_size - length rest; payload = none }),
    )
    else (
      record d { payload = []; header_used = 0; expected = 0 },
      ok (record { consumed = original_size - length rest; payload = some grown }),
    )

-- The rest of the branch on `header_used_ < header_.size()`, once the header is complete.
unfoldable pub accept_header : FrameDecoder → ℕ → ℕ → Bytes → FrameDecoder × Fallible FrameProgress
accept_header d size original_size input =
    if size == 0 || ltb max_payload_bytes size
    then (record d { poisoned = true }, err (framing_failure FailureCode.limit_exceeded))
    else consume_payload (record d { expected = size }) original_size input

unfoldable pub consume_header : FrameDecoder → Bytes → FrameDecoder × Fallible FrameProgress
consume_header d input =
    let count = min (length input) (frame_header_bytes - d.header_used) in
    let used = d.header_used + count in
    let header = take d.header_used d.header ++ (take count input ++ drop used d.header) in
    let d' = record d { header = header; header_used = used } in
    if not (used == frame_header_bytes)
    then (d', ok (record { consumed = count; payload = none }))
    else accept_header d' (read_header 0 0 header) (length input) (drop count input)

unfoldable pub consume : FrameDecoder → Bytes → FrameDecoder × Fallible FrameProgress
consume d input =
    if d.poisoned
    then (d, err (framing_failure FailureCode.malformed))
    else if ltb d.header_used frame_header_bytes
    then consume_header d input
    else consume_payload d (length input) input

unfoldable pub finish : FrameDecoder → Option Failure
finish d =
    if d.poisoned || not (d.header_used == 0)
    then some
        (framing_failure (if d.poisoned then FailureCode.malformed else FailureCode.truncated))
    else none
