-- ===== src/Transport/Stream.antt =====
-- src/transport/windows/stream.cpp: the class `pipe_stream` over its `stream_state`. A loop runs
-- over what the system answers to its rounds, in their order; it has not returned, `none`, where
-- the answers end before it does. The pipe's handle is left out.
pub mod Receiving
pub mod Delivery
pub mod Recut
pub mod Sending
pub mod Closing
pub mod Connecting
pub mod Opening
use stream_labs_test_assingm.Base.{
  ℕ, ◌+◌, Bool, true, false, ◌||◌, not, Option, none, some, List, [], ◌∷◌, ◌++◌, ltb, ◌==◌,
  if◌then◌else◌, length, take, drop, replicate,
}
use stream_labs_test_assingm.Base.Result.{Result, ok, err}
use stream_labs_test_assingm.Base.Word.{add64}
use stream_labs_test_assingm.Contracts.{Failure, Fallible}
use stream_labs_test_assingm.Framing.{
  Bytes, FrameProgress, FrameDecoder, new_decoder, frame, consume, finish,
}
use stream_labs_test_assingm.Completion.{FailureKind, TransportFailure}
use stream_labs_test_assingm.Transport.Native.{
  Moment, Attempt, buffer_bytes, preflight, read_some, write_some, transport_failure,
}

pub record StreamState : Type 0 where
  pub input : Bytes
  pub begin : ℕ
  pub end : ℕ
  pub decoder : FrameDecoder
  pub failed : Bool

abbrev pub new_stream : StreamState
new_stream = record {
  input = replicate buffer_bytes 0;
  begin = 0;
  end = 0;
  decoder = new_decoder;
  failed = false;
}

-- `pipe_stream`: no state once it is closed.
abbrev pub PipeStream : Type 0
PipeStream = Option StreamState

abbrev pub close : PipeStream → PipeStream
close stream = none

abbrev pub fail : StreamState → StreamState
fail s = record s { failed = true }

-- `failure{failure_kind::protocol_violation, 0, framing}`
abbrev pub violation : Failure → TransportFailure
violation framing = record {
  kind = FailureKind.protocol_violation;
  native_error = 0;
  framing = some framing;
}

-- What a loop has come to: the state, the result if it has returned, and the unread answers.
pub record Progress (S A : Type 0) (R : Type 0) : Type 0 where
  pub state : S
  pub result : Option (Result TransportFailure R)
  pub later : List A

-- The loop of `send` over the writes, with the bytes that they were told to have written.
unfoldable pub send_loop :
    StreamState
    → Bytes
    → ℕ
    → ℕ
    → List Attempt
    → StreamState × Option (Result TransportFailure ℕ) × Bytes
send_loop s [] size until attempts = (s, some (ok size), [])
send_loop s (b ∷ rest) size until [] = (s, none, [])
send_loop s (b ∷ rest) size until (a ∷ attempts) =
    let remaining = b ∷ rest in
    elim (write_some (length remaining) until a).1 [
      | err error ↦ (fail s, some (err error), [])
      | ok count ↦
          let later = send_loop s (drop count remaining) size until attempts in
          if count == 0 || ltb (length remaining) count
          then (fail s, some (err (transport_failure FailureKind.disconnected 0)), [])
          else (later.0, later.1, take count remaining ++ later.2)
    ]

unfoldable pub send_framed :
    StreamState
    → Fallible Bytes
    → ℕ
    → List Attempt
    → StreamState × Option (Result TransportFailure ℕ) × Bytes
send_framed s (err error) until attempts = (fail s, some (err (violation error)), [])
send_framed s (ok owned) until attempts = send_loop s owned (length owned) until attempts

-- Past the test of the flag.
unfoldable pub send_timely :
    StreamState
    → Bytes
    → ℕ
    → Moment
    → List Attempt
    → StreamState × Option (Result TransportFailure ℕ) × Bytes
unfolding send_framed
send_timely s payload until m attempts = elim (preflight until m) [
  | some error ↦ (fail s, some (err error), [])
  | none ↦ send_framed s (frame payload) until attempts
]

unfoldable pub send_live :
    StreamState
    → Bytes
    → ℕ
    → Moment
    → List Attempt
    → StreamState × Option (Result TransportFailure ℕ) × Bytes
unfolding send_timely
send_live s payload until m attempts =
    if s.failed
    then (s, some (err (transport_failure FailureKind.disconnected 0)), [])
    else send_timely s payload until m attempts

-- The state, the result, and the bytes written.
unfoldable pub send :
    PipeStream
    → Bytes
    → ℕ
    → Moment
    → List Attempt
    → PipeStream × Option (Result TransportFailure ℕ) × Bytes
unfolding send_live
send none payload until m attempts =
    (none, some (err (transport_failure FailureKind.disconnected 0)), [])
send (some s) payload until m attempts =
    let sent = send_live s payload until m attempts in (some sent.0, sent.1, sent.2)

-- A read in the loop of `receive`: the answers to it, the bytes that it has put at the front of the
-- buffer, and the moment of the next round's preflight.
pub record Arrival : Type 0 where
  pub read : Attempt
  pub bytes : Bytes
  pub moment : Moment

-- A step of `receive` ends in a result or goes on.
abbrev pub Step : Type 0
Step = StreamState × Option (Result TransportFailure Bytes)

abbrev pub unread : StreamState → Bytes
unread s = drop s.begin (take s.end s.input)

-- What a read that failed makes of the result.
unfoldable pub closed_failure : FrameDecoder → TransportFailure → TransportFailure
closed_failure d error = elim error.kind [
  | FailureKind.disconnected ↦ elim (finish d) [
    | none ↦ record error { framing = none }
    | some unfinished ↦ record error {
      framing = some unfinished;
      kind = FailureKind.protocol_violation;
    }
  ]
  | kind ↦ error
]

-- A read of no bytes is the end of the stream.
unfoldable pub ended_failure : Option Failure → TransportFailure
ended_failure none = transport_failure FailureKind.disconnected 0
ended_failure (some unfinished) = violation unfinished

-- From the read on.
unfoldable pub refill : StreamState → ℕ → Arrival → Step
refill s until a =
    let input = a.bytes ++ drop (length a.bytes) s.input in
    elim (read_some buffer_bytes until a.read).1 [
      | err error ↦ (fail (record s { input = input }), some (err (closed_failure s.decoder error)))
      | ok count ↦
          if count == 0
          then (fail (record s { input = input }), some (err (ended_failure (finish s.decoder))))
          else (record s { input = input; begin = 0; end = count }, none)
    ]

-- The step of the decoder.
unfoldable pub decoded : StreamState → FrameDecoder × Fallible FrameProgress → Step
decoded s (d, err error) = (fail (record s { decoder = d }), some (err (violation error)))
decoded s (d, ok progress) = (
  record s { decoder = d; begin = add64 s.begin progress.consumed },
  elim progress.payload [ none ↦ none | some payload ↦ some (ok payload) ],
)

-- A round of the loop up to its read.
unfoldable pub scan : StreamState → ℕ → Moment → Step
unfolding decoded
scan s until m = elim (preflight until m) [
  | some error ↦ (fail s, some (err error))
  | none ↦ if ltb s.begin s.end then decoded s (consume s.decoder (unread s)) else (s, none)
]

-- What a step that returned leaves, with the reads it has left over, or else the rest of the loop.
unfoldable pub ended :
    Step → List Arrival → Progress StreamState Arrival Bytes → Progress StreamState Arrival Bytes
ended (s, some result) later rest = record { state = s; result = some result; later = later }
ended (s, none) later rest = rest

unfoldable pub receive_loop :
    StreamState → ℕ → Moment → List Arrival → Progress StreamState Arrival Bytes
receive_loop s until m [] =
    let step = scan s until m in
    ended step [] (record { state = step.0; result = none; later = [] })
receive_loop s until m (a ∷ arrivals) =
    let step = scan s until m in
    let next = refill step.0 until a in
    ended step (a ∷ arrivals) (ended next arrivals (receive_loop next.0 until a.moment arrivals))

unfoldable pub receive_live :
    StreamState → ℕ → Moment → List Arrival → Progress StreamState Arrival Bytes
unfolding receive_loop
receive_live s until m arrivals =
    if s.failed
    then record {
      state = s;
      result = some (err (transport_failure FailureKind.disconnected 0));
      later = arrivals;
    }
    else receive_loop s until m arrivals

unfoldable pub receive : PipeStream → ℕ → Moment → List Arrival → Progress PipeStream Arrival Bytes
unfolding receive_live
receive none until m arrivals = record {
  state = none;
  result = some (err (transport_failure FailureKind.disconnected 0));
  later = arrivals;
}
receive (some s) until m arrivals =
    let run = receive_live s until m arrivals in
    record { state = some run.state; result = run.result; later = run.later }
