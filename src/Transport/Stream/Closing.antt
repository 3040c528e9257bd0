-- ===== src/Transport/Stream/Closing.antt =====
-- src/transport/windows/stream.cpp, `pipe_stream::receive`: a peer that closes the pipe.
use stream_labs_test_assingm.Base.{
  ℕ, ◌≤◌, ◌≡◌, ◌≢◌, ◌⊎◌, inl, inr, refl, true, Option, none, some, [],
}
use stream_labs_test_assingm.Base.Result.{Result, ok, err, Result-cases}
use stream_labs_test_assingm.Contracts.{FailureCode, Failure}
use stream_labs_test_assingm.Framing.{FrameDecoder, framing_failure, finish}
use stream_labs_test_assingm.Framing.Spec.{pending, IsSound}
use stream_labs_test_assingm.Framing.Roundtrip.{finish-pending}
use stream_labs_test_assingm.Completion.{FailureKind, TransportFailure}
use stream_labs_test_assingm.Transport.Native.{buffer_bytes, read_some}
use stream_labs_test_assingm.Transport.Stream.{
  StreamState, Arrival, Step, closed_failure, ended_failure, refill,
}

-- The read says that the peer has closed the pipe: no bytes, or a failure of kind `disconnected`.
abbrev pub SaysClosed : Result TransportFailure ℕ → Type 0
SaysClosed (ok count) = count ≡ 0
SaysClosed (err error) = error.kind ≡ FailureKind.disconnected

abbrev pub truncated_failure : Failure
truncated_failure = framing_failure FailureCode.truncated

-- A boundary ends in a disconnection, and an unfinished frame in a violation of the protocol.
abbrev pub Ends : FrameDecoder → TransportFailure → Type 0
Ends d error =
    ((pending d ≡ []) × (error.kind ≡ FailureKind.disconnected) × (error.framing ≡ none))
    ⊎ ((pending d ≢ [])
        × (error.kind ≡ FailureKind.protocol_violation)
        × (error.framing ≡ some truncated_failure))

abbrev pub Closes : FrameDecoder → Step → Type 0
Closes d (s', none) = 1 ≤ 0
Closes d (s', some (ok payload)) = 1 ≤ 0
Closes d (s', some (err error)) = (s'.failed ≡ true) × Ends d error

ended-Ends : (d : FrameDecoder) → IsSound d → Ends d (ended_failure (finish d))
unfolding ended_failure
ended-Ends d s = elim (finish-pending d s) [
  | inl (e, b) ↦ rw e (inl (b, refl, refl))
  | inr (e, b) ↦ rw e (inr (b, refl, refl))
]

closed-Ends :
    (d : FrameDecoder) (kind : FailureKind) (code : ℕ) (framing : Option Failure)
    → IsSound d
    → kind ≡ FailureKind.disconnected
    → Ends d (closed_failure d (record { kind = kind; native_error = code; framing = framing }))
unfolding closed_failure
closed-Ends d kind code framing s k = elim (finish-pending d s) [
  | inl (e, b) ↦ rw (closed_failure, k, e) (inl (b, k, refl))
  | inr (e, b) ↦ rw (closed_failure, k, e) (inr (b, refl, refl))
]

-- When the read says that the peer has closed the pipe, `receive` fails the stream. It reports a
-- disconnection if the bytes received end with a frame, and otherwise a violation of the protocol
-- that names the truncated frame.
pub refill-Closes :
    (s : StreamState) (until : ℕ) (a : Arrival)
    → IsSound s.decoder
    → SaysClosed (read_some buffer_bytes until a.read).1
    → Closes s.decoder (refill s until a)
unfolding refill
refill-Closes s until a l h = elim (Result-cases (read_some buffer_bytes until a.read).1) [
  | inl (error, e) ↦
      let k = rw e at h in
      rw (refill, e) (refl, closed-Ends s.decoder error.kind error.native_error error.framing l k)
  | inr (count, e) ↦ let k = rw e at h in rw (refill, e, k) (refl, ended-Ends s.decoder l)
]
