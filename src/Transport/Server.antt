-- ===== src/Transport/Server.antt =====
-- src/transport/windows/server.cpp: `server_state`. A worker is the thread that runs `run` on one
-- pipe; what it does between two looks at the shared state is a function on the host, which all
-- workers share, and on the worker's own session. A function that waits takes what it is answered,
-- and has not returned, `none`, where the answers end before it does. Log lines are left out.
pub mod Requests
pub mod Workers
pub mod Start
pub mod Starting
pub mod Steps
pub mod Evolution
pub mod Moves
pub mod Isolation
pub mod Accounting
pub mod Dispatched
pub mod Answering
use stream_labs_test_assingm.Base.{
  ℕ, ◌+◌, ◌*◌, ◌^◌, ◌%◌, Bool, true, false, ◌&&◌, ◌||◌, not, Option, none, some, List, [], ◌∷◌, ltb,
  ◌==◌, if◌then◌else◌,
}
use stream_labs_test_assingm.Base.Text.{Text}
use stream_labs_test_assingm.Base.Result.{Result, ok, err}
use stream_labs_test_assingm.Base.Word.{add64, sub64}
use stream_labs_test_assingm.Contracts.{Failure, Fallible, Request, Response}
use stream_labs_test_assingm.Validation.{Utf8}
use stream_labs_test_assingm.Framing.{Bytes}
use stream_labs_test_assingm.Objects.{ObjectClass}
use stream_labs_test_assingm.Registry.{ClassRegistry}
use stream_labs_test_assingm.Identifiers.{IdentifierSource}
use stream_labs_test_assingm.Store.State.{SessionStore, SessionLimits, new_store}
use stream_labs_test_assingm.Codec.Wire.{WireOperation, WireOutcome}
use stream_labs_test_assingm.Codec.Envelope.{Protobuf, decode_request, encode_response}
use stream_labs_test_assingm.Dispatcher.{process, reject}
use stream_labs_test_assingm.Completion.{FailureKind, TransportFailure}
use stream_labs_test_assingm.Transport.Native.{
  Moment, Attempt, accept, preflight, deadline_max, io_failure, transport_failure,
  error_pipe_not_connected,
}
use stream_labs_test_assingm.Transport.Stream.{
  StreamState, Arrival, new_stream, receive_live, send_live,
}

pub record ServerOptions : Type 0 where
  pub endpoint : Text
  pub request_timeout : ℕ
  pub sessions : ℕ
  pub storage : SessionLimits

pub record ServerStatistics : Type 0 where
  pub connections : ℕ
  pub completed_requests : ℕ
  pub protocol_failures : ℕ
  pub io_failures : ℕ
  pub active_sessions : ℕ
  pub last_native_error : ℕ

-- What the workers share. The diagnostics, the pipes and the threads are left out.
pub record Host (Obj : Type 0) : Type 0 where
  pub registry : ClassRegistry Obj
  pub identifiers : IdentifierSource
  pub options : ServerOptions
  pub stopping : Bool
  pub statistics : ServerStatistics

unfoldable pub is_violation : FailureKind → Bool
is_violation FailureKind.protocol_violation = true
is_violation kind = false

unfoldable pub is_disconnected : FailureKind → Bool
is_disconnected FailureKind.disconnected = true
is_disconnected kind = false

-- The counters of `record`.
unfoldable pub count_failure : Bool → TransportFailure → ServerStatistics → ServerStatistics
unfolding is_violation is_disconnected
count_failure stopping error t = record t {
  protocol_failures =
      if is_violation error.kind then add64 t.protocol_failures 1 else t.protocol_failures;
  io_failures =
      if not (is_violation error.kind) && not (is_disconnected error.kind) && not stopping
      then add64 t.io_failures 1
      else t.io_failures;
  last_native_error = if error.native_error == 0 then t.last_native_error else error.native_error;
}

-- `until`, in the clock's ticks of a nanosecond.
abbrev pub request_deadline : ServerOptions → ℕ → ℕ
request_deadline options started = started + options.request_timeout * 1000000

module _ {Obj : Type 0} where
  abbrev pub request_stop : Host Obj → Host Obj
  request_stop h = record h { stopping = true }

  -- `record`, which is a reserved word.
  unfoldable pub record_failure : TransportFailure → Host Obj → Host Obj
  record_failure error h = record h { statistics = count_failure h.stopping error h.statistics }
