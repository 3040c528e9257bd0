-- ===== src/Client/Calls.antt =====
-- src/client/client.cpp, `connection_state`: what the controller and the callers do.
use stream_labs_test_assingm.Base.{
  ℕ, ◌+◌, ◌-◌, ◌^◌, Bool, true, ◌||◌, not, Option, none, some, [], ◌∷◌, ◌++◌, leb, ◌==◌,
  if◌then◌else◌, length,
}
use stream_labs_test_assingm.Base.Text.{Text}
use stream_labs_test_assingm.Base.Result.{ok, err}
use stream_labs_test_assingm.Contracts.{Operation, Request, version}
use stream_labs_test_assingm.Validation.{Utf8}
use stream_labs_test_assingm.SortedMap.{emplace}
use stream_labs_test_assingm.Codec.Wire.{WireOperation}
use stream_labs_test_assingm.Codec.Envelope.{Protobuf, encode_request}
use stream_labs_test_assingm.Completion.{valid_endpoint}
use stream_labs_test_assingm.Client.Matching.{
  ClientFailure, local_failure, invalid_request, not_connected, quota_exceeded, timeout, cancelled,
  internal_failure,
}
use stream_labs_test_assingm.Client.State.{
  Connection, Moment, Call, queued, is_over, over_cause, fail_all, fail_with, max_pending_calls,
}

-- The creation of the three threads: its error, or `none`.
unfoldable pub begin_threads : Option ℕ → Connection → Connection
begin_threads none s = s
begin_threads (some code) s = fail_with (record { kind = internal_failure; native_error = code }) s

-- `callable` says that there is an opener; `threads` is the outcome of the creation of
-- the threads. A failure returned is that of a ready future.
unfoldable pub connect_async :
    Bool → Option ℕ → Moment → Text → ℕ → ℕ → Connection → Connection × Option ClientFailure
connect_async callable threads moment endpoint deadline stop s =
    if s.started || s.closed || not callable || not (valid_endpoint endpoint)
    then (s, some (local_failure invalid_request))
    else let begun : Connection = record s { started = true } in
      if is_over moment stop deadline
      then (fail_with (over_cause moment stop) begun, none)
      else (begin_threads threads begun, none)

unfoldable pub close : Connection → Connection
close s = fail_all cancelled s

module _ ⦃u : Utf8⦄ where
  -- The call's id where it is admitted, and otherwise the failure of a ready future.
  unfoldable pub call_async :
      Protobuf WireOperation
      → Moment
      → Operation
      → ℕ
      → ℕ
      → Connection
      → Connection × Option ClientFailure
  call_async p moment operation deadline stop s =
      if not s.connected || s.closed
      then (s, some (local_failure not_connected))
      else if moment.stopped stop
      then (s, some (local_failure cancelled))
      else if leb deadline moment.now
      then (s, some (local_failure timeout))
      else if leb max_pending_calls (length s.pending) || s.next_id == 2 ^ 64 - 1
      then (s, some (local_failure quota_exceeded))
      else let request : Request = record {
        id = s.next_id;
        body = operation;
        protocol_version = version;
      } in
        elim (encode_request p request) [
          | err e ↦ (s, some (local_failure invalid_request))
          | ok encoded ↦
              let call : Call = record {
                request = request;
                encoded = encoded;
                deadline = deadline;
                stop = stop;
              } in
              (
                record s {
                  next_id = s.next_id + 1;
                  pending = emplace s.next_id (record { call = call; progress = queued }) s.pending;
                  queue = s.queue ++ call ∷ [];
                },
                none,
              )
        ]
