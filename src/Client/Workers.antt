-- ===== src/Client/Workers.antt =====
-- src/client/client.cpp, `connection_state`: the steps of the writer, the reader and the monitor.
use stream_labs_test_assingm.Base.{
  ℕ, Bool, true, false, ◌||◌, not, Option, none, some, List, [], ◌∷◌, ◌++◌, leb, ◌==◌,
  if◌then◌else◌,
}
use stream_labs_test_assingm.Base.Result.{Result, ok, err}
use stream_labs_test_assingm.Contracts.{Response}
use stream_labs_test_assingm.Validation.{Utf8}
use stream_labs_test_assingm.Framing.{Bytes}
use stream_labs_test_assingm.SortedMap.{SortedMap, find, erase, assign}
use stream_labs_test_assingm.Codec.Wire.{WireOutcome}
use stream_labs_test_assingm.Codec.Envelope.{Protobuf, decode_response}
use stream_labs_test_assingm.Completion.{TransportFailure}
use stream_labs_test_assingm.Client.Matching.{
  local_failure, timeout, cancelled, disconnected, protocol_violation, internal_failure, translate,
  matches,
}
use stream_labs_test_assingm.Client.State.{
  Connection, Moment, Call, CallResult, PendingCall, Phase, writing, sent, is_over, over_cause,
  fail_locked, fail_all, fail_with,
}

-- The writer's first section: `ok has_channel` is what the opener returned, a channel or null.
unfoldable pub finish_open : Moment → ℕ → Result TransportFailure Bool → Connection → Connection
finish_open moment deadline (err error) s = fail_with (translate error) s
finish_open moment deadline (ok has_channel) s =
    if s.closed
    then s
    else if not has_channel
    then fail_all internal_failure s
    else if s.stop_requested
    then fail_all cancelled s
    else if leb deadline moment.now
    then fail_all timeout s
    else record s { connected = true; opening_done = true; opened = s.opened ++ ok tt ∷ [] }

-- `promise.set_value` and `pending_.erase` for one call, with the queue that is left.
abbrev pub settle : ℕ → CallResult → List Call → Connection → Connection
settle id result queue s = record s {
  pending = erase id s.pending;
  queue = queue;
  settled = s.settled ++ (id, result) ∷ [];
}

-- The writer takes the first call off the queue; the call is what it goes on to send.
unfoldable pub take_first : Moment → List Call → Connection → Connection × Option Call
take_first moment [] s = (s, none)
take_first moment (call ∷ queue) s =
    if is_over moment call.stop call.deadline
    then (settle call.request.id (err (over_cause moment call.stop)) queue s, none)
    else (
      record s {
        queue = queue;
        pending = assign call.request.id (record { call = call; progress = writing }) s.pending;
      },
      some call,
    )

unfoldable pub take_queued : Moment → Connection → Connection × Option Call
take_queued moment s = if s.closed then (s, none) else take_first moment s.queue s

-- The writer's section after `send`.
unfoldable pub finish_send : Call → Result TransportFailure ℕ → Connection → Connection
finish_send call result s = if s.closed then s else elim result [
  | err error ↦ fail_locked (local_failure disconnected) call.request.id (translate error) s
  | ok count ↦ record s {
    pending = assign call.request.id (record { call = call; progress = sent }) s.pending;
  }
]

abbrev pub is_queued : Phase → Bool
is_queued Phase.queued = true
is_queued _ = false

-- A decoded response against the call that waits for it.
unfoldable pub answer : Moment → Response → Option PendingCall → Connection → Connection
answer moment response none s = fail_all protocol_violation s
answer moment response (some entry) s =
    if is_queued entry.progress || not (matches entry.call.request.body response.body)
    then fail_all protocol_violation s
    else if is_over moment entry.call.stop entry.call.deadline
    then fail_locked (local_failure disconnected) response.id (over_cause moment entry.call.stop) s
    else settle response.id (ok response) s.queue s

module _ ⦃u : Utf8⦄ where
  -- The reader's section after `receive`, on an open connection.
  unfoldable pub receive_open :
      Protobuf WireOutcome → Moment → Result TransportFailure Bytes → Connection → Connection
  receive_open p moment (err error) s = fail_with (translate error) s
  receive_open p moment (ok encoded) s = elim (decode_response p encoded) [
    | err failure ↦ fail_all protocol_violation s
    | ok response ↦ answer moment response (find response.id s.pending) s
  ]

  unfoldable pub receive :
      Protobuf WireOutcome → Moment → Result TransportFailure Bytes → Connection → Connection
  receive p moment payload s = if s.closed then s else receive_open p moment payload s

-- `std::erase(queued_, entry)`
unfoldable pub erase_call : ℕ → List Call → List Call
erase_call id [] = []
erase_call id (call ∷ queue) =
    let rest = erase_call id queue in if call.request.id == id then rest else call ∷ rest

-- The monitor's loop over the pending calls.
unfoldable pub sweep : Moment → SortedMap PendingCall → Connection → Connection
sweep moment [] s = s
sweep moment ((id, entry) ∷ entries) s =
    let cause = over_cause moment entry.call.stop in
    let onward = sweep moment entries s in
    let dropped = sweep moment entries (settle id (err cause) (erase_call id s.queue) s) in
    if is_over moment entry.call.stop entry.call.deadline
    then (if not (is_queued entry.progress)
        then fail_locked (local_failure disconnected) id cause s
        else dropped)
    else onward

unfoldable pub monitor : Moment → Connection → Connection
unfolding sweep
monitor moment s = if s.closed then s else sweep moment s.pending s
