-- ===== src/Transport/Server/Requests.antt =====
-- src/transport/windows/server.cpp: `dispatch` and a round of `serve`.
use stream_labs_test_assingm.Base.{
  ◌||◌, ℕ, Bool, true, false, Option, none, some, List, [], ◌∷◌, if◌then◌else◌,
}
use stream_labs_test_assingm.Base.Result.{Result, ok, err}
use stream_labs_test_assingm.Base.Word.{add64}
use stream_labs_test_assingm.Contracts.{Fallible, Request, Response}
use stream_labs_test_assingm.Validation.{Utf8}
use stream_labs_test_assingm.Framing.{Bytes}
use stream_labs_test_assingm.Objects.{ObjectClass}
use stream_labs_test_assingm.Store.State.{SessionStore}
use stream_labs_test_assingm.Codec.Wire.{WireOperation, WireOutcome}
use stream_labs_test_assingm.Codec.Envelope.{Protobuf, decode_request, encode_response}
use stream_labs_test_assingm.Dispatcher.{process, reject}
use stream_labs_test_assingm.Completion.{FailureKind, TransportFailure}
use stream_labs_test_assingm.Transport.Native.{Moment, Attempt, preflight, transport_failure}
use stream_labs_test_assingm.Transport.Stream.{StreamState, Arrival, receive_live, send_live}
use stream_labs_test_assingm.Transport.Server.{Host, request_deadline, record_failure}

-- The loop that waits for the gate: the moment of each round's preflight, and whether its
-- `try_lock_for` has got the gate. It returns the error of a preflight, or the gate.
unfoldable pub enter_gate : ℕ → List (Moment × Bool) → Option (Option TransportFailure)
enter_gate until [] = none
enter_gate until ((m, locked) ∷ rounds) =
    let later = enter_gate until rounds in
    elim (preflight until m) [
      | some error ↦ some (some error)
      | none ↦ if locked then some none else later
    ]

-- What one request is answered while it is served: its start, the rounds of `receive`, those of the
-- gate, the moment in the gate, and the rounds of `send`; and whether a stop was requested during the
-- round, before its failure, if any, was recorded.
pub record Exchange : Type 0 where
  pub started : ℕ
  pub first : Moment
  pub arrivals : List Arrival
  pub gate : List (Moment × Bool)
  pub inside : Moment
  pub reply_moment : Moment
  pub attempts : List Attempt
  pub stopped : Bool

-- What `dispatch` leaves: the session, whether it goes on, and the bytes sent.
pub record Served (Obj : Type 0) : Type 0 where
  pub host : Host Obj
  pub store : SessionStore Obj
  pub stream : StreamState
  pub goes_on : Bool
  pub written : Bytes

module _ {Obj : Type 0} where
  abbrev pub refused_exchange : Host Obj → SessionStore Obj → StreamState → Bytes → Served Obj
  refused_exchange h store stream written = record {
    host = h;
    store = store;
    stream = stream;
    goes_on = false;
    written = written;
  }

  -- The host once the round is under way.
  abbrev pub stopped_within : Host Obj → Exchange → Host Obj
  stopped_within h e = record h { stopping = h.stopping || e.stopped }

  -- The end of `dispatch`, by what `send` has come to.
  unfoldable pub conclude :
      Host Obj
      → SessionStore Obj
      → StreamState × Option (Result TransportFailure ℕ) × Bytes
      → Option (Served Obj)
  conclude h store (stream, none, written) = none
  conclude h store (stream, some (err error), written) =
      some (refused_exchange (record_failure error h) store stream written)
  conclude h store (stream, some (ok size), written) = some (record {
    host = record h {
      statistics = record h.statistics {
        completed_requests = add64 h.statistics.completed_requests 1;
      };
    };
    store = store;
    stream = stream;
    goes_on = true;
    written = written;
  })

module _ {Obj : Type 0} ⦃o : ObjectClass Obj⦄ ⦃u : Utf8⦄ where
  -- What stands inside the gate.
  unfoldable pub answer_decoded :
      Host Obj
      → SessionStore Obj
      → Fallible Request
      → Host Obj × SessionStore Obj × Fallible Response
  answer_decoded h store (err error) = (
    record h {
      statistics = record h.statistics {
        protocol_failures = add64 h.statistics.protocol_failures 1;
      };
    },
    store,
    reject error,
  )
  answer_decoded h store (ok request) =
      let out = process store h.identifiers request in
      (record h { identifiers = out.1 }, out.0, out.2)

  -- Past the gate: a fatal failure is not answered.
  unfoldable pub send_answer :
      Protobuf WireOutcome
      → StreamState
      → ℕ
      → Exchange
      → Host Obj × SessionStore Obj × Fallible Response
      → Option (Served Obj)
  unfolding conclude
  send_answer p stream until e (h, store, err failure) = some (refused_exchange h store stream [])
  send_answer p stream until e (h, store, ok response) = elim (encode_response p response) [
    | err failure ↦ some (
        refused_exchange (record_failure (transport_failure FailureKind.protocol_violation 0) h)
          store stream [])
    | ok encoded ↦ conclude h store (send_live stream encoded until e.reply_moment e.attempts)
  ]

  unfoldable pub dispatch :
      Protobuf WireOperation
      → Protobuf WireOutcome
      → Host Obj
      → SessionStore Obj
      → StreamState
      → Bytes
      → ℕ
      → Exchange
      → Option (Served Obj)
  unfolding send_answer answer_decoded
  dispatch p q h store stream payload until e = elim (enter_gate until e.gate) [
    | none ↦ none
    | some (some error) ↦ some (refused_exchange (record_failure error h) store stream [])
    | some none ↦ elim (preflight until e.inside) [
      | some error ↦ some (refused_exchange (record_failure error h) store stream [])
      | none ↦ send_answer q stream until e (answer_decoded h store (decode_request p payload))
    ]
  ]

  -- A round of `serve` past its look at the stop token.
  unfoldable pub serve_received :
      Protobuf WireOperation
      → Protobuf WireOutcome
      → Host Obj
      → SessionStore Obj
      → ℕ
      → Exchange
      → StreamState
      → Option (Result TransportFailure Bytes)
      → Option (Served Obj)
  unfolding dispatch
  serve_received p q h store until e stream none = none
  serve_received p q h store until e stream (some (err error)) =
      some (refused_exchange (record_failure error h) store stream [])
  serve_received p q h store until e stream (some (ok payload)) =
      dispatch p q h store stream payload until e

  unfoldable pub serve_request :
      Protobuf WireOperation
      → Protobuf WireOutcome
      → Host Obj
      → SessionStore Obj
      → StreamState
      → Exchange
      → Option (Served Obj)
  unfolding serve_received
  serve_request p q h store stream e =
      let until = request_deadline h.options e.started in
      let run = receive_live stream until e.first e.arrivals in
      if h.stopping
      then some (refused_exchange h store stream [])
      else serve_received p q (stopped_within h e) store until e run.state run.result
