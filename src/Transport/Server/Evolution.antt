-- ===== src/Transport/Server/Evolution.antt =====
-- src/transport/windows/server.cpp: what serving a request does to the ids and to the store.
use stream_labs_test_assingm.Base.{
  ℕ, ◌≤◌, ◌<◌, ◌≡◌, inl, inr, refl, Option, none, some, [], arith, if-Holds, Option-cases,
}
use stream_labs_test_assingm.Base.Result.{Result, ok, err, Result-cases}
use stream_labs_test_assingm.Contracts.{Fallible, Request, Response}
use stream_labs_test_assingm.Validation.{Utf8}
use stream_labs_test_assingm.Framing.{Bytes}
use stream_labs_test_assingm.Objects.{ObjectClass}
use stream_labs_test_assingm.Identifiers.{IdentifierSource, horizon}
use stream_labs_test_assingm.Store.State.{SessionStore}
use stream_labs_test_assingm.Store.Execute.{execute}
use stream_labs_test_assingm.Store.Invariant.{Inv}
use stream_labs_test_assingm.Store.Preservation.{execute-Inv}
use stream_labs_test_assingm.Store.Sharing.{Lacks, execute-Onward}
use stream_labs_test_assingm.Codec.Wire.{WireOperation, WireOutcome}
use stream_labs_test_assingm.Codec.Envelope.{Protobuf, encode_response, decode_request}
use stream_labs_test_assingm.Dispatcher.{process}
use stream_labs_test_assingm.Dispatcher.Laws.{process-answers}
use stream_labs_test_assingm.Completion.{TransportFailure}
use stream_labs_test_assingm.Transport.Native.{preflight}
use stream_labs_test_assingm.Transport.Stream.{StreamState, receive_live}
use stream_labs_test_assingm.Transport.Server.{
  request_deadline, Host, record_failure, count_failure,
}
use stream_labs_test_assingm.Transport.Server.Requests.{
  refused_exchange, Exchange, Served, serve_request, answer_decoded, conclude, send_answer,
  dispatch, serve_received, enter_gate, stopped_within,
}

module _ {Obj : Type 0} ⦃o : ObjectClass Obj⦄ ⦃u : Utf8⦄ where
  -- What a step does to the ids and to a store: ids only rise, the store's invariant is kept, and
  -- no id that had been issued comes into the store.
  pub record Evolves (ids ids' : IdentifierSource) (s s' : SessionStore Obj) : Type 0 where
    pub onward : horizon ids ≤ horizon ids'
    pub kept : Inv s' ids'
    pub lacking : (id : ℕ) → id < horizon ids → Lacks id s → Lacks id s'

  stays : (ids : IdentifierSource) (s : SessionStore Obj) → Inv s ids → Evolves ids ids s s
  stays ids s inv = record { onward = omega arith; kept = inv; lacking = λ id b l. l }

  execute-Evolves :
      (s : SessionStore Obj) (ids : IdentifierSource) (request : Request)
      → Inv s ids
      → Evolves ids (execute s ids request.body).1 s (execute s ids request.body).0
  execute-Evolves s ids request inv = record {
    onward = (execute-Onward s ids request.body 0 inv).0;
    kept = execute-Inv s ids request.body inv;
    lacking = λ id b l. (execute-Onward s ids request.body id inv).1 l b;
  }

  process-Evolves :
      (s : SessionStore Obj) (ids : IdentifierSource) (request : Request)
      → Inv s ids
      → Evolves ids (process s ids request).1 s (process s ids request).0
  process-Evolves s ids request inv = elim (process-answers s ids request) [
    | inl (_, e) ↦ rw e (stays ids s inv)
    | inr (inl (_, _, e)) ↦ rw e (execute-Evolves s ids request inv)
    | inr (inr (_, _, e)) ↦ rw e (stays ids s inv)
  ]

  -- The ids of the host and a worker's store, before and after; the count of the sessions stays.
  abbrev pub HostEvolves : Host Obj → SessionStore Obj → Host Obj × SessionStore Obj → Type 0
  HostEvolves h s (h', s') =
      Evolves h.identifiers h'.identifiers s s'
      × (h'.statistics.active_sessions ≡ h.statistics.active_sessions)

  halts : (h : Host Obj) (s : SessionStore Obj) → Inv s h.identifiers → HostEvolves h s (h, s)
  halts h s inv = (stays h.identifiers s inv, refl)

  answer_decoded-Evolves :
      (h : Host Obj) (s : SessionStore Obj) (decoded : Fallible Request)
      → Inv s h.identifiers
      → HostEvolves h s ((answer_decoded h s decoded).0, (answer_decoded h s decoded).1)
  unfolding answer_decoded
  answer_decoded-Evolves h s (err error) inv = halts h s inv
  answer_decoded-Evolves h s (ok request) inv = (process-Evolves s h.identifiers request inv, refl)

  abbrev pub ServedEvolves : Host Obj → SessionStore Obj → Option (Served Obj) → Type 0
  ServedEvolves h s none = 0 ≤ 0
  ServedEvolves h s (some served) = HostEvolves h s (served.host, served.store)

  conclude-Evolves :
      (h h' : Host Obj) (s s' : SessionStore Obj)
      (sent : StreamState × Option (Result TransportFailure ℕ) × Bytes)
      → HostEvolves h s (h', s')
      → ServedEvolves h s (conclude h' s' sent)
  unfolding conclude record_failure count_failure
  conclude-Evolves h h' s s' (stream, none, written) k = omega arith
  conclude-Evolves h h' s s' (stream, some (err error), written) k = k
  conclude-Evolves h h' s s' (stream, some (ok size), written) k = k

  send_answer-Evolves :
      (q : Protobuf WireOutcome) (h h' : Host Obj) (s s' : SessionStore Obj) (stream : StreamState)
      (until : ℕ) (e : Exchange) (response : Fallible Response)
      → HostEvolves h s (h', s')
      → ServedEvolves h s (send_answer q stream until e (h', s', response))
  unfolding send_answer record_failure count_failure
  send_answer-Evolves q h h' s s' stream until e (err failure) k = k
  send_answer-Evolves q h h' s s' stream until e (ok response) k =
      elim (Result-cases (encode_response q response)) [
        | inl (failure, f) ↦ rw (send_answer, f) k
        | inr (encoded, f) ↦ rw (send_answer, f) (conclude-Evolves h h' s s' _ k)
      ]

  module _ (p : Protobuf WireOperation) (q : Protobuf WireOutcome) where
    dispatch-Evolves :
        (h : Host Obj) (s : SessionStore Obj) (stream : StreamState) (payload : Bytes) (until : ℕ)
        (e : Exchange)
        → Inv s h.identifiers
        → ServedEvolves h s (dispatch p q h s stream payload until e)
    unfolding dispatch record_failure count_failure
    dispatch-Evolves h s stream payload until e inv =
        elim (Option-cases (enter_gate until e.gate)) [
          | inl f ↦ rw (dispatch, f) (omega arith)
          | inr (some error, f) ↦ rw (dispatch, f) (halts h s inv)
          | inr (none, f) ↦ elim (Option-cases (preflight until e.inside)) [
            | inr (error, g) ↦ rw (dispatch, f, g) (halts h s inv)
            | inl g ↦
                let decoded = decode_request p payload in
                let out = answer_decoded h s decoded in
                rw (dispatch, f, g)
                  (send_answer-Evolves q h out.0 s out.1 stream until e out.2
                    (answer_decoded-Evolves h s decoded inv))
          ]
        ]

    serve_received-Evolves :
        (h : Host Obj) (s : SessionStore Obj) (until : ℕ) (e : Exchange) (stream : StreamState)
        (received : Option (Result TransportFailure Bytes))
        → Inv s h.identifiers
        → ServedEvolves h s (serve_received p q h s until e stream received)
    unfolding serve_received record_failure count_failure
    serve_received-Evolves h s until e stream none inv = omega arith
    serve_received-Evolves h s until e stream (some (err error)) inv = halts h s inv
    serve_received-Evolves h s until e stream (some (ok payload)) inv =
        dispatch-Evolves h s stream payload until e inv

    pub serve_request-Evolves :
        (h : Host Obj) (s : SessionStore Obj) (stream : StreamState) (e : Exchange)
        → Inv s h.identifiers
        → ServedEvolves h s (serve_request p q h s stream e)
    unfolding serve_request
    serve_request-Evolves h s stream e inv =
        let until = request_deadline h.options e.started in
        let run = receive_live stream until e.first e.arrivals in
        if-Holds (ServedEvolves h s) h.stopping (some (refused_exchange h s stream []))
          (serve_received p q (stopped_within h e) s until e run.state run.result) (halts h s inv)
          (serve_received-Evolves (stopped_within h e) s until e run.state run.result inv)
