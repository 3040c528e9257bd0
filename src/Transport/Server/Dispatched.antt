-- ===== src/Transport/Server/Dispatched.antt =====
-- src/transport/windows/server.cpp: what a round of `serve` that goes on has done.
use stream_labs_test_assingm.Base.{
  ℕ, ◌≡◌, ◌≢◌, inl, inr, refl, sym, ap, Bool, true, false, Option, none, some, [], if◌then◌else◌,
  Option-cases,
}
use stream_labs_test_assingm.Base.Result.{Result, ok, err, Result-cases}
use stream_labs_test_assingm.Contracts.{Fallible, Response}
use stream_labs_test_assingm.Validation.{Utf8}
use stream_labs_test_assingm.Framing.{Bytes}
use stream_labs_test_assingm.Objects.{ObjectClass}
use stream_labs_test_assingm.Store.State.{SessionStore}
use stream_labs_test_assingm.Codec.Wire.{WireOperation, WireOutcome}
use stream_labs_test_assingm.Codec.Envelope.{Protobuf, decode_request, encode_response}
use stream_labs_test_assingm.Completion.{TransportFailure}
use stream_labs_test_assingm.Transport.Native.{preflight}
use stream_labs_test_assingm.Transport.Stream.{StreamState, receive_live, send_live}
use stream_labs_test_assingm.Transport.Server.{Host, request_deadline}
use stream_labs_test_assingm.Transport.Server.Requests.{
  Exchange, Served, enter_gate, answer_decoded, conclude, send_answer, dispatch, serve_received,
  serve_request, refused_exchange, stopped_within,
}

module _ {Obj : Type 0} ⦃o : ObjectClass Obj⦄ ⦃u : Utf8⦄ where
  some_injective : {x y : Served Obj} → some x ≡ some y → x ≡ y
  some_injective e = cc e

  -- An exchange that was refused does not go on.
  refused_stays :
      (h : Host Obj) (s : SessionStore Obj) (stream : StreamState) (written : Bytes)
      (served : Served Obj)
      → some (refused_exchange h s stream written) ≡ some served
      → served.goes_on ≢ true
  refused_stays h s stream written served e g =
      absurd (cc (ap (λ x. x.goes_on) (some_injective e), g))

  -- What an exchange that goes on has sent, by the sending of its reply.
  abbrev pub Concludes :
      Host Obj
      → SessionStore Obj
      → StreamState × Option (Result TransportFailure ℕ) × Bytes
      → Served Obj
      → Type 0
  Concludes h s sent served =
      (served.store ≡ s)
      × (served.host.identifiers ≡ h.identifiers)
      × (served.written ≡ sent.2)
      × (size : ℕ) × (sent.1 ≡ some (ok size))

  conclude-Concludes :
      (h : Host Obj) (s : SessionStore Obj) (stream : StreamState)
      (result : Option (Result TransportFailure ℕ)) (written : Bytes) (served : Served Obj)
      → conclude h s (stream, result, written) ≡ some served
      → served.goes_on ≡ true
      → Concludes h s (stream, result, written) served
  unfolding conclude
  conclude-Concludes h s stream none written served e g = absurd (cc e)
  conclude-Concludes h s stream (some (err error)) written served e g =
      absurd (refused_stays _ s stream written served e g)
  conclude-Concludes h s stream (some (ok size)) written served e g =
      let same = some_injective e in
      (
        sym (ap (λ x. x.store) same),
        sym (ap (λ x. x.host.identifiers) same),
        sym (ap (λ x. x.written) same),
        size,
        refl,
      )

  pub send_answer_goes :
      (q : Protobuf WireOutcome) (h : Host Obj) (s : SessionStore Obj) (stream : StreamState)
      (until : ℕ) (e : Exchange) (answer : Fallible Response) (served : Served Obj)
      → send_answer q stream until e (h, s, answer) ≡ some served
      → served.goes_on ≡ true
      → (response : Response) × (answer ≡ ok response)
        × (encoded : Bytes) × (encode_response q response ≡ ok encoded)
        × Concludes h s (send_live stream encoded until e.reply_moment e.attempts) served
  unfolding send_answer
  send_answer_goes q h s stream until e (err failure) served w g =
      absurd (refused_stays h s stream [] served w g)
  send_answer_goes q h s stream until e (ok response) served w g =
      elim (Result-cases (encode_response q response)) [
        | inl (failure, f) ↦
            absurd (refused_stays _ s stream [] served (rw (send_answer, f) at w) g)
        | inr (encoded, f) ↦
            let sent = send_live stream encoded until e.reply_moment e.attempts in
            (
              response,
              refl,
              encoded,
              f,
              conclude-Concludes h s sent.0 sent.1 sent.2 served (rw (send_answer, f) at w) g,
            )
      ]

  module _ (p : Protobuf WireOperation) (q : Protobuf WireOutcome) where
    pub dispatch_goes :
        (h : Host Obj) (s : SessionStore Obj) (stream : StreamState) (payload : Bytes) (until : ℕ)
        (e : Exchange) (served : Served Obj)
        → dispatch p q h s stream payload until e ≡ some served
        → served.goes_on ≡ true
        → send_answer q stream until e (answer_decoded h s (decode_request p payload)) ≡ some served
    unfolding dispatch
    dispatch_goes h s stream payload until e served w g =
        elim (Option-cases (enter_gate until e.gate)) [
          | inl f ↦ absurd (cc (rw (dispatch, f) at w))
          | inr (some error, f) ↦
              absurd (refused_stays _ s stream [] served (rw (dispatch, f) at w) g)
          | inr (none, f) ↦ elim (Option-cases (preflight until e.inside)) [
            | inr (error, k) ↦
                absurd (refused_stays _ s stream [] served (rw (dispatch, f, k) at w) g)
            | inl k ↦ rw (dispatch, f, k) at w
          ]
        ]

    passed :
        (b : Bool) (x y : Option (Served Obj)) (served : Served Obj)
        → (if b then x else y) ≡ some served
        → (x ≡ some served → served.goes_on ≢ true)
        → served.goes_on ≡ true
        → y ≡ some served
    passed true x y served e never g = absurd (never e g)
    passed false x y served e never g = e

    -- A round of `serve` that goes on has dispatched what it received.
    pub serve_goes :
        (h : Host Obj) (s : SessionStore Obj) (v : StreamState) (e : Exchange) (served : Served Obj)
        (payload : Bytes)
        → serve_request p q h s v e ≡ some served
        → served.goes_on ≡ true
        → (receive_live v (request_deadline h.options e.started) e.first e.arrivals).result
          ≡ some (ok payload)
        → dispatch p q
            (stopped_within h e)
            s
            (receive_live v (request_deadline h.options e.started) e.first e.arrivals).state
            payload
            (request_deadline h.options e.started)
            e
          ≡ some served
    unfolding serve_request serve_received
    serve_goes h s v e served payload w g r =
        let until = request_deadline h.options e.started in
        let run = receive_live v until e.first e.arrivals in
        let goes =
          passed h.stopping (some (refused_exchange h s v []))
            (serve_received p q (stopped_within h e) s until e run.state run.result) served w
            (refused_stays h s v [] served) g in
        rw (serve_received, r) at goes
