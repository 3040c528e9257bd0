-- ===== src/Transport/Server/Answering.antt =====
-- src/transport/windows/server.cpp, `dispatch` and `serve`: one call over the wire, from the request
-- that a client encodes to the response that it decodes.
use stream_labs_test_assingm.Base.{ℕ, ◌≡◌, inl, inr, sym, ap, ◌∙◌, true, false, some, List, ◌++◌}
use stream_labs_test_assingm.Base.Result.{ok, ok-injective}
use stream_labs_test_assingm.Contracts.{Outcome, Fallible, Request, Response}
use stream_labs_test_assingm.Validation.{Utf8}
use stream_labs_test_assingm.Framing.{Bytes, frame}
use stream_labs_test_assingm.Objects.{ObjectClass}
use stream_labs_test_assingm.Identifiers.{IdentifierSource}
use stream_labs_test_assingm.Store.State.{SessionStore}
use stream_labs_test_assingm.Codec.Wire.{WireOperation, WireOutcome}
use stream_labs_test_assingm.Codec.Envelope.{Protobuf, encode_request, decode_response}
use stream_labs_test_assingm.Codec.Exchange.{
  IsFaithful, decode-encode_request, decode-encode_response,
}
use stream_labs_test_assingm.Dispatcher.{process, reply}
use stream_labs_test_assingm.Dispatcher.Laws.{process-answers}
use stream_labs_test_assingm.Transport.Native.{Moment, Attempt}
use stream_labs_test_assingm.Transport.Stream.{StreamState, Arrival, receive_live, send_live}
use stream_labs_test_assingm.Transport.Stream.Receiving.{IsLive, undelivered}
use stream_labs_test_assingm.Transport.Stream.Delivery.{flow, AllDeliver, steady}
use stream_labs_test_assingm.Transport.Stream.Recut.{receive-IsLive}
use stream_labs_test_assingm.Transport.Stream.Sending.{sent-framed, receive-framed, receive-send}
use stream_labs_test_assingm.Transport.Server.{Host, request_deadline}
use stream_labs_test_assingm.Transport.Server.Requests.{
  Exchange, Served, answer_decoded, dispatch, serve_request, stopped_within,
}
use stream_labs_test_assingm.Transport.Server.Dispatched.{
  send_answer_goes, dispatch_goes, serve_goes,
}

answer_is :
    (response : Response) (r : Fallible Response) (id : ℕ) (body : Outcome)
    → r ≡ ok response
    → r ≡ reply id body
    → response.id ≡ id
answer_is response r id body e f = ap (λ x. x.id) (ok-injective r e f)

module _ {Obj : Type 0} ⦃o : ObjectClass Obj⦄ ⦃u : Utf8⦄ where
  process_id :
      (s : SessionStore Obj) (ids : IdentifierSource) (r : Request) (response : Response)
      → (process s ids r).2 ≡ ok response
      → response.id ≡ r.id
  process_id s ids r response e = elim (process-answers s ids r) [
    | inl (_, f) ↦ absurd (cc (e, ap (λ x. x.2) f))
    | inr (inl (_, _, f)) ↦ answer_is response (process s ids r).2 r.id _ e (ap (λ x. x.2) f)
    | inr (inr (_, _, f)) ↦ answer_is response (process s ids r).2 r.id _ e (ap (λ x. x.2) f)
  ]

  -- The session has taken the step of the request, and the bytes written are the frame of a reply
  -- that a client decodes as the response, under the request's id.
  abbrev pub Answers :
      Protobuf WireOutcome
      → Host Obj
      → SessionStore Obj
      → Request
      → Served Obj
      → Response
      → Bytes
      → Type 0
  Answers q h s r served response reply =
      (served.store ≡ (process s h.identifiers r).0)
      × (served.host.identifiers ≡ (process s h.identifiers r).1)
      × ((process s h.identifiers r).2 ≡ ok response)
      × (response.id ≡ r.id)
      × (frame reply ≡ ok served.written)
      × (decode_response q reply ≡ ok response)

  module _ (p : Protobuf WireOperation) (q : Protobuf WireOutcome) where
    -- A request that a client encoded, once `dispatch` has gone through with it.
    dispatch-Answers :
        (h : Host Obj) (s : SessionStore Obj) (stream : StreamState) (payload : Bytes) (until : ℕ)
        (e : Exchange) (r : Request) (served : Served Obj)
        → IsFaithful p
        → IsFaithful q
        → stream.failed ≡ false
        → encode_request p r ≡ ok payload
        → dispatch p q h s stream payload until e ≡ some served
        → served.goes_on ≡ true
        → (response : Response) × (reply : Bytes) × Answers q h s r served response reply
    unfolding answer_decoded
    dispatch-Answers h s stream payload until e r served f g a c w k =
        let decoded = (decode-encode_request p r payload f c).0 in
        let sent = rw decoded at (dispatch_goes p q h s stream payload until e served w k) in
        let out = process s h.identifiers r in
        let (response, answer, sent_bytes, encoded, concluded) =
          send_answer_goes q (record h { identifiers = out.1 }) out.0 stream until e out.2 served
            sent k in
        let (store, ids, written, size, done) = concluded in
        let written_frame =
          sent-framed stream sent_bytes until e.reply_moment size e.attempts a done in
        (
          response,
          sent_bytes,
          (
            store,
            ids,
            answer,
            process_id s h.identifiers r response answer,
            written_frame ∙ ap ok (sym written),
            (decode-encode_response q response sent_bytes g encoded).0,
          ),
        )

    -- One call over the wire. A client has encoded a request and sent it, on a stream that had not
    -- failed; the server's worker receives from the bytes that start with it, cut into any reads
    -- that bring bytes in time, and its round goes on. Then the session has taken exactly the step
    -- of that request, and the bytes that the server has written are a frame: whoever receives from
    -- bytes that start with them, likewise cut in any way, gets a reply that decodes as the
    -- response of that step, under the request's id. Protobuf is taken to parse what it serialized.
    pub one_call :
        (h : Host Obj) (s : SessionStore Obj) (c v t : StreamState) (e : Exchange) (r : Request)
        (payload more rest : Bytes) (until size : ℕ) (m n : Moment) (attempts : List Attempt)
        (arrivals : List Arrival) (served : Served Obj)
        → IsFaithful p
        → IsFaithful q
        → encode_request p r ≡ ok payload
        → c.failed ≡ false
        → (send_live c payload until m attempts).1 ≡ some (ok size)
        → IsLive v
        → AllDeliver (request_deadline h.options e.started) e.arrivals
        → steady (request_deadline h.options e.started) e.first e.arrivals ≡ true
        → undelivered v ++ flow e.arrivals ≡ (send_live c payload until m attempts).2 ++ more
        → serve_request p q h s v e ≡ some served
        → served.goes_on ≡ true
        → IsLive t
        → AllDeliver until arrivals
        → steady until n arrivals ≡ true
        → undelivered t ++ flow arrivals ≡ served.written ++ rest
        → (response : Response) × (reply : Bytes) × Answers q h s r served response reply
          × ((receive_live t until n arrivals).result ≡ some (ok reply))
    one_call h s c v t e r payload more rest until size m n attempts arrivals served f g enc alive
          sent live d st bytes serve goes lt dt tt wire =
        let late = request_deadline h.options e.started in
        let got =
          (receive-send c v payload more until late m e.first size attempts e.arrivals alive live d
            st sent bytes).0 in
        let run = receive_live v late e.first e.arrivals in
        let still = receive-IsLive v late e.first e.arrivals payload live d got in
        let (response, answer, answers) =
          dispatch-Answers (stopped_within h e) s run.state payload late e r served f g still.alive
            enc (serve_goes p q h s v e served payload serve goes got) goes in
        (
          response,
          answer,
          answers,
          (receive-framed t answer served.written rest until n arrivals lt dt tt answers.4 wire).0,
        )
