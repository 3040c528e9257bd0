-- ===== src/Client/Correlation.antt =====
-- src/client/client.cpp, `connection_state::read_loop`: which responses reach a caller.
use stream_labs_test_assingm.Base.{
  ℕ, ◌≡◌, ◌⊎◌, inl, inr, refl, ap, Bool, true, false, ◌||◌, not, ◌==◌, if◌then◌else◌, if-Cases,
  Option, none, some, [], ◌∷◌, ◌++◌, map, arith,
}
use stream_labs_test_assingm.Base.Result.{Result, ok, err, Result-cases}
use stream_labs_test_assingm.Contracts.{Failure, Response}
use stream_labs_test_assingm.Validation.{Utf8}
use stream_labs_test_assingm.Framing.{Bytes}
use stream_labs_test_assingm.SortedMap.{SortedMap, find}
use stream_labs_test_assingm.Codec.Wire.{WireOutcome}
use stream_labs_test_assingm.Codec.Envelope.{Protobuf, decode_response}
use stream_labs_test_assingm.Completion.{TransportFailure}
use stream_labs_test_assingm.Client.Matching.{
  ClientFailure, local_failure, translate, matches, disconnected, protocol_violation,
  transport_failure,
}
use stream_labs_test_assingm.Client.State.{
  Connection, Moment, PendingCall, is_over, over_cause, settle_all, fail_locked, fail_with,
}
use stream_labs_test_assingm.Client.Workers.{settle, is_queued, answer, receive, receive_open}

-- Every pending call fails, and the connection is closed: the call `id` fails for its own reason and
-- all others for the common one.
abbrev pub FailsEach : ClientFailure → ℕ → ClientFailure → Connection → Connection → Type 0
FailsEach common id specific s after =
    (after.closed ≡ true)
    × (after.pending ≡ [])
    × (after.queue ≡ [])
    × (after.settled
        ≡ s.settled ++ map (λ x. (x.0, err (if x.0 == id then specific else common))) s.pending)

-- The same for one reason: no call has the id 0.
abbrev pub FailsAll : ClientFailure → Connection → Connection → Type 0
FailsAll common s after = (specific : ClientFailure) × FailsEach common 0 specific s after

-- What a response does to the pending call of its id. It is handed to the call if that has been
-- begun to send, asks for such an outcome, and is not over. If the call has not been begun or asks
-- for another outcome, the protocol is violated. If it is over it fails as such, and the others as
-- disconnected.
abbrev pub Matched : Moment → Response → Option PendingCall → Connection → Connection → Type 0
Matched moment response none s after = FailsAll (local_failure protocol_violation) s after
Matched moment response (some entry) s after =
    ((is_queued entry.progress ≡ false)
      × (matches entry.call.request.body response.body ≡ true)
      × (is_over moment entry.call.stop entry.call.deadline ≡ false)
      × (after ≡ settle response.id (ok response) s.queue s))
    ⊎ (((is_queued entry.progress ≡ true) ⊎ (matches entry.call.request.body response.body ≡ false))
        × FailsAll (local_failure protocol_violation) s after)
    ⊎ ((is_queued entry.progress ≡ false)
        × (matches entry.call.request.body response.body ≡ true)
        × (is_over moment entry.call.stop entry.call.deadline ≡ true)
        × FailsEach (local_failure disconnected) response.id (over_cause moment entry.call.stop) s
            after)

-- What the reader does with what it received.
abbrev pub Correlates :
    ⦃u : Utf8⦄
    → Protobuf WireOutcome
    → Moment
    → Result TransportFailure Bytes
    → Connection
    → Connection
    → Type 0
Correlates p moment (err e) s after = FailsAll (translate e) s after
Correlates p moment (ok encoded) s after =
    ((e : Failure) × (decode_response p encoded ≡ err e)
      × FailsAll (local_failure protocol_violation) s after)
    ⊎ ((response : Response) × (decode_response p encoded ≡ ok response)
        × Matched moment response (find response.id s.pending) s after)

wrong_ways : (queued fits : Bool) → (queued || not fits) ≡ true → (queued ≡ true) ⊎ (fits ≡ false)
wrong_ways true fits e = inl refl
wrong_ways false true e = absurd (cc e)
wrong_ways false false e = inr refl

settle_all-map :
    (common : ClientFailure) (id : ℕ) (specific : ClientFailure) (m : SortedMap PendingCall)
    → settle_all common id specific m
      ≡ map (λ x. (x.0, err (if x.0 == id then specific else common))) m
unfolding settle_all
settle_all-map common id specific [] = refl
settle_all-map common id specific ((k, entry) ∷ m) =
    ap (λ l. (k, err (if k == id then specific else common)) ∷ l)
      (settle_all-map common id specific m)

fails_each :
    (common : ClientFailure) (id : ℕ) (specific : ClientFailure) (s : Connection)
    → s.closed ≡ false
    → FailsEach common id specific s (fail_locked common id specific s)
unfolding fail_locked
fails_each common id specific s live =
    if-Cases (FailsEach common id specific s) s.closed _ _ (λ shut. absurd (cc (shut, live)))
      (λ _.
        (refl, refl, refl, ap (λ l. s.settled ++ l) (settle_all-map common id specific s.pending)))

fails_all :
    (common : ClientFailure) (s : Connection)
    → s.closed ≡ false
    → FailsAll common s (fail_with common s)
fails_all common s live =
    (local_failure transport_failure, fails_each common 0 (local_failure transport_failure) s live)

answer-Matched :
    (moment : Moment) (response : Response) (found : Option PendingCall) (s : Connection)
    → s.closed ≡ false
    → Matched moment response found s (answer moment response found s)
unfolding answer
answer-Matched moment response none s live = fails_all (local_failure protocol_violation) s live
answer-Matched moment response (some entry) s live =
    let wrong = is_queued entry.progress || not (matches entry.call.request.body response.body) in
    let over = is_over moment entry.call.stop entry.call.deadline in
    if-Cases (Matched moment response (some entry) s) wrong _ _
      (λ w. inr (
        inl (
          wrong_ways (is_queued entry.progress) (matches entry.call.request.body response.body) w,
          fails_all (local_failure protocol_violation) s live,
        )))
      (λ right.
        if-Cases (Matched moment response (some entry) s) over _ _
          (λ h. inr (
            inr (
              ground (arith, right),
              ground (arith, right),
              h,
              fails_each (local_failure disconnected) response.id
                  (over_cause moment entry.call.stop) s live,
            )))
          (λ h. inl (ground (arith, right), ground (arith, right), h, refl)))

receive_open-Correlates :
    ⦃u : Utf8⦄ (p : Protobuf WireOutcome) (moment : Moment)
    (payload : Result TransportFailure Bytes) (s : Connection)
    → s.closed ≡ false
    → Correlates p moment payload s (receive_open p moment payload s)
unfolding receive_open
receive_open-Correlates p moment (err e) s live = fails_all (translate e) s live
receive_open-Correlates p moment (ok encoded) s live =
    elim (Result-cases (decode_response p encoded)) [
      | inl (e, bad) ↦
          let fails : receive_open p moment (ok encoded) s
              ≡ fail_with (local_failure protocol_violation) s =
            rw (bad, receive_open) refl in
          rw fails (inl (e, bad, fails_all (local_failure protocol_violation) s live))
      | inr (response, good) ↦
          let answers : receive_open p moment (ok encoded) s
              ≡ answer moment response (find response.id s.pending) s =
            rw (good, receive_open) refl in
          rw answers (
            inr
              (response, good, answer-Matched moment response (find response.id s.pending) s live))
    ]

-- What the reader does on an open connection. A response under the id of a pending call is handed to
-- that call, and to no other, exactly if the call has been begun to send, asks for such an outcome,
-- and is not over. Anything else closes the connection and fails every pending call, in order: for
-- the error of the read; for a violation of the protocol, if the bytes are no response, or its id is
-- not pending, or its call has not been begun or asked for another outcome; or, if its call is over,
-- that call for its stop or its deadline and the others as disconnected.
pub receive-Correlates :
    ⦃u : Utf8⦄ (p : Protobuf WireOutcome) (moment : Moment)
    (payload : Result TransportFailure Bytes) (s : Connection)
    → s.closed ≡ false
    → Correlates p moment payload s (receive p moment payload s)
unfolding receive
receive-Correlates p moment payload s live =
    let same : receive p moment payload s ≡ receive_open p moment payload s = ground arith in
    rw same (receive_open-Correlates p moment payload s live)
