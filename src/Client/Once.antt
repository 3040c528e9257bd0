-- ===== src/Client/Once.antt =====
-- src/client/client.cpp, `connection_state`: in every order of the threads' sections each call that
-- was admitted is settled at most once.
use stream_labs_test_assingm.Base.{
  ℕ, ◌+◌, ◌≤◌, ◌≡◌, refl, true, Option, some, none, List, [], ◌∷◌, arith, length, inl, inr,
  Bool-cases,
}
use stream_labs_test_assingm.Base.Result.{Result, ok, err}
use stream_labs_test_assingm.Contracts.{Operation}
use stream_labs_test_assingm.Validation.{Utf8}
use stream_labs_test_assingm.SortedMap.{find}
use stream_labs_test_assingm.Codec.Wire.{WireOperation, WireOutcome}
use stream_labs_test_assingm.Codec.Envelope.{Protobuf}
use stream_labs_test_assingm.Completion.{TransportFailure}
use stream_labs_test_assingm.Client.Matching.{local_failure, disconnected, cancelled, translate}
use stream_labs_test_assingm.Client.State.{
  Connection, Moment, Call, sent, max_pending_calls, new_connection,
}
use stream_labs_test_assingm.Client.Calls.{call_async, close}
use stream_labs_test_assingm.Client.Workers.{take_first, take_queued, finish_send, answer, monitor}
use stream_labs_test_assingm.Client.Steps
use stream_labs_test_assingm.Client.Steps.{
  Session, Section, step, steps, take_section, send_section, new_session,
}
use stream_labs_test_assingm.Client.Invariant.{presence, times, issued}
use stream_labs_test_assingm.Client.Admission.{
  call_async-Admits, admitted, admitted-Inv, Lacks-append,
}
use stream_labs_test_assingm.Client.Settlement.{Flying, take_first-Inv, assign-Inv}
use stream_labs_test_assingm.Client.Holding.{
  Holds, fail_locked-Holds, if-Holds, fail_all-Holds, relabelled-Holds, connect_async-Holds,
  finish_open-Holds,
}
use stream_labs_test_assingm.Client.Settling.{receive-Holds, sweep-Holds}

take_section-Holds :
    (sending : Option Call) (moment : Moment) (s : Connection)
    → Holds sending s
    → Holds (take_section moment sending s).sending (take_section moment sending s).connection
unfolding take_section take_queued
take_section-Holds (some call) moment s h = h
take_section-Holds none moment s h = elim (Bool-cases s.closed) [
  | inl shut ↦ let e : take_queued moment s ≡ (s, none) = ground arith in rw e h
  | inr live ↦
      let e : take_queued moment s ≡ take_first moment s.queue s = ground arith in
      rw e (take_first-Inv moment s.queue s h.0 live h.0.queue_pending)
]

send_section-Holds :
    (sending : Option Call) (result : Result TransportFailure ℕ) (s : Connection)
    → Holds sending s
    → Holds (send_section result sending s).sending (send_section result sending s).connection
unfolding send_section finish_send
send_section-Holds none result s h = h
send_section-Holds (some call) (err e) s h =
    if-Holds none s.closed _ _ (h.0, tt)
      (fail_locked-Holds none (local_failure disconnected) (translate e) call.request.id s
        (h.0, tt))
send_section-Holds (some call) (ok count) s h =
    if-Holds none s.closed _ _ (h.0, tt)
      (
        assign-Inv call.request.id (record { call = call; progress = sent }) s.queue s h.0 h.1.0
            h.0.queue_pending,
        tt,
      )

call_async-Holds :
    ⦃u : Utf8⦄ (p : Protobuf WireOperation) (sending : Option Call) (moment : Moment)
    (operation : Operation) (deadline stop : ℕ) (s : Connection)
    → Holds sending s
    → Holds sending (call_async p moment operation deadline stop s).0
call_async-Holds p sending moment operation deadline stop s h =
    elim (call_async-Admits p moment operation deadline stop s h.0.word) [
      | inl same ↦ rw same h
      | inr (call, id, live, room, word, e) ↦
          rw e (admitted-Inv call s h.0 id live room word, still sending call id h.1)
    ]
  where
    still :
        (c : Option Call) (call : Call)
        → call.request.id ≡ s.next_id
        → Flying c s
        → Flying c (admitted call s)
    still none call id f = tt
    still (some held) call id f = (
      Lacks-append held.request.id s.queue call f.0 (λ e. absurd (ground (arith, f.1))),
      omega (arith, f.1),
    )

-- The promise of a call with an id that was given out is pending or has been set once, no other has
-- been set, the table is within its bound, and a closed connection has no pending call.
abbrev pub IsOnce : Connection → Type 0
IsOnce s =
    ((id : ℕ) → times id s.settled + presence id s.pending ≡ issued id s)
    × (length s.pending ≤ max_pending_calls)
    × (s.closed ≡ true → s.pending ≡ [])

module _ ⦃u : Utf8⦄ (requests : Protobuf WireOperation) (responses : Protobuf WireOutcome) where
  step-Holds :
      (section : Section) (t : Session)
      → Holds t.sending t.connection
      → Holds
          (step requests responses section t).sending
          (step requests responses section t).connection
  unfolding step close monitor
  step-Holds (Steps.connecting callable threads moment endpoint deadline stop) t h =
      connect_async-Holds t.sending callable threads moment endpoint deadline stop t.connection h
  step-Holds (Steps.calling moment operation deadline stop) t h =
      call_async-Holds requests t.sending moment operation deadline stop t.connection h
  step-Holds Steps.closing t h = fail_all-Holds t.sending cancelled t.connection h
  step-Holds Steps.shutdown_requested t h =
      relabelled-Holds t.sending t.connection.started t.connection.connected
        t.connection.opening_done true t.connection.opened t.connection h
  step-Holds (Steps.channel_opened moment deadline answer) t h =
      finish_open-Holds t.sending moment deadline answer t.connection h
  step-Holds (Steps.taking moment) t h = take_section-Holds t.sending moment t.connection h
  step-Holds (Steps.send_finished result) t h = send_section-Holds t.sending result t.connection h
  step-Holds (Steps.received moment payload) t h =
      receive-Holds responses t.sending moment payload t.connection h
  step-Holds (Steps.monitored moment) t h = if-Holds t.sending t.connection.closed _ _ h (
      sweep-Holds t.sending moment 0 t.connection.pending t.connection h h.0.ascending
        (λ id e f. f))

  steps-Holds :
      (sections : List Section) (t : Session)
      → Holds t.sending t.connection
      → Holds
          (steps requests responses sections t).sending
          (steps requests responses sections t).connection
  unfolding steps
  steps-Holds [] t h = h
  steps-Holds (section ∷ sections) t h =
      steps-Holds sections (step requests responses section t) (step-Holds section t h)

  new_session-Holds : Holds none new_connection
  unfolding find times
  new_session-Holds = (
    record {
      positive = omega arith;
      word = omega arith;
      ascending = tt;
      below = tt;
      bounded = omega arith;
      queue_pending = tt;
      once = λ id. ground arith;
      drained = λ h. refl;
    },
    tt,
  )

  -- In whatever order the sections of the controller, the callers, the writer, the reader and the
  -- monitor run from the start, the promise of every call that was admitted is either still pending
  -- or has been set exactly once, and no other promise has been set; the table stays within its
  -- bound, and once the connection is closed no call is pending.
  pub steps-Once :
      (sections : List Section) → IsOnce (steps requests responses sections new_session).connection
  steps-Once sections =
      let h = steps-Holds sections new_session new_session-Holds in
      (h.0.once, h.0.bounded, h.0.drained)
