-- ===== src/Transport/Stream/Opening.antt =====
-- src/transport/windows/stream.cpp, `pipe_stream::connect`: when the pipe is opened.
use stream_labs_test_assingm.Base.{
  ℕ, ◌<◌, leb, ◌≡◌, ◌⊎◌, inl, inr, refl, true, false, ◌&&◌, not, Option, none, some, List, [], ◌∷◌,
  ◌==◌, if◌then◌else◌, min, if-Holds, arith, Bool-cases, Option-cases,
}
use stream_labs_test_assingm.Base.Text.{Text}
use stream_labs_test_assingm.Base.Result.{Result, ok, err, Result-cases}
use stream_labs_test_assingm.Completion.{FailureKind, TransportFailure, valid_endpoint}
use stream_labs_test_assingm.Transport.Native.{
  Moment, preflight, remaining, io_failure, transport_failure, error_pipe_busy,
  error_file_not_found, error_sem_timeout,
}
use stream_labs_test_assingm.Transport.Stream.{StreamState, new_stream}
use stream_labs_test_assingm.Transport.Stream.Receiving.{IsLive, undelivered}
use stream_labs_test_assingm.Transport.Stream.Connecting.{
  retry_milliseconds, Try, Verdict, back_off, wait_for_pipe, try_open, connect_loop, connect,
  new_stream-IsLive,
}

-- No stop is requested, and the deadline has not come.
abbrev pub InTime : ℕ → Moment → Type 0
InTime until m = (m.stopping ≡ false) × (m.now < until)

preflight-InTime : (until : ℕ) (m : Moment) → preflight until m ≡ none → InTime until m
unfolding preflight
preflight-InTime until m e = elim (Bool-cases m.stopping) [
  | inl stops ↦ absurd (cc (rw stops at e))
  | inr runs ↦ elim (Bool-cases (leb until m.now)) [
    | inl late ↦ absurd (cc (rw (runs, late) at e))
    | inr early ↦ (runs, ground arith)
  ]
]

-- A try behind which the loop goes on: it was in time, and the pipe was busy or not there.
abbrev pub Retries : ℕ → Try → Type 0
Retries until t =
    (InTime until t.moment)
    × (code : ℕ) × (t.opened ≡ err code)
    × ((code ≡ error_pipe_busy) ⊎ (code ≡ error_file_not_found))

-- The tries up to one that has opened the pipe, in time.
abbrev pub Opens : ℕ → List Try → Type 0
Opens until [] = ⊥
Opens until (t ∷ tries) =
    ((InTime until t.moment) × (handle : ℕ) × (t.opened ≡ ok handle))
    ⊎ (Retries until t × Opens until tries)

abbrev pub AllRetry : ℕ → List Try → Type 0
AllRetry until [] = Unit
AllRetry until (t ∷ tries) = Retries until t × AllRetry until tries

-- What `connect` may come to: it has not returned, or has opened a stream that is live and empty, or
-- failed.
abbrev pub Connects : Text → ℕ → Moment → List Try → Verdict → Type 0
Connects endpoint until m tries none =
    (valid_endpoint endpoint ≡ true) × (InTime until m) × AllRetry until tries
Connects endpoint until m tries (some (ok s)) =
    (valid_endpoint endpoint ≡ true)
    × (InTime until m)
    × Opens until tries
    × IsLive s
    × (undelivered s ≡ [])
Connects endpoint until m tries (some (err error)) =
    (valid_endpoint endpoint ≡ false → error.kind ≡ FailureKind.invalid_configuration)
    × (error.framing ≡ none)

-- What a step behind a failed open may come to: it goes on, or fails.
abbrev Fails : Verdict → Type 0
Fails none = Unit
Fails (some (ok s)) = ⊥
Fails (some (err error)) = error.framing ≡ none

io_failure_unframed : (code : ℕ) → (io_failure code).framing ≡ none
unfolding io_failure
io_failure_unframed code = ground arith

preflight_unframed :
    (until : ℕ) (m : Moment) (error : TransportFailure)
    → preflight until m ≡ some error
    → error.framing ≡ none
unfolding preflight
preflight_unframed until m error e = ground (arith, e)

option-Fails :
    (o : Option ℕ) (f : ℕ → Verdict)
    → ((code : ℕ) → Fails (f code))
    → Fails (elim o [ none ↦ none | some code ↦ f code ])
option-Fails none f h = tt
option-Fails (some code) f h = h code

back_off-Fails : (t : Try) (code : ℕ) → Fails (back_off t code)
unfolding back_off
back_off-Fails t code =
    let failed : Verdict = some (err (io_failure code)) in
    let waits : Verdict = elim t.backed_off [ none ↦ none | some c ↦ some (err (io_failure c)) ] in
    if-Holds Fails
      (not (code == error_file_not_found)
        && not (code == error_sem_timeout)
        && not (code == error_pipe_busy))
      failed (if code == error_file_not_found then waits else none) (io_failure_unframed code)
      (if-Holds Fails (code == error_file_not_found) waits none
        (option-Fails t.backed_off (λ c. some (err (io_failure c))) io_failure_unframed) (tt))

wait_for_pipe-Fails : (until : ℕ) (t : Try) (code : ℕ) → Fails (wait_for_pipe until t code)
unfolding wait_for_pipe
wait_for_pipe-Fails until t code =
    let slice = min (remaining until t.slice_moment) retry_milliseconds in
    let late : Verdict = some (err (transport_failure FailureKind.timeout 0)) in
    let waits : Verdict = elim t.pipe_waited [ none ↦ none | some c ↦ back_off t c ] in
    if-Holds Fails (not (code == error_pipe_busy) && not (code == error_file_not_found))
      (some (err (io_failure code))) (if slice == 0 then late else waits) (io_failure_unframed code)
      (if-Holds Fails (slice == 0) late waits refl
        (option-Fails t.pipe_waited (back_off t) (back_off-Fails t)))

-- The code of `CreateFileW` behind which a try goes on.
back_off_code :
    (until : ℕ) (t : Try) (code : ℕ)
    → wait_for_pipe until t code ≡ none
    → (code ≡ error_pipe_busy) ⊎ (code ≡ error_file_not_found)
unfolding wait_for_pipe
back_off_code until t code e = elim (Bool-cases (code == error_pipe_busy)) [
  | inl busy ↦ inl (ground arith)
  | inr idle ↦ elim (Bool-cases (code == error_file_not_found)) [
    | inl missing ↦ inr (ground arith)
    | inr other ↦ absurd (cc (rw (idle, other) at e))
  ]
]

-- What a try comes to, by whether it goes on, has opened the pipe, or has failed.
abbrev Tried : ℕ → Try → Verdict → Type 0
Tried until t none = Retries until t
Tried until t (some (ok s)) =
    (s ≡ new_stream) × (InTime until t.moment) × (handle : ℕ) × (t.opened ≡ ok handle)
Tried until t (some (err error)) = error.framing ≡ none

waited-Tried :
    (until : ℕ) (t : Try) (code : ℕ) (verdict : Verdict)
    → InTime until t.moment
    → t.opened ≡ err code
    → wait_for_pipe until t code ≡ verdict
    → Tried until t verdict
waited-Tried until t code none k f e = (k, code, f, back_off_code until t code e)
waited-Tried until t code (some (ok s)) k f e = absurd (rw e at (wait_for_pipe-Fails until t code))
waited-Tried until t code (some (err error)) k f e = rw e at (wait_for_pipe-Fails until t code)

try_open-Tried : (until : ℕ) (t : Try) → Tried until t (try_open until t)
unfolding try_open
try_open-Tried until t = elim (Option-cases (preflight until t.moment)) [
  | inr (error, e) ↦
      let late : try_open until t ≡ some (err error) = rw (try_open, e) refl in
      rw late (preflight_unframed until t.moment error e)
  | inl e ↦
      let in_time = preflight-InTime until t.moment e in
      elim (Result-cases t.opened) [
        | inl (code, f) ↦
            let waits : try_open until t ≡ wait_for_pipe until t code = rw (try_open, e, f) refl in
            rw waits (waited-Tried until t code (wait_for_pipe until t code) in_time f refl)
        | inr (handle, f) ↦
            let opens : try_open until t ≡ some (ok new_stream) = rw (try_open, e, f) refl in
            rw opens (refl, in_time, handle, f)
      ]
]

-- The same of the loop.
abbrev Loops : ℕ → List Try → Verdict → Type 0
Loops until tries none = AllRetry until tries
Loops until tries (some (ok s)) = (s ≡ new_stream) × Opens until tries
Loops until tries (some (err error)) = error.framing ≡ none

Tried-Loops :
    (until : ℕ) (t : Try) (tries : List Try) (result : Result TransportFailure StreamState)
    → Tried until t (some result)
    → Loops until (t ∷ tries) (some result)
Tried-Loops until t tries (ok s) (same, in_time, handle, opened) =
    (same, inl (in_time, handle, opened))
Tried-Loops until t tries (err error) k = k

later-Loops :
    (until : ℕ) (t : Try) (tries : List Try) (verdict : Verdict)
    → Retries until t
    → Loops until tries verdict
    → Loops until (t ∷ tries) verdict
later-Loops until t tries none r k = (r, k)
later-Loops until t tries (some (ok s)) r k = (k.0, inr (r, k.1))
later-Loops until t tries (some (err error)) r k = k

connect_loop-Loops : (until : ℕ) (tries : List Try) → Loops until tries (connect_loop until tries)
unfolding connect_loop
connect_loop-Loops until [] = tt
connect_loop-Loops until (t ∷ tries) = elim (Option-cases (try_open until t)) [
  | inl e ↦
      let again : connect_loop until (t ∷ tries) ≡ connect_loop until tries =
        rw (connect_loop, e) refl in
      rw again (
        later-Loops until t tries (connect_loop until tries) (rw e at (try_open-Tried until t))
          (connect_loop-Loops until tries))
  | inr (result, e) ↦
      let ends : connect_loop until (t ∷ tries) ≡ some result = rw (connect_loop, e) refl in
      rw ends (Tried-Loops until t tries result (rw e at (try_open-Tried until t)))
]

Loops-Connects :
    (endpoint : Text) (until : ℕ) (m : Moment) (tries : List Try) (verdict : Verdict)
    → valid_endpoint endpoint ≡ true
    → InTime until m
    → Loops until tries verdict
    → Connects endpoint until m tries verdict
Loops-Connects endpoint until m tries none v t k = (v, t, k)
Loops-Connects endpoint until m tries (some (ok s)) v t k =
    (v, t, k.1, rw k.0 new_stream-IsLive, rw k.0 refl)
Loops-Connects endpoint until m tries (some (err error)) v t k = (λ w. absurd (cc (v, w)), k)

-- `connect` opens a stream only under a valid name, behind a preflight in time, and by a try that
-- was itself in time and not stopped at its preflight, all tries before it in time as well and
-- refused because the pipe was busy or not there; the stream is live, with nothing received. Where
-- it has not returned, every try so far was such a refusal in time, so that a late or stopped round
-- ends it. A name that is not valid is reported as such, untried.
pub connect-Connects :
    (endpoint : Text) (until : ℕ) (m : Moment) (event_error : Option ℕ) (tries : List Try)
    → Connects endpoint until m tries (connect endpoint until m event_error tries)
unfolding connect
connect-Connects endpoint until m event_error tries = elim (Bool-cases (valid_endpoint endpoint)) [
  | inr bad ↦ rw (connect, bad) (λ e. refl, refl)
  | inl good ↦ elim (Option-cases (preflight until m)) [
    | inr (error, e) ↦
        rw (connect, good, e) (λ w. absurd (cc (good, w)), preflight_unframed until m error e)
    | inl e ↦ elim (Option-cases event_error) [
      | inr (code, f) ↦
          rw (connect, good, e, f) (λ w. absurd (cc (good, w)), io_failure_unframed code)
      | inl f ↦
          rw (connect, good, e, f)
            (Loops-Connects endpoint until m tries _ good (preflight-InTime until m e)
              (connect_loop-Loops until tries))
    ]
  ]
]
