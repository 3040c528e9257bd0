-- ===== src/Client/Holding.antt =====
-- src/client/client.cpp, `connection_state`: the sections that open and close a connection keep the
-- invariant.
use stream_labs_test_assingm.Base.{
  ℕ, Bool, true, false, ◌||◌, not, Option, some, none, List, [], ◌∷◌, ◌++◌, leb, inl, inr,
  Bool-cases, if◌then◌else◌,
}
use stream_labs_test_assingm.Base.Text.{Text}
use stream_labs_test_assingm.Base.Result.{Result, ok, err}
use stream_labs_test_assingm.Completion.{TransportFailure, valid_endpoint}
use stream_labs_test_assingm.Client.Matching.{
  ClientFailure, local_failure, internal_failure, cancelled, timeout, ClientFailureKind, translate,
  transport_failure,
}
use stream_labs_test_assingm.Client.State.{
  Connection, Moment, Call, is_over, over_cause, fail_locked, fail_all,
}
use stream_labs_test_assingm.Client.Calls.{connect_async, begin_threads}
use stream_labs_test_assingm.Client.Workers.{finish_open}
use stream_labs_test_assingm.Client.Invariant.{
  ClientInv, fail_locked-Inv, fail_locked_closed, fail_locked_open,
}
use stream_labs_test_assingm.Client.Settlement.{Flying}

-- The invariant of a connection, with the call that the writer sends.
abbrev pub Holds : Option Call → Connection → Type 0
Holds sending s = ClientInv s × Flying sending s

pub fail_locked-Holds :
    (sending : Option Call) (common specific : ClientFailure) (k : ℕ) (s : Connection)
    → Holds sending s
    → Holds sending (fail_locked common k specific s)
fail_locked-Holds sending common specific k s h =
    (fail_locked-Inv common specific k s h.0, still sending h.1)
  where
    still : (c : Option Call) → Flying c s → Flying c (fail_locked common k specific s)
    still none f = tt
    still (some call) f = elim (Bool-cases s.closed) [
      | inl shut ↦ rw (fail_locked_closed common specific k s shut) f
      | inr live ↦ rw (fail_locked_open common specific k s live) (tt, f.1)
    ]

-- Of the flags of a connection the invariant reads none but `closed`.
pub relabelled-Holds :
    (sending : Option Call) (started connected done stop : Bool)
    (opened : List (Result ClientFailure (Unit {0}))) (s : Connection)
    → Holds sending s
    → Holds sending (record s {
      started = started;
      connected = connected;
      opening_done = done;
      stop_requested = stop;
      opened = opened;
    })
relabelled-Holds sending started connected done stop opened s h = (
  record {
    positive = h.0.positive;
    word = h.0.word;
    ascending = h.0.ascending;
    below = h.0.below;
    bounded = h.0.bounded;
    queue_pending = h.0.queue_pending;
    once = h.0.once;
    drained = h.0.drained;
  },
  still sending h.1,
)
  where
    still :
        (c : Option Call)
        → Flying c s
        → Flying c (record s {
          started = started;
          connected = connected;
          opening_done = done;
          stop_requested = stop;
          opened = opened;
        })
    still none f = tt
    still (some call) f = f

pub if-Holds :
    (sending : Option Call) (b : Bool) (x y : Connection)
    → Holds sending x
    → Holds sending y
    → Holds sending (if b then x else y)
if-Holds sending true x y h k = h
if-Holds sending false x y h k = k

if_first-Holds :
    {A : Type 0} (sending : Option Call) (b : Bool) (x y : Connection × A)
    → Holds sending x.0
    → Holds sending y.0
    → Holds sending (if b then x else y).0
if_first-Holds sending true x y h k = h
if_first-Holds sending false x y h k = k

begin_threads-Holds :
    (sending : Option Call) (threads : Option ℕ) (s : Connection)
    → Holds sending s
    → Holds sending (begin_threads threads s)
unfolding begin_threads
begin_threads-Holds sending none s h = h
begin_threads-Holds sending (some code) s h =
    fail_locked-Holds sending (record { kind = internal_failure; native_error = code })
      (local_failure transport_failure) 0 s h

pub connect_async-Holds :
    (sending : Option Call) (callable : Bool) (threads : Option ℕ) (moment : Moment)
    (endpoint : Text) (deadline stop : ℕ) (s : Connection)
    → Holds sending s
    → Holds sending (connect_async callable threads moment endpoint deadline stop s).0
unfolding connect_async
connect_async-Holds sending callable threads moment endpoint deadline stop s h =
    let begun =
      relabelled-Holds sending true s.connected s.opening_done s.stop_requested s.opened s h in
    let failing = λ (c : ClientFailure).
      fail_locked-Holds sending c (local_failure transport_failure) 0 (record s { started = true })
        begun in
    if_first-Holds sending (s.started || s.closed || not callable || not (valid_endpoint endpoint))
      _ _ h
      (if_first-Holds sending (is_over moment stop deadline) _ _ (failing (over_cause moment stop))
        (begin_threads-Holds sending threads _ begun))

pub fail_all-Holds :
    (sending : Option Call) (kind : ClientFailureKind) (s : Connection)
    → Holds sending s
    → Holds sending (fail_all kind s)
fail_all-Holds sending kind s h =
    fail_locked-Holds sending (local_failure kind) (local_failure transport_failure) 0 s h

pub finish_open-Holds :
    (sending : Option Call) (moment : Moment) (deadline : ℕ) (answer : Result TransportFailure Bool)
    (s : Connection)
    → Holds sending s
    → Holds sending (finish_open moment deadline answer s)
unfolding finish_open
finish_open-Holds sending moment deadline (err e) s h =
    fail_locked-Holds sending (translate e) (local_failure transport_failure) 0 s h
finish_open-Holds sending moment deadline (ok has_channel) s h = if-Holds sending s.closed _ _ h (
    if-Holds sending (not has_channel) _ _ (fail_all-Holds sending internal_failure s h) (
      if-Holds sending s.stop_requested _ _ (fail_all-Holds sending cancelled s h) (
        if-Holds sending (leb deadline moment.now) _ _ (fail_all-Holds sending timeout s h) (
          relabelled-Holds sending s.started true true s.stop_requested (s.opened ++ ok tt ∷ []) s
            h))))
