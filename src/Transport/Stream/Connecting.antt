-- ===== src/Transport/Stream/Connecting.antt =====
-- src/transport/windows/stream.cpp, `pipe_stream::connect`: the loop over its tries to open the pipe.
-- The loop has not returned, `none`, where the answers to the tries end before it does.
use stream_labs_test_assingm.Base.{
  ℕ, refl, ◌&&◌, not, Option, none, some, List, [], ◌∷◌, ◌==◌, if◌then◌else◌, min, length-replicate,
  arith,
}
use stream_labs_test_assingm.Base.Text.{Text}
use stream_labs_test_assingm.Base.Result.{Result, ok, err}
use stream_labs_test_assingm.Completion.{FailureKind, TransportFailure, valid_endpoint}
use stream_labs_test_assingm.Transport.Native.{
  buffer_bytes, Moment, preflight, remaining, io_failure, transport_failure, error_pipe_busy,
  error_file_not_found, error_sem_timeout,
}
use stream_labs_test_assingm.Transport.Stream.{StreamState, new_stream}
use stream_labs_test_assingm.Transport.Stream.Receiving.{IsLive}

abbrev pub retry_milliseconds : ℕ
retry_milliseconds = 50

-- What a try is answered: the moments of its preflight and of its slice, `CreateFileW`,
-- `WaitNamedPipeW`, and `WaitForSingleObject`. A call that fails gives its `GetLastError()`.
pub record Try : Type 0 where
  pub moment : Moment
  pub opened : Result ℕ ℕ
  pub slice_moment : Moment
  pub pipe_waited : Option ℕ
  pub backed_off : Option ℕ

-- `none` where the loop goes on.
abbrev pub Verdict : Type 0
Verdict = Option (Result TransportFailure StreamState)

-- From the failure of `WaitNamedPipeW` on.
unfoldable pub back_off : Try → ℕ → Verdict
back_off t wait_error =
    if not (wait_error == error_file_not_found)
      && not (wait_error == error_sem_timeout)
      && not (wait_error == error_pipe_busy)
    then some (err (io_failure wait_error))
    else if wait_error == error_file_not_found
    then elim t.backed_off [ none ↦ none | some code ↦ some (err (io_failure code)) ]
    else none

-- From the failure of `CreateFileW` on.
unfoldable pub wait_for_pipe : ℕ → Try → ℕ → Verdict
unfolding back_off
wait_for_pipe until t code =
    let slice = min (remaining until t.slice_moment) retry_milliseconds in
    if not (code == error_pipe_busy) && not (code == error_file_not_found)
    then some (err (io_failure code))
    else if slice == 0
    then some (err (transport_failure FailureKind.timeout 0))
    else elim t.pipe_waited [ none ↦ none | some wait_error ↦ back_off t wait_error ]

unfoldable pub try_open : ℕ → Try → Verdict
unfolding wait_for_pipe
try_open until t = elim (preflight until t.moment) [
  | some error ↦ some (err error)
  | none ↦ elim t.opened [
    | ok handle ↦ some (ok new_stream)
    | err code ↦ wait_for_pipe until t code
  ]
]

unfoldable pub connect_loop : ℕ → List Try → Verdict
unfolding try_open
connect_loop until [] = none
connect_loop until (t ∷ tries) =
    let later = connect_loop until tries in
    elim (try_open until t) [ none ↦ later | some result ↦ some result ]

-- `event_error` is the error of creating the event, if that fails.
unfoldable pub connect : Text → ℕ → Moment → Option ℕ → List Try → Verdict
unfolding connect_loop
connect endpoint until m event_error tries =
    if not (valid_endpoint endpoint)
    then some (err (transport_failure FailureKind.invalid_configuration 0))
    else elim (preflight until m) [
      | some error ↦ some (err error)
      | none ↦ elim event_error [
        | some code ↦ some (err (io_failure code))
        | none ↦ connect_loop until tries
      ]
    ]

pub new_stream-IsLive : IsLive new_stream
new_stream-IsLive = record {
  alive = refl;
  sound = record {
    live = refl;
    whole_header = refl;
    used_bound = omega arith;
    payload_fits = (refl, refl);
  };
  ordered = omega arith;
  within = omega arith;
  whole_buffer = length-replicate {A = ℕ} buffer_bytes 0;
}
