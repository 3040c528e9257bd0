-- ===== src/Transport/Native.antt =====
-- src/transport/windows/native.cpp: what a call of the system is answered, and what the code makes
-- of the answers. The error numbers are those that the system's headers document.
pub mod Pending
use stream_labs_test_assingm.Base.{
  ℕ, ◌+◌, ◌-◌, ◌*◌, ◌/◌, ◌^◌, min, Bool, true, false, ◌&&◌, ◌||◌, not, Option, none, some, List, [],
  ◌∷◌, ◌++◌, ltb, leb, ◌==◌, if◌then◌else◌,
}
use stream_labs_test_assingm.Base.Result.{Result, ok, err}
use stream_labs_test_assingm.Completion.{
  FailureKind, TransportFailure, WakeReason, WakeResult, CompletionBackend, BackendCall,
  completion_observed, waited, cancel_requested, resolve_pending,
}

abbrev pub buffer_bytes : ℕ
buffer_bytes = 16384

abbrev pub error_success : ℕ
error_success = 0

abbrev pub error_file_not_found : ℕ
error_file_not_found = 2

abbrev pub error_access_denied : ℕ
error_access_denied = 5

abbrev pub error_broken_pipe : ℕ
error_broken_pipe = 109

abbrev pub error_sem_timeout : ℕ
error_sem_timeout = 121

abbrev pub error_pipe_busy : ℕ
error_pipe_busy = 231

abbrev pub error_no_data : ℕ
error_no_data = 232

abbrev pub error_pipe_not_connected : ℕ
error_pipe_not_connected = 233

abbrev pub error_pipe_connected : ℕ
error_pipe_connected = 535

abbrev pub error_operation_aborted : ℕ
error_operation_aborted = 995

abbrev pub error_io_incomplete : ℕ
error_io_incomplete = 996

abbrev pub error_io_pending : ℕ
error_io_pending = 997

-- `failure{kind, native_error}`
abbrev pub transport_failure : FailureKind → ℕ → TransportFailure
transport_failure kind code = record { kind = kind; native_error = code; framing = none }

unfoldable pub io_failure : ℕ → TransportFailure
io_failure code =
    if code == error_broken_pipe || code == error_pipe_not_connected || code == error_no_data
    then transport_failure FailureKind.disconnected code
    else if code == error_access_denied
    then transport_failure FailureKind.access_denied code
    else if code == error_operation_aborted
    then transport_failure FailureKind.cancelled code
    else transport_failure FailureKind.io_failure code

-- What a call reads of the clock, in its ticks of a nanosecond, and of the stop token.
pub record Moment : Type 0 where
  pub now : ℕ
  pub stopping : Bool

-- `deadline::max()`
abbrev pub deadline_max : ℕ
deadline_max = 2 ^ 63 - 1

abbrev pub infinite : ℕ
infinite = 2 ^ 32 - 1

-- The milliseconds of a wait. A deadline that is past leaves none.
unfoldable pub remaining : ℕ → Moment → ℕ
remaining until m =
    if until == deadline_max
    then infinite
    else if leb until m.now
    then 0
    else min ((until - m.now + 999999) / 1000000) (infinite - 1)

unfoldable pub preflight : ℕ → Moment → Option TransportFailure
preflight until m =
    if m.stopping
    then some (transport_failure FailureKind.cancelled 0)
    else if leb until m.now
    then some (transport_failure FailureKind.timeout 0)
    else none

-- What the system answers in one overlapped operation: `GetLastError()` where a call fails.
pub record Attempt : Type 0 where
  pub moment : Moment
  pub completed_event : Option ℕ
  pub cancelled_event : Option ℕ
  pub issued : ℕ → Result ℕ ℕ
  pub signalled : ℕ
  pub wait_error : ℕ
  pub cancel_error : Option ℕ
  pub overlapped_result : Bool → Result ℕ ℕ

pub data NativeCall : Type 0 where
  issue wait_for_events cancel_io : NativeCall
  get_overlapped_result : Bool → NativeCall

-- The constructor of `overlapped_operation`: the number left in `setup_error_`.
unfoldable pub setup_code : Attempt → ℕ
setup_code a = elim a.completed_event [
  | some code ↦ code
  | none ↦ elim a.cancelled_event [ some code ↦ code | none ↦ error_success ]
]

unfoldable pub setup_error : Attempt → Option TransportFailure
unfolding setup_code
setup_error a = if setup_code a == error_success then none else some (io_failure (setup_code a))

unfoldable pub wait : Attempt → WakeResult
wait a =
    if a.signalled == 0
    then record { reason = WakeReason.completed; native_error = 0 }
    else if a.signalled == 1
    then record { reason = WakeReason.stopped; native_error = 0 }
    else if a.signalled == 258
    then record { reason = WakeReason.expired; native_error = 0 }
    else record { reason = WakeReason.failed; native_error = a.wait_error }

unfoldable pub cancel : Attempt → ℕ
cancel a = elim a.cancel_error [ none ↦ error_success | some code ↦ code ]

unfoldable pub complete : Attempt → Bool → Result TransportFailure ℕ
complete a waits = elim (a.overlapped_result waits) [
  | ok transferred ↦ ok transferred
  | err code ↦ err (io_failure code)
]

-- The calls that `complete` makes: an operation that is incomplete is cancelled and waited for.
unfoldable pub complete_calls : Attempt → Bool → List NativeCall
complete_calls a waits = elim (a.overlapped_result waits) [
  | ok transferred ↦ get_overlapped_result waits ∷ []
  | err code ↦
      if code == error_io_incomplete
      then get_overlapped_result waits ∷ cancel_io ∷ get_overlapped_result true ∷ []
      else get_overlapped_result waits ∷ []
]

-- `overlapped_operation` as the `completion_backend` of `resolve_pending`.
abbrev pub backend : Attempt → CompletionBackend
backend a = record { wait = wait a; cancel = cancel a; complete = complete a }

unfoldable pub native_calls : Attempt → BackendCall → List NativeCall
unfolding complete_calls
native_calls a waited = wait_for_events ∷ []
native_calls a cancel_requested = cancel_io ∷ []
native_calls a (completion_observed waits) = complete_calls a waits

unfoldable pub all_calls : Attempt → List BackendCall → List NativeCall
unfolding native_calls
all_calls a [] = []
all_calls a (c ∷ calls) = native_calls a c ++ all_calls a calls

-- From the call that issues the operation on, once it has failed with `code`.
unfoldable pub resolve_issued : Attempt → ℕ → List NativeCall × Result TransportFailure ℕ
resolve_issued a code =
    if not (code == error_io_pending)
    then (issue ∷ [], err (io_failure code))
    else (issue ∷ all_calls a (resolve_pending (backend a)).0, (resolve_pending (backend a)).1)

unfoldable pub accept_issued : Attempt → List NativeCall × Result TransportFailure ℕ
unfolding resolve_issued
accept_issued a = elim (a.issued 0) [
  | ok connected ↦ (issue ∷ [], ok 0)
  | err code ↦ if code == error_pipe_connected then (issue ∷ [], ok 0) else resolve_issued a code
]

unfoldable pub accept : ℕ → Attempt → List NativeCall × Result TransportFailure ℕ
unfolding accept_issued
accept until a = elim (preflight until a.moment) [
  | some error ↦ ([], err error)
  | none ↦ elim (setup_error a) [ some error ↦ ([], err error) | none ↦ accept_issued a ]
]

unfoldable pub transfer_issued : ℕ → Attempt → List NativeCall × Result TransportFailure ℕ
unfolding resolve_issued
transfer_issued size a = elim (a.issued (min size buffer_bytes)) [
  | ok transferred ↦ (issue ∷ [], ok transferred)
  | err code ↦ resolve_issued a code
]

-- `read_some` by the size of its buffer.
unfoldable pub read_some : ℕ → ℕ → Attempt → List NativeCall × Result TransportFailure ℕ
unfolding transfer_issued
read_some size until a = elim (preflight until a.moment) [
  | some error ↦ ([], err error)
  | none ↦ elim (setup_error a) [ some error ↦ ([], err error) | none ↦ transfer_issued size a ]
]

-- `write_some` by the size of its buffer.
unfoldable pub write_some : ℕ → ℕ → Attempt → List NativeCall × Result TransportFailure ℕ
unfolding transfer_issued
write_some size until a = elim (preflight until a.moment) [
  | some error ↦ ([], err error)
  | none ↦ elim (setup_error a) [ some error ↦ ([], err error) | none ↦ transfer_issued size a ]
]
