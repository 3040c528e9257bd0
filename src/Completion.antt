-- ===== src/Completion.antt =====
-- src/transport/completion.cpp and src/transport/completion.hpp: the names of endpoints, and the end
-- of an overlapped operation whose completion may race its cancellation.
pub mod Laws
use stream_labs_test_assingm.Base.{
  ℕ, Bool, true, false, ◌&&◌, ◌||◌, not, Option, none, List, [], ◌∷◌, ltb, leb, ◌==◌, if◌then◌else◌,
  length, drop,
}
use stream_labs_test_assingm.Base.Text.{Text, codes}
use stream_labs_test_assingm.Base.Result.{Result, ok, err, all_of}
use stream_labs_test_assingm.Contracts.{Failure}

pub data FailureKind : Type 0 where
  invalid_configuration timeout cancelled disconnected access_denied : FailureKind
  io_failure protocol_violation : FailureKind

-- `transport::failure`
pub record TransportFailure : Type 0 where
  pub kind : FailureKind
  pub native_error : ℕ
  pub framing : Option Failure

-- A wide string is its code units.
unfoldable pub starts_with : Text → Text → Bool
starts_with name [] = true
starts_with [] (p ∷ prefix) = false
starts_with (c ∷ name) (p ∷ prefix) = c == p && starts_with name prefix

abbrev pub endpoint_prefix : Text
endpoint_prefix = codes "\\\\.\\pipe\\"

unfoldable pub endpoint_character : ℕ → Bool
endpoint_character c =
    (leb b'a' c && leb c b'z')
    || (leb b'A' c && leb c b'Z')
    || (leb b'0' c && leb c b'9')
    || c == b'_'
    || c == b'-'
    || c == b'.'

unfoldable pub valid_endpoint : Text → Bool
unfolding starts_with endpoint_character
valid_endpoint name =
    if not (starts_with name endpoint_prefix)
      || leb (length name) (length endpoint_prefix)
      || ltb 240 (length name)
    then false
    else all_of endpoint_character (drop (length endpoint_prefix) name)

pub data WakeReason : Type 0 where
  completed expired stopped failed : WakeReason

pub record WakeResult : Type 0 where
  pub reason : WakeReason
  pub native_error : ℕ

-- The answers of a `completion_backend`, the native operation, and the calls made of it.
pub record CompletionBackend : Type 0 where
  pub wait : WakeResult
  pub cancel : ℕ
  pub complete : Bool → Result TransportFailure ℕ

pub data BackendCall : Type 0 where
  waited cancel_requested : BackendCall
  completion_observed : Bool → BackendCall

-- `native_error` of the drained result, or else that of the cancellation.
unfoldable pub drained_error : ℕ → Result TransportFailure ℕ → ℕ
drained_error cancellation_error (ok count) = cancellation_error
drained_error cancellation_error (err e) = e.native_error

unfoldable pub interrupted : WakeReason → FailureKind
interrupted WakeReason.expired = timeout
interrupted WakeReason.stopped = cancelled
interrupted _ = io_failure

unfoldable pub interruption_error : WakeResult → ℕ → Result TransportFailure ℕ → ℕ
unfolding drained_error
interruption_error wake cancellation_error drained = elim wake.reason [
  | WakeReason.failed ↦ wake.native_error
  | _ ↦ drained_error cancellation_error drained
]

-- The calls in their order, and the result.
unfoldable pub resolve_pending : CompletionBackend → List BackendCall × Result TransportFailure ℕ
unfolding interrupted interruption_error
resolve_pending operation = elim operation.wait.reason [
  | WakeReason.completed ↦ (waited ∷ completion_observed false ∷ [], operation.complete false)
  | reason ↦ (
    waited ∷ cancel_requested ∷ completion_observed true ∷ [],
    err (record {
      kind = interrupted operation.wait.reason;
      native_error = interruption_error operation.wait operation.cancel (operation.complete true);
      framing = none;
    }),
  )
]
