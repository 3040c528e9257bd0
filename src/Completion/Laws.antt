-- ===== src/Completion/Laws.antt =====
-- src/transport/completion.cpp, `resolve_pending`: an operation is never left behind.
use stream_labs_test_assingm.Base.{
  ℕ, ◌≡◌, ◌≢◌, refl, Bool, true, false, List, [], ◌∷◌, ◌⊎◌, inl, inr, none,
}
use stream_labs_test_assingm.Base.Result.{Result, ok, err, Result-cases}
use stream_labs_test_assingm.Completion.{
  CompletionBackend, BackendCall, completion_observed, cancel_requested, waited, WakeReason,
  resolve_pending, FailureKind, TransportFailure, interrupted, interruption_error, drained_error,
}

-- The code of an interruption whose wait has not failed itself: that of the completion that was
-- drained, if it is an error, and else that of the request to cancel.
abbrev pub IsDrainedCode : CompletionBackend → ℕ → Type 0
IsDrainedCode b code =
    ((e : TransportFailure) × (b.complete true ≡ err e) × (code ≡ e.native_error))
    ⊎ ((count : ℕ) × (b.complete true ≡ ok count) × (code ≡ b.cancel))

abbrev pub Reports : FailureKind → (ℕ → Type 0) → Result TransportFailure ℕ → Type 0
Reports kind IsCode result =
    (code : ℕ) × (result ≡ err (record { kind = kind; native_error = code; framing = none }))
    × IsCode code

-- What the calls of the operation and the result must be.
pub record Drains (b : CompletionBackend) (calls : List BackendCall)
    (result : Result TransportFailure ℕ) : Type 0 where
  pub at_once :
      b.wait.reason ≡ WakeReason.completed → calls ≡ waited ∷ completion_observed false ∷ []
  pub drained :
      b.wait.reason ≢ WakeReason.completed
      → calls ≡ waited ∷ cancel_requested ∷ completion_observed true ∷ []
  pub handed_on : b.wait.reason ≡ WakeReason.completed → result ≡ b.complete false
  pub succeeded :
      (count : ℕ)
      → result ≡ ok count
      → (b.wait.reason ≡ WakeReason.completed) × (b.complete false ≡ ok count)
  pub expired :
      b.wait.reason ≡ WakeReason.expired → Reports FailureKind.timeout (IsDrainedCode b) result
  pub stopped :
      b.wait.reason ≡ WakeReason.stopped → Reports FailureKind.cancelled (IsDrainedCode b) result
  pub failed :
      b.wait.reason ≡ WakeReason.failed
      → Reports FailureKind.io_failure (λ code. code ≡ b.wait.native_error) result

drained_error-IsDrainedCode :
    (b : CompletionBackend) → IsDrainedCode b (drained_error b.cancel (b.complete true))
unfolding drained_error
drained_error-IsDrainedCode b = elim (Result-cases (b.complete true)) [
  | inl (e, h) ↦ inl (e, h, rw (drained_error, h) refl)
  | inr (count, h) ↦ inr (count, h, rw (drained_error, h) refl)
]

outcome-Drains :
    (r : WakeReason) (n c : ℕ) (f : Bool → Result TransportFailure ℕ)
    → let b : CompletionBackend = record {
      wait = record { reason = r; native_error = n };
      cancel = c;
      complete = f;
    } in
      Drains b (resolve_pending b).0 (resolve_pending b).1
unfolding resolve_pending interrupted interruption_error
outcome-Drains WakeReason.completed n c f = record {
  at_once = λ e. refl;
  drained = λ e. absurd (e refl);
  handed_on = λ e. refl;
  succeeded = λ count e. (refl, e);
  expired = λ e. absurd (cc e);
  stopped = λ e. absurd (cc e);
  failed = λ e. absurd (cc e);
}
outcome-Drains WakeReason.expired n c f =
    let b : CompletionBackend = record {
      wait = record { reason = WakeReason.expired; native_error = n };
      cancel = c;
      complete = f;
    } in
    record {
      at_once = λ e. absurd (cc e);
      drained = λ e. refl;
      handed_on = λ e. absurd (cc e);
      succeeded = λ count e. absurd (cc e);
      expired = λ e. (drained_error c (f true), refl, drained_error-IsDrainedCode b);
      stopped = λ e. absurd (cc e);
      failed = λ e. absurd (cc e);
    }
outcome-Drains WakeReason.stopped n c f =
    let b : CompletionBackend = record {
      wait = record { reason = WakeReason.stopped; native_error = n };
      cancel = c;
      complete = f;
    } in
    record {
      at_once = λ e. absurd (cc e);
      drained = λ e. refl;
      handed_on = λ e. absurd (cc e);
      succeeded = λ count e. absurd (cc e);
      expired = λ e. absurd (cc e);
      stopped = λ e. (drained_error c (f true), refl, drained_error-IsDrainedCode b);
      failed = λ e. absurd (cc e);
    }
outcome-Drains WakeReason.failed n c f = record {
  at_once = λ e. absurd (cc e);
  drained = λ e. refl;
  handed_on = λ e. absurd (cc e);
  succeeded = λ count e. absurd (cc e);
  expired = λ e. absurd (cc e);
  stopped = λ e. absurd (cc e);
  failed = λ e. (n, refl, refl);
}

completed_or_not : (r : WakeReason) → (r ≡ WakeReason.completed) ⊎ (r ≢ WakeReason.completed)
completed_or_not WakeReason.completed = inl refl
completed_or_not WakeReason.expired = inr (λ e. absurd (cc e))
completed_or_not WakeReason.stopped = inr (λ e. absurd (cc e))
completed_or_not WakeReason.failed = inr (λ e. absurd (cc e))

-- The last call that `resolve_pending` makes of the operation observes its completion, and it
-- cancels the operation unless the wait saw it complete. It succeeds only if the wait saw that, and
-- then as the operation did, so an operation that completed behind an interruption is reported as
-- interrupted all the same: a deadline as a timeout, a stop as a cancellation, a wait that failed
-- as a failure of I/O with the wait's code. The code of the first two is that of the drained
-- completion, if it is an error, and else that of the request to cancel.
pub resolve_pending-Drains :
    (b : CompletionBackend) → Drains b (resolve_pending b).0 (resolve_pending b).1
resolve_pending-Drains b = outcome-Drains b.wait.reason b.wait.native_error b.cancel b.complete

-- The calls alone.
pub resolve_pending-calls :
    (b : CompletionBackend)
    → ((resolve_pending b).0 ≡ waited ∷ completion_observed false ∷ [])
      ⊎ ((resolve_pending b).0 ≡ waited ∷ cancel_requested ∷ completion_observed true ∷ [])
resolve_pending-calls b = elim (completed_or_not b.wait.reason) [
  | inl completed ↦ inl ((resolve_pending-Drains b).at_once completed)
  | inr interrupted ↦ inr ((resolve_pending-Drains b).drained interrupted)
]
