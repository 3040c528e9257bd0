-- ===== src/Transport/Native/Pending.antt =====
-- src/transport/windows/native.cpp, `accept`, `read_some` and `write_some`: an operation that the
-- system left pending is over when the call returns.
use stream_labs_test_assingm.Base.{
  ℕ, ◌≡◌, ◌≢◌, ◌⊎◌, inl, inr, refl, min, Bool, true, false, ◌||◌, not, List, [], ◌∷◌, ◌==◌, arith,
  Bool-cases, Option-cases, append-nil, ap, ◌∙◌,
}
use stream_labs_test_assingm.Base.Result.{Result, ok, err, Result-cases}
use stream_labs_test_assingm.Completion.{
  resolve_pending, waited, cancel_requested, completion_observed,
}
use stream_labs_test_assingm.Completion.Laws.{resolve_pending-calls}
use stream_labs_test_assingm.Transport.Native.{
  Attempt, NativeCall, issue, wait_for_events, cancel_io, get_overlapped_result, complete_calls,
  native_calls, all_calls, backend, resolve_issued, accept_issued, accept, transfer_issued,
  read_some, write_some, buffer_bytes, error_io_incomplete, error_io_pending, error_pipe_connected,
  preflight, setup_error,
}

-- The answer that says that the operation is still running.
abbrev pub is_incomplete : Result ℕ ℕ → Bool
is_incomplete (ok transferred) = false
is_incomplete (err code) = code == error_io_incomplete

-- The last call has seen the operation's end: it waited for it, or it was not told to come back.
abbrev pub last_settles : Attempt → List NativeCall → Bool
last_settles a [] = false
last_settles a (get_overlapped_result waits ∷ []) =
    waits || not (is_incomplete (a.overlapped_result waits))
last_settles a (call ∷ []) = false
last_settles a (call ∷ next ∷ calls) = last_settles a (next ∷ calls)

-- What is left of an operation issued for `size` bytes, by its calls: it was not issued, or it was
-- answered at once, or it was pending and its end was seen.
abbrev pub IsReleased : ℕ → Attempt → List NativeCall → Type 0
IsReleased size a calls =
    (calls ≡ [])
    ⊎ (((calls ≡ issue ∷ []) × (a.issued size ≢ err error_io_pending))
        ⊎ ((a.issued size ≡ err error_io_pending) × (last_settles a calls ≡ true)))

or_true : (b : Bool) → (b || true) ≡ true
or_true true = refl
or_true false = refl

complete_calls_settle :
    (a : Attempt) (waits : Bool) → last_settles a (complete_calls a waits) ≡ true
unfolding complete_calls
complete_calls_settle a waits = elim (Result-cases (a.overlapped_result waits)) [
  | inl (code, e) ↦ elim (Bool-cases (code == error_io_incomplete)) [
    | inl again ↦ rw (complete_calls, e, again) refl
    | inr other ↦ rw (complete_calls, e, other, e, other) (or_true waits)
  ]
  | inr (n, e) ↦ rw (complete_calls, e, e) (or_true waits)
]

-- Calls before the last ones do not matter.
settles_after :
    (a : Attempt) (call : NativeCall) (calls : List NativeCall)
    → last_settles a calls ≡ true
    → last_settles a (call ∷ calls) ≡ true
settles_after a call [] h = absurd (cc h)
settles_after a issue (next ∷ calls) h = h
settles_after a wait_for_events (next ∷ calls) h = h
settles_after a cancel_io (next ∷ calls) h = h
settles_after a (get_overlapped_result w) (next ∷ calls) h = h

drained_settle :
    (a : Attempt)
    → ((resolve_pending (backend a)).0 ≡ waited ∷ completion_observed false ∷ [])
      ⊎ ((resolve_pending (backend a)).0
          ≡ waited ∷ cancel_requested ∷ completion_observed true ∷ [])
    → last_settles a (issue ∷ all_calls a (resolve_pending (backend a)).0) ≡ true
unfolding all_calls native_calls
drained_settle a (inl e) =
    rw (e, append-nil (complete_calls a false))
      (settles_after a issue (wait_for_events ∷ complete_calls a false)
        (settles_after a wait_for_events (complete_calls a false) (complete_calls_settle a false)))
drained_settle a (inr e) =
    rw (e, append-nil (complete_calls a true))
      (settles_after a issue (wait_for_events ∷ cancel_io ∷ complete_calls a true) (
        settles_after a wait_for_events (cancel_io ∷ complete_calls a true)
          (settles_after a cancel_io (complete_calls a true) (complete_calls_settle a true))))

resolve_issued-IsReleased :
    (size : ℕ) (a : Attempt) (code : ℕ)
    → a.issued size ≡ err code
    → IsReleased size a (resolve_issued a code).0
unfolding resolve_issued
resolve_issued-IsReleased size a code e = elim (Bool-cases (code == error_io_pending)) [
  | inl pends ↦
      let same : code ≡ error_io_pending = ground arith in
      rw pends (inr (inr (e ∙ ap err same, drained_settle a (resolve_pending-calls (backend a)))))
  | inr other ↦ rw other (inr (inl (refl, λ p. absurd (ground (arith, e, p)))))
]

transfer_issued-IsReleased :
    (size : ℕ) (a : Attempt) → IsReleased (min size buffer_bytes) a (transfer_issued size a).0
unfolding transfer_issued
transfer_issued-IsReleased size a = elim (Result-cases (a.issued (min size buffer_bytes))) [
  | inl (code, e) ↦
      let t : transfer_issued size a ≡ resolve_issued a code = rw (transfer_issued, e) refl in
      rw t (resolve_issued-IsReleased (min size buffer_bytes) a code e)
  | inr (n, e) ↦ rw (transfer_issued, e) (inr (inl (refl, λ p. absurd (cc p))))
]

accept_issued-IsReleased : (a : Attempt) → IsReleased 0 a (accept_issued a).0
unfolding accept_issued
accept_issued-IsReleased a = elim (Result-cases (a.issued 0)) [
  | inl (code, e) ↦ elim (Bool-cases (code == error_pipe_connected)) [
    | inl there ↦
        rw (accept_issued, e, there) (inr (inl (refl, λ p. absurd (ground (arith, e, p)))))
    | inr other ↦
        let t : accept_issued a ≡ resolve_issued a code = rw (accept_issued, e, other) refl in
        rw t (resolve_issued-IsReleased 0 a code e)
  ]
  | inr (n, e) ↦ rw (accept_issued, e) (inr (inl (refl, λ p. absurd (cc p))))
]

-- Whatever the system answers, a read, a write and an accept leave no operation behind: each ends
-- before it issues one, or the system completed it at once, or the last call has seen the end of
-- the operation that was pending.
pub transfers-IsReleased :
    (size until : ℕ) (a : Attempt)
    → IsReleased (min size buffer_bytes) a (read_some size until a).0
      × IsReleased (min size buffer_bytes) a (write_some size until a).0
      × IsReleased 0 a (accept until a).0
unfolding read_some write_some accept
transfers-IsReleased size until a = elim (Option-cases (preflight until a.moment)) [
  | inl early ↦
      rw (read_some, write_some, accept, early)
        (elim (Option-cases (setup_error a)) [
          | inl set ↦ rw set (
            transfer_issued-IsReleased size a,
            transfer_issued-IsReleased size a,
            accept_issued-IsReleased a,
          )
          | inr (error, set) ↦ rw set (inl refl, inl refl, inl refl)
        ])
  | inr (error, early) ↦ rw (read_some, write_some, accept, early) (inl refl, inl refl, inl refl)
]
