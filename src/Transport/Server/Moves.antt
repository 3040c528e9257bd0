-- ===== src/Transport/Server/Moves.antt =====
-- src/transport/windows/server.cpp: what a step of a worker does to its session and to the shared ids.
use stream_labs_test_assingm.Base.{
  ℕ, ◌+◌, ◌^◌, ◌≤◌, ◌<◌, ◌≡◌, ◌⊎◌, inl, inr, refl, ap, Bool, ◌||◌, Option, none, some, ◌==◌, arith,
  if-Holds,
}
use stream_labs_test_assingm.Base.Result.{Result-cases}
use stream_labs_test_assingm.Base.Word.{add64_exact, sub64_exact}
use stream_labs_test_assingm.Validation.{Utf8}
use stream_labs_test_assingm.SortedMap.{find}
use stream_labs_test_assingm.Objects.{ObjectClass}
use stream_labs_test_assingm.Identifiers.{IdentifierSource, IsWord, horizon}
use stream_labs_test_assingm.Store.State.{SessionStore, new_store}
use stream_labs_test_assingm.Store.Invariant.{Inv}
use stream_labs_test_assingm.Store.Preservation.{new_store-Inv}
use stream_labs_test_assingm.Store.Sharing.{Lacks}
use stream_labs_test_assingm.Codec.Wire.{WireOperation, WireOutcome}
use stream_labs_test_assingm.Codec.Envelope.{Protobuf}
use stream_labs_test_assingm.Completion.{TransportFailure}
use stream_labs_test_assingm.Transport.Native.{
  Attempt, deadline_max, accept, error_pipe_not_connected,
}
use stream_labs_test_assingm.Transport.Stream.{StreamState}
use stream_labs_test_assingm.Transport.Server.{Host, record_failure, count_failure, is_disconnected}
use stream_labs_test_assingm.Transport.Server.Requests.{Served, serve_request}
use stream_labs_test_assingm.Transport.Server.Workers.{
  Worker, accepting, serving, closing, finished, accept_client, close_session, accept_failed,
}
use stream_labs_test_assingm.Transport.Server.Steps.{
  Action, accepts, serves, closes, serve_ended, worker_step,
}
use stream_labs_test_assingm.Transport.Server.Evolution.{ServedEvolves, serve_request-Evolves}

module _ {Obj : Type 0} ⦃o : ObjectClass Obj⦄ ⦃u : Utf8⦄ where
  -- The store of a worker's session, if it has one, keeps to its invariant.
  abbrev pub IsSafe : IdentifierSource → Worker Obj → Type 0
  IsSafe ids accepting = IsWord ids
  IsSafe ids finished = IsWord ids
  IsSafe ids (serving s stream) = Inv s ids
  IsSafe ids (closing s) = Inv s ids

  -- Nothing of the worker's session has the id.
  abbrev pub IsWithout : ℕ → Worker Obj → Type 0
  IsWithout id accepting = 0 ≤ 0
  IsWithout id finished = 0 ≤ 0
  IsWithout id (serving s stream) = Lacks id s
  IsWithout id (closing s) = Lacks id s

  -- No id stands for something in both sessions.
  abbrev pub Apart : Worker Obj → Worker Obj → Type 0
  Apart w v = (id : ℕ) → IsWithout id w ⊎ IsWithout id v

  -- The sessions that a worker has open.
  abbrev pub active_of : Worker Obj → ℕ
  active_of (serving s stream) = 1
  active_of (closing s) = 1
  active_of w = 0

  -- The count of the open sessions follows a worker, unless it would wrap.
  abbrev pub Counts : Host Obj → Worker Obj → Host Obj × Worker Obj → Type 0
  Counts h w (h', w') =
      active_of w ≤ h.statistics.active_sessions
      → h.statistics.active_sessions + 1 < 2 ^ 64
      → h'.statistics.active_sessions + active_of w ≡ h.statistics.active_sessions + active_of w'

  -- What a step does to a worker.
  abbrev pub Moves : Host Obj → Worker Obj → Host Obj × Worker Obj → Type 0
  Moves h w (h', w') =
      (horizon h.identifiers ≤ horizon h'.identifiers)
      × IsSafe h'.identifiers w'
      × ((id : ℕ) → id < horizon h.identifiers → IsWithout id w → IsWithout id w')
      × Counts h w (h', w')

  pub IsSafe-IsWord : (ids : IdentifierSource) (w : Worker Obj) → IsSafe ids w → IsWord ids
  IsSafe-IsWord ids accepting k = k
  IsSafe-IsWord ids finished k = k
  IsSafe-IsWord ids (serving s stream) k = k.word
  IsSafe-IsWord ids (closing s) k = k.word

  rests : (h : Host Obj) (w : Worker Obj) → IsSafe h.identifiers w → Moves h w (h, w)
  rests h w k = (omega arith, k, λ id b l. l, λ a f. refl)

  accept_failed-Moves :
      (h : Host Obj) (error : TransportFailure)
      → IsWord h.identifiers
      → Moves h accepting (accept_failed h error)
  unfolding accept_failed record_failure count_failure
  accept_failed-Moves h error k =
      if-Holds (Moves h accepting) h.stopping _ _ (omega arith, k, λ id b l. l, λ a f. refl)
        (if-Holds (Moves h accepting) (is_disconnected error.kind) _ _
          (omega arith, k, λ id b l. l, λ a f. refl) (omega arith, k, λ id b l. l, λ a f. refl))

  accept_client-Moves :
      (h : Host Obj) (a : Attempt) (stopped : Bool)
      → IsWord h.identifiers
      → Moves h accepting (accept_client h a stopped)
  unfolding accept_client new_store find
  accept_client-Moves h a stopped k =
      if-Holds (Moves h accepting) h.stopping _ _ (omega arith, k, λ id b l. l, λ a f. refl)
        (elim (Result-cases (accept deadline_max a).1) [
          | inl (error, e) ↦
              rw e (accept_failed-Moves (record h { stopping = h.stopping || stopped }) error k)
          | inr (n, e) ↦ rw e (
            omega arith,
            new_store-Inv h.registry h.options.storage h.identifiers k,
            λ id b l. (refl, refl),
            λ a f. omega (arith, add64_exact h.statistics.active_sessions 1 f),
          )
        ])

  serve_ended-Moves :
      (h : Host Obj) (s : SessionStore Obj) (stream : StreamState) (served : Option (Served Obj))
      → Inv s h.identifiers
      → ServedEvolves h s served
      → Moves h (serving s stream) (serve_ended h s stream served)
  unfolding serve_ended
  serve_ended-Moves h s stream none inv k = (omega arith, inv, λ id b l. l, λ a f. refl)
  serve_ended-Moves h s stream (some served) inv k = (
    k.0.onward,
    if-Holds (IsSafe served.host.identifiers) served.goes_on _ _ k.0.kept k.0.kept,
    λ id b l. if-Holds (IsWithout id) served.goes_on _ _ (k.0.lacking id b l) (k.0.lacking id b l),
    λ a f.
        if-Holds
          (λ w.
            served.host.statistics.active_sessions + 1 ≡ h.statistics.active_sessions + active_of w)
          served.goes_on _ _ (ap (λ n. n + 1) k.1) (ap (λ n. n + 1) k.1),
  )

  close_session-Moves :
      (h : Host Obj) (s : SessionStore Obj) (code : Option ℕ)
      → Inv s h.identifiers
      → Moves h (closing s) (close_session h code)
  unfolding close_session record_failure count_failure
  close_session-Moves h s none inv = (
    omega arith,
    inv.word,
    λ id b l. omega arith,
    λ a f. omega (arith, sub64_exact h.statistics.active_sessions 1 (omega (arith, f)) a),
  )
  close_session-Moves h s (some code) inv =
      if-Holds (Moves h (closing s)) (code == error_pipe_not_connected) _ _
        (
          omega arith,
          inv.word,
          λ id b l. omega arith,
          λ a f. omega (arith, sub64_exact h.statistics.active_sessions 1 (omega (arith, f)) a),
        )
        (
          omega arith,
          inv.word,
          λ id b l. omega arith,
          λ a f. omega (arith, sub64_exact h.statistics.active_sessions 1 (omega (arith, f)) a),
        )

  module _ (p : Protobuf WireOperation) (q : Protobuf WireOutcome) where
    pub worker_step-Moves :
        (h : Host Obj) (w : Worker Obj) (action : Action)
        → IsSafe h.identifiers w
        → Moves h w (worker_step p q h w action)
    unfolding worker_step
    worker_step-Moves h accepting (accepts a stopped) k = accept_client-Moves h a stopped k
    worker_step-Moves h accepting (serves e) k = rests h accepting k
    worker_step-Moves h accepting (closes code) k = rests h accepting k
    worker_step-Moves h (serving s stream) (serves e) k =
        serve_ended-Moves h s stream (serve_request p q h s stream e) k
          (serve_request-Evolves p q h s stream e k)
    worker_step-Moves h (serving s stream) (accepts a stopped) k = rests h (serving s stream) k
    worker_step-Moves h (serving s stream) (closes code) k = rests h (serving s stream) k
    worker_step-Moves h (closing s) (closes code) k = close_session-Moves h s code k
    worker_step-Moves h (closing s) (accepts a stopped) k = rests h (closing s) k
    worker_step-Moves h (closing s) (serves e) k = rests h (closing s) k
    worker_step-Moves h finished action k = rests h finished k
