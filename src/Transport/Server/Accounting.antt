-- ===== src/Transport/Server/Accounting.antt =====
-- src/transport/windows/server.cpp: `active_`, the count of the open sessions.
use stream_labs_test_assingm.Base.{
  ℕ, zero, suc, ◌+◌, ◌^◌, ◌≤◌, ◌<◌, ◌≡◌, inl, inr, some, List, [], ◌∷◌, arith, get_elem?, set,
  length, length-set, Option-cases,
}
use stream_labs_test_assingm.Validation.{Utf8}
use stream_labs_test_assingm.Objects.{ObjectClass}
use stream_labs_test_assingm.Codec.Wire.{WireOperation, WireOutcome}
use stream_labs_test_assingm.Codec.Envelope.{Protobuf}
use stream_labs_test_assingm.Transport.Server.Workers.{
  Worker, serving, closing, accepting, finished,
}
use stream_labs_test_assingm.Transport.Server.Steps.{
  Server, Event, works, stops, worker_step, server_step, server_run,
}
use stream_labs_test_assingm.Transport.Server.Moves.{active_of, worker_step-Moves}
use stream_labs_test_assingm.Transport.Server.Isolation.{IsIsolated, server_step-IsIsolated}

module _ {Obj : Type 0} ⦃o : ObjectClass Obj⦄ ⦃u : Utf8⦄ where
  abbrev pub open_sessions : List (Worker Obj) → ℕ
  open_sessions [] = 0
  open_sessions (w ∷ workers) = active_of w + open_sessions workers

  active_of-bound : (w : Worker Obj) → active_of w ≤ 1
  active_of-bound accepting = omega arith
  active_of-bound finished = omega arith
  active_of-bound (serving s stream) = omega arith
  active_of-bound (closing s) = omega arith

  open_sessions-bound : (workers : List (Worker Obj)) → open_sessions workers ≤ length workers
  open_sessions-bound [] = omega arith
  open_sessions-bound (w ∷ workers) = omega (arith, active_of-bound w, open_sessions-bound workers)

  -- One worker changed.
  open_sessions-set :
      (workers : List (Worker Obj)) (k : ℕ) (w w' : Worker Obj)
      → get_elem? workers k ≡ some w
      → (open_sessions (set workers k w') + active_of w ≡ open_sessions workers + active_of w')
        × (active_of w ≤ open_sessions workers)
  open_sessions-set [] k w w' e = absurd (cc e)
  open_sessions-set (x ∷ workers) zero w w' e =
      let same : active_of x ≡ active_of w = cc e in (omega (arith, same), omega (arith, same))
  open_sessions-set (x ∷ workers) (suc k) w w' e =
      let rest = open_sessions-set workers k w w' e in
      (omega (arith, rest.0), omega (arith, rest.1))

  -- The counter tells how many sessions are open, and cannot wrap.
  pub record IsCounted (s : Server Obj) : Type 0 where
    pub isolated : IsIsolated s
    pub few : length s.workers + 1 < 2 ^ 64
    pub counted : s.host.statistics.active_sessions ≡ open_sessions s.workers

  module _ (p : Protobuf WireOperation) (q : Protobuf WireOutcome) where
    server_step-IsCounted :
        (s : Server Obj) (e : Event) → IsCounted s → IsCounted (server_step p q s e)
    unfolding server_step
    server_step-IsCounted s stops c = record {
      isolated = server_step-IsIsolated p q s stops c.isolated;
      few = c.few;
      counted = c.counted;
    }
    server_step-IsCounted s (works k action) c = elim (Option-cases (get_elem? s.workers k)) [
      | inl e ↦ rw (server_step, e) c
      | inr (w, e) ↦
          let out = worker_step p q s.host w action in
          let moves = worker_step-Moves p q s.host w action (c.isolated.safe k w e) in
          let sums = open_sessions-set s.workers k w out.1 e in
          let bound = open_sessions-bound s.workers in
          let counts =
            moves.3 (omega (arith, c.counted, sums.1)) (omega (arith, c.counted, c.few, bound)) in
          let isolated = server_step-IsIsolated p q s (works k action) c.isolated in
          rw (server_step, e)
            (record {
              isolated = rw (server_step, e) at isolated;
              few = omega (arith, c.few, length-set s.workers k out.1);
              counted = omega (arith, counts, sums.0, c.counted);
            })
    ]

    -- In every interleaving, `active_sessions` is the number of sessions that workers have open.
    pub server_run-IsCounted :
        (s : Server Obj) (events : List Event) → IsCounted s → IsCounted (server_run p q s events)
    unfolding server_run
    server_run-IsCounted s [] c = c
    server_run-IsCounted s (e ∷ events) c =
        server_run-IsCounted (server_step p q s e) events (server_step-IsCounted s e c)
