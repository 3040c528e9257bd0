-- ===== src/Transport/Server/Isolation.antt =====
-- src/transport/windows/server.cpp: the sessions of a server against each other.
use stream_labs_test_assingm.Base.{
  ℕ, ◌≤◌, ◌<◌, ◌≡◌, ◌≢◌, inl, inr, sym, ◌∙◌, some, List, [], ◌∷◌, ltb, arith, get_elem?, set,
  get_elem?-set_cases, subst, Bool-cases, Option-cases,
}
use stream_labs_test_assingm.Validation.{Utf8}
use stream_labs_test_assingm.SortedMap.Laws.{find_fresh, KeysBelow-mono}
use stream_labs_test_assingm.Objects.{ObjectClass}
use stream_labs_test_assingm.Identifiers.{IdentifierSource, IsWord, horizon}
use stream_labs_test_assingm.Store.Sharing.{Inv-later}
use stream_labs_test_assingm.Codec.Wire.{WireOperation, WireOutcome}
use stream_labs_test_assingm.Codec.Envelope.{Protobuf}
use stream_labs_test_assingm.Transport.Server.{Host}
use stream_labs_test_assingm.Transport.Server.Workers.{
  Worker, accepting, serving, closing, finished,
}
use stream_labs_test_assingm.Transport.Server.Steps.{
  Server, Event, works, stops, worker_step, server_step, server_run,
}
use stream_labs_test_assingm.Transport.Server.Moves.{
  IsSafe, IsWithout, Apart, Moves, IsSafe-IsWord, worker_step-Moves,
}

module _ {Obj : Type 0} ⦃o : ObjectClass Obj⦄ ⦃u : Utf8⦄ where
  -- The state of a server in which every session's store keeps to its invariant, over the ids that
  -- they share, and no id stands for something in two sessions.
  pub record IsIsolated (s : Server Obj) : Type 0 where
    pub word : IsWord s.host.identifiers
    pub safe :
        (k : ℕ) (w : Worker Obj) → get_elem? s.workers k ≡ some w → IsSafe s.host.identifiers w
    pub apart :
        (j k : ℕ) (v w : Worker Obj)
        → j ≢ k
        → get_elem? s.workers j ≡ some v
        → get_elem? s.workers k ≡ some w
        → Apart v w

  -- Ids that have not been issued are in no session.
  unissued :
      (ids : IdentifierSource) (w : Worker Obj) (id : ℕ)
      → IsSafe ids w
      → horizon ids ≤ id
      → IsWithout id w
  unissued ids accepting id k h = omega arith
  unissued ids finished id k h = omega arith
  unissued ids (serving s stream) id k h = (
    find_fresh id s.values (KeysBelow-mono (horizon ids) id s.values h k.values_issued),
    find_fresh id s.objects (KeysBelow-mono (horizon ids) id s.objects h k.objects_issued),
  )
  unissued ids (closing s) id k h = (
    find_fresh id s.values (KeysBelow-mono (horizon ids) id s.values h k.values_issued),
    find_fresh id s.objects (KeysBelow-mono (horizon ids) id s.objects h k.objects_issued),
  )

  IsSafe-later :
      (ids later : IdentifierSource) (w : Worker Obj)
      → IsSafe ids w
      → IsWord later
      → horizon ids ≤ horizon later
      → IsSafe later w
  IsSafe-later ids later accepting k l h = l
  IsSafe-later ids later finished k l h = l
  IsSafe-later ids later (serving s stream) k l h = Inv-later s ids later k l h
  IsSafe-later ids later (closing s) k l h = Inv-later s ids later k l h

  Apart-sym : (v w : Worker Obj) → Apart v w → Apart w v
  Apart-sym v w a id = elim (a id) [ inl l ↦ inr l | inr l ↦ inl l ]

  -- A worker that has moved is still apart from one that has not.
  moved-Apart :
      (ids : IdentifierSource) (v w w' : Worker Obj)
      → IsSafe ids v
      → Apart v w
      → ((id : ℕ) → id < horizon ids → IsWithout id w → IsWithout id w')
      → Apart v w'
  moved-Apart ids v w w' k a m id = elim (Bool-cases (ltb id (horizon ids))) [
    | inr fresh ↦ inl (unissued ids v id k (ground (arith, fresh)))
    | inl issued ↦ elim (a id) [ inl l ↦ inl l | inr l ↦ inr (m id (ground (arith, issued)) l) ]
  ]

  moved-IsIsolated :
      (s : Server Obj) (k : ℕ) (w : Worker Obj) (out : Host Obj × Worker Obj)
      → IsIsolated s
      → get_elem? s.workers k ≡ some w
      → Moves s.host w out
      → IsIsolated (record { host = out.0; workers = set s.workers k out.1 })
  moved-IsIsolated s k w out i at (onward, safe, lacking, counts) = record {
    word = word;
    safe = λ j v e. elim (get_elem?-set_cases s.workers k j out.1 v e) [
      | inl (_, same) ↦ subst (IsSafe out.0.identifiers) same safe
      | inr (_, old) ↦
          IsSafe-later s.host.identifiers out.0.identifiers v (i.safe j v old) word onward
    ];
    apart = λ j l v x ne e f. elim (get_elem?-set_cases s.workers k j out.1 v e) [
      | inl (jk, same) ↦ elim (get_elem?-set_cases s.workers k l out.1 x f) [
        | inl (lk, _) ↦ absurd (ne (jk ∙ sym lk))
        | inr (lk, old) ↦
            subst (λ y. Apart y x) same
              (Apart-sym x out.1 (
                moved-Apart s.host.identifiers x w out.1 (i.safe l x old)
                  (i.apart l k x w lk old at) lacking))
      ]
      | inr (jk, old) ↦ elim (get_elem?-set_cases s.workers k l out.1 x f) [
        | inl (_, same) ↦ subst (Apart v) same (
            moved-Apart s.host.identifiers v w out.1 (i.safe j v old) (i.apart j k v w jk old at)
              lacking)
        | inr (_, older) ↦ i.apart j l v x ne old older
      ]
    ];
  }
    where
      word : IsWord out.0.identifiers
      word = IsSafe-IsWord out.0.identifiers out.1 safe

  module _ (p : Protobuf WireOperation) (q : Protobuf WireOutcome) where
    pub server_step-IsIsolated :
        (s : Server Obj) (e : Event) → IsIsolated s → IsIsolated (server_step p q s e)
    unfolding server_step
    server_step-IsIsolated s stops i = record { word = i.word; safe = i.safe; apart = i.apart }
    server_step-IsIsolated s (works k action) i = elim (Option-cases (get_elem? s.workers k)) [
      | inl e ↦ rw (server_step, e) i
      | inr (w, e) ↦
          rw (server_step, e)
            (moved-IsIsolated s k w (worker_step p q s.host w action) i e
              (worker_step-Moves p q s.host w action (i.safe k w e)))
    ]

    -- In every interleaving of the workers' steps and of a request to stop, the store of every open
    -- session keeps to its invariant over the ids that the sessions share, and no id stands for a
    -- value or an object in two sessions: what one session stores, no other can find.
    pub server_run-IsIsolated :
        (s : Server Obj) (events : List Event) → IsIsolated s → IsIsolated (server_run p q s events)
    unfolding server_run
    server_run-IsIsolated s [] i = i
    server_run-IsIsolated s (e ∷ events) i =
        server_run-IsIsolated (server_step p q s e) events (server_step-IsIsolated s e i)
