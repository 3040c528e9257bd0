-- ===== src/Client/Admission.antt =====
-- src/client/client.cpp, `connection_state::call_async`: an admitted call joins the table and the
-- queue.
use stream_labs_test_assingm.Base.{
  ℕ, ◌+◌, ◌-◌, ◌^◌, ◌<◌, ◌≡◌, ◌≢◌, refl, ◌⊎◌, ap, sym, ◌∙◌, true, false, ◌||◌, not, some, none,
  List, [], ◌∷◌, ◌++◌, leb, ◌==◌, arith, length, inl, inr, Bool-cases,
}
use stream_labs_test_assingm.Base.Result.{Result-cases}
use stream_labs_test_assingm.Contracts.{Operation, version}
use stream_labs_test_assingm.Validation.{Utf8}
use stream_labs_test_assingm.SortedMap.{SortedMap, find, emplace}
use stream_labs_test_assingm.SortedMap.Laws.{
  find_fresh, find-emplace, length-emplace, emplace-Ascending, emplace-KeysBelow, KeysBelow-mono,
}
use stream_labs_test_assingm.Codec.Wire.{WireOperation}
use stream_labs_test_assingm.Codec.Envelope.{Protobuf, encode_request}
use stream_labs_test_assingm.Client.State.{
  Connection, Moment, Call, PendingCall, queued, max_pending_calls,
}
use stream_labs_test_assingm.Client.Calls.{call_async}
use stream_labs_test_assingm.Client.Invariant.{ClientInv, Lacks, Queued}

pub Lacks-append :
    (id : ℕ) (queue : List Call) (call : Call)
    → Lacks id queue
    → call.request.id ≢ id
    → Lacks id (queue ++ call ∷ [])
Lacks-append id [] call l h = (h, tt)
Lacks-append id (c ∷ queue) call l h = (l.0, Lacks-append id queue call l.1 h)

-- A queued call is in the table, so its id is not a fresh one.
pub fresh-Lacks :
    (id : ℕ) (queue : List Call) (m : SortedMap PendingCall)
    → find id m ≡ none
    → Queued queue m
    → Lacks id queue
fresh-Lacks id [] m h q = tt
fresh-Lacks id (call ∷ queue) m h q =
    ((λ e. absurd (cc (ap (λ k. find k m) e, h, q.0))), fresh-Lacks id queue m h q.2)

Queued-emplace :
    (id : ℕ) (entry : PendingCall) (queue : List Call) (m : SortedMap PendingCall)
    → find id m ≡ none
    → Queued queue m
    → Queued queue (emplace id entry m)
Queued-emplace id entry [] m h q = tt
Queued-emplace id entry (call ∷ queue) m h q =
    let other = fresh-Lacks id (call ∷ queue) m h q in
    let differs : (id == call.request.id) ≡ false = ground (arith, other.0) in
    (
      rw (find-emplace id call.request.id entry m h, differs) q.0,
      q.1,
      Queued-emplace id entry queue m h q.2,
    )

Queued-append :
    (queue : List Call) (call : Call) (m : SortedMap PendingCall)
    → Queued queue m
    → Lacks call.request.id queue
    → find call.request.id m ≡ some (record { call = call; progress = queued })
    → Queued (queue ++ call ∷ []) m
Queued-append [] call m q l h = (h, tt, tt)
Queued-append (c ∷ queue) call m q l h = (
  q.0,
  Lacks-append c.request.id queue call q.1 (λ e. l.0 (sym e)),
  Queued-append queue call m q.2 l.1 h,
)

-- The state once a call is admitted.
abbrev pub admitted : Call → Connection → Connection
admitted call s = record s {
  next_id = s.next_id + 1;
  pending = emplace s.next_id (record { call = call; progress = queued }) s.pending;
  queue = s.queue ++ call ∷ [];
}

pub admitted-Inv :
    (call : Call) (s : Connection)
    → ClientInv s
    → call.request.id ≡ s.next_id
    → s.closed ≡ false
    → length s.pending < max_pending_calls
    → s.next_id < 2 ^ 64 - 1
    → ClientInv (admitted call s)
admitted-Inv call s inv same live room word =
    let entry : PendingCall = record { call = call; progress = queued } in
    let fresh = find_fresh s.next_id s.pending inv.below in
    let self : (s.next_id == s.next_id) ≡ true = ground arith in
    let at_fresh : find s.next_id (emplace s.next_id entry s.pending) ≡ some entry =
      rw (find-emplace s.next_id s.next_id entry s.pending fresh, self) refl in
    let at_call = ap (λ k. find k (emplace s.next_id entry s.pending)) same in
    let lacks : Lacks call.request.id s.queue =
      rw same (fresh-Lacks s.next_id s.queue s.pending fresh inv.queue_pending) in
    record {
      positive = omega arith;
      word = omega arith;
      ascending = emplace-Ascending 0 s.next_id entry s.pending inv.positive inv.ascending;
      below =
          emplace-KeysBelow (s.next_id + 1) s.next_id entry s.pending (omega arith)
            (KeysBelow-mono s.next_id (s.next_id + 1) s.pending (omega arith) inv.below);
      bounded = omega (arith, length-emplace s.next_id entry s.pending fresh);
      queue_pending =
          Queued-append s.queue call (emplace s.next_id entry s.pending)
            (Queued-emplace s.next_id entry s.queue s.pending fresh inv.queue_pending) lacks
            (at_call ∙ at_fresh);
      once = λ id. elim (Bool-cases (s.next_id == id)) [
        | inl here ↦
            rw (find-emplace s.next_id id entry s.pending fresh, here)
              (ground (arith, inv.once id, inv.positive))
        | inr other ↦
            rw (find-emplace s.next_id id entry s.pending fresh, other)
              (ground (arith, inv.once id, inv.positive))
      ];
      drained = λ h. absurd (cc (h, live));
    }

-- A call is refused and nothing changes, or it is admitted under the next id.
abbrev pub Admits : Connection → Connection → Type 0
Admits s after =
    (after ≡ s)
    ⊎ ((call : Call) × (call.request.id ≡ s.next_id)
        × (s.closed ≡ false)
        × (length s.pending < max_pending_calls)
        × (s.next_id < 2 ^ 64 - 1)
        × (after ≡ admitted call s))

module _ ⦃u : Utf8⦄ (p : Protobuf WireOperation) where
  pub call_async-Admits :
      (moment : Moment) (operation : Operation) (deadline stop : ℕ) (s : Connection)
      → s.next_id < 2 ^ 64
      → Admits s (call_async p moment operation deadline stop s).0
  unfolding call_async
  call_async-Admits moment operation deadline stop s word =
      elim (Bool-cases (not s.connected || s.closed)) [
        | inl shut ↦ rw shut (inl refl)
        | inr ready ↦ elim (Bool-cases (moment.stopped stop)) [
          | inl stopped ↦ rw (ready, stopped) (inl refl)
          | inr runs ↦ elim (Bool-cases (leb deadline moment.now)) [
            | inl late ↦ rw (ready, runs, late) (inl refl)
            | inr early ↦
                elim (Bool-cases
                  (leb max_pending_calls (length s.pending) || s.next_id == 2 ^ 64 - 1)) [
                    | inl full ↦ rw (ready, runs, early, full) (inl refl)
                    | inr room ↦
                        elim (Result-cases (
                          encode_request p (record {
                            id = s.next_id;
                            body = operation;
                            protocol_version = version;
                          }))) [
                            | inl (e, bad) ↦ rw (ready, runs, early, room, bad) (inl refl)
                            | inr (b, good) ↦
                                rw (ready, runs, early, room, good)
                                  (inr (_, refl, ground arith, ground arith, ground arith, refl))
                          ]
                  ]
          ]
        ]
      ]
