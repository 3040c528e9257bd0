-- ===== src/Client/Settlement.antt =====
-- src/client/client.cpp, `connection_state`: no section of the code sets a promise twice or loses a
-- call.
use stream_labs_test_assingm.Base.{
  ℕ, ◌<◌, ◌≡◌, refl, ap, ◌∙◌, false, Option, some, none, List, [], ◌∷◌, ◌==◌, arith, inl, inr,
  Bool-cases,
}
use stream_labs_test_assingm.Base.Result.{err}
use stream_labs_test_assingm.SortedMap.{SortedMap, find, assign, KeysBelow}
use stream_labs_test_assingm.SortedMap.Laws.{length-assign, assign-Ascending, assign-KeysBelow}
use stream_labs_test_assingm.Client.State.{
  Connection, Moment, Call, PendingCall, queued, writing, is_over, over_cause,
}
use stream_labs_test_assingm.Client.Workers.{take_first, erase_call, is_queued}
use stream_labs_test_assingm.Client.Invariant.{ClientInv, Lacks, Queued, presence, settle-Inv}

find-assign_other :
    (k j : ℕ) (v : PendingCall) (m : SortedMap PendingCall)
    → (k == j) ≡ false
    → find j (assign k v m) ≡ find j m
unfolding find assign
find-assign_other k j v [] h = refl
find-assign_other k j v ((i, w) ∷ m) h = ground (arith, find-assign_other k j v m)

presence-assign :
    (k j : ℕ) (v : PendingCall) (m : SortedMap PendingCall)
    → presence j (assign k v m) ≡ presence j m
unfolding find assign
presence-assign k j v [] = refl
presence-assign k j v ((i, w) ∷ m) = elim (Bool-cases (i == k)) [
  | inl hit ↦ elim (Bool-cases (i == j)) [
    | inl here ↦ rw (hit, here) refl
    | inr other ↦ rw (hit, other) refl
  ]
  | inr miss ↦ elim (Bool-cases (i == j)) [
    | inl here ↦ rw (miss, here) refl
    | inr other ↦ rw (miss, other) (presence-assign k j v m)
  ]
]

Queued-assign :
    (id : ℕ) (entry : PendingCall) (queue : List Call) (m : SortedMap PendingCall)
    → Lacks id queue
    → Queued queue m
    → Queued queue (assign id entry m)
Queued-assign id entry [] m l q = tt
Queued-assign id entry (call ∷ queue) m l q = (
  find-assign_other id call.request.id entry m (ground (arith, l.0)) ∙ q.0,
  q.1,
  Queued-assign id entry queue m l.1 q.2,
)

assign_nothing :
    (id : ℕ) (entry : PendingCall) (m : SortedMap PendingCall) → m ≡ [] → assign id entry m ≡ []
unfolding assign
assign_nothing id entry [] e = refl
assign_nothing id entry (x ∷ m) e = absurd (cc e)

-- A change of a call that is in the table, or not.
pub assign-Inv :
    (id : ℕ) (entry : PendingCall) (queue : List Call) (s : Connection)
    → ClientInv s
    → Lacks id queue
    → Queued queue s.pending
    → ClientInv (record s { pending = assign id entry s.pending; queue = queue })
assign-Inv id entry queue s inv l q = record {
  positive = inv.positive;
  word = inv.word;
  ascending = assign-Ascending 0 id entry s.pending inv.ascending;
  below = assign-KeysBelow s.next_id id entry s.pending inv.below;
  bounded = omega (arith, length-assign id entry s.pending, inv.bounded);
  queue_pending = Queued-assign id entry queue s.pending l q;
  once = λ j. omega (arith, inv.once j, presence-assign id j entry s.pending);
  drained = λ h. assign_nothing id entry s.pending (inv.drained h);
}

pub Lacks-erase_call : (id : ℕ) (queue : List Call) → Lacks id (erase_call id queue)
unfolding erase_call
Lacks-erase_call id [] = tt
Lacks-erase_call id (call ∷ queue) = elim (Bool-cases (call.request.id == id)) [
  | inl same ↦ rw same (Lacks-erase_call id queue)
  | inr other ↦ rw other (ground arith, Lacks-erase_call id queue)
]

pub Lacks-erase_other :
    (id k : ℕ) (queue : List Call) → Lacks k queue → Lacks k (erase_call id queue)
unfolding erase_call
Lacks-erase_other id k [] l = tt
Lacks-erase_other id k (call ∷ queue) l = elim (Bool-cases (call.request.id == id)) [
  | inl same ↦ rw same (Lacks-erase_other id k queue l.1)
  | inr other ↦ rw other (l.0, Lacks-erase_other id k queue l.1)
]

pub Queued-erase_call :
    (id : ℕ) (queue : List Call) (m : SortedMap PendingCall)
    → Queued queue m
    → Queued (erase_call id queue) m
unfolding erase_call
Queued-erase_call id [] m q = tt
Queued-erase_call id (call ∷ queue) m q = elim (Bool-cases (call.request.id == id)) [
  | inl same ↦ rw same (Queued-erase_call id queue m q.2)
  | inr other ↦
      rw other
        (q.0, Lacks-erase_other id call.request.id queue q.1, Queued-erase_call id queue m q.2)
]

-- A call that has been begun to write is not in the queue.
pub begun-Lacks :
    (id : ℕ) (entry : PendingCall) (queue : List Call) (m : SortedMap PendingCall)
    → find id m ≡ some entry
    → is_queued entry.progress ≡ false
    → Queued queue m
    → Lacks id queue
begun-Lacks id entry [] m h p q = tt
begun-Lacks id entry (call ∷ queue) m h p q =
    ((λ e. absurd (cc (ap (λ k. find k m) e, h, q.0, p))), begun-Lacks id entry queue m h p q.2)

-- The call that the writer sends is not queued, and its id was given out.
abbrev pub Flying : Option Call → Connection → Type 0
Flying none s = Unit {0}
Flying (some call) s = Lacks call.request.id s.queue × (call.request.id < s.next_id)

find_under :
    (id high : ℕ) (entry : PendingCall) (m : SortedMap PendingCall)
    → KeysBelow high m
    → find id m ≡ some entry
    → id < high
unfolding find
find_under id high entry [] b h = absurd (ground arith)
find_under id high entry ((j, v) ∷ m) b h = ground (arith, find_under id high entry m b.1)

pub take_first-Inv :
    (moment : Moment) (queue : List Call) (s : Connection)
    → ClientInv s
    → s.closed ≡ false
    → Queued queue s.pending
    → ClientInv (take_first moment queue s).0
      × Flying (take_first moment queue s).1 (take_first moment queue s).0
unfolding take_first
take_first-Inv moment [] s inv live q = (inv, tt)
take_first-Inv moment (call ∷ queue) s inv live q =
    let entry : PendingCall = record { call = call; progress = queued } in
    let begun : PendingCall = record { call = call; progress = writing } in
    elim (Bool-cases (is_over moment call.stop call.deadline)) [
      | inl over ↦ rw over (
        settle-Inv call.request.id (err (over_cause moment call.stop)) queue entry s inv q.0 q.1
            q.2,
        tt,
      )
      | inr runs ↦ rw runs (
        assign-Inv call.request.id begun queue s inv q.1 q.2,
        (q.1, find_under call.request.id s.next_id entry s.pending inv.below q.0),
      )
    ]
