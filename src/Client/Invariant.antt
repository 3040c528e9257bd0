-- ===== src/Client/Invariant.antt =====
-- src/client/client.cpp, `connection_state`: what its mutex guards, between two sections.
use stream_labs_test_assingm.Base.{
  ℕ, ◌+◌, ◌^◌, ◌<◌, ◌≤◌, ◌≡◌, ◌≢◌, refl, true, false, ◌&&◌, not, Option, none, some, List, [], ◌∷◌,
  ◌++◌, ltb, ◌==◌, if◌then◌else◌, arith, length, ap, sym, ◌∙◌, ◌||◌, inl, inr, Bool-cases,
}
use stream_labs_test_assingm.Base.Result.{err}
use stream_labs_test_assingm.SortedMap.{SortedMap, find, erase, Ascending, KeysBelow}
use stream_labs_test_assingm.SortedMap.Laws.{
  find-erase, find_below, length-erase, erase-Ascending, erase-KeysBelow,
}
use stream_labs_test_assingm.Client.Matching.{ClientFailure}
use stream_labs_test_assingm.Client.State.{
  Connection, Call, CallResult, PendingCall, queued, settle_all, fail_locked, max_pending_calls,
}
use stream_labs_test_assingm.Client.Workers.{settle}

-- How often the promise of a call has been set.
unfoldable pub times : ℕ → List (ℕ × CallResult) → ℕ
times id [] = 0
times id ((j, r) ∷ settled) = (if j == id then 1 else 0) + times id settled

abbrev pub presence_of {ℓ} : {V : Type ℓ} → Option V → ℕ
presence_of none = 0
presence_of (some v) = 1

abbrev pub presence {ℓ} : {V : Type ℓ} → ℕ → SortedMap V → ℕ
presence id m = presence_of (find id m)

abbrev pub Lacks : ℕ → List Call → Type 0
Lacks id [] = Unit {0}
Lacks id (call ∷ queue) = (call.request.id ≢ id) × Lacks id queue

-- The queue holds pending calls that nobody has begun to write, each once.
abbrev pub Queued : List Call → SortedMap PendingCall → Type 0
Queued [] m = Unit {0}
Queued (call ∷ queue) m =
    (find call.request.id m ≡ some (record { call = call; progress = queued }))
    × Lacks call.request.id queue
    × Queued queue m

-- 1 for the ids that were given out.
abbrev pub issued : ℕ → Connection → ℕ
issued id s = if ltb 0 id && ltb id s.next_id then 1 else 0

-- Every call that was admitted is either pending or settled, and that once; the table is within its
-- bound; the queue holds unsent pending calls; and a closed connection has no call left.
pub record ClientInv (s : Connection) : Type 0 where
  pub positive : 0 < s.next_id
  pub word : s.next_id < 2 ^ 64
  pub ascending : Ascending 0 s.pending
  pub below : KeysBelow s.next_id s.pending
  pub bounded : length s.pending ≤ max_pending_calls
  pub queue_pending : Queued s.queue s.pending
  pub once : (id : ℕ) → times id s.settled + presence id s.pending ≡ issued id s
  pub drained : s.closed ≡ true → s.pending ≡ []

pub times-append :
    (id : ℕ) (a b : List (ℕ × CallResult)) → times id (a ++ b) ≡ times id a + times id b
unfolding times
times-append id [] b = omega arith
times-append id ((j, r) ∷ a) b = omega (arith, times-append id a b)

times-settle_all :
    (id low : ℕ) (common specific : ClientFailure) (k : ℕ) (m : SortedMap PendingCall)
    → Ascending low m
    → times id (settle_all common k specific m) ≡ presence id m
unfolding times settle_all find
times-settle_all id low common specific k [] a = refl
times-settle_all id low common specific k ((j, e) ∷ m) a = elim (Bool-cases (j == id)) [
  | inl same ↦
      rw (same, times-settle_all id j common specific k m a.1, find_below id j m a.1 (ground arith))
        refl
  | inr other ↦ rw other (omega (arith, times-settle_all id j common specific k m a.1))
]

pub fail_locked_closed :
    (common specific : ClientFailure) (k : ℕ) (s : Connection)
    → s.closed ≡ true
    → fail_locked common k specific s ≡ s
unfolding fail_locked
fail_locked_closed common specific k s h = ground arith

-- The state once `fail_locked` has run on an open connection.
abbrev pub failed : ClientFailure → ClientFailure → ℕ → Connection → Connection
failed common specific k s = record s {
  pending = [];
  queue = [];
  closed = true;
  stop_requested = true;
  settled = s.settled ++ settle_all common k specific s.pending;
  opening_done = s.opening_done || s.started;
  opened = s.opened ++ (if s.started && not s.opening_done then err common ∷ [] else []);
}

pub fail_locked_open :
    (common specific : ClientFailure) (k : ℕ) (s : Connection)
    → s.closed ≡ false
    → fail_locked common k specific s ≡ failed common specific k s
unfolding fail_locked
fail_locked_open common specific k s h = ground arith

-- Closing sets every promise that is left, whatever the failures.
pub fail_locked-Inv :
    (common specific : ClientFailure) (k : ℕ) (s : Connection)
    → ClientInv s
    → ClientInv (fail_locked common k specific s)
unfolding find
fail_locked-Inv common specific k s inv = elim (Bool-cases s.closed) [
  | inl shut ↦ rw (fail_locked_closed common specific k s shut) inv
  | inr live ↦ rw (fail_locked_open common specific k s live) record {
    positive = inv.positive;
    word = inv.word;
    ascending = tt;
    below = tt;
    bounded = omega arith;
    queue_pending = tt;
    once = λ id. omega (
      arith,
      times-append id s.settled (settle_all common k specific s.pending),
      times-settle_all id 0 common specific k s.pending inv.ascending,
      inv.once id,
    );
    drained = λ h. refl;
  }
]

pub Queued-erase :
    (id : ℕ) (queue : List Call) (m : SortedMap PendingCall)
    → Ascending 0 m
    → Lacks id queue
    → Queued queue m
    → Queued queue (erase id m)
Queued-erase id [] m a l q = tt
Queued-erase id (call ∷ queue) m a l q =
    (ground (arith, find-erase id call.request.id 0 m a), q.1, Queued-erase id queue m a l.1 q.2)

one_time : (id j : ℕ) (r : CallResult) → (id == j) ≡ true → times j ((id, r) ∷ []) ≡ 1
unfolding times
one_time id j r h = rw h refl

no_time : (id j : ℕ) (r : CallResult) → (id == j) ≡ false → times j ((id, r) ∷ []) ≡ 0
unfolding times
no_time id j r h = rw h refl

pub nothing_held :
    (id : ℕ) (m : SortedMap PendingCall) (entry : PendingCall) → m ≡ [] → ¬ (find id m ≡ some entry)
unfolding find
nothing_held id [] entry e h = absurd (cc h)
nothing_held id (x ∷ m) entry e h = absurd (cc e)

-- Setting one pending call's promise and dropping it.
pub settle-Inv :
    (id : ℕ) (result : CallResult) (queue : List Call) (entry : PendingCall) (s : Connection)
    → ClientInv s
    → find id s.pending ≡ some entry
    → Lacks id queue
    → Queued queue s.pending
    → ClientInv (settle id result queue s)
settle-Inv id result queue entry s inv held lacks q = record {
  positive = inv.positive;
  word = inv.word;
  ascending = erase-Ascending 0 id s.pending inv.ascending;
  below = erase-KeysBelow s.next_id id s.pending inv.below;
  bounded = omega (arith, inv.bounded, length-erase id s.pending);
  queue_pending = Queued-erase id queue s.pending inv.ascending lacks q;
  once = λ j. elim (Bool-cases (id == j)) [
    | inl same ↦
        let e : id ≡ j = ground arith in
        let here : presence j s.pending ≡ 1 =
          ap (λ v. presence_of v) (ap (λ k. find k s.pending) (sym e) ∙ held) in
        rw (find-erase id j 0 s.pending inv.ascending, same)
          (omega (
            arith,
            times-append j s.settled ((id, result) ∷ []),
            one_time id j result same,
            here,
            inv.once j,
          ))
    | inr other ↦
        rw (find-erase id j 0 s.pending inv.ascending, other)
          (omega (
            arith,
            times-append j s.settled ((id, result) ∷ []),
            no_time id j result other,
            inv.once j,
          ))
  ];
  drained = λ h. absurd (nothing_held id s.pending entry (inv.drained h) held);
}
