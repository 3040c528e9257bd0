-- ===== src/Client/Settling.antt =====
-- src/client/client.cpp, `connection_state`: the sections of the reader and the monitor keep the
-- invariant.
use stream_labs_test_assingm.Base.{
  ℕ, ◌≡◌, refl, true, false, ◌||◌, not, Option, some, none, List, [], ◌∷◌, ◌==◌, arith, inl, inr,
  Bool-cases,
}
use stream_labs_test_assingm.Base.Result.{Result, ok, err, Result-cases}
use stream_labs_test_assingm.Contracts.{Response}
use stream_labs_test_assingm.Validation.{Utf8}
use stream_labs_test_assingm.Framing.{Bytes}
use stream_labs_test_assingm.SortedMap.{SortedMap, find, erase, Ascending}
use stream_labs_test_assingm.SortedMap.Laws.{find-erase, find_below}
use stream_labs_test_assingm.Codec.Wire.{WireOutcome}
use stream_labs_test_assingm.Codec.Envelope.{Protobuf, decode_response}
use stream_labs_test_assingm.Completion.{TransportFailure}
use stream_labs_test_assingm.Client.Matching.{
  local_failure, disconnected, protocol_violation, translate, matches, transport_failure,
}
use stream_labs_test_assingm.Client.State.{
  Connection, Moment, Call, CallResult, PendingCall, is_over, over_cause,
}
use stream_labs_test_assingm.Client.Workers.{
  settle, sweep, erase_call, is_queued, answer, receive, receive_open,
}
use stream_labs_test_assingm.Client.Invariant.{Lacks, Queued, settle-Inv}
use stream_labs_test_assingm.Client.Settlement.{
  Flying, begun-Lacks, Lacks-erase_call, Lacks-erase_other, Queued-erase_call,
}
use stream_labs_test_assingm.Client.Holding.{Holds, fail_locked-Holds, if-Holds, fail_all-Holds}

-- Settling one call that is not queued any more.
settle-Holds :
    (sending : Option Call) (id : ℕ) (result : CallResult) (queue : List Call) (entry : PendingCall)
    (s : Connection)
    → Holds sending s
    → find id s.pending ≡ some entry
    → Lacks id queue
    → Queued queue s.pending
    → ((k : ℕ) → Lacks k s.queue → Lacks k queue)
    → Holds sending (settle id result queue s)
settle-Holds sending id result queue entry s h held l q fewer =
    (settle-Inv id result queue entry s h.0 held l q, still sending h.1)
  where
    still : (c : Option Call) → Flying c s → Flying c (settle id result queue s)
    still none f = tt
    still (some call) f = (fewer call.request.id f.0, f.1)

-- A response settles the call that waits for it, or all are failed.
answer-Holds :
    (sending : Option Call) (moment : Moment) (response : Response) (found : Option PendingCall)
    (s : Connection)
    → Holds sending s
    → find response.id s.pending ≡ found
    → Holds sending (answer moment response found s)
unfolding answer
answer-Holds sending moment response none s h e = fail_all-Holds sending protocol_violation s h
answer-Holds sending moment response (some entry) s h e =
    elim (Bool-cases
      (is_queued entry.progress || not (matches entry.call.request.body response.body))) [
        | inl wrong ↦ rw wrong (fail_all-Holds sending protocol_violation s h)
        | inr right ↦ rw right (
            if-Holds sending (is_over moment entry.call.stop entry.call.deadline) _ _
              (fail_locked-Holds sending (local_failure disconnected)
                (over_cause moment entry.call.stop) response.id s h)
              (settle-Holds sending response.id (ok response) s.queue entry s h e
                (begun-Lacks response.id entry s.queue s.pending e (ground arith) h.0.queue_pending)
                h.0.queue_pending (λ k l. l)))
      ]

receive_open-Holds :
    ⦃u : Utf8⦄ (p : Protobuf WireOutcome) (sending : Option Call) (moment : Moment)
    (payload : Result TransportFailure Bytes) (s : Connection)
    → Holds sending s
    → Holds sending (receive_open p moment payload s)
unfolding receive_open
receive_open-Holds p sending moment (err e) s h =
    fail_locked-Holds sending (translate e) (local_failure transport_failure) 0 s h
receive_open-Holds p sending moment (ok encoded) s h =
    elim (Result-cases (decode_response p encoded)) [
      | inl (e, bad) ↦ rw (bad, receive_open) (fail_all-Holds sending protocol_violation s h)
      | inr (response, good) ↦
          rw (good, receive_open)
            (answer-Holds sending moment response (find response.id s.pending) s h refl)
    ]

pub receive-Holds :
    ⦃u : Utf8⦄ (p : Protobuf WireOutcome) (sending : Option Call) (moment : Moment)
    (payload : Result TransportFailure Bytes) (s : Connection)
    → Holds sending s
    → Holds sending (receive p moment payload s)
unfolding receive
receive-Holds p sending moment payload s h =
    if-Holds sending s.closed _ _ h (receive_open-Holds p sending moment payload s h)

head_found :
    (id : ℕ) (entry : PendingCall) (m : SortedMap PendingCall)
    → find id ((id, entry) ∷ m) ≡ some entry
unfolding find
head_found id entry m = let same : (id == id) ≡ true = ground arith in rw same refl

tail_found :
    (id k : ℕ) (entry other : PendingCall) (m : SortedMap PendingCall)
    → Ascending id m
    → find k m ≡ some other
    → ((id == k) ≡ false) × (find k ((id, entry) ∷ m) ≡ some other)
unfolding find
tail_found id k entry other m a f = elim (Bool-cases (id == k)) [
  | inl same ↦ absurd (cc (find_below k id m a (ground arith), f))
  | inr apart ↦ (apart, rw apart f)
]

erased_found :
    (id k : ℕ) (other : PendingCall) (m : SortedMap PendingCall)
    → Ascending 0 m
    → (id == k) ≡ false
    → find k m ≡ some other
    → find k (erase id m) ≡ some other
erased_found id k other m a apart f = rw (find-erase id k 0 m a, apart) f

-- The monitor goes over calls that are all in the table, in the order of their ids.
pub sweep-Holds :
    (sending : Option Call) (moment : Moment) (low : ℕ) (entries : SortedMap PendingCall)
    (s : Connection)
    → Holds sending s
    → Ascending low entries
    → ((id : ℕ) (e : PendingCall) → find id entries ≡ some e → find id s.pending ≡ some e)
    → Holds sending (sweep moment entries s)
unfolding sweep
sweep-Holds sending moment low [] s h a there = h
sweep-Holds sending moment low ((id, entry) ∷ entries) s h a there =
    let cause = over_cause moment entry.call.stop in
    if-Holds sending (is_over moment entry.call.stop entry.call.deadline) _ _
      (if-Holds sending (not (is_queued entry.progress)) _ _
        (fail_locked-Holds sending (local_failure disconnected) cause id s h)
        (sweep-Holds sending moment id entries (settle id (err cause) (erase_call id s.queue) s)
          (settle-Holds sending id (err cause) (erase_call id s.queue) entry s h
            (there id entry (head_found id entry entries)) (Lacks-erase_call id s.queue)
            (Queued-erase_call id s.queue s.pending h.0.queue_pending)
            (λ k l. Lacks-erase_other id k s.queue l))
          a.1
          (λ k e f.
            let behind = tail_found id k entry e entries a.1 f in
            erased_found id k e s.pending h.0.ascending behind.0 (there k e behind.1))))
      (sweep-Holds sending moment id entries s h a.1
        (λ k e f. there k e (tail_found id k entry e entries a.1 f).1))
