-- ===== src/Transport/Stream/Delivery.antt =====
-- src/transport/windows/stream.cpp, `pipe_stream::receive`: the loop over the reads.
use stream_labs_test_assingm.Base.{
  ℕ, ◌≤◌, ◌<◌, ◌≡◌, ◌⊎◌, inl, inr, refl, sym, ap, ◌∙◌, Bool, true, false, ◌&&◌, Option, none, some,
  List, [], ◌∷◌, ◌++◌, append-nil, append_assoc, ◌==◌, length, drop, arith, length-append,
  length-drop, take-append_within, take_all, Bool-cases,
}
use stream_labs_test_assingm.Base.Result.{Result, ok, err, Result-cases, all_of}
use stream_labs_test_assingm.Contracts.{FailureCode}
use stream_labs_test_assingm.Framing.{Bytes, framing_failure}
use stream_labs_test_assingm.Framing.Spec.{incomplete, refused, complete, parse, pending}
use stream_labs_test_assingm.Completion.{TransportFailure}
use stream_labs_test_assingm.Transport.Native.{Moment, buffer_bytes, read_some}
use stream_labs_test_assingm.Transport.Stream.{
  StreamState, Progress, Arrival, Step, unread, violation, scan, refill, ended, receive_loop,
}
use stream_labs_test_assingm.Transport.Stream.Receiving.{
  IsLive, undelivered, timely, brings, Delivers, Scanned, scan-Scanned,
}

-- A refill that goes on has put the bytes of its read into the buffer; it never returns a payload.
abbrev Refilled : StreamState → ℕ → Arrival → Step → Type 0
Refilled s until a (s', none) =
    IsLive s' × (s'.decoder ≡ s.decoder) × (unread s' ≡ a.bytes) × (0 < length a.bytes)
Refilled s until a (s', some (ok payload)) = 1 ≤ 0
Refilled s until a (s', some (err error)) = (s'.failed ≡ true) × (brings until a ≡ false)

refill-Refilled :
    (s : StreamState) (until : ℕ) (a : Arrival)
    → IsLive s
    → Delivers until a
    → Refilled s until a (refill s until a)
unfolding refill
refill-Refilled s until a l h = elim (Result-cases (read_some buffer_bytes until a.read).1) [
  | inl (error, e) ↦ rw (refill, e) (refl, rw (brings, e) refl)
  | inr (count, e) ↦ elim (Bool-cases (count == 0)) [
    | inl nothing ↦ rw (refill, e, nothing) (refl, rw (brings, e, nothing) refl)
    | inr more ↦
        let size : count ≡ length a.bytes = h.1 count e in
        rw (refill, e, more)
          (
            record {
              alive = l.alive;
              sound = l.sound;
              ordered = omega arith;
              within = omega (arith, size, h.0);
              whole_buffer = omega (
                arith,
                length-append a.bytes (drop (length a.bytes) s.input),
                length-drop (length a.bytes) s.input,
                l.whole_buffer,
                h.0,
              );
            },
            refl,
            rw
                (
                  take-append_within count a.bytes (drop (length a.bytes) s.input)
                      (omega (arith, size)),
                  take_all count a.bytes (omega (arith, size)),
                )
                refl,
            ground (arith, size),
          )
  ]
]

-- The bytes that reads bring, in their order.
abbrev pub flow : List Arrival → Bytes
flow [] = []
flow (a ∷ arrivals) = a.bytes ++ flow arrivals

abbrev pub AllDeliver : ℕ → List Arrival → Type 0
AllDeliver until [] = 0 ≤ 0
AllDeliver until (a ∷ arrivals) = Delivers until a × AllDeliver until arrivals

-- Every read brings bytes, and every round is in time.
abbrev pub steady : ℕ → Moment → List Arrival → Bool
steady until m arrivals =
    timely until m && all_of (λ a. brings until a && timely until a.moment) arrivals

-- What a run of the loop over `arrivals` has come to, by the grammar. Before it returns, it has
-- taken in all the bytes, at least one of each read. A payload ends with the reads it has used.
abbrev pub Comes :
    StreamState
    → ℕ
    → Moment
    → List Arrival
    → StreamState
    → List Arrival
    → Option (Result TransportFailure Bytes)
    → Type 0
Comes s until m arrivals s' later none =
    IsLive s'
    × (pending s'.decoder ≡ undelivered s ++ flow arrivals)
    × (parse (undelivered s ++ flow arrivals) ≡ incomplete)
    × (length arrivals ≤ length (flow arrivals))
Comes s until m arrivals s' later (some (ok payload)) =
    IsLive s'
    × (pending s'.decoder ≡ [])
    × (used : List Arrival) × (arrivals ≡ used ++ later)
    × (parse (undelivered s ++ flow used) ≡ complete payload (unread s'))
Comes s until m arrivals s' later (some (err error)) =
    (s'.failed ≡ true)
    × ((steady until m arrivals ≡ false)
        ⊎ ((error ≡ violation (framing_failure FailureCode.limit_exceeded))
            × (used : List Arrival) × (rest : List Arrival) × (arrivals ≡ used ++ rest)
            × (parse (undelivered s ++ flow used) ≡ refused)))

abbrev pub Receives :
    StreamState → ℕ → Moment → List Arrival → Progress StreamState Arrival Bytes → Type 0
Receives s until m arrivals run = Comes s until m arrivals run.state run.later run.result

-- The loop after a step of `scan` and, where that goes on, one of `refill`.
Scanned-Receives :
    (s : StreamState) (until : ℕ) (m : Moment) (arrivals : List Arrival) (step : Step)
    (rest : Progress StreamState Arrival Bytes)
    → Scanned s until m step
    → (step.1 ≡ none → Scanned s until m (step.0, none) → Receives s until m arrivals rest)
    → Receives s until m arrivals (ended step arrivals rest)
unfolding ended
Scanned-Receives s until m arrivals (s', none) rest k go = go refl k
Scanned-Receives s until m arrivals (s', some (ok payload)) rest k go =
    (k.0, k.1, [], refl, rw (append-nil (undelivered s)) k.2)
Scanned-Receives s until m arrivals (s', some (err error)) rest (f, inl (p, e)) go =
    (f, inr (e, [], arrivals, refl, rw (append-nil (undelivered s)) p))
Scanned-Receives s until m arrivals (s', some (err error)) rest (f, inr late) go =
    (f, inl (rw late refl))

-- The bytes of a read and of those after it, behind what was undelivered.
joined :
    (before now more : Bytes) (after : Bytes)
    → after ≡ before ++ now
    → before ++ (now ++ more) ≡ after ++ more
joined before now more after e = rw (e, append_assoc) refl

waiting :
    (s : StreamState) (until : ℕ) (m : Moment) (s' : StreamState)
    → Scanned s until m (s', none)
    → Comes s until m [] s' [] none
waiting s until m s' (l, u, p, i) = (
  l,
  p ∙ sym (append-nil (undelivered s)),
  ap parse (append-nil (undelivered s)) ∙ i,
  omega arith,
)

later_Comes :
    (s s' t : StreamState) (until : ℕ) (m : Moment) (a : Arrival) (arrivals later : List Arrival)
    (result : Option (Result TransportFailure Bytes))
    → undelivered s' ≡ undelivered s ++ a.bytes
    → 0 < length a.bytes
    → Comes s' until a.moment arrivals t later result
    → Comes s until m (a ∷ arrivals) t later result
later_Comes s s' t until m a arrivals later none e z k =
    let whole = joined (undelivered s) a.bytes (flow arrivals) (undelivered s') e in
    (
      k.0,
      k.1 ∙ sym whole,
      ap parse whole ∙ k.2,
      omega (arith, length-append a.bytes (flow arrivals), z, k.3),
    )
later_Comes s s' t until m a arrivals later (some (ok payload)) e z (l, b, used, split, p) = (
  l,
  b,
  a ∷ used,
  ap (◌∷◌ a) split,
  ap parse (joined (undelivered s) a.bytes (flow used) (undelivered s') e) ∙ p,
)
later_Comes s s' t until m a arrivals later (some (err error)) e z (f, inl unsteady) =
    (f, inl (ground (arith, unsteady)))
later_Comes s s' t until m a arrivals later (some (err error)) e z
      (f, inr (w, used, rest, split, p)) =
    (
      f,
      inr (
        w,
        a ∷ used,
        rest,
        ap (◌∷◌ a) split,
        ap parse (joined (undelivered s) a.bytes (flow used) (undelivered s') e) ∙ p,
      ),
    )

Refilled-Receives :
    (s s0 : StreamState) (until : ℕ) (m : Moment) (a : Arrival) (arrivals : List Arrival)
    (step : Step) (rest : Progress StreamState Arrival Bytes)
    → pending s0.decoder ≡ undelivered s
    → Refilled s0 until a step
    → (step.1 ≡ none
        → Refilled s0 until a (step.0, none)
        → Receives step.0 until a.moment arrivals rest)
    → Receives s until m (a ∷ arrivals) (ended step arrivals rest)
unfolding ended
Refilled-Receives s s0 until m a arrivals (s', none) rest e (l, d, u, z) go =
    later_Comes s s' rest.state until m a arrivals rest.later rest.result (rw (d, u, e) refl) z
      (go refl (l, d, u, z))
Refilled-Receives s s0 until m a arrivals (s', some (ok payload)) rest e k go =
    absurd (omega (arith, k))
Refilled-Receives s s0 until m a arrivals (s', some (err error)) rest e (f, b) go =
    (f, inl (ground (arith, b)))

-- Whatever the reads bring and however they cut it, the loop of `receive` does what the grammar says
-- of the bytes: it delivers the next payload and keeps what is behind it, or it refuses a length
-- that the bytes announce, or it fails as a read or a round's preflight did, or it has taken in
-- all the bytes and waits for more. Only a stream that has failed returns an error.
pub receive_loop-Receives :
    (s : StreamState) (until : ℕ) (m : Moment) (arrivals : List Arrival)
    → IsLive s
    → AllDeliver until arrivals
    → Receives s until m arrivals (receive_loop s until m arrivals)
unfolding receive_loop
receive_loop-Receives s until m [] l h =
    Scanned-Receives s until m [] (scan s until m)
      (record { state = (scan s until m).0; result = none; later = [] }) (scan-Scanned s until m l)
      (λ _ k. waiting s until m (scan s until m).0 k)
receive_loop-Receives s until m (a ∷ arrivals) l h =
    let step = scan s until m in
    let next = refill step.0 until a in
    let rest = receive_loop next.0 until a.moment arrivals in
    Scanned-Receives s until m (a ∷ arrivals) step (ended next arrivals rest)
      (scan-Scanned s until m l)
      (λ _ k.
        Refilled-Receives s step.0 until m a arrivals next rest k.2
          (refill-Refilled step.0 until a k.0 h.0)
          (λ _ r. receive_loop-Receives next.0 until a.moment arrivals r.0 h.1))
