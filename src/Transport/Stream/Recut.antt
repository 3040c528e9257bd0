-- ===== src/Transport/Stream/Recut.antt =====
-- src/transport/windows/stream.cpp, `pipe_stream::receive`: its result by the bytes alone, and its end.
use stream_labs_test_assingm.Base.{
  ℕ, ◌+◌, ◌≤◌, ◌<◌, ◌≡◌, ◌≢◌, inl, inr, refl, sym, ap, ◌∙◌, true, false, Option, none, some, List,
  [], ◌∷◌, ◌++◌, append_assoc, length, take, arith, length-append, length-take,
}
use stream_labs_test_assingm.Base.Result.{Result, ok, err}
use stream_labs_test_assingm.Contracts.{FailureCode, max_payload_bytes}
use stream_labs_test_assingm.Framing.{Bytes, FrameDecoder, framing_failure}
use stream_labs_test_assingm.Framing.Spec.{
  Parsed, incomplete, refused, complete, parse, pending, IsSound,
}
use stream_labs_test_assingm.Framing.Extension.{extended, is_over, parse-extended}
use stream_labs_test_assingm.Completion.{TransportFailure}
use stream_labs_test_assingm.Transport.Native.{Moment}
use stream_labs_test_assingm.Transport.Stream.{
  StreamState, Progress, Arrival, violation, receive_loop, receive_live,
}
use stream_labs_test_assingm.Transport.Stream.Receiving.{IsLive, undelivered}
use stream_labs_test_assingm.Transport.Stream.Delivery.{
  flow, AllDeliver, steady, Comes, receive_loop-Receives,
}

flow-append : (used later : List Arrival) → flow (used ++ later) ≡ flow used ++ flow later
flow-append [] later = refl
flow-append (a ∷ used) later = rw (flow-append used later, append_assoc) refl

-- The result that the bytes call for.
abbrev pub verdict : Parsed → Option (Result TransportFailure Bytes)
verdict incomplete = none
verdict refused = some (err (violation (framing_failure FailureCode.limit_exceeded)))
verdict (complete payload rest) = some (ok payload)

-- The bytes behind the payload.
abbrev pub surplus : Parsed → Bytes
surplus (complete payload rest) = rest
surplus p = []

-- What is left of the bytes: undelivered in the stream, or not read yet.
abbrev pub leftover : Progress StreamState Arrival Bytes → Bytes
leftover run = undelivered run.state ++ flow run.later

-- The result is the verdict, and a payload leaves the bytes behind it.
abbrev pub Judges : Parsed → Progress StreamState Arrival Bytes → Type 0
Judges p run =
    (run.result ≡ verdict p)
    × ((payload : Bytes) → run.result ≡ some (ok payload) → leftover run ≡ surplus p)

whole_parse :
    (before : Bytes) (arrivals used later : List Arrival) (p : Parsed)
    → arrivals ≡ used ++ later
    → parse (before ++ flow used) ≡ p
    → is_over p ≡ true
    → parse (before ++ flow arrivals) ≡ extended p (flow later)
whole_parse before arrivals used later p split e o =
    rw (split, flow-append used later, sym (append_assoc before (flow used) (flow later)))
      (parse-extended (before ++ flow used) (flow later) (ap is_over e ∙ o)
        ∙ ap (λ q. extended q (flow later)) e)

Comes-Judges :
    (s : StreamState) (until : ℕ) (m : Moment) (arrivals : List Arrival) (s' : StreamState)
    (later : List Arrival) (result : Option (Result TransportFailure Bytes))
    → steady until m arrivals ≡ true
    → Comes s until m arrivals s' later result
    → Judges
        (parse (undelivered s ++ flow arrivals))
        (record { state = s'; result = result; later = later })
Comes-Judges s until m arrivals s' later none t k = rw k.2 (refl, λ payload e. absurd (cc e))
Comes-Judges s until m arrivals s' later (some (ok payload)) t (l, b, used, split, p) =
    rw (whole_parse (undelivered s) arrivals used later _ split p refl)
      (refl, λ payload e. rw b refl)
Comes-Judges s until m arrivals s' later (some (err error)) t (f, inl unsteady) =
    absurd (cc (t, unsteady))
Comes-Judges s until m arrivals s' later (some (err error)) t (f, inr (w, used, rest, split, p)) =
    rw (w, whole_parse (undelivered s) arrivals used rest _ split p refl)
      (refl, λ payload e. absurd (cc e))

live_loop :
    (s : StreamState) (until : ℕ) (m : Moment) (arrivals : List Arrival)
    → s.failed ≡ false
    → receive_live s until m arrivals ≡ receive_loop s until m arrivals
unfolding receive_live
live_loop s until m arrivals h = rw h refl

-- A call of `receive` whose reads all bring bytes, in time, returns what the grammar says of the
-- bytes held and read, however the reads cut them: nothing yet, a refused length, or the next
-- payload. A payload leaves exactly the bytes behind it, in the stream or not read yet.
pub receive-Judges :
    (s : StreamState) (until : ℕ) (m : Moment) (arrivals : List Arrival)
    → IsLive s
    → AllDeliver until arrivals
    → steady until m arrivals ≡ true
    → Judges (parse (undelivered s ++ flow arrivals)) (receive_live s until m arrivals)
receive-Judges s until m arrivals l h t =
    let run = receive_loop s until m arrivals in
    rw (live_loop s until m arrivals l.alive) (
      Comes-Judges s until m arrivals run.state run.later run.result t
        (receive_loop-Receives s until m arrivals l h))

Comes-IsLive :
    (s : StreamState) (until : ℕ) (m : Moment) (arrivals : List Arrival) (s' : StreamState)
    (later : List Arrival) (result : Option (Result TransportFailure Bytes)) (payload : Bytes)
    → Comes s until m arrivals s' later result
    → result ≡ some (ok payload)
    → IsLive s'
Comes-IsLive s until m arrivals s' later none payload k e = absurd (cc e)
Comes-IsLive s until m arrivals s' later (some (ok other)) payload k e = k.0
Comes-IsLive s until m arrivals s' later (some (err error)) payload k e = absurd (cc e)

-- A stream that has returned a payload is still live.
pub receive-IsLive :
    (s : StreamState) (until : ℕ) (m : Moment) (arrivals : List Arrival) (payload : Bytes)
    → IsLive s
    → AllDeliver until arrivals
    → (receive_live s until m arrivals).result ≡ some (ok payload)
    → IsLive (receive_live s until m arrivals).state
receive-IsLive s until m arrivals payload l h =
    let run = receive_loop s until m arrivals in
    rw (live_loop s until m arrivals l.alive) (
      Comes-IsLive s until m arrivals run.state run.later run.result payload
        (receive_loop-Receives s until m arrivals l h))

-- Two calls of `receive` on the same bytes, some held already and the rest cut into any reads that
-- all bring bytes in time, return the same, and where they return a payload the same bytes are
-- left.
pub receive-recut :
    (s t : StreamState) (until : ℕ) (m n : Moment) (arrivals others : List Arrival)
    → IsLive s
    → IsLive t
    → AllDeliver until arrivals
    → AllDeliver until others
    → steady until m arrivals ≡ true
    → steady until n others ≡ true
    → undelivered s ++ flow arrivals ≡ undelivered t ++ flow others
    → ((receive_live s until m arrivals).result ≡ (receive_live t until n others).result)
      × ((payload : Bytes)
          → (receive_live s until m arrivals).result ≡ some (ok payload)
          → leftover (receive_live s until m arrivals) ≡ leftover (receive_live t until n others))
receive-recut s t until m n arrivals others l k h i g j e =
    let one = receive-Judges s until m arrivals l h g in
    let two = rw (sym e) at (receive-Judges t until n others k i j) in
    let same = one.0 ∙ sym two.0 in
    (same, λ payload r. one.1 payload r ∙ sym (two.1 payload (sym same ∙ r)))

length-pending : (d : FrameDecoder) → IsSound d → length (pending d) < max_payload_bytes + 4
length-pending d s = ground (
  arith,
  length-append (take d.header_used d.header) d.payload,
  length-take d.header_used d.header,
  s.whole_header,
  s.used_bound,
  s.payload_fits,
)

Comes-ends :
    (s : StreamState) (until : ℕ) (m : Moment) (arrivals : List Arrival) (s' : StreamState)
    (later : List Arrival) (result : Option (Result TransportFailure Bytes))
    → max_payload_bytes + 4 ≤ length arrivals
    → Comes s until m arrivals s' later result
    → result ≢ none
Comes-ends s until m arrivals s' later none h (l, p, i, n) = absurd (
    omega (
      arith,
      ap length p,
      length-append (undelivered s) (flow arrivals),
      length-pending s'.decoder l.sound,
      h,
      n,
    ))
Comes-ends s until m arrivals s' later (some result) h k = λ e. absurd (cc e)

-- The loop of `receive` ends: no more reads than a frame of the largest payload has bytes are made
-- before it returns, whatever the system answers.
pub receive-ends :
    (s : StreamState) (until : ℕ) (m : Moment) (arrivals : List Arrival)
    → IsLive s
    → AllDeliver until arrivals
    → max_payload_bytes + 4 ≤ length arrivals
    → (receive_live s until m arrivals).result ≢ none
receive-ends s until m arrivals l h n =
    let run = receive_loop s until m arrivals in
    rw (live_loop s until m arrivals l.alive) (
      Comes-ends s until m arrivals run.state run.later run.result n
        (receive_loop-Receives s until m arrivals l h))
