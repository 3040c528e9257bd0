-- ===== src/Transport/Stream/Sending.antt =====
-- src/transport/windows/stream.cpp, `pipe_stream::send`: what it leaves written.
use stream_labs_test_assingm.Base.{
  ℕ, ◌+◌, ◌≤◌, ◌<◌, ◌≡◌, ◌≢◌, inl, inr, refl, sym, ap, ◌∙◌, true, false, ◌||◌, Option, none, some,
  List, [], ◌∷◌, ◌++◌, append_assoc, ltb, ◌==◌, length, take, drop, arith, length-append,
  length-take, take-append-drop, Bool-cases, Option-cases,
}
use stream_labs_test_assingm.Base.Result.{Result, ok, err, Result-cases, ok-injective}
use stream_labs_test_assingm.Contracts.{max_payload_bytes}
use stream_labs_test_assingm.Framing.{Bytes, frame, write_header}
use stream_labs_test_assingm.Framing.Roundtrip.{frame-inverse, parse-framed, length-framed}
use stream_labs_test_assingm.Completion.{TransportFailure}
use stream_labs_test_assingm.Transport.Native.{Moment, Attempt, preflight, write_some}
use stream_labs_test_assingm.Transport.Stream.{
  StreamState, Arrival, receive_live, send_loop, send_framed, send_timely, send_live,
}
use stream_labs_test_assingm.Transport.Stream.Receiving.{IsLive, undelivered}
use stream_labs_test_assingm.Transport.Stream.Delivery.{flow, AllDeliver, steady}
use stream_labs_test_assingm.Transport.Stream.Recut.{leftover, receive-Judges}

-- What the loop of `send` has come to: the state, the result if it has returned, and the bytes
-- written.
abbrev pub Sending : Type 0
Sending = StreamState × Option (Result TransportFailure ℕ) × Bytes

-- Of the bytes `owned`: a success has written them all, and a failure fails the stream short of
-- them. Each write before either has written a byte.
abbrev pub Writes : StreamState → Bytes → ℕ → List Attempt → Sending → Type 0
Writes s owned size attempts (s', none, written) =
    (s' ≡ s)
    × (length attempts ≤ length written)
    × (rest : Bytes) × (written ++ rest ≡ owned)
    × (0 < length rest)
Writes s owned size attempts (s', some (ok n), written) = (s' ≡ s) × (n ≡ size) × (written ≡ owned)
Writes s owned size attempts (s', some (err error), written) =
    (s'.failed ≡ true) × (rest : Bytes) × (written ++ rest ≡ owned) × (0 < length rest)

-- A write of `count` bytes before the rest of the loop.
after_write :
    (s : StreamState) (owned : Bytes) (count size : ℕ) (a : Attempt) (attempts : List Attempt)
    (s' : StreamState) (result : Option (Result TransportFailure ℕ)) (written : Bytes)
    → 0 < count
    → count ≤ length owned
    → Writes s (drop count owned) size attempts (s', result, written)
    → Writes s owned size (a ∷ attempts) (s', result, take count owned ++ written)
after_write s owned count size a attempts s' none written z c (e, n, rest, w, r) = (
  e,
  omega (arith, length-append (take count owned) written, length-take count owned, n, z, c),
  rest,
  rw (append_assoc, w) (take-append-drop count owned),
  r,
)
after_write s owned count size a attempts s' (some (ok n)) written z c (e, m, w) =
    (e, m, rw w (take-append-drop count owned))
after_write s owned count size a attempts s' (some (err error)) written z c (f, rest, w, r) =
    (f, rest, rw (append_assoc, w) (take-append-drop count owned), r)

send_loop-Writes :
    (s : StreamState) (owned : Bytes) (size until : ℕ) (attempts : List Attempt)
    → Writes s owned size attempts (send_loop s owned size until attempts)
unfolding send_loop
send_loop-Writes s [] size until attempts = (refl, refl, refl)
send_loop-Writes s (b ∷ owned) size until [] = (refl, omega arith, b ∷ owned, refl, omega arith)
send_loop-Writes s (b ∷ owned) size until (a ∷ attempts) =
    let all = b ∷ owned in
    elim (Result-cases (write_some (length all) until a).1) [
      | inl (error, e) ↦ rw (send_loop, e) (refl, all, refl, omega arith)
      | inr (count, e) ↦ elim (Bool-cases (count == 0 || ltb (length all) count)) [
        | inl wrong ↦ rw (send_loop, e, wrong) (refl, all, refl, omega arith)
        | inr right ↦
            let later = send_loop s (drop count all) size until attempts in
            rw (send_loop, e, right)
              (after_write s all count size a attempts later.0 later.1 later.2
                (ground (arith, right)) (ground (arith, right))
                (send_loop-Writes s (drop count all) size until attempts))
      ]
    ]

-- What `send` does of a frame that is refused, or of one that is not.
abbrev pub Sends : StreamState → Bytes → List Attempt → Sending → Type 0
Sends s payload attempts (s', some (ok n), written) =
    (s' ≡ s) × (frame payload ≡ ok written) × (n ≡ length written)
Sends s payload attempts (s', some (err error), written) =
    (s'.failed ≡ true)
    × ((framed : Bytes)
        → frame payload ≡ ok framed
        → (rest : Bytes) × (written ++ rest ≡ framed) × (0 < length rest))
Sends s payload attempts (s', none, written) =
    (s' ≡ s)
    × (length attempts ≤ length written)
    × (framed : Bytes) × (frame payload ≡ ok framed)
    × (rest : Bytes) × (written ++ rest ≡ framed)
    × (0 < length rest)

written_Sends :
    (s : StreamState) (payload owned : Bytes) (attempts : List Attempt) (s' : StreamState)
    (result : Option (Result TransportFailure ℕ)) (written : Bytes)
    → frame payload ≡ ok owned
    → Writes s owned (length owned) attempts (s', result, written)
    → Sends s payload attempts (s', result, written)
written_Sends s payload owned attempts s' none written f (e, n, rest, w, r) =
    (e, n, owned, f, rest, w, r)
written_Sends s payload owned attempts s' (some (ok n)) written f (e, m, w) =
    (e, f ∙ ap ok (sym w), m ∙ ap length (sym w))
written_Sends s payload owned attempts s' (some (err error)) written f (e, rest, w, r) =
    (e, λ framed g. (rest, w ∙ ok-injective (frame payload) f g, r))

send_framed-Sends :
    (s : StreamState) (payload : Bytes) (until : ℕ) (attempts : List Attempt)
    → Sends s payload attempts (send_framed s (frame payload) until attempts)
unfolding send_framed
send_framed-Sends s payload until attempts = elim (Result-cases (frame payload)) [
  | inl (error, e) ↦ rw (send_framed, e) (refl, λ framed f. absurd (cc f))
  | inr (owned, e) ↦
      let out = send_loop s owned (length owned) until attempts in
      let t : send_framed s (frame payload) until attempts ≡ out = rw (send_framed, e) refl in
      rw t (
        written_Sends s payload owned attempts out.0 out.1 out.2 e
          (send_loop-Writes s owned (length owned) until attempts))
]

send_timely-Sends :
    (s : StreamState) (payload : Bytes) (until : ℕ) (m : Moment) (attempts : List Attempt)
    → Sends s payload attempts (send_timely s payload until m attempts)
unfolding send_timely
send_timely-Sends s payload until m attempts = elim (Option-cases (preflight until m)) [
  | inl e ↦ rw (send_timely, e) (send_framed-Sends s payload until attempts)
  | inr (error, e) ↦
      rw (send_timely, e)
        (
          refl,
          λ framed f.
              let made = frame-inverse payload framed f in
              (
                framed,
                refl,
                omega (
                  arith,
                  ap length made.2,
                  length-append (write_header 4 0 (length payload)) payload,
                  made.0,
                ),
              ),
        )
]

send_live_timely :
    (s : StreamState) (payload : Bytes) (until : ℕ) (m : Moment) (attempts : List Attempt)
    → s.failed ≡ false
    → send_live s payload until m attempts ≡ send_timely s payload until m attempts
unfolding send_live
send_live_timely s payload until m attempts h = ground arith

-- A call of `send` on a stream that has not failed: a success has written the frame of the payload
-- and nothing else, and returns its size. An error fails the stream, with a proper part of the
-- frame written, from its start. A call that has not returned has written a byte by each write.
pub send-Sends :
    (s : StreamState) (payload : Bytes) (until : ℕ) (m : Moment) (attempts : List Attempt)
    → s.failed ≡ false
    → Sends s payload attempts (send_live s payload until m attempts)
send-Sends s payload until m attempts h =
    rw (send_live_timely s payload until m attempts h)
      (send_timely-Sends s payload until m attempts)

Sends-ends :
    (s : StreamState) (payload : Bytes) (attempts : List Attempt) (s' : StreamState)
    (result : Option (Result TransportFailure ℕ)) (written : Bytes)
    → max_payload_bytes + 4 ≤ length attempts
    → Sends s payload attempts (s', result, written)
    → result ≢ none
Sends-ends s payload attempts s' none written h (e, n, framed, f, rest, w, r) = absurd (
    omega (arith, ap length w, length-append written rest, length-framed payload framed f, n, r, h))
Sends-ends s payload attempts s' (some result) written h k = λ e. absurd (cc e)

-- The loop of `send` ends: no more writes than the largest frame has bytes are made before it
-- returns, whatever the system answers.
pub send-ends :
    (s : StreamState) (payload : Bytes) (until : ℕ) (m : Moment) (attempts : List Attempt)
    → s.failed ≡ false
    → max_payload_bytes + 4 ≤ length attempts
    → (send_live s payload until m attempts).1 ≢ none
send-ends s payload until m attempts h n =
    let out = send_live s payload until m attempts in
    Sends-ends s payload attempts out.0 out.1 out.2 n (send-Sends s payload until m attempts h)

-- Bytes that start with a frame, received.
pub receive-framed :
    (t : StreamState) (payload framed more : Bytes) (until : ℕ) (m : Moment)
    (arrivals : List Arrival)
    → IsLive t
    → AllDeliver until arrivals
    → steady until m arrivals ≡ true
    → frame payload ≡ ok framed
    → undelivered t ++ flow arrivals ≡ framed ++ more
    → ((receive_live t until m arrivals).result ≡ some (ok payload))
      × (leftover (receive_live t until m arrivals) ≡ more)
receive-framed t payload framed more until m arrivals l d g f w =
    let judged =
      rw (w, parse-framed payload framed more f) at (receive-Judges t until m arrivals l d g) in
    (judged.0, judged.1 payload judged.0)

-- A successful `send` has written the frame.
pub sent-framed :
    (s : StreamState) (payload : Bytes) (until : ℕ) (m : Moment) (size : ℕ)
    (attempts : List Attempt)
    → s.failed ≡ false
    → (send_live s payload until m attempts).1 ≡ some (ok size)
    → frame payload ≡ ok (send_live s payload until m attempts).2
sent-framed s payload until m size attempts h e =
    let sends = rw e at (send-Sends s payload until m attempts h) in sends.1

-- What one stream has sent, another receives: when the bytes that the receiver holds and reads
-- start with those that a successful `send` wrote, and its reads all bring bytes in time, then
-- however they cut the bytes `receive` returns the payload and leaves the bytes behind the frame.
pub receive-send :
    (s t : StreamState) (payload more : Bytes) (until late : ℕ) (m n : Moment) (size : ℕ)
    (attempts : List Attempt) (arrivals : List Arrival)
    → s.failed ≡ false
    → IsLive t
    → AllDeliver late arrivals
    → steady late n arrivals ≡ true
    → (send_live s payload until m attempts).1 ≡ some (ok size)
    → undelivered t ++ flow arrivals ≡ (send_live s payload until m attempts).2 ++ more
    → ((receive_live t late n arrivals).result ≡ some (ok payload))
      × (leftover (receive_live t late n arrivals) ≡ more)
receive-send s t payload more until late m n size attempts arrivals h l d g e w =
    receive-framed t payload (send_live s payload until m attempts).2 more late n arrivals l d g
      (sent-framed s payload until m size attempts h e) w
