-- ===== src/Framing/Roundtrip.antt =====
-- src/protocol/framing.cpp: `frame` against `frame_decoder::consume`, and `finish` at the end of a
-- stream.
use stream_labs_test_assingm.Base.{
  ℕ, ◌+◌, ◌-◌, ◌%◌, ◌^◌, ◌≤◌, ◌<◌, ◌≡◌, ◌≢◌, ◌⊎◌, refl, ap, ◌∙◌, ◌||◌, ltb, none, some, [], ◌++◌,
  append_assoc, ◌==◌, length, take, arith, length-append, length-take, take_all, drop_all,
  take-append_within, drop-append_within, Bool-cases, inl, inr,
}
use stream_labs_test_assingm.Base.Result.{ok, err, ok-injective}
use stream_labs_test_assingm.Contracts.{FailureCode, max_payload_bytes}
use stream_labs_test_assingm.Framing.{
  Bytes, FrameDecoder, framing_failure, read_header, write_header, frame, consume, finish,
}
use stream_labs_test_assingm.Framing.Spec.{complete, parse, pending, IsSound}
use stream_labs_test_assingm.Framing.Refinement.{consume-Refines}
use stream_labs_test_assingm.Framing.Body.{progress, Refines, parse_past_header, parse_body_full}

read_header-write_header :
    (size : ℕ) → size < 2 ^ 32 → read_header 0 0 (write_header 4 0 size) ≡ size
unfolding read_header write_header
read_header-write_header size h = omega arith

length-write_header : (size : ℕ) → length (write_header 4 0 size) ≡ 4
unfolding write_header
length-write_header size = refl

frame_within :
    (payload : Bytes)
    → 0 < length payload
    → length payload ≤ max_payload_bytes
    → frame payload ≡ ok (write_header 4 0 (length payload) ++ payload)
unfolding frame
frame_within payload z h =
    let same : length payload % 2 ^ 32 ≡ length payload = omega arith in rw same (ground arith)

pub parse-frame :
    (payload rest : Bytes)
    → 0 < length payload
    → length payload ≤ max_payload_bytes
    → parse ((write_header 4 0 (length payload) ++ payload) ++ rest) ≡ complete payload rest
parse-frame payload rest z h =
    let size = length payload in
    rw (
      append_assoc,
      parse_past_header (write_header 4 0 size) (payload ++ rest) (length-write_header size),
      read_header-write_header size (omega arith),
      parse_body_full size (payload ++ rest) z h (omega (arith, length-append payload rest)),
      take-append_within size payload rest (omega arith),
      take_all size payload (omega arith),
      drop-append_within size payload rest (omega arith),
      drop_all size payload (omega arith),
    )

-- `frame` accepts a payload only within the limits, and then puts its size in front of it.
pub frame-inverse :
    (payload framed : Bytes)
    → frame payload ≡ ok framed
    → (0 < length payload)
      × (length payload ≤ max_payload_bytes)
      × (framed ≡ write_header 4 0 (length payload) ++ payload)
unfolding frame
frame-inverse payload framed e =
    elim (Bool-cases (length payload == 0 || ltb max_payload_bytes (length payload))) [
      | inl bad ↦
          let no : frame payload ≡ err (framing_failure FailureCode.limit_exceeded) =
            rw (frame, bad) refl in
          absurd (cc (e, no))
      | inr good ↦
          let low : 0 < length payload = ground (arith, good) in
          let high : length payload ≤ max_payload_bytes = ground (arith, good) in
          (low, high, ok-injective (frame payload) e (frame_within payload low high))
    ]

-- Whatever `frame` made parses as its payload, and what follows it is left.
pub parse-framed :
    (payload framed rest : Bytes)
    → frame payload ≡ ok framed
    → parse (framed ++ rest) ≡ complete payload rest
parse-framed payload framed rest e =
    let made = frame-inverse payload framed e in rw made.2 (parse-frame payload rest made.0 made.1)

-- A frame is its payload behind four bytes, so its length fits.
pub length-framed :
    (payload framed : Bytes) → frame payload ≡ ok framed → length framed ≤ max_payload_bytes + 4
length-framed payload framed e =
    let made = frame-inverse payload framed e in
    omega (
      arith,
      ap length made.2,
      length-append (write_header 4 0 (length payload)) payload,
      length-write_header (length payload),
      made.1,
    )

-- A decoder at a frame boundary.
pub record IsClean (d : FrameDecoder) : Type 0 where
  pub sound : IsSound d
  pub boundary : pending d ≡ []

-- Whatever follows it on the stream, a frame that `frame` made is delivered unchanged by the
-- decoder that starts at its boundary, in one call that consumes the frame's bytes and no more, and
-- the decoder is at a boundary again. Every nonempty payload within the limit has such a frame.
pub consume-frame :
    (d : FrameDecoder) (payload rest : Bytes)
    → IsClean d
    → 0 < length payload
    → length payload ≤ max_payload_bytes
    → (framed : Bytes) × (frame payload ≡ ok framed)
      × ((consume d (framed ++ rest)).1 ≡ progress (length payload + 4) (some payload))
      × IsClean (consume d (framed ++ rest)).0
consume-frame d payload rest c z h = (
  framed,
  frame_within payload z h,
  r.2 ∙ ap (λ n. progress n (some payload)) count,
  record { sound = r.0; boundary = r.1 },
)
  where
    framed : Bytes
    framed = write_header 4 0 (length payload) ++ payload

    parsed : parse (pending d ++ (framed ++ rest)) ≡ complete payload rest
    parsed = rw c.boundary (parse-frame payload rest z h)

    r : Refines (complete payload rest) (pending d) (framed ++ rest) (consume d (framed ++ rest))
    r = rw parsed at (consume-Refines d (framed ++ rest) c.sound)

    count : length (framed ++ rest) - length rest ≡ length payload + 4
    count = omega (
      arith,
      length-append framed rest,
      length-append (write_header 4 0 (length payload)) payload,
      length-write_header (length payload),
    )

got_header : (d : FrameDecoder) → IsSound d → length (take d.header_used d.header) ≡ d.header_used
got_header d s = omega (arith, length-take d.header_used d.header, s.whole_header, s.used_bound)

-- At the end of the stream a decoder that has not failed either stands at a frame boundary and
-- reports nothing, or holds bytes of an unfinished frame and reports it as truncated.
pub finish-pending :
    (d : FrameDecoder)
    → IsSound d
    → ((finish d ≡ none) × (pending d ≡ []))
      ⊎ ((finish d ≡ some (framing_failure FailureCode.truncated)) × (pending d ≢ []))
unfolding finish
finish-pending d s = elim (Bool-cases (d.header_used == 0)) [
  | inl zero_used ↦
      let u : d.header_used ≡ 0 = ground arith in
      inl (ground (arith, s.live), rw u (ground (arith, s.payload_fits)))
  | inr used ↦ inr (
    ground (arith, s.live),
    λ e. absurd (
        ground (
          arith,
          ap length e,
          length-append (take d.header_used d.header) d.payload,
          got_header d s,
        )),
  )
]
