-- ===== src/Framing/Refinement.antt =====
-- src/protocol/framing.cpp, `frame_decoder::consume`: each call against the description of Spec.
use stream_labs_test_assingm.Base.{
  ℕ, ◌+◌, ◌-◌, ◌≤◌, ◌<◌, ◌≡◌, refl, ap, ◌∙◌, false, ◌||◌, none, [], ◌++◌, append_assoc, append-nil,
  ltb, ◌==◌, length, take, drop, arith, length-append, length-take, length-drop, take_all, drop_all,
  take-append-drop, take-append-append, Bool-cases, inl, inr, min,
}
use stream_labs_test_assingm.Contracts.{max_payload_bytes}
use stream_labs_test_assingm.Framing.{
  Bytes, FrameDecoder, read_header, consume_payload, accept_header, consume_header, consume,
}
use stream_labs_test_assingm.Framing.Spec.{incomplete, parse, pending, IsSound}
use stream_labs_test_assingm.Framing.Body.{
  progress, Refines, BodyFits, IsSound-BodyFits, parse_body_short, parse_past_header,
  BodyFits-IsSound, body-Refines,
}

-- A complete header is refused, or announces the payload that follows.
accept-Refines :
    (d : FrameDecoder) (before stream input : Bytes) (cut : ℕ)
    → d.poisoned ≡ false
    → length d.header ≡ 4
    → d.header_used ≡ 4
    → d.payload ≡ []
    → cut ≤ length stream
    → input ≡ drop cut stream
    → before ++ stream ≡ d.header ++ input
    → Refines
        (parse (before ++ stream))
        before
        stream
        (accept_header d (read_header 0 0 d.header) (length stream) input)
unfolding accept_header
accept-Refines d before stream input cut l h u p c e w =
    let size = read_header 0 0 d.header in
    elim (Bool-cases (size == 0 || ltb max_payload_bytes size)) [
      | inl bad ↦ rw (ap parse w ∙ parse_past_header d.header input h, bad) (refl, refl)
      | inr good ↦ rw good (
          body-Refines (record d { expected = size }) before stream input cut
            (BodyFits-IsSound _ l h u (ground (arith, ap length p), ground arith, refl)) u c e
            (rw p w))
    ]

-- The input ends within the header.
consume_header_short :
    (d : FrameDecoder) (input : Bytes)
    → d.header_used + length input < 4
    → consume_header d input ≡ (
      record d {
        header =
            take d.header_used d.header ++ (input ++ drop (d.header_used + length input) d.header);
        header_used = d.header_used + length input;
      },
      progress (length input) none,
    )
unfolding consume_header
consume_header_short d input h =
    let count : min (length input) (4 - d.header_used) ≡ length input = omega arith in
    rw (count, take_all (length input) input (omega arith)) (ground arith)

-- The input completes the header.
consume_header_full :
    (d : FrameDecoder) (input : Bytes)
    → length d.header ≡ 4
    → d.header_used ≤ 4
    → 4 ≤ d.header_used + length input
    → let header = take d.header_used d.header ++ take (4 - d.header_used) input in
      consume_header d input
      ≡ accept_header
          (record d { header = header; header_used = 4 })
          (read_header 0 0 header)
          (length input)
          (drop (4 - d.header_used) input)
unfolding consume_header
consume_header_full d input l u h =
    let count : min (length input) (4 - d.header_used) ≡ 4 - d.header_used = omega arith in
    let used : d.header_used + (4 - d.header_used) ≡ 4 = omega arith in
    rw (count, used, drop_all 4 d.header (omega arith), append-nil (take (4 - d.header_used) input))

abbrev HeaderFits : FrameDecoder → Type 0
HeaderFits d = (d.payload ≡ []) × (d.expected ≡ 0)

IsSound-HeaderFits : (d : FrameDecoder) → IsSound d → d.header_used < 4 → HeaderFits d
IsSound-HeaderFits d s u = ground (arith, s.payload_fits)

parse_short : (stream : Bytes) → length stream < 4 → parse stream ≡ incomplete
unfolding parse
parse_short stream h = ground arith

-- A call that starts within the header.
header-Refines :
    (d : FrameDecoder) (input : Bytes)
    → IsSound d
    → d.header_used < 4
    → Refines (parse (pending d ++ input)) (pending d) input (consume_header d input)
header-Refines d input s u = elim (Bool-cases (ltb (d.header_used + length input) 4)) [
  | inl short ↦
      rw
        (
          parse_short (pending d ++ input) (ground (arith, sizes, got)),
          consume_header_short d input (ground arith),
        )
        (
          record {
            live = s.live;
            whole_header = ground (
              arith,
              length-append (take d.header_used d.header)
                  (input ++ drop (d.header_used + length input) d.header),
              length-append input (drop (d.header_used + length input) d.header),
              length-drop (d.header_used + length input) d.header,
              got,
              s.whole_header,
            );
            used_bound = ground arith;
            payload_fits = ground (arith, empty);
          },
          rw
              (
                empty.0,
                append-nil (take d.header_used d.header),
                append-nil (
                    take (d.header_used + length input) (
                      take d.header_used d.header
                      ++ (input ++ drop (d.header_used + length input) d.header))),
              )
              (take-append-append _ (take d.header_used d.header) input _ (omega (arith, got))),
          refl,
        )
  | inr full ↦ rw (consume_header_full d input s.whole_header s.used_bound (ground arith)) (
      accept-Refines _ (pending d) input _ (4 - d.header_used) s.live
        (ground (
          arith,
          length-append (take d.header_used d.header) (take (4 - d.header_used) input),
          length-take (4 - d.header_used) input,
          got,
        ))
        refl empty.0 (ground arith) refl
        (rw (at_boundary, append_assoc, take-append-drop (4 - d.header_used) input)))
]
  where
    empty : HeaderFits d
    empty = IsSound-HeaderFits d s u

    got : length (take d.header_used d.header) ≡ d.header_used
    got = omega (arith, length-take d.header_used d.header, s.whole_header)

    at_boundary : pending d ≡ take d.header_used d.header
    at_boundary = rw empty.0 (append-nil (take d.header_used d.header))

    sizes : length (pending d ++ input) ≡ d.header_used + length input
    sizes = omega (arith, length-append (pending d) input, ap length at_boundary, got)

consume_in_header :
    (d : FrameDecoder) (input : Bytes)
    → d.poisoned ≡ false
    → d.header_used < 4
    → consume d input ≡ consume_header d input
unfolding consume
consume_in_header d input l u = ground arith

consume_in_body :
    (d : FrameDecoder) (input : Bytes)
    → d.poisoned ≡ false
    → d.header_used ≡ 4
    → consume d input ≡ consume_payload d (length input) input
unfolding consume
consume_in_body d input l u = ground arith

-- The bytes that a sound decoder holds are no whole frame.
pub pending-incomplete : (d : FrameDecoder) → IsSound d → parse (pending d) ≡ incomplete
pending-incomplete d s = elim (Bool-cases (ltb d.header_used 4)) [
  | inl header ↦
      let empty : HeaderFits d = IsSound-HeaderFits d s (ground arith) in
      rw (empty.0, append-nil (take d.header_used d.header))
        (parse_short (take d.header_used d.header)
          (ground (arith, length-take d.header_used d.header, s.whole_header)))
  | inr body ↦
      let u : d.header_used ≡ 4 = ground (arith, s.used_bound) in
      let fits : BodyFits d = IsSound-BodyFits d s u in
      rw (
        u,
        take_all 4 d.header (omega (arith, s.whole_header)),
        parse_past_header d.header d.payload s.whole_header,
        fits.2,
        parse_body_short d.expected d.payload fits.0 fits.1,
      )
]

-- A call of `consume` on a decoder that has not failed acts on the bytes received since the last
-- frame boundary as `parse` says: an incomplete frame is buffered whole, a refused length poisons
-- the decoder, and a complete frame is delivered at a clean boundary with the surplus unconsumed.
pub consume-Refines :
    (d : FrameDecoder) (input : Bytes)
    → IsSound d
    → Refines (parse (pending d ++ input)) (pending d) input (consume d input)
consume-Refines d input s = elim (Bool-cases (ltb d.header_used 4)) [
  | inl header ↦
      rw (consume_in_header d input s.live (ground arith)) (header-Refines d input s (ground arith))
  | inr body ↦
      let u : d.header_used ≡ 4 = ground (arith, s.used_bound) in
      rw (consume_in_body d input s.live u) (
        body-Refines d (pending d) input input 0 s u (omega arith) refl
          (rw (u, take_all 4 d.header (omega (arith, s.whole_header)), append_assoc)))
]
