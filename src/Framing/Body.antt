-- ===== src/Framing/Body.antt =====
-- src/protocol/framing.cpp, `frame_decoder::consume`: the bytes behind a header, against the grammar.
use stream_labs_test_assingm.Base.{
  ℕ, ◌+◌, ◌-◌, ◌≤◌, ◌<◌, ◌≡◌, refl, sym, ap, ◌∙◌, true, false, Option, none, some, [], ◌++◌, ltb,
  length, take, drop, arith, length-append, length-take, length-drop, take_all, drop_all,
  take-append_beyond, drop-append_beyond, drop_suffix, take-append_within, Bool-cases, inl, inr,
  min,
}
use stream_labs_test_assingm.Base.Result.{ok, err}
use stream_labs_test_assingm.Base.Word.{sub64, sub64_exact}
use stream_labs_test_assingm.Contracts.{FailureCode, Fallible, max_payload_bytes}
use stream_labs_test_assingm.Framing.{
  Bytes, FrameDecoder, FrameProgress, framing_failure, read_header, consume_payload,
}
use stream_labs_test_assingm.Framing.Spec.{
  Parsed, incomplete, refused, complete, parse, parse_body, pending, IsSound,
}

abbrev pub progress : ℕ → Option Bytes → Fallible FrameProgress
progress n p = ok (record { consumed = n; payload = p })

-- The payload is still short of its announced size: all of the input is buffered.
consume_payload_short :
    (d : FrameDecoder) (size : ℕ) (input : Bytes)
    → d.expected ≤ max_payload_bytes
    → length d.payload + length input < d.expected
    → consume_payload d size input ≡ (record d { payload = d.payload ++ input }, progress size none)
unfolding consume_payload
consume_payload_short d size input h k =
    let count : min (length input) (sub64 d.expected (length d.payload)) ≡ length input =
      omega (arith, sub64_exact d.expected (length d.payload)) in
    rw
      (
        count,
        take_all (length input) input (omega arith),
        drop_all (length input) input (omega arith),
      )
      (ground (arith, length-append d.payload input))

-- The input completes the payload: the surplus is left to the caller.
consume_payload_full :
    (d : FrameDecoder) (size : ℕ) (input : Bytes)
    → d.expected ≤ max_payload_bytes
    → length d.payload < d.expected
    → d.expected ≤ length d.payload + length input
    → consume_payload d size input ≡ (
      record d { payload = []; header_used = 0; expected = 0 },
      progress
          (size - length (drop (d.expected - length d.payload) input))
          (some (d.payload ++ take (d.expected - length d.payload) input)),
    )
unfolding consume_payload
consume_payload_full d size input h l k =
    let count : min (length input) (sub64 d.expected (length d.payload))
        ≡ d.expected - length d.payload =
      omega (arith, sub64_exact d.expected (length d.payload)) in
    rw count (
      ground (
        arith,
        length-append d.payload (take (d.expected - length d.payload) input),
        length-take (d.expected - length d.payload) input,
      ))

-- The call's result when the bytes since the boundary, `before ++ input`, parse as the first
-- argument says.
abbrev pub Refines : Parsed → Bytes → Bytes → FrameDecoder × Fallible FrameProgress → Type 0
Refines incomplete before input out =
    IsSound out.0 × (pending out.0 ≡ before ++ input) × (out.1 ≡ progress (length input) none)
Refines refused before input out =
    (out.0.poisoned ≡ true) × (out.1 ≡ err (framing_failure FailureCode.limit_exceeded))
Refines (complete payload rest) before input out =
    IsSound out.0
    × (pending out.0 ≡ [])
    × (out.1 ≡ progress (length input - length rest) (some payload))
    × (drop (length input - length rest) input ≡ rest)

pub parse_body_short :
    (size : ℕ) (body : Bytes)
    → length body < size
    → size ≤ max_payload_bytes
    → parse_body size body ≡ incomplete
parse_body_short size body h k = ground arith

pub parse_body_full :
    (size : ℕ) (body : Bytes)
    → 0 < size
    → size ≤ max_payload_bytes
    → size ≤ length body
    → parse_body size body ≡ complete (take size body) (drop size body)
parse_body_full size body z h k = ground arith

pub parse_past_header :
    (header body : Bytes)
    → length header ≡ 4
    → parse (header ++ body) ≡ parse_body (read_header 0 0 header) body
unfolding parse
parse_past_header header body h =
    rw
      (
        take-append_within 4 header body (omega arith),
        take_all 4 header (omega arith),
        drop-append_beyond 4 header body (omega arith),
        length-append header body,
        h,
      )
      (ground arith)

abbrev pub BodyFits : FrameDecoder → Type 0
BodyFits d =
    (length d.payload < d.expected)
    × (d.expected ≤ max_payload_bytes)
    × (read_header 0 0 d.header ≡ d.expected)

pub IsSound-BodyFits : (d : FrameDecoder) → IsSound d → d.header_used ≡ 4 → BodyFits d
IsSound-BodyFits d s u = ground (arith, s.payload_fits)

pub BodyFits-IsSound :
    (d : FrameDecoder)
    → d.poisoned ≡ false
    → length d.header ≡ 4
    → d.header_used ≡ 4
    → BodyFits d
    → IsSound d
BodyFits-IsSound d l h u b = record {
  live = l;
  whole_header = h;
  used_bound = omega arith;
  payload_fits = ground (arith, b);
}

-- Past a complete header, for input that is what a cut of `stream` leaves.
pub body-Refines :
    (d : FrameDecoder) (before stream input : Bytes) (cut : ℕ)
    → IsSound d
    → d.header_used ≡ 4
    → cut ≤ length stream
    → input ≡ drop cut stream
    → before ++ stream ≡ d.header ++ (d.payload ++ input)
    → Refines (parse (before ++ stream)) before stream (consume_payload d (length stream) input)
body-Refines d before stream input cut s u c e w =
    rw (parse_whole, fits.2)
      (elim (Bool-cases (ltb (length d.payload + length input) d.expected)) [
        | inl short ↦
            rw
              (
                parse_body_short d.expected (d.payload ++ input) (ground (arith, joined)) fits.1,
                consume_payload_short d (length stream) input fits.1 (ground arith),
              )
              (
                BodyFits-IsSound _ s.live s.whole_header u (ground (arith, joined), fits.1, fits.2),
                rw (u, take_all 4 d.header (ground (arith, s.whole_header))) (sym w),
                refl,
              )
        | inr full ↦
            rw
              (
                parse_body_full d.expected (d.payload ++ input) (omega (arith, fits.0)) fits.1
                    (ground (arith, joined)),
                take-append_beyond d.expected d.payload input (omega (arith, fits.0)),
                drop-append_beyond d.expected d.payload input (omega (arith, fits.0)),
                consume_payload_full d (length stream) input fits.1 fits.0 (ground arith),
              )
              (
                record {
                  live = s.live;
                  whole_header = s.whole_header;
                  used_bound = omega arith;
                  payload_fits = (refl, refl);
                },
                refl,
                refl,
                rw e (
                    drop_suffix (d.expected - length d.payload) cut stream
                      (ground (arith, ap length e, length-drop cut stream, fits.0))),
              )
      ])
  where
    fits : BodyFits d
    fits = IsSound-BodyFits d s u

    joined : length (d.payload ++ input) ≡ length d.payload + length input
    joined = length-append d.payload input

    parse_whole :
        parse (before ++ stream) ≡ parse_body (read_header 0 0 d.header) (d.payload ++ input)
    parse_whole = ap parse w ∙ parse_past_header d.header (d.payload ++ input) s.whole_header
