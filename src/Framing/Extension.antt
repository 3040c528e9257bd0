-- ===== src/Framing/Extension.antt =====
-- src/protocol/framing.cpp: what the grammar of the stream says of a prefix holds of the stream.
use stream_labs_test_assingm.Base.{
  ℕ, ◌≡◌, refl, Bool, true, false, ◌||◌, ◌++◌, ltb, ◌==◌, length, take, drop, arith, length-append,
  take-append_within, drop-append_within, Bool-cases, inl, inr,
}
use stream_labs_test_assingm.Contracts.{max_payload_bytes}
use stream_labs_test_assingm.Framing.{Bytes, read_header}
use stream_labs_test_assingm.Framing.Spec.{Parsed, incomplete, refused, complete, parse_body, parse}

-- More bytes after a parse that has ended.
abbrev pub extended : Parsed → Bytes → Parsed
extended incomplete more = incomplete
extended refused more = refused
extended (complete payload rest) more = complete payload (rest ++ more)

abbrev pub is_over : Parsed → Bool
is_over incomplete = false
is_over p = true

parse_body-extended :
    (size : ℕ) (body more : Bytes)
    → is_over (parse_body size body) ≡ true
    → parse_body size (body ++ more) ≡ extended (parse_body size body) more
parse_body-extended size body more h = elim (Bool-cases (size == 0 || ltb max_payload_bytes size)) [
  | inl bad ↦ rw (parse_body, bad) refl
  | inr good ↦ elim (Bool-cases (ltb (length body) size)) [
    | inl short ↦ absurd (ground (arith, h, good, short))
    | inr long ↦
        let still : ltb (length (body ++ more)) size ≡ false =
          ground (arith, length-append body more) in
        rw
          (
            parse_body,
            good,
            long,
            still,
            take-append_within size body more (ground arith),
            drop-append_within size body more (ground arith),
          )
          refl
  ]
]

-- A parse that has ended, in a frame or in a refusal, ends the same with more bytes behind it.
pub parse-extended :
    (stream more : Bytes)
    → is_over (parse stream) ≡ true
    → parse (stream ++ more) ≡ extended (parse stream) more
unfolding parse
parse-extended stream more h = elim (Bool-cases (ltb (length stream) 4)) [
  | inl short ↦ absurd (ground (arith, h, short))
  | inr long ↦
      let still : ltb (length (stream ++ more)) 4 ≡ false =
        ground (arith, length-append stream more) in
      let tail = parse_body-extended (read_header 0 0 (take 4 stream)) (drop 4 stream) more in
      rw
        (
          parse,
          long,
          still,
          take-append_within 4 stream more (ground arith),
          drop-append_within 4 stream more (ground arith),
        )
        (tail (rw (parse, long) at h))
]
