-- ===== src/Transport/Stream/Receiving.antt =====
-- src/transport/windows/stream.cpp, `pipe_stream::receive`: the steps of its loop against the grammar
-- of the byte stream.
use stream_labs_test_assingm.Base.{
  ℕ, ◌+◌, ◌-◌, ◌≤◌, ◌≡◌, ◌⊎◌, inl, inr, refl, sym, Bool, true, false, not, none, some, [], ◌++◌,
  append-nil, ltb, ◌==◌, length, take, arith, length-take, length-drop, drop_all, drop-drop,
  Bool-cases, Option-cases,
}
use stream_labs_test_assingm.Base.Result.{ok, err}
use stream_labs_test_assingm.Base.Word.{add64, add64_exact}
use stream_labs_test_assingm.Contracts.{FailureCode, Fallible}
use stream_labs_test_assingm.Framing.{Bytes, FrameProgress, FrameDecoder, framing_failure, consume}
use stream_labs_test_assingm.Framing.Spec.{
  Parsed, incomplete, refused, complete, parse, pending, IsSound,
}
use stream_labs_test_assingm.Framing.Body.{Refines}
use stream_labs_test_assingm.Framing.Refinement.{consume-Refines, pending-incomplete}
use stream_labs_test_assingm.Transport.Native.{Moment, buffer_bytes, preflight, read_some}
use stream_labs_test_assingm.Transport.Stream.{
  StreamState, Arrival, Step, unread, violation, decoded, scan,
}

-- A stream that has not failed: its decoder is sound, and the bytes in use lie within the buffer.
pub record IsLive (s : StreamState) : Type 0 where
  pub alive : s.failed ≡ false
  pub sound : IsSound s.decoder
  pub ordered : s.begin ≤ s.end
  pub within : s.end ≤ buffer_bytes
  pub whole_buffer : length s.input ≡ buffer_bytes

-- The bytes received that no payload has been made of.
abbrev pub undelivered : StreamState → Bytes
undelivered s = pending s.decoder ++ unread s

-- The deadline has not come and no stop is requested.
abbrev pub timely : ℕ → Moment → Bool
timely until m = elim (preflight until m) [ none ↦ true | some error ↦ false ]

-- A read that brings bytes.
abbrev pub brings : ℕ → Arrival → Bool
brings until a = elim (read_some buffer_bytes until a.read).1 [
  | ok count ↦ not (count == 0)
  | err error ↦ false
]

-- The system puts no more bytes into the buffer than it holds, and tells how many.
abbrev pub Delivers : ℕ → Arrival → Type 0
Delivers until a =
    (length a.bytes ≤ buffer_bytes)
    × ((count : ℕ) → (read_some buffer_bytes until a.read).1 ≡ ok count → count ≡ length a.bytes)

abbrev pub Scanned : StreamState → ℕ → Moment → Step → Type 0
Scanned s until m (s', none) =
    IsLive s'
    × (unread s' ≡ [])
    × (pending s'.decoder ≡ undelivered s)
    × (parse (undelivered s) ≡ incomplete)
Scanned s until m (s', some (ok payload)) =
    IsLive s' × (pending s'.decoder ≡ []) × (parse (undelivered s) ≡ complete payload (unread s'))
Scanned s until m (s', some (err error)) =
    (s'.failed ≡ true)
    × (((parse (undelivered s) ≡ refused)
          × (error ≡ violation (framing_failure FailureCode.limit_exceeded)))
        ⊎ (timely until m ≡ false))

length-unread : (s : StreamState) → IsLive s → length (unread s) ≡ s.end - s.begin
length-unread s l = omega (
  arith,
  length-drop s.begin (take s.end s.input),
  length-take s.end s.input,
  l.within,
  l.whole_buffer,
)

-- Moving `begin` over bytes that were unread.
advance_exact :
    (s : StreamState) (n : ℕ) → IsLive s → n ≤ length (unread s) → add64 s.begin n ≡ s.begin + n
advance_exact s n l h =
    add64_exact s.begin n (omega (arith, length-unread s l, l.ordered, l.within, h))

advanced-IsLive :
    (s : StreamState) (d : FrameDecoder) (n : ℕ)
    → IsLive s
    → IsSound d
    → n ≤ length (unread s)
    → IsLive (record s { decoder = d; begin = s.begin + n })
advanced-IsLive s d n l k h = record {
  alive = l.alive;
  sound = k;
  ordered = omega (arith, length-unread s l, l.ordered, h);
  within = l.within;
  whole_buffer = l.whole_buffer;
}

decoded-Scanned :
    (s : StreamState) (until : ℕ) (m : Moment) (p : Parsed)
    (out : FrameDecoder × Fallible FrameProgress)
    → IsLive s
    → parse (undelivered s) ≡ p
    → Refines p (pending s.decoder) (unread s) out
    → Scanned s until m (decoded s out)
unfolding decoded
decoded-Scanned s until m incomplete (d, r) l e k =
    rw (k.2, advance_exact s (length (unread s)) l (omega arith))
      (
        advanced-IsLive s d (length (unread s)) l k.0 (omega arith),
        rw (sym (drop-drop (length (unread s)) s.begin (take s.end s.input)))
            (drop_all (length (unread s)) (unread s) (omega arith)),
        k.1,
        e,
      )
decoded-Scanned s until m refused (d, r) l e k = rw k.1 (refl, inl (e, refl))
decoded-Scanned s until m (complete payload rest) (d, r) l e k =
    let n = length (unread s) - length rest in
    rw (k.2, advance_exact s n l (omega arith))
      (
        advanced-IsLive s d n l k.0 (omega arith),
        k.1,
        rw (sym (drop-drop n s.begin (take s.end s.input)), k.3) e,
      )

pub scan-Scanned :
    (s : StreamState) (until : ℕ) (m : Moment) → IsLive s → Scanned s until m (scan s until m)
unfolding scan
scan-Scanned s until m l = elim (Option-cases (preflight until m)) [
  | inr (error, e) ↦ rw (scan, e) (refl, inr (rw (timely, e) refl))
  | inl e ↦ elim (Bool-cases (ltb s.begin s.end)) [
    | inl more ↦
        rw (scan, e, more)
          (decoded-Scanned s until m _ (consume s.decoder (unread s)) l refl
            (consume-Refines s.decoder (unread s) l.sound))
    | inr empty ↦
        let nothing : unread s ≡ [] =
          drop_all s.begin (take s.end s.input) (ground (arith, length-take s.end s.input)) in
        rw (scan, e, empty)
          (
            l,
            nothing,
            rw nothing (sym (append-nil (pending s.decoder))),
            rw (nothing, append-nil (pending s.decoder)) (pending-incomplete s.decoder l.sound),
          )
  ]
]
