-- ===== src/Examples/Streams.antt =====
-- Witnesses and tests of src/protocol/framing.cpp and src/transport/completion.cpp.
use stream_labs_test_assingm.Base.{
  ◌≡◌, ◌≢◌, ◌+◌, ◌++◌, refl, true, false, [], ◌∷◌, arith, ◌⊎◌, none, some,
}
use stream_labs_test_assingm.Base.Text.{codes}
use stream_labs_test_assingm.Base.Result.{ok, err}
use stream_labs_test_assingm.Base.Word.{sub64}
use stream_labs_test_assingm.Contracts.{FailureCode}
use stream_labs_test_assingm.Framing.{
  Bytes, FrameDecoder, new_decoder, consume, consume_header, consume_payload, accept_header,
  read_header, write_header, frame, finish, framing_failure,
}
use stream_labs_test_assingm.Framing.Spec.{IsSound, parse, pending}
use stream_labs_test_assingm.Framing.Refinement.{consume-Refines}
use stream_labs_test_assingm.Framing.Body.{progress, Refines}
use stream_labs_test_assingm.Framing.Roundtrip.{IsClean, consume-frame, finish-pending}
use stream_labs_test_assingm.Completion.{
  resolve_pending, CompletionBackend, WakeReason, valid_endpoint, starts_with, endpoint_character,
}
use stream_labs_test_assingm.Completion.Laws.{Drains, resolve_pending-Drains}

new_decoder-Sound : IsSound new_decoder
new_decoder-Sound = record {
  live = refl;
  whole_header = refl;
  used_bound = omega arith;
  payload_fits = (refl, refl);
}

new_decoder-Clean : IsClean new_decoder
new_decoder-Clean = record { sound = new_decoder-Sound; boundary = refl }

-- A frame of two bytes, and the start of another frame.
abbrev stream : Bytes
stream = 2 ∷ 0 ∷ 0 ∷ 0 ∷ 7 ∷ 9 ∷ 5 ∷ 0 ∷ []

-- The header and the first byte of a frame of two bytes.
abbrev partial : FrameDecoder
partial = (consume new_decoder (2 ∷ 0 ∷ 0 ∷ 0 ∷ 7 ∷ [])).0

frame_runs :
    (frame (7 ∷ 9 ∷ []) ≡ ok (2 ∷ 0 ∷ 0 ∷ 0 ∷ 7 ∷ 9 ∷ []))
    × ((consume new_decoder stream).1 ≡ progress 6 (some (7 ∷ 9 ∷ [])))
    × ((consume partial (9 ∷ 5 ∷ [])).1 ≡ progress 1 (some (7 ∷ 9 ∷ [])))
    × ((consume new_decoder (0 ∷ 0 ∷ 0 ∷ 0 ∷ [])).1
        ≡ err (framing_failure FailureCode.limit_exceeded))
    × (finish partial ≡ some (framing_failure FailureCode.truncated))
unfolding frame write_header consume consume_header accept_header consume_payload read_header finish
    sub64
frame_runs = (refl, refl, refl, refl, refl)

consume-Refines_example :
    Refines
      (parse (pending new_decoder ++ stream))
      (pending new_decoder)
      stream
      (consume new_decoder stream)
consume-Refines_example = consume-Refines new_decoder stream new_decoder-Sound

consume-frame_example :
    (framed : Bytes) × (frame (7 ∷ 9 ∷ []) ≡ ok framed)
    × ((consume new_decoder (framed ++ 5 ∷ 0 ∷ [])).1 ≡ progress (2 + 4) (some (7 ∷ 9 ∷ [])))
    × IsClean (consume new_decoder (framed ++ 5 ∷ 0 ∷ [])).0
consume-frame_example =
    consume-frame new_decoder (7 ∷ 9 ∷ []) (5 ∷ 0 ∷ []) new_decoder-Clean (omega arith)
      (omega arith)

-- A decoder that holds one byte of a header.
abbrev started : FrameDecoder
started = record {
  header = 2 ∷ 0 ∷ 0 ∷ 0 ∷ [];
  header_used = 1;
  expected = 0;
  payload = [];
  poisoned = false;
}

started-Sound : IsSound started
started-Sound = record {
  live = refl;
  whole_header = refl;
  used_bound = omega arith;
  payload_fits = (refl, refl);
}

finish-pending_example :
    ((finish started ≡ none) × (pending started ≡ []))
    ⊎ ((finish started ≡ some (framing_failure FailureCode.truncated)) × (pending started ≢ []))
finish-pending_example = finish-pending started started-Sound

-- A wait that timed out on an operation that then completed with eight bytes.
abbrev late : CompletionBackend
late = record {
  wait = record { reason = WakeReason.expired; native_error = 0 };
  cancel = 1168;
  complete = λ waiting. ok 8;
}

resolve_pending-Drains_example : Drains late (resolve_pending late).0 (resolve_pending late).1
resolve_pending-Drains_example = resolve_pending-Drains late

endpoints :
    (valid_endpoint (codes "\\\\.\\pipe\\forge-1") ≡ true)
    × (valid_endpoint (codes "\\\\.\\pipe\\") ≡ false)
    × (valid_endpoint (codes "\\\\.\\pipe\\a\\b") ≡ false)
unfolding valid_endpoint starts_with endpoint_character
endpoints = (refl, refl, refl)
