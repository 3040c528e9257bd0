-- ===== src/Examples/Pipes.antt =====
-- Witnesses and tests of src/transport/windows/native.cpp and src/transport/windows/stream.cpp.
use stream_labs_test_assingm.Base.{
  ℕ, ap, sym, ◌≡◌, ◌≢◌, ◌≤◌, ◌+◌, ◌++◌, refl, true, false, List, [], ◌∷◌, arith, none, some, min,
  length, replicate, length-replicate,
}
use stream_labs_test_assingm.Base.Text.{codes}
use stream_labs_test_assingm.Base.Result.{ok, err}
use stream_labs_test_assingm.Base.Word.{add64, sub64}
use stream_labs_test_assingm.Contracts.{max_payload_bytes}
use stream_labs_test_assingm.Framing.{
  Bytes, frame, write_header, read_header, consume, consume_header, consume_payload, accept_header,
}
use stream_labs_test_assingm.Transport.Native.{
  Moment, Attempt, preflight, setup_error, setup_code, read_some, write_some, transfer_issued,
  buffer_bytes, accept,
}
use stream_labs_test_assingm.Transport.Native.Pending.{IsReleased, transfers-IsReleased}
use stream_labs_test_assingm.Transport.Stream.{
  Arrival, new_stream, send_live, send_timely, send_framed, send_loop, receive_live, receive_loop,
  scan, refill, decoded, ended,
}
use stream_labs_test_assingm.Transport.Stream.Receiving.{Delivers}
use stream_labs_test_assingm.Transport.Stream.Delivery.{
  AllDeliver, steady, Receives, receive_loop-Receives,
}
use stream_labs_test_assingm.Transport.Stream.Recut.{receive-recut, receive-ends, leftover}
use stream_labs_test_assingm.Transport.Stream.Sending.{Sends, send-Sends, receive-send}
use stream_labs_test_assingm.Transport.Stream.Closing.{SaysClosed, Closes, refill-Closes}
use stream_labs_test_assingm.Transport.Stream.Connecting.{Try, connect, new_stream-IsLive}
use stream_labs_test_assingm.Transport.Stream.Opening.{Connects, connect-Connects}

abbrev pub early : Moment
early = record { now = 10; stopping = false }

-- The system moves as much as it is asked, up to `most` bytes.
abbrev pub moves_up_to : ℕ → Attempt
moves_up_to most = record {
  moment = early;
  completed_event = none;
  cancelled_event = none;
  issued = λ size. ok (min size most);
  signalled = 0;
  wait_error = 0;
  cancel_error = none;
  overlapped_result = λ waits. ok 0;
}

abbrev pub brings_bytes : Bytes → Arrival
brings_bytes bytes = record { read = moves_up_to (length bytes); bytes = bytes; moment = early }

abbrev two_bytes : Bytes
two_bytes = 7 ∷ 9 ∷ []

-- The frame of the two bytes, in one read and in two.
abbrev whole : List Arrival
whole = brings_bytes (2 ∷ 0 ∷ 0 ∷ 0 ∷ 7 ∷ 9 ∷ 5 ∷ []) ∷ []

abbrev cut : List Arrival
cut = brings_bytes (2 ∷ 0 ∷ []) ∷ brings_bytes (0 ∷ 0 ∷ 7 ∷ 9 ∷ 5 ∷ []) ∷ []

abbrev writes : List Attempt
writes = moves_up_to 4 ∷ moves_up_to 4 ∷ []

-- A write of four bytes and one of two.
sent_two :
    send_live new_stream two_bytes 20 early writes
    ≡ (new_stream, some (ok 6), 2 ∷ 0 ∷ 0 ∷ 0 ∷ 7 ∷ 9 ∷ [])
unfolding send_live send_timely send_framed send_loop frame write_header preflight write_some
    transfer_issued setup_error setup_code
sent_two = refl

received_two :
    ((receive_live new_stream 20 early cut).result ≡ some (ok two_bytes))
    × (leftover (receive_live new_stream 20 early cut) ≡ 5 ∷ [])
unfolding receive_live receive_loop scan refill decoded ended preflight read_some transfer_issued
    setup_error setup_code consume consume_header consume_payload accept_header read_header sub64
    add64
received_two = (refl, refl)

whole_Deliver : AllDeliver 20 whole
unfolding read_some preflight setup_error setup_code transfer_issued
whole_Deliver = ((omega arith, λ count e. cc e), omega arith)

cut_Deliver : AllDeliver 20 cut
unfolding read_some preflight setup_error setup_code transfer_issued
cut_Deliver = ((omega arith, λ count e. cc e), ((omega arith, λ count e. cc e), omega arith))

both_steady : (steady 20 early whole ≡ true) × (steady 20 early cut ≡ true)
unfolding read_some preflight setup_error setup_code transfer_issued
both_steady = (refl, refl)

transfers-IsReleased_example :
    IsReleased (min 9 buffer_bytes) (moves_up_to 4) (read_some 9 20 (moves_up_to 4)).0
    × IsReleased (min 9 buffer_bytes) (moves_up_to 4) (write_some 9 20 (moves_up_to 4)).0
    × IsReleased 0 (moves_up_to 4) (accept 20 (moves_up_to 4)).0
transfers-IsReleased_example = transfers-IsReleased 9 20 (moves_up_to 4)

receive_loop-Receives_example :
    Receives new_stream 20 early cut (receive_loop new_stream 20 early cut)
receive_loop-Receives_example =
    receive_loop-Receives new_stream 20 early cut new_stream-IsLive cut_Deliver

receive-recut_example :
    ((receive_live new_stream 20 early whole).result
      ≡ (receive_live new_stream 20 early cut).result)
    × ((payload : Bytes)
        → (receive_live new_stream 20 early whole).result ≡ some (ok payload)
        → leftover (receive_live new_stream 20 early whole)
          ≡ leftover (receive_live new_stream 20 early cut))
receive-recut_example =
    receive-recut new_stream new_stream 20 early early whole cut new_stream-IsLive new_stream-IsLive
      whole_Deliver cut_Deliver both_steady.0 both_steady.1 refl

-- One byte by each read.
unfoldable trickle : ℕ → List Arrival
trickle n = replicate n (brings_bytes (1 ∷ []))

length-trickle : (n : ℕ) → n ≤ length (trickle n)
unfolding trickle
length-trickle n = omega (arith, length-replicate n (brings_bytes (1 ∷ [])))

one_Delivers : Delivers 20 (brings_bytes (1 ∷ []))
unfolding read_some preflight setup_error setup_code transfer_issued
one_Delivers = (omega arith, λ count e. cc e)

trickle-AllDeliver : (n : ℕ) → AllDeliver 20 (trickle n)
unfolding trickle
trickle-AllDeliver ℕ.zero = omega arith
trickle-AllDeliver (ℕ.suc n) = (one_Delivers, trickle-AllDeliver n)

receive-ends_example :
    (receive_live new_stream 20 early (trickle (max_payload_bytes + 4))).result ≢ none
receive-ends_example =
    receive-ends new_stream 20 early (trickle (max_payload_bytes + 4)) new_stream-IsLive
      (trickle-AllDeliver (max_payload_bytes + 4)) (length-trickle (max_payload_bytes + 4))

send-Sends_example :
    Sends new_stream two_bytes writes (send_live new_stream two_bytes 20 early writes)
send-Sends_example = send-Sends new_stream two_bytes 20 early writes refl

receive-send_example :
    ((receive_live new_stream 20 early cut).result ≡ some (ok two_bytes))
    × (leftover (receive_live new_stream 20 early cut) ≡ 5 ∷ [])
receive-send_example =
    receive-send new_stream new_stream two_bytes (5 ∷ []) 20 20 early early 6 writes cut refl
      new_stream-IsLive cut_Deliver both_steady.1 (ap (λ out. out.1) sent_two)
      (ap (λ out. out.2 ++ 5 ∷ []) (sym sent_two))

-- A peer that closes the pipe within a frame.
abbrev closed_pipe : Arrival
closed_pipe = brings_bytes []

closed_says : SaysClosed (read_some buffer_bytes 20 closed_pipe.read).1
unfolding read_some preflight setup_error setup_code transfer_issued
closed_says = refl

refill-Closes_example : Closes new_stream.decoder (refill new_stream 20 closed_pipe)
refill-Closes_example = refill-Closes new_stream 20 closed_pipe new_stream-IsLive.sound closed_says

-- A try that finds the pipe busy, and one that opens it.
abbrev tries : List Try
tries =
    record {
      moment = early;
      opened = err 231;
      slice_moment = early;
      pipe_waited = none;
      backed_off = none;
    }
    ∷ record {
      moment = early;
      opened = ok 1;
      slice_moment = early;
      pipe_waited = none;
      backed_off = none;
    }
    ∷ []

connect-Connects_example :
    Connects
      (codes "\\\\.\\pipe\\a")
      20
      early
      tries
      (connect (codes "\\\\.\\pipe\\a") 20 early none tries)
connect-Connects_example = connect-Connects (codes "\\\\.\\pipe\\a") 20 early none tries
