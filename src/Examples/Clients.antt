-- ===== src/Examples/Clients.antt =====
-- Witnesses and tests of src/client/client.cpp.
use stream_labs_test_assingm.Base.{◌≡◌, refl, true, false, List, [], ◌∷◌, none}
use stream_labs_test_assingm.Base.Text.{codes}
use stream_labs_test_assingm.Base.Result.{ok, err}
use stream_labs_test_assingm.Contracts
use stream_labs_test_assingm.Contracts.{Response}
use stream_labs_test_assingm.SortedMap.{find, emplace, erase, assign}
use stream_labs_test_assingm.Codec.Envelope.{
  encode_request, decode_response, validate_envelope, serialize, parse,
}
use stream_labs_test_assingm.Codec.Bodies.{read_operation, write_operation, read_outcome}
use stream_labs_test_assingm.Codec.Limits.{
  validate_message, validate_fields, guard_count, enter_message, bounded_unknowns, check_unknowns,
  refuses_unknowns, field_count,
}
use stream_labs_test_assingm.Completion.{valid_endpoint, starts_with, endpoint_character}
use stream_labs_test_assingm.Client.Matching.{local_failure, cancelled, matches}
use stream_labs_test_assingm.Client.State.{Moment, Connection, settle_all, fail_locked}
use stream_labs_test_assingm.Client.Calls.{connect_async, call_async, close, begin_threads}
use stream_labs_test_assingm.Client.Workers.{
  finish_open, take_first, take_queued, finish_send, answer, receive, receive_open,
}
use stream_labs_test_assingm.Client.Steps
use stream_labs_test_assingm.Client.Steps.{
  Section, steps, step, new_session, take_section, send_section,
}
use stream_labs_test_assingm.Client.Once.{IsOnce, steps-Once}
use stream_labs_test_assingm.Client.Correlation.{Correlates, receive-Correlates}
use stream_labs_test_assingm.Examples.Sample.{ascii}
use stream_labs_test_assingm.Examples.Envelopes.{releases, releaseds}

abbrev moment : Moment
moment = record { now = 5; stopped = λ token. false }

-- Two releases are called, the first is sent and answered, and the controller closes.
abbrev sections : List Section
sections =
    Steps.connecting true none moment (codes "\\\\.\\pipe\\forge") 9 0
    ∷ Steps.channel_opened moment 9 (ok true)
    ∷ Steps.calling moment (Contracts.release_object (record { id = 9 })) 9 0
    ∷ Steps.calling moment (Contracts.release_object (record { id = 8 })) 9 0
    ∷ Steps.taking moment
    ∷ Steps.send_finished (ok 3)
    ∷ Steps.received moment (ok (1 ∷ 1 ∷ []))
    ∷ Steps.closing
    ∷ []

client_runs :
    (steps releases releaseds sections new_session).connection.settled
    ≡ (1, ok (record { id = 1; body = Contracts.released; protocol_version = 1 }))
      ∷ (2, err (local_failure cancelled))
      ∷ []
unfolding steps step connect_async begin_threads valid_endpoint starts_with endpoint_character
    finish_open call_async encode_request validate_envelope serialize parse write_operation
    read_operation read_outcome decode_response validate_message validate_fields guard_count
    enter_message bounded_unknowns check_unknowns refuses_unknowns field_count emplace erase assign
    find take_section take_queued take_first send_section finish_send receive receive_open answer
    matches close fail_locked settle_all
client_runs = refl

steps-Once_example : IsOnce (steps releases releaseds sections new_session).connection
steps-Once_example = steps-Once releases releaseds sections

-- The session once its first call is sent.
abbrev waiting : Connection
waiting =
    (steps releases releaseds
      (Steps.connecting true none moment (codes "\\\\.\\pipe\\forge") 9 0
        ∷ Steps.channel_opened moment 9 (ok true)
        ∷ Steps.calling moment (Contracts.release_object (record { id = 9 })) 9 0
        ∷ Steps.taking moment
        ∷ [])
      new_session).connection

waits : waiting.closed ≡ false
unfolding steps step connect_async begin_threads valid_endpoint starts_with endpoint_character
    finish_open call_async encode_request validate_envelope serialize write_operation read_operation
    validate_message validate_fields guard_count enter_message bounded_unknowns check_unknowns
    refuses_unknowns field_count take_section take_queued take_first
waits = refl

receive-Correlates_example :
    Correlates releaseds moment
      (ok (1 ∷ 1 ∷ []))
      waiting
      (receive releaseds moment (ok (1 ∷ 1 ∷ [])) waiting)
receive-Correlates_example = receive-Correlates releaseds moment (ok (1 ∷ 1 ∷ [])) waiting waits
