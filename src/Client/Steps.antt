-- ===== src/Client/Steps.antt =====
-- src/client/client.cpp, `connection_state`: its sections one after another, in any order that its
-- threads may take. The writer sends one call at a time, which it holds in `sending`.
use stream_labs_test_assingm.Base.{ℕ, Bool, true, Option, none, some, List, [], ◌∷◌}
use stream_labs_test_assingm.Base.Text.{Text}
use stream_labs_test_assingm.Base.Result.{Result}
use stream_labs_test_assingm.Contracts.{Operation}
use stream_labs_test_assingm.Validation.{Utf8}
use stream_labs_test_assingm.Framing.{Bytes}
use stream_labs_test_assingm.Codec.Wire.{WireOperation, WireOutcome}
use stream_labs_test_assingm.Codec.Envelope.{Protobuf}
use stream_labs_test_assingm.Completion.{TransportFailure}
use stream_labs_test_assingm.Client.State.{Connection, Moment, Call, new_connection}
use stream_labs_test_assingm.Client.Calls.{connect_async, call_async, close}
use stream_labs_test_assingm.Client.Workers.{
  finish_open, take_queued, finish_send, receive, monitor,
}

pub record Session : Type 0 where
  pub connection : Connection
  pub sending : Option Call

abbrev pub new_session : Session
new_session = record { connection = new_connection; sending = none }

-- A section and what it reads of the world: the clock, the stop tokens, the opener's and the
-- channel's answers. `shutdown_requested` is the callback of the connection attempt's stop token.
pub data Section : Type 0 where
  connecting : Bool → Option ℕ → Moment → Text → ℕ → ℕ → Section
  calling : Moment → Operation → ℕ → ℕ → Section
  closing : Section
  shutdown_requested : Section
  channel_opened : Moment → ℕ → Result TransportFailure Bool → Section
  taking : Moment → Section
  send_finished : Result TransportFailure ℕ → Section
  received : Moment → Result TransportFailure Bytes → Section
  monitored : Moment → Section

-- The writer's two sections in a session that sends nothing, or sends a call.
unfoldable pub take_section : Moment → Option Call → Connection → Session
take_section moment none s = record {
  connection = (take_queued moment s).0;
  sending = (take_queued moment s).1;
}
take_section moment (some call) s = record { connection = s; sending = some call }

unfoldable pub send_section : Result TransportFailure ℕ → Option Call → Connection → Session
send_section result none s = record { connection = s; sending = none }
send_section result (some call) s = record {
  connection = finish_send call result s;
  sending = none;
}

module _ ⦃u : Utf8⦄ (requests : Protobuf WireOperation) (responses : Protobuf WireOutcome) where
  unfoldable pub step : Section → Session → Session
  step (connecting callable threads moment endpoint deadline stop) t = record t {
    connection = (connect_async callable threads moment endpoint deadline stop t.connection).0;
  }
  step (calling moment operation deadline stop) t = record t {
    connection = (call_async requests moment operation deadline stop t.connection).0;
  }
  step closing t = record t { connection = close t.connection }
  step shutdown_requested t = record t {
    connection = record t.connection { stop_requested = true };
  }
  step (channel_opened moment deadline answer) t = record t {
    connection = finish_open moment deadline answer t.connection;
  }
  step (taking moment) t = take_section moment t.sending t.connection
  step (send_finished result) t = send_section result t.sending t.connection
  step (received moment payload) t = record t {
    connection = receive responses moment payload t.connection;
  }
  step (monitored moment) t = record t { connection = monitor moment t.connection }

  unfoldable pub steps : List Section → Session → Session
  steps [] t = t
  steps (section ∷ sections) t = steps sections (step section t)
