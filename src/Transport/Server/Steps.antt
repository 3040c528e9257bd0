-- ===== src/Transport/Server/Steps.antt =====
-- src/transport/windows/server.cpp: the workers of a server, in any interleaving. A step of a worker
-- stands where it holds the domain gate; the rest of it reads and writes what is the worker's own,
-- and the counters. A step that has not returned leaves all as it was.
use stream_labs_test_assingm.Base.{ℕ, Bool, Option, none, some, List, [], ◌∷◌, get_elem?, set}
use stream_labs_test_assingm.Validation.{Utf8}
use stream_labs_test_assingm.Objects.{ObjectClass}
use stream_labs_test_assingm.Store.State.{SessionStore}
use stream_labs_test_assingm.Codec.Wire.{WireOperation, WireOutcome}
use stream_labs_test_assingm.Codec.Envelope.{Protobuf}
use stream_labs_test_assingm.Transport.Native.{Attempt}
use stream_labs_test_assingm.Transport.Stream.{StreamState}
use stream_labs_test_assingm.Transport.Server.{Host, request_stop}
use stream_labs_test_assingm.Transport.Server.Requests.{Exchange, Served, serve_request}
use stream_labs_test_assingm.Transport.Server.Workers.{
  Worker, accepting, serving, closing, accept_client, after_serving, close_session,
}

-- What a worker's next step is answered.
pub data Action : Type 0 where
  accepts : Attempt → Bool → Action
  serves : Exchange → Action
  closes : Option ℕ → Action

pub record Server (Obj : Type 0) : Type 0 where
  pub host : Host Obj
  pub workers : List (Worker Obj)

-- A worker by its pipe, or the controller, takes a step.
pub data Event : Type 0 where
  works : ℕ → Action → Event
  stops : Event

module _ {Obj : Type 0} where
  unfoldable pub serve_ended :
      Host Obj → SessionStore Obj → StreamState → Option (Served Obj) → Host Obj × Worker Obj
  serve_ended h store stream none = (h, serving store stream)
  serve_ended h store stream (some served) = (served.host, after_serving served)

module _ {Obj : Type 0} ⦃o : ObjectClass Obj⦄ ⦃u : Utf8⦄ (p : Protobuf WireOperation)
    (q : Protobuf WireOutcome) where
  -- `run`, from one look at the shared state to the next.
  unfoldable pub worker_step : Host Obj → Worker Obj → Action → Host Obj × Worker Obj
  unfolding serve_ended
  worker_step h accepting (accepts a stopped) = accept_client h a stopped
  worker_step h (serving store stream) (serves e) =
      serve_ended h store stream (serve_request p q h store stream e)
  worker_step h (closing store) (closes disconnect_error) = close_session h disconnect_error
  worker_step h w action = (h, w)

  unfoldable pub server_step : Server Obj → Event → Server Obj
  unfolding worker_step
  server_step s stops = record s { host = request_stop s.host }
  server_step s (works k action) = elim (get_elem? s.workers k) [
    | none ↦ s
    | some w ↦
        let out = worker_step s.host w action in
        record { host = out.0; workers = set s.workers k out.1 }
  ]

  unfoldable pub server_run : Server Obj → List Event → Server Obj
  unfolding server_step
  server_run s [] = s
  server_run s (e ∷ events) = server_run (server_step s e) events
