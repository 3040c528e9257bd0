-- ===== src/Transport/Server/Workers.antt =====
-- src/transport/windows/server.cpp: the loop of `run`.
use stream_labs_test_assingm.Base.{ℕ, Bool, ◌||◌, Option, none, some, ◌==◌, if◌then◌else◌}
use stream_labs_test_assingm.Base.Result.{ok, err}
use stream_labs_test_assingm.Base.Word.{add64, sub64}
use stream_labs_test_assingm.Store.State.{SessionStore, new_store}
use stream_labs_test_assingm.Completion.{TransportFailure}
use stream_labs_test_assingm.Transport.Native.{
  Attempt, accept, deadline_max, io_failure, error_pipe_not_connected,
}
use stream_labs_test_assingm.Transport.Stream.{StreamState, new_stream}
use stream_labs_test_assingm.Transport.Server.{Host, request_stop, record_failure, is_disconnected}
use stream_labs_test_assingm.Transport.Server.Requests.{Served}

-- A worker accepts, serves its session, closes it, or has left its loop.
pub data Worker (Obj : Type 0) : Type 0 where
  accepting : Worker Obj
  serving : SessionStore Obj → StreamState → Worker Obj
  closing : SessionStore Obj → Worker Obj
  finished : Worker Obj

module _ {Obj : Type 0} where
  -- A failed accept. A client that has gone already makes the worker accept again.
  unfoldable pub accept_failed : Host Obj → TransportFailure → Host Obj × Worker Obj
  unfolding is_disconnected
  accept_failed h error =
      if h.stopping
      then (h, finished)
      else if is_disconnected error.kind
      then (record_failure error h, accepting)
      else (request_stop (record_failure error h), finished)

  abbrev pub open_session : Host Obj → Host Obj × Worker Obj
  open_session h = (
    record h {
      statistics = record h.statistics {
        connections = add64 h.statistics.connections 1;
        active_sessions = add64 h.statistics.active_sessions 1;
      };
    },
    serving (new_store h.registry h.options.storage) new_stream,
  )

  -- The head of the loop of `run`. `stopped` tells of a stop that was requested during `accept`.
  unfoldable pub accept_client : Host Obj → Attempt → Bool → Host Obj × Worker Obj
  unfolding accept_failed
  accept_client h a stopped =
      let h' = record h { stopping = h.stopping || stopped } in
      if h.stopping then (h, finished) else elim (accept deadline_max a).1 [
        | err error ↦ accept_failed h' error
        | ok connected ↦ open_session h'
      ]

  abbrev pub after_serving : Served Obj → Worker Obj
  after_serving served =
      if served.goes_on then serving served.store served.stream else closing served.store

  -- The end of the loop of `run`: the store is closed and goes out of scope, and
  -- `DisconnectNamedPipe` answers.
  unfoldable pub close_session : Host Obj → Option ℕ → Host Obj × Worker Obj
  close_session h disconnect_error =
      let h' = record h {
        statistics = record h.statistics { active_sessions = sub64 h.statistics.active_sessions 1 };
      } in
      elim disconnect_error [
        | none ↦ (h', accepting)
        | some code ↦
            if code == error_pipe_not_connected
            then (h', accepting)
            else (request_stop (record_failure (io_failure code) h'), accepting)
      ]
