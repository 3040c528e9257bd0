-- ===== src/Client/State.antt =====
-- src/client/client.cpp, `connection_state`: the state that its mutex guards. Each section of the
-- code that holds the mutex is one step, and the threads' steps come in any order.
-- A promise is its `set_value` calls: `settled` holds those of the calls, by their ids, and `opened`
-- those of the connection attempt.
use stream_labs_test_assingm.Base.{
  ℕ, Bool, true, false, ◌&&◌, ◌||◌, not, List, [], ◌∷◌, ◌++◌, leb, ◌==◌, if◌then◌else◌,
}
use stream_labs_test_assingm.Base.Result.{Result, err}
use stream_labs_test_assingm.Contracts.{Request, Response}
use stream_labs_test_assingm.Framing.{Bytes}
use stream_labs_test_assingm.SortedMap.{SortedMap}
use stream_labs_test_assingm.Client.Matching.{
  ClientFailureKind, timeout, cancelled, transport_failure, ClientFailure, local_failure,
}

abbrev pub max_pending_calls : ℕ
max_pending_calls = 16

abbrev pub CallResult : Type 0
CallResult = Result ClientFailure Response

pub data Phase : Type 0 where
  queued writing sent : Phase

-- The constant part of a `pending_call`, which the table and the queue share; a stop token is the
-- number of its source.
pub record Call : Type 0 where
  pub request : Request
  pub encoded : Bytes
  pub deadline : ℕ
  pub stop : ℕ

pub record PendingCall : Type 0 where
  pub call : Call
  pub progress : Phase

pub record Connection : Type 0 where
  pub pending : SortedMap PendingCall
  pub queue : List Call
  pub next_id : ℕ
  pub started : Bool
  pub connected : Bool
  pub opening_done : Bool
  pub closed : Bool
  pub stop_requested : Bool
  pub settled : List (ℕ × CallResult)
  pub opened : List (Result ClientFailure (Unit {0}))

abbrev pub new_connection : Connection
new_connection = record {
  pending = [];
  queue = [];
  next_id = 1;
  started = false;
  connected = false;
  opening_done = false;
  closed = false;
  stop_requested = false;
  settled = [];
  opened = [];
}

-- What a step reads of the clock and of the stop tokens.
pub record Moment : Type 0 where
  pub now : ℕ
  pub stopped : ℕ → Bool

-- `stop.stop_requested() || clock::now() >= until`
abbrev pub is_over : Moment → ℕ → ℕ → Bool
is_over moment stop deadline = moment.stopped stop || leb deadline moment.now

abbrev pub over_cause : Moment → ℕ → ClientFailure
over_cause moment stop = local_failure (if moment.stopped stop then cancelled else timeout)

-- The loop of `fail_locked`.
unfoldable pub settle_all :
    ClientFailure → ℕ → ClientFailure → SortedMap PendingCall → List (ℕ × CallResult)
settle_all common specific_id specific [] = []
settle_all common specific_id specific ((id, entry) ∷ pending) =
    (id, err (if id == specific_id then specific else common))
    ∷ settle_all common specific_id specific pending

unfoldable pub fail_locked : ClientFailure → ℕ → ClientFailure → Connection → Connection
fail_locked common specific_id specific s = if s.closed then s else record s {
  pending = [];
  queue = [];
  closed = true;
  stop_requested = true;
  settled = s.settled ++ settle_all common specific_id specific s.pending;
  opening_done = s.opening_done || s.started;
  opened = s.opened ++ (if s.started && not s.opening_done then err common ∷ [] else []);
}

-- `fail_locked({kind})`; the default of `specific` is a transport failure.
abbrev pub fail_with : ClientFailure → Connection → Connection
fail_with common s = fail_locked common 0 (local_failure transport_failure) s

abbrev pub fail_all : ClientFailureKind → Connection → Connection
fail_all kind s = fail_with (local_failure kind) s
