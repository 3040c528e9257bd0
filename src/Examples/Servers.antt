-- ===== src/Examples/Servers.antt =====
-- Witnesses and tests of src/transport/windows/server.cpp.
use stream_labs_test_assingm.Base.{
  ap, sym, ◌≡◌, ◌+◌, ◌++◌, refl, true, false, List, [], ◌∷◌, arith, none, some,
}
use stream_labs_test_assingm.Base.Text.{codes}
use stream_labs_test_assingm.Base.Result.{ok}
use stream_labs_test_assingm.Contracts
use stream_labs_test_assingm.Contracts.{Request, Response, version}
use stream_labs_test_assingm.Framing.{
  Bytes, consume, consume_header, accept_header, read_header, consume_payload, frame, write_header,
}
use stream_labs_test_assingm.Base.Word.{add64, sub64}
use stream_labs_test_assingm.Builtins.{Builtin, builtin_class}
use stream_labs_test_assingm.Codec.Envelope
use stream_labs_test_assingm.Codec.Envelope.{
  encode_request, decode_request, encode_response, validate_envelope, serialize,
}
use stream_labs_test_assingm.Codec.Bodies.{
  write_operation, read_operation, write_outcome, read_outcome,
}
use stream_labs_test_assingm.Codec.Limits.{
  validate_message, enter_message, bounded_unknowns, refuses_unknowns, check_unknowns, guard_count,
}
use stream_labs_test_assingm.Dispatcher.{process, reply}
use stream_labs_test_assingm.Transport.Native.{
  preflight, setup_error, setup_code, read_some, write_some, transfer_issued,
}
use stream_labs_test_assingm.Transport.Stream.{
  Arrival, new_stream, send_live, receive_live, receive_loop, ended, scan, decoded, refill,
  send_timely, send_framed, send_loop,
}
use stream_labs_test_assingm.Transport.Stream.Delivery.{AllDeliver, steady}
use stream_labs_test_assingm.Transport.Stream.Connecting.{new_stream-IsLive}
use stream_labs_test_assingm.Transport.Server.{Host, ServerOptions}
use stream_labs_test_assingm.Transport.Server.Requests.{
  Exchange, Served, serve_request, serve_received, enter_gate, dispatch, answer_decoded,
  send_answer, conclude,
}
use stream_labs_test_assingm.Transport.Server.Workers.{accepting}
use stream_labs_test_assingm.Transport.Server.Steps.{
  Server, Event, works, stops, accepts, server_run,
}
use stream_labs_test_assingm.Transport.Server.Isolation.{IsIsolated, server_run-IsIsolated}
use stream_labs_test_assingm.Transport.Server.Accounting.{IsCounted, server_run-IsCounted}
use stream_labs_test_assingm.Transport.Server.Starting.{Starts, start-Starts}
use stream_labs_test_assingm.Transport.Server.Start.{
  LogonAnswers, PipeMaker, start, new_statistics, launch, out_of_bounds, create_pipes,
  create_instance, logon_security, describe_logon,
}
use stream_labs_test_assingm.Transport.Server.Answering.{Answers, one_call}
use stream_labs_test_assingm.Examples.Sample.{ascii, two_classes, limits, made, made_ids}
use stream_labs_test_assingm.Examples.Envelopes.{
  releases, releaseds, releases-Faithful, releaseds-Faithful,
}
use stream_labs_test_assingm.Examples.Sessions.{made_releases}
use stream_labs_test_assingm.Examples.Pipes.{early, moves_up_to, brings_bytes}
use stream_labs_test_assingm.Completion.{valid_endpoint, starts_with, endpoint_character}

abbrev two_sessions : ServerOptions
two_sessions = record {
  endpoint = codes "\\\\.\\pipe\\a";
  request_timeout = 5000;
  sessions = 2;
  storage = limits;
}

abbrev logon : LogonAnswers
logon = record {
  token_error = none;
  information_error = none;
  size = 44;
  groups_bytes = 16;
  storage_bytes = 84;
  group_count = 1;
  sid_is_valid = true;
  text_error = none;
  descriptor = ok 1;
}

abbrev pipes : PipeMaker
pipes first index = ok (index + 8)

start-Starts_example :
    Starts two_classes two_sessions
      (start {Obj = Builtin} two_classes two_sessions logon pipes none)
start-Starts_example = start-Starts two_classes two_sessions logon pipes none

abbrev host : Host Builtin
host = record {
  registry = two_classes;
  identifiers = record { upcoming = 1 };
  options = two_sessions;
  stopping = false;
  statistics = new_statistics;
}

abbrev ready : Server Builtin
ready = record { host = host; workers = accepting ∷ accepting ∷ [] }

starts_ready : start two_classes two_sessions logon pipes none ≡ ok ready
unfolding start launch out_of_bounds create_pipes create_instance logon_security describe_logon
    valid_endpoint starts_with endpoint_character
starts_ready = refl

ready-IsCounted : IsCounted ready
ready-IsCounted =
    let all = rw starts_ready at (start-Starts two_classes two_sessions logon pipes none) in all.9

-- Both workers accept a client, and a stop is requested.
abbrev events : List Event
events =
    works 0 (accepts (moves_up_to 0) false) ∷ works 1 (accepts (moves_up_to 0) false) ∷ stops ∷ []

server_run-IsIsolated_example : IsIsolated (server_run releases releaseds ready events)
server_run-IsIsolated_example =
    server_run-IsIsolated releases releaseds ready events ready-IsCounted.isolated

server_run-IsCounted_example : IsCounted (server_run releases releaseds ready events)
server_run-IsCounted_example = server_run-IsCounted releases releaseds ready events ready-IsCounted

abbrev release_two : Request
release_two = record {
  id = 4;
  body = Contracts.release_object (record { id = 2 });
  protocol_version = version;
}

abbrev served_host : Host Builtin
served_host = record host { identifiers = made_ids }

abbrev request_frame : Bytes
request_frame = 3 ∷ 0 ∷ 0 ∷ 0 ∷ 1 ∷ 4 ∷ 2 ∷ []

abbrev exchange : Exchange
exchange = record {
  started = 0;
  first = early;
  arrivals = brings_bytes request_frame ∷ [];
  gate = (early, true) ∷ [];
  inside = early;
  reply_moment = early;
  attempts = moves_up_to 100 ∷ [];
  stopped = false;
}

abbrev served : Served Builtin
served = record {
  host = record served_host {
    identifiers = (process made made_ids release_two).1;
    statistics = record new_statistics { completed_requests = 1 };
  };
  store = (process made made_ids release_two).0;
  stream = (receive_live new_stream 5000000000 early (brings_bytes request_frame ∷ [])).state;
  goes_on = true;
  written = 2 ∷ 0 ∷ 0 ∷ 0 ∷ 1 ∷ 4 ∷ [];
}

processed_two : (process made made_ids release_two).2 ≡ reply 4 Contracts.released
unfolding process
processed_two = ap (reply 4) made_releases

serves_two : serve_request releases releaseds served_host made new_stream exchange ≡ some served
unfolding serve_request serve_received receive_live receive_loop ended scan decoded preflight refill
    read_some setup_error setup_code transfer_issued consume consume_header accept_header
    read_header consume_payload sub64 add64 enter_gate dispatch answer_decoded send_answer conclude
    decode_request Envelope.parse validate_envelope validate_message enter_message bounded_unknowns
    refuses_unknowns check_unknowns guard_count read_operation write_outcome read_outcome
    encode_response serialize send_live send_timely send_framed send_loop frame write_header
    write_some
serves_two = rw processed_two refl

encoded_two : encode_request releases release_two ≡ ok (1 ∷ 4 ∷ 2 ∷ [])
unfolding encode_request validate_envelope serialize write_operation read_operation validate_message
    enter_message bounded_unknowns refuses_unknowns check_unknowns guard_count
encoded_two = refl

-- The client's two writes, and its reading of the reply in two cuts.
abbrev reply_cut : List Arrival
reply_cut = brings_bytes (2 ∷ 0 ∷ 0 ∷ []) ∷ brings_bytes (0 ∷ 1 ∷ 4 ∷ []) ∷ []

request_sent :
    send_live new_stream (1 ∷ 4 ∷ 2 ∷ []) 20 early (moves_up_to 4 ∷ moves_up_to 4 ∷ [])
    ≡ (new_stream, some (ok 7), request_frame)
unfolding send_live send_timely send_framed send_loop frame write_header preflight write_some
    transfer_issued setup_error setup_code
request_sent = refl

cuts_deliver :
    AllDeliver 5000000000 exchange.arrivals
    × AllDeliver 20 reply_cut
    × (steady 5000000000 early exchange.arrivals ≡ true)
    × (steady 20 early reply_cut ≡ true)
unfolding read_some preflight setup_error setup_code transfer_issued
cuts_deliver = (
  ((omega arith, λ count e. cc e), omega arith),
  ((omega arith, λ count e. cc e), ((omega arith, λ count e. cc e), omega arith)),
  refl,
  refl,
)

one_call_example :
    (response : Response) × (reply : Bytes) × Answers releaseds served_host made release_two served
      response reply
    × ((receive_live new_stream 20 early reply_cut).result ≡ some (ok reply))
one_call_example =
    one_call releases releaseds served_host made new_stream new_stream new_stream exchange
      release_two (1 ∷ 4 ∷ 2 ∷ []) [] [] 20 7 early early (moves_up_to 4 ∷ moves_up_to 4 ∷ [])
      reply_cut served releases-Faithful releaseds-Faithful encoded_two refl
      (ap (λ out. out.1) request_sent) new_stream-IsLive cuts_deliver.0 cuts_deliver.2
      (ap (λ out. out.2 ++ []) (sym request_sent)) serves_two refl new_stream-IsLive cuts_deliver.1
      cuts_deliver.3 refl
