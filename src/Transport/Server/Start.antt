-- ===== src/Transport/Server/Start.antt =====
-- src/transport/windows/server.cpp: `pipe_server::start` and `launch`, with `logon_security` and
-- `create_instance` of src/transport/windows/native.cpp.
use stream_labs_test_assingm.Base.{
  ℕ, zero, suc, ◌+◌, ◌^◌, ◌%◌, Bool, false, ◌||◌, not, Option, none, some, List, [], ◌∷◌, ltb, ◌==◌,
  if◌then◌else◌, length, replicate,
}
use stream_labs_test_assingm.Base.Result.{Result, ok, err}
use stream_labs_test_assingm.Registry.{ClassRegistry}
use stream_labs_test_assingm.Completion.{FailureKind, TransportFailure, valid_endpoint}
use stream_labs_test_assingm.Transport.Native.{io_failure, transport_failure}
use stream_labs_test_assingm.Transport.Server.{ServerOptions, ServerStatistics}
use stream_labs_test_assingm.Transport.Server.Workers.{Worker, accepting}
use stream_labs_test_assingm.Transport.Server.Steps.{Server}

abbrev pub max_sessions : ℕ
max_sessions = 4

-- In milliseconds.
abbrev pub minimum_timeout : ℕ
minimum_timeout = 10

abbrev pub maximum_timeout : ℕ
maximum_timeout = 60000

abbrev pub error_invalid_sid : ℕ
error_invalid_sid = 1337

-- What `logon_security` is answered by its calls, in their order: `GetLastError()` where one fails,
-- and the sizes of the records that the system declares.
pub record LogonAnswers : Type 0 where
  pub token_error : Option ℕ
  pub information_error : Option ℕ
  pub size : ℕ
  pub groups_bytes : ℕ
  pub storage_bytes : ℕ
  pub group_count : ℕ
  pub sid_is_valid : Bool
  pub text_error : Option ℕ
  pub descriptor : Result ℕ ℕ

-- Past the checks of the group.
unfoldable pub describe_logon : LogonAnswers → Result TransportFailure ℕ
describe_logon a = elim a.text_error [
  | some code ↦ err (io_failure code)
  | none ↦ elim a.descriptor [ err code ↦ err (io_failure code) | ok descriptor ↦ ok descriptor ]
]

unfoldable pub logon_security : LogonAnswers → Result TransportFailure ℕ
unfolding describe_logon
logon_security a = elim a.token_error [
  | some code ↦ err (io_failure code)
  | none ↦ elim a.information_error [
    | some code ↦ err (io_failure code)
    | none ↦
        if ltb a.size a.groups_bytes || ltb a.storage_bytes a.size
        then err (transport_failure FailureKind.access_denied error_invalid_sid)
        else if not (a.group_count == 1) || not a.sid_is_valid
        then err (transport_failure FailureKind.access_denied error_invalid_sid)
        else describe_logon a
  ]
]

-- `CreateNamedPipeW` by whether it asks to be the first instance of the name.
abbrev pub PipeMaker : Type 0
PipeMaker = Bool → ℕ → Result ℕ ℕ

unfoldable pub create_instance : PipeMaker → Bool → ℕ → Result TransportFailure ℕ
create_instance make first index = elim (make first index) [
  | err code ↦ err (io_failure code)
  | ok handle ↦ ok handle
]

-- The loop over the pipes, by the rounds left.
unfoldable pub create_pipes : PipeMaker → ℕ → ℕ → Result TransportFailure (List ℕ)
unfolding create_instance
create_pipes make zero index = ok []
create_pipes make (suc rounds) index =
    let later = create_pipes make rounds (index + 1) in
    elim (create_instance make (index == 0) index) [
      | err error ↦ err error
      | ok handle ↦ elim later [ err error ↦ err error | ok handles ↦ ok (handle ∷ handles) ]
    ]

-- A worker for each pipe; `thread_error` is the code of the `system_error`, if a thread fails.
unfoldable pub launch :
    {Obj : Type 0}
    → ℕ
    → LogonAnswers
    → PipeMaker
    → Option ℕ
    → Result TransportFailure (List (Worker Obj))
unfolding create_pipes logon_security
launch sessions security make thread_error = elim (logon_security security) [
  | err error ↦ err error
  | ok descriptor ↦ elim (create_pipes make sessions 0) [
    | err error ↦ err error
    | ok handles ↦ elim thread_error [
      | some code ↦ err (transport_failure FailureKind.io_failure (code % 2 ^ 32))
      | none ↦ ok (replicate (length handles) accepting)
    ]
  ]
]

abbrev pub new_statistics : ServerStatistics
new_statistics = record {
  connections = 0;
  completed_requests = 0;
  protocol_failures = 0;
  io_failures = 0;
  active_sessions = 0;
  last_native_error = 0;
}

unfoldable pub out_of_bounds : ServerOptions → Bool
out_of_bounds options =
    not (valid_endpoint options.endpoint)
    || options.sessions == 0
    || ltb max_sessions options.sessions
    || ltb options.request_timeout minimum_timeout
    || ltb maximum_timeout options.request_timeout

unfoldable pub start :
    {Obj : Type 0}
    → ClassRegistry Obj
    → ServerOptions
    → LogonAnswers
    → PipeMaker
    → Option ℕ
    → Result TransportFailure (Server Obj)
unfolding out_of_bounds launch
start registry options security make thread_error =
    if out_of_bounds options
    then err (transport_failure FailureKind.invalid_configuration 0)
    else elim (launch options.sessions security make thread_error) [
      | err error ↦ err error
      | ok workers ↦ ok (record {
        host = record {
          registry = registry;
          identifiers = record { upcoming = 1 };
          options = options;
          stopping = false;
          statistics = new_statistics;
        };
        workers = workers;
      })
    ]
