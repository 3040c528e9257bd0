-- ===== src/Application/Serving.antt =====
-- src/cli/server_commands.cpp: the command that serves. What it prints is a list of messages, and
-- the state of the streams and the end of the server's run are what it is answered.
use stream_labs_test_assingm.Base.{
  ℕ, ◌≤◌, ◌≡◌, ◌≢◌, ◌⊎◌, Bool, ◌||◌, not, Option, none, some, List, [], ◌∷◌, if◌then◌else◌,
}
use stream_labs_test_assingm.Base.Text.{Text, codes, text_eq}
use stream_labs_test_assingm.Base.Result.{Result, ok, err}
use stream_labs_test_assingm.Validation.{Utf8}
use stream_labs_test_assingm.Objects.{max_stored_values, max_stored_objects, max_session_bytes}
use stream_labs_test_assingm.Registry
use stream_labs_test_assingm.Registry.{ClassRegistry, add}
use stream_labs_test_assingm.Store.State.{SessionLimits}
use stream_labs_test_assingm.Builtins.{
  Builtin, builtin_class, counter_definition, text_buffer_definition,
}
use stream_labs_test_assingm.Completion.{FailureKind, TransportFailure}
use stream_labs_test_assingm.Transport.Server.{ServerOptions}
use stream_labs_test_assingm.Transport.Server.Steps.{Server}
use stream_labs_test_assingm.Transport.Server.Start.{LogonAnswers, PipeMaker, start}
use stream_labs_test_assingm.Application.{Invocation}

pub data ServerMessage : Type 0 where
  registration_failed : ServerMessage
  startup_failed : TransportFailure → ServerMessage
  ready : Text → ServerMessage
  stopped : ℕ → ServerMessage

-- The two registrations; `none` if one is refused.
unfoldable pub built_in_registry : ⦃u : Utf8⦄ → Option (ClassRegistry Builtin)
built_in_registry =
    let first = add (record { definitions = [] }) counter_definition in
    elim first.1 [
      | some e ↦ none
      | none ↦
          let second = add first.0 text_buffer_definition in
          elim second.1 [ some e ↦ none | none ↦ some second.0 ]
    ]

-- `session_limits{}`
abbrev pub default_limits : SessionLimits
default_limits = record {
  values = max_stored_values;
  objects = max_stored_objects;
  bytes = max_session_bytes;
}

abbrev pub server_options : Invocation → ServerOptions
server_options options = record {
  endpoint = options.endpoint;
  request_timeout = options.timeout;
  sessions = options.sessions;
  storage = default_limits;
}

-- The lines that are left when the loop over stdin has ended.
unfoldable pub await_stop : List Text → List Text
await_stop [] = []
await_stop (line ∷ lines) =
    let later = await_stop lines in
    if text_eq line (codes "stop") || text_eq line [] then lines else later

-- What the command is answered: by the system when it starts the server, whether `output` is good
-- after the first message and after the last, the lines of stdin and whether it is bad at their
-- end, and the connections counted when the server has stopped.
pub record ServeAnswers : Type 0 where
  pub security : LogonAnswers
  pub make : PipeMaker
  pub thread_error : Option ℕ
  pub output_good : Bool
  pub lines : List Text
  pub input_bad : Bool
  pub output_good_after : Bool
  pub connections : ℕ

-- The exit code, the messages, and the lines of stdin left.
unfoldable pub serve_started :
    Invocation
    → ServeAnswers
    → Result TransportFailure (Server Builtin)
    → ℕ × List ServerMessage × List Text
serve_started options a (err error) = (1, startup_failed error ∷ [], a.lines)
serve_started options a (ok server) =
    if not a.output_good then (1, ready options.endpoint ∷ [], a.lines) else (
      if a.input_bad || not a.output_good_after then 1 else 0,
      ready options.endpoint ∷ stopped a.connections ∷ [],
      await_stop a.lines,
    )

unfoldable pub run_server_command :
    ⦃u : Utf8⦄ → Invocation → ServeAnswers → ℕ × List ServerMessage × List Text
unfolding serve_started
run_server_command options a = elim built_in_registry [
  | none ↦ (1, registration_failed ∷ [], a.lines)
  | some registry ↦
      serve_started options a
        (start registry (server_options options) a.security a.make a.thread_error)
]

-- What the command says when it cannot serve: never that a class was refused, nor that the options
-- were, but only a failure of the system.
abbrev pub Serves : Invocation → ServeAnswers → ℕ × List ServerMessage × List Text → Type 0
Serves options a (code, [], left) = 1 ≤ 0
Serves options a (code, registration_failed ∷ messages, left) = 1 ≤ 0
Serves options a (code, startup_failed error ∷ messages, left) =
    (code ≡ 1) × (messages ≡ []) × (error.kind ≢ FailureKind.invalid_configuration)
Serves options a (code, ready endpoint ∷ messages, left) =
    (endpoint ≡ options.endpoint)
    × (((code ≡ 0) × (messages ≡ stopped a.connections ∷ [])) ⊎ (code ≡ 1))
Serves options a (code, stopped n ∷ messages, left) = 1 ≤ 0
