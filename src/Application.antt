-- ===== src/Application.antt =====
-- src/cli/application.cpp: the arguments of a command, and the exit code of the program. A character
-- of a wide string is taken as its byte; an endpoint with a byte above 127 is refused either way.
pub mod Bounds
pub mod Serving
use stream_labs_test_assingm.Base.{
  ℕ, ◌+◌, ◌-◌, ◌*◌, ◌^◌, Bool, true, false, ◌&&◌, ◌||◌, not, Option, none, some, List, [], ◌∷◌,
  ◌++◌, ltb, leb, ◌==◌, if◌then◌else◌,
}
use stream_labs_test_assingm.Base.Text.{Text, codes, text_eq}
use stream_labs_test_assingm.Base.Result.{Result, ok, err, find_if, all_of}
use stream_labs_test_assingm.Completion.{valid_endpoint, starts_with}
use stream_labs_test_assingm.Transport.Server.Start.{max_sessions, minimum_timeout, maximum_timeout}

pub data ApplicationCommand : Type 0 where
  help version serve demo_sync demo_async demo_mixed : ApplicationCommand

-- The timeout is in milliseconds.
pub record Invocation : Type 0 where
  pub command : ApplicationCommand
  pub endpoint : Text
  pub timeout : ℕ
  pub sessions : ℕ

abbrev pub default_endpoint : Text
default_endpoint = codes "\\\\.\\pipe\\pipeforge-v1"

abbrev pub default_timeout : ℕ
default_timeout = 5000

abbrev pub default_invocation : Invocation
default_invocation = record {
  command = help;
  endpoint = default_endpoint;
  timeout = default_timeout;
  sessions = max_sessions;
}

-- The paths of `diagnostic_options`.
pub record DiagnosticPaths : Type 0 where
  pub log_file : Text
  pub trace_file : Text

-- The variables of the loop of `parse`.
pub record Parsing : Type 0 where
  pub options : Invocation
  pub diagnostics : DiagnosticPaths
  pub has_command : Bool
  pub supplied : List Text

-- The map `commands`.
abbrev pub commands : List (Text × ApplicationCommand)
commands =
    (codes "--help", help)
    ∷ (codes "--version", version)
    ∷ (codes "--serve", serve)
    ∷ (codes "--demo-sync", demo_sync)
    ∷ (codes "--demo-async", demo_async)
    ∷ (codes "--demo-mixed", demo_mixed)
    ∷ []

unfoldable pub find_command : Text → List (Text × ApplicationCommand) → Option ApplicationCommand
find_command argument [] = none
find_command argument ((name, command) ∷ more) =
    let later = find_command argument more in if text_eq argument name then some command else later

unfoldable pub is_option : Text → Bool
is_option argument =
    text_eq argument (codes "--log-file")
    || text_eq argument (codes "--trace-file")
    || text_eq argument (codes "--endpoint")
    || text_eq argument (codes "--timeout-ms")
    || text_eq argument (codes "--sessions")

-- `supplied.contains`
unfoldable pub contains : List Text → Text → Bool
contains [] name = false
contains (x ∷ supplied) name = text_eq x name || contains supplied name

-- The digits of `std::from_chars`, from a value on.
unfoldable pub digits_from : ℕ → Text → ℕ
digits_from value [] = value
digits_from value (c ∷ text) = digits_from (value * 10 + (c - b'0')) text

-- `std::from_chars` on the whole of a text: only digits, at least one, of a 32-bit number.
unfoldable pub from_chars : Text → Option ℕ
unfolding digits_from
from_chars text =
    if text_eq text [] || not (all_of (λ c. leb b'0' c && leb c b'9') text)
    then none
    else if leb (2 ^ 32) (digits_from 0 text)
    then none
    else some (digits_from 0 text)

-- The two numeric options.
unfoldable pub set_number : Parsing → Text → ℕ → Result Text Parsing
set_number p argument number =
    if text_eq argument (codes "--sessions")
    then (if number == 0 || ltb max_sessions number
        then err (codes "Session count is outside the supported bounds.\n")
        else ok (record p { options = record p.options { sessions = number } }))
    else (if ltb number minimum_timeout || ltb maximum_timeout number
        then err (codes "Timeout is outside the supported bounds.\n")
        else ok (record p { options = record p.options { timeout = number } }))

unfoldable pub set_option : Parsing → Text → Text → Result Text Parsing
unfolding set_number
set_option p argument value =
    if text_eq argument (codes "--log-file")
    then ok (record p { diagnostics = record p.diagnostics { log_file = value } })
    else if text_eq argument (codes "--trace-file")
    then ok (record p { diagnostics = record p.diagnostics { trace_file = value } })
    else if text_eq argument (codes "--endpoint")
    then (if not (valid_endpoint value)
        then err (codes "Endpoint must be a bounded local named-pipe name.\n")
        else ok (record p { options = record p.options { endpoint = value } }))
    else elim (from_chars value) [
      | none ↦ err (codes "Numeric options require unsigned decimal integers.\n")
      | some number ↦ set_number p argument number
    ]

unfoldable pub take_option : Parsing → Text → Option Text → Result Text Parsing
take_option p argument none = err (codes "Options require one unique value.\n")
take_option p argument (some value) =
    if contains p.supplied argument || text_eq value [] || starts_with value (codes "--")
    then err (codes "Options require one unique value.\n")
    else set_option (record p { supplied = argument ∷ p.supplied }) argument value

-- One round of the loop, and whether it has taken the next argument as a value.
unfoldable pub take_argument : Parsing → Text → Option Text → Result Text Parsing × Bool
take_argument p argument value = elim (find_command argument commands) [
  | some command ↦ (
    if p.has_command
        then err (codes "Exactly one command is required.\n")
        else ok (record p { has_command = true; options = record p.options { command = command } }),
    false,
  )
  | none ↦
      if not (is_option argument)
      then (err (codes "Unsupported arguments. Use --help for available options.\n"), false)
      else (take_option p argument value, true)
]

unfoldable pub parse_loop : Parsing → List Text → Result Text Parsing
parse_loop p [] = ok p
parse_loop p (argument ∷ []) = (take_argument p argument none).0
parse_loop p (argument ∷ value ∷ rest) =
    let out = take_argument p argument (some value) in
    elim out.0 [
      | err message ↦ err message
      | ok next ↦ elim out.1 [
        | true ↦ parse_loop next rest
        | false ↦ parse_loop next (value ∷ rest)
      ]
    ]

unfoldable pub is_runtime : ApplicationCommand → Bool
is_runtime help = false
is_runtime version = false
is_runtime command = true

unfoldable pub is_serve : ApplicationCommand → Bool
is_serve serve = true
is_serve command = false

-- `!=` on Booleans
unfoldable pub differ : Bool → Bool → Bool
differ true b = not b
differ false b = b

abbrev pub server_name : Text
server_name = codes "pipeforge-server"

-- Whether the command and the options do not apply to the executable.
unfoldable pub misapplied : Text → Parsing → Bool
misapplied name p =
    let command = p.options.command in
    let sessions = contains p.supplied (codes "--sessions") in
    (not (is_runtime command)
      && (contains p.supplied (codes "--endpoint")
          || contains p.supplied (codes "--timeout-ms")
          || sessions))
    || (is_runtime command && differ (is_serve command) (text_eq name server_name))
    || (sessions && not (is_serve command))

-- What stands behind the loop of `parse`.
unfoldable pub conclude_parse :
    Text → Result Text Parsing → Result Text (Invocation × DiagnosticPaths)
unfolding misapplied
conclude_parse name (err message) = err message
conclude_parse name (ok p) =
    if not p.has_command
    then err (codes "A command is required. Use --help for available options.\n")
    else if misapplied name p
    then err (codes "Command/options do not apply to this executable.\n")
    else ok (p.options, p.diagnostics)

abbrev pub new_parsing : Parsing
new_parsing = record {
  options = default_invocation;
  diagnostics = record { log_file = []; trace_file = [] };
  has_command = false;
  supplied = [];
}

-- The text of an error stands for what is written to `errors`.
unfoldable pub parse : Text → List Text → Result Text (Invocation × DiagnosticPaths)
unfolding parse_loop conclude_parse
parse name arguments = conclude_parse name (parse_loop new_parsing arguments)

-- What the rest of the program is asked to do, and what came of it: the error of opening the
-- diagnostics, the code of the command, and the result of `diagnostic_session::finish`.
pub record Outcomes : Type 0 where
  pub open_error : Option Text
  pub command_code : Invocation → ℕ
  pub finished : Bool

-- The end of `run_application`, for a command that runs: its exit code, and the errors written.
unfoldable pub run_command : Invocation → Bool → Outcomes → ℕ × Text
run_command options runtime outcomes = elim outcomes.open_error [
  | some message ↦ (1, codes "Diagnostics I/O error: " ++ (message ++ codes "\n"))
  | none ↦
      if not outcomes.finished
      then (1, codes "Diagnostics I/O failed while writing output.\n")
      else (if runtime then outcomes.command_code options else 0, [])
]

unfoldable pub run_parsed :
    Result Text (Invocation × DiagnosticPaths) → Bool → Bool → Outcomes → ℕ × Text
unfolding run_command
run_parsed (err message) has_handler profiling_enabled outcomes = (2, message)
run_parsed (ok (options, paths)) has_handler profiling_enabled outcomes =
    let runtime = is_runtime options.command in
    if runtime && not has_handler
    then (2, codes "Runtime IPC commands require Windows x64.\n")
    else if not profiling_enabled && not (text_eq paths.trace_file [])
    then (2, codes "Profiling is disabled in this build.\n")
    else run_command options runtime outcomes

unfoldable pub run_application : Text → List Text → Bool → Bool → Outcomes → ℕ × Text
unfolding run_parsed parse
run_application name arguments has_handler profiling_enabled outcomes =
    run_parsed (parse name arguments) has_handler profiling_enabled outcomes
