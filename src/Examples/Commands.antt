-- ===== src/Examples/Commands.antt =====
-- Witnesses and tests of src/cli/application.cpp and src/cli/server_commands.cpp.
use stream_labs_test_assingm.Base.{◌+◌, ◌≡◌, refl, true, false, List, [], ◌∷◌, none}
use stream_labs_test_assingm.Base.Text.{Text, codes, text_eq}
use stream_labs_test_assingm.Base.Result.{ok, err}
use stream_labs_test_assingm.Completion.{starts_with}
use stream_labs_test_assingm.Application.{
  Invocation, DiagnosticPaths, serve, parse, parse_loop, conclude_parse, misapplied, take_argument,
  take_option, set_option, set_number, find_command, is_option, contains, from_chars, digits_from,
  is_runtime, is_serve, differ, default_endpoint, default_timeout, server_name,
}
use stream_labs_test_assingm.Application.Bounds.{Accepts, parse-Accepts}
use stream_labs_test_assingm.Application.Serving.{ServeAnswers}
use stream_labs_test_assingm.Examples.Sample.{ascii}

abbrev serve_two : List Text
serve_two = codes "--serve" ∷ codes "--sessions" ∷ codes "2" ∷ []

abbrev two : Invocation
two = record {
  command = serve;
  endpoint = default_endpoint;
  timeout = default_timeout;
  sessions = 2;
}

abbrev no_paths : DiagnosticPaths
no_paths = record { log_file = []; trace_file = [] }

-- A second command, and an option of the server in the client.
refused :
    (parse server_name (codes "--serve" ∷ codes "--help" ∷ [])
      ≡ err (codes "Exactly one command is required.\n"))
    × (parse (codes "pipeforge-client") serve_two
        ≡ err (codes "Command/options do not apply to this executable.\n"))
unfolding parse parse_loop conclude_parse misapplied take_argument take_option set_option set_number
    find_command is_option contains from_chars digits_from is_runtime is_serve differ text_eq
    starts_with
refused = (refl, refl)

parse-Accepts_example : Accepts server_name (parse server_name serve_two)
parse-Accepts_example = parse-Accepts server_name serve_two

abbrev answers : ServeAnswers
answers = record {
  security = record {
    token_error = none;
    information_error = none;
    size = 44;
    groups_bytes = 16;
    storage_bytes = 84;
    group_count = 1;
    sid_is_valid = true;
    text_error = none;
    descriptor = ok 1;
  };
  make = λ first index. ok (index + 8);
  thread_error = none;
  output_good = true;
  lines = codes "go" ∷ codes "stop" ∷ [];
  input_bad = false;
  output_good_after = true;
  connections = 0;
}
