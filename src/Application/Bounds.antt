-- ===== src/Application/Bounds.antt =====
-- src/cli/application.cpp, `parse`: what the arguments that it accepts come to.
use stream_labs_test_assingm.Base.{
  ℕ, ◌≤◌, ◌<◌, ◌≡◌, ◌≢◌, ◌⊎◌, inl, inr, refl, sym, ◌∙◌, Bool, true, false, ◌||◌, ◌&&◌, not, Option,
  none, some, List, [], ◌∷◌, ltb, ◌==◌, arith, if-Cases, if-Holds, Option-cases, Bool-cases,
}
use stream_labs_test_assingm.Base.Text.{Text, codes, text_eq, text_eq→eq, text_eq_refl}
use stream_labs_test_assingm.Base.Result.{Result, ok, err, Result-cases}
use stream_labs_test_assingm.Completion.{valid_endpoint, starts_with, endpoint_character}
use stream_labs_test_assingm.Transport.Server.Start.{max_sessions, minimum_timeout, maximum_timeout}
use stream_labs_test_assingm.Application.{
  ApplicationCommand, Invocation, DiagnosticPaths, Parsing, commands, find_command, is_option,
  contains, from_chars, set_number, set_option, take_option, take_argument, parse_loop, is_runtime,
  is_serve, server_name, misapplied, differ, conclude_parse, new_parsing, parse,
}

-- Options that a server or a client can run with.
abbrev pub IsBounded : Invocation → Type 0
IsBounded options =
    (valid_endpoint options.endpoint ≡ true)
    × (0 < options.sessions)
    × (options.sessions ≤ max_sessions)
    × (minimum_timeout ≤ options.timeout)
    × (options.timeout ≤ maximum_timeout)

abbrev Keeps : Result Text Parsing → Type 0
Keeps (err message) = 0 ≤ 0
Keeps (ok p) = IsBounded p.options

set_number-Keeps :
    (p : Parsing) (argument : Text) (number : ℕ)
    → IsBounded p.options
    → Keeps (set_number p argument number)
unfolding set_number
set_number-Keeps p argument number b =
    if-Holds Keeps (text_eq argument (codes "--sessions")) _ _
      (if-Cases Keeps (number == 0 || ltb max_sessions number) _ _ (λ bad. omega arith)
        (λ good. (b.0, ground (arith, good), ground (arith, good), b.3, b.4)))
      (if-Cases Keeps (ltb number minimum_timeout || ltb maximum_timeout number) _ _
        (λ bad. omega arith) (λ good. (b.0, b.1, b.2, ground (arith, good), ground (arith, good))))

set_option-Keeps :
    (p : Parsing) (argument value : Text)
    → IsBounded p.options
    → Keeps (set_option p argument value)
unfolding set_option
set_option-Keeps p argument value b = if-Holds Keeps (text_eq argument (codes "--log-file")) _ _ b (
    if-Holds Keeps (text_eq argument (codes "--trace-file")) _ _ b (
      if-Holds Keeps (text_eq argument (codes "--endpoint")) _ _
        (if-Cases Keeps (not (valid_endpoint value)) _ _ (λ bad. omega arith)
          (λ good. (ground (arith, good), b.1, b.2, b.3, b.4)))
        (elim (Option-cases (from_chars value)) [
          | inl e ↦ rw e (omega arith)
          | inr (number, e) ↦ rw e (set_number-Keeps p argument number b)
        ])))

take_option-Keeps :
    (p : Parsing) (argument : Text) (value : Option Text)
    → IsBounded p.options
    → Keeps (take_option p argument value)
unfolding take_option
take_option-Keeps p argument none b = omega arith
take_option-Keeps p argument (some value) b =
    if-Holds Keeps
      (contains p.supplied argument || text_eq value [] || starts_with value (codes "--")) _ _
      (omega arith)
      (set_option-Keeps (record p { supplied = argument ∷ p.supplied }) argument value b)

take_argument-Keeps :
    (p : Parsing) (argument : Text) (value : Option Text)
    → IsBounded p.options
    → Keeps (take_argument p argument value).0
unfolding take_argument
take_argument-Keeps p argument value b = elim (Option-cases (find_command argument commands)) [
  | inr (command, e) ↦ rw (take_argument, e) (if-Holds Keeps p.has_command _ _ (omega arith) b)
  | inl e ↦
      rw (take_argument, e)
        (if-Holds (λ (out : Result Text Parsing × Bool). Keeps out.0) (not (is_option argument)) _ _
          (omega arith) (take_option-Keeps p argument value b))
]

parse_loop-Keeps :
    (p : Parsing) (arguments : List Text) → IsBounded p.options → Keeps (parse_loop p arguments)
unfolding parse_loop
parse_loop-Keeps p [] b = b
parse_loop-Keeps p (argument ∷ []) b = take_argument-Keeps p argument none b
parse_loop-Keeps p (argument ∷ value ∷ rest) b =
    let taken = take_argument-Keeps p argument (some value) b in
    elim (Result-cases (take_argument p argument (some value)).0) [
      | inl (message, e) ↦ rw (parse_loop, e) (omega arith)
      | inr (next, e) ↦
          let kept = rw e at taken in
          elim (Bool-cases (take_argument p argument (some value)).1) [
            | inl used ↦ rw (parse_loop, e, used) (parse_loop-Keeps next rest kept)
            | inr unused ↦ rw (parse_loop, e, unused) (parse_loop-Keeps next (value ∷ rest) kept)
          ]
    ]

-- The command is one of the executable's: help and the version are of both, `serve` is the server's
-- and the demonstrations are the client's.
abbrev pub Applies : Text → ApplicationCommand → Type 0
Applies name command =
    (is_runtime command ≡ false)
    ⊎ ((is_serve command ≡ true) × (name ≡ server_name))
    ⊎ ((is_runtime command ≡ true) × (is_serve command ≡ false) × (name ≢ server_name))

abbrev pub Accepts : Text → Result Text (Invocation × DiagnosticPaths) → Type 0
Accepts name (err message) = 0 ≤ 0
Accepts name (ok (options, paths)) = IsBounded options × Applies name options.command

not_server : (name : Text) → text_eq name server_name ≡ false → name ≢ server_name
not_server name h e =
    let same : text_eq name server_name ≡ true = rw e (text_eq_refl server_name) in
    absurd (cc (h, same))

middle : (a b c : Bool) → (a || b || c) ≡ false → b ≡ false
middle true b c h = absurd (cc h)
middle false true c h = absurd (cc h)
middle false false c h = refl

agreeing : (runs s t : Bool) → (runs && differ s t) ≡ false → runs ≡ true → s ≡ t
unfolding differ
agreeing false s t h r = absurd (cc r)
agreeing true true true h r = refl
agreeing true true false h r = absurd (cc h)
agreeing true false true h r = absurd (cc h)
agreeing true false false h r = refl

-- A command that runs is `serve` exactly in the server's executable.
fitting_role :
    (name : Text) (p : Parsing)
    → misapplied name p ≡ false
    → is_runtime p.options.command ≡ true
    → is_serve p.options.command ≡ text_eq name server_name
unfolding misapplied
fitting_role name p h runs =
    agreeing (is_runtime p.options.command) (is_serve p.options.command) (text_eq name server_name)
      (middle _ _ _ h) runs

fitting : (name : Text) (p : Parsing) → misapplied name p ≡ false → Applies name p.options.command
fitting name p h = elim (Bool-cases (is_runtime p.options.command)) [
  | inr other ↦ inl other
  | inl runs ↦
      let same = fitting_role name p h runs in
      elim (Bool-cases (is_serve p.options.command)) [
        | inl serves ↦ inr (inl (serves, text_eq→eq name server_name (sym same ∙ serves)))
        | inr demos ↦ inr (inr (runs, demos, not_server name (sym same ∙ demos)))
      ]
]

conclude_parse-Accepts :
    (name : Text) (r : Result Text Parsing) → Keeps r → Accepts name (conclude_parse name r)
unfolding conclude_parse
conclude_parse-Accepts name (err message) k = k
conclude_parse-Accepts name (ok p) k =
    if-Holds (Accepts name) (not p.has_command) _ _ (omega arith) (
      if-Cases (Accepts name) (misapplied name p) _ _ (λ bad. omega arith)
        (λ good. (k, fitting name p good)))

new_parsing-IsBounded : IsBounded new_parsing.options
unfolding valid_endpoint starts_with endpoint_character
new_parsing-IsBounded = (refl, omega arith, omega arith, omega arith, omega arith)

-- An invocation that `parse` accepts has a valid endpoint and numbers within their bounds, by the
-- defaults or by the arguments, and its command is one of the executable's.
pub parse-Accepts : (name : Text) (arguments : List Text) → Accepts name (parse name arguments)
unfolding parse
parse-Accepts name arguments =
    conclude_parse-Accepts name (parse_loop new_parsing arguments)
      (parse_loop-Keeps new_parsing arguments new_parsing-IsBounded)
