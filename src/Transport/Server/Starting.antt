-- ===== src/Transport/Server/Starting.antt =====
-- src/transport/windows/server.cpp, `pipe_server::start`: which servers are started.
use stream_labs_test_assingm.Transport.Native.{
  error_broken_pipe, error_pipe_not_connected, error_no_data, error_access_denied,
  error_operation_aborted,
}
use stream_labs_test_assingm.Base.{
  ℕ, zero, suc, ◌+◌, ◌^◌, ◌≤◌, ◌<◌, ◌≡◌, ◌≢◌, ◌⊎◌, if-Holds, refl, sym, ap, ◌∙◌, subst, Bool, true,
  false, ◌||◌, not, Option, some, List, [], ◌∷◌, ltb, ◌==◌, length, replicate, length-replicate,
  get_elem?, arith, inl, inr, Bool-cases, Option-cases,
}
use stream_labs_test_assingm.Base.Result.{Result, ok, err, Result-cases}
use stream_labs_test_assingm.Validation.{Utf8}
use stream_labs_test_assingm.Objects.{ObjectClass}
use stream_labs_test_assingm.Registry.{ClassRegistry}
use stream_labs_test_assingm.Completion.{FailureKind, TransportFailure, valid_endpoint}
use stream_labs_test_assingm.Transport.Native.{io_failure}
use stream_labs_test_assingm.Transport.Server.{ServerOptions}
use stream_labs_test_assingm.Transport.Server.Workers.{Worker, accepting}
use stream_labs_test_assingm.Transport.Server.Steps.{Server}
use stream_labs_test_assingm.Transport.Server.Moves.{active_of, IsSafe, IsWithout}
use stream_labs_test_assingm.Transport.Server.Accounting.{IsCounted, open_sessions}
use stream_labs_test_assingm.Transport.Server.Start.{
  LogonAnswers, PipeMaker, describe_logon, logon_security, create_instance, create_pipes, launch,
  new_statistics, out_of_bounds, start, max_sessions, minimum_timeout, maximum_timeout,
}

-- A failure of the system, not of the options.
abbrev pub IsNative : TransportFailure → Type 0
IsNative error = error.kind ≢ FailureKind.invalid_configuration

io_failure-IsNative : (code : ℕ) → IsNative (io_failure code)
unfolding io_failure
io_failure-IsNative code =
    if-Holds IsNative
      (code == error_broken_pipe || code == error_pipe_not_connected || code == error_no_data) _ _
      (λ e. absurd (cc e))
      (if-Holds IsNative (code == error_access_denied) _ _ (λ e. absurd (cc e))
        (if-Holds IsNative (code == error_operation_aborted) _ _ (λ e. absurd (cc e))
          (λ e. absurd (cc e))))

abbrev Secures : Result TransportFailure ℕ → Type 0
Secures (err error) = IsNative error
Secures (ok descriptor) = 0 ≤ 0

logon_security-Secures : (a : LogonAnswers) → Secures (logon_security a)
unfolding logon_security describe_logon
logon_security-Secures a = elim (Option-cases a.token_error) [
  | inr (code, e) ↦ rw (logon_security, e) (io_failure-IsNative code)
  | inl e ↦ elim (Option-cases a.information_error) [
    | inr (code, f) ↦ rw (logon_security, e, f) (io_failure-IsNative code)
    | inl f ↦
        rw (logon_security, e, f)
          (if-Holds Secures (ltb a.size a.groups_bytes || ltb a.storage_bytes a.size) _ _
            (λ g. absurd (cc g))
            (if-Holds Secures (not (a.group_count == 1) || not a.sid_is_valid) _ _
              (λ g. absurd (cc g))
              (elim (Option-cases a.text_error) [
                | inr (code, g) ↦ rw (describe_logon, g) (io_failure-IsNative code)
                | inl g ↦ elim (Result-cases a.descriptor) [
                  | inl (code, h) ↦ rw (describe_logon, g, h) (io_failure-IsNative code)
                  | inr (descriptor, h) ↦ rw (describe_logon, g, h) (omega arith)
                ]
              ])))
  ]
]

create_instance-Secures :
    (make : PipeMaker) (first : Bool) (index : ℕ) → Secures (create_instance make first index)
unfolding create_instance
create_instance-Secures make first index = elim (Result-cases (make first index)) [
  | inl (code, e) ↦ rw (create_instance, e) (io_failure-IsNative code)
  | inr (handle, e) ↦ rw (create_instance, e) (omega arith)
]

abbrev Made : ℕ → Result TransportFailure (List ℕ) → Type 0
Made rounds (err error) = IsNative error
Made rounds (ok handles) = length handles ≡ rounds

create_pipes-Made :
    (make : PipeMaker) (rounds index : ℕ) → Made rounds (create_pipes make rounds index)
unfolding create_pipes
create_pipes-Made make zero index = refl
create_pipes-Made make (suc rounds) index =
    elim (Result-cases (create_instance make (index == 0) index)) [
      | inl (error, e) ↦
          rw (create_pipes, e) (rw e at (create_instance-Secures make (index == 0) index))
      | inr (handle, e) ↦ elim (Result-cases (create_pipes make rounds (index + 1))) [
        | inl (error, f) ↦
            rw (create_pipes, e, f) (rw f at (create_pipes-Made make rounds (index + 1)))
        | inr (handles, f) ↦
            let rest = rw f at (create_pipes-Made make rounds (index + 1)) in
            rw (create_pipes, e, f) (ap suc rest)
      ]
    ]

abbrev Launched : {Obj : Type 0} → ℕ → Result TransportFailure (List (Worker Obj)) → Type 0
Launched sessions (err error) = IsNative error
Launched sessions (ok workers) = workers ≡ replicate sessions accepting

launch-Launched :
    (Obj : Type 0) (sessions : ℕ) (security : LogonAnswers) (make : PipeMaker)
    (thread_error : Option ℕ)
    → Launched {Obj = Obj} sessions (launch sessions security make thread_error)
unfolding launch
launch-Launched Obj sessions security make thread_error =
    elim (Result-cases (logon_security security)) [
      | inl (error, e) ↦ rw (launch, e) (rw e at (logon_security-Secures security))
      | inr (descriptor, e) ↦ elim (Result-cases (create_pipes make sessions 0)) [
        | inl (error, f) ↦ rw (launch, e, f) (rw f at (create_pipes-Made make sessions 0))
        | inr (handles, f) ↦ elim (Option-cases thread_error) [
          | inr (code, g) ↦ rw (launch, e, f, g) (λ h. absurd (cc h))
          | inl g ↦
              let made = rw f at (create_pipes-Made make sessions 0) in
              rw (launch, e, f, g, made) refl
        ]
      ]
    ]

module _ {Obj : Type 0} ⦃o : ObjectClass Obj⦄ ⦃u : Utf8⦄ where
  replicated :
      (n k : ℕ) (w : Worker Obj) → get_elem? (replicate n accepting) k ≡ some w → w ≡ accepting
  replicated zero k w e = absurd (cc e)
  replicated (suc n) zero w e = cc e
  replicated (suc n) (suc k) w e = replicated n k w e

  nothing_open :
      (workers : List (Worker Obj)) (n : ℕ)
      → workers ≡ replicate n accepting
      → open_sessions workers ≡ 0
  nothing_open [] n e = refl
  nothing_open (w ∷ workers) zero e = absurd (cc e)
  nothing_open (w ∷ workers) (suc n) e =
      let one : w ≡ accepting = cc e in
      let rest : workers ≡ replicate n accepting = cc e in
      omega (arith, ap active_of one, nothing_open workers n rest)

  -- A server starts with the options and the classes that it was given, within its bounds, with a
  -- worker for each session and no session open, and its sessions are isolated and counted from then
  -- on.
  abbrev pub Starts :
      ClassRegistry Obj → ServerOptions → Result TransportFailure (Server Obj) → Type 0
  Starts registry options (err error) =
      ((out_of_bounds options ≡ true) × (error.kind ≡ FailureKind.invalid_configuration))
      ⊎ ((out_of_bounds options ≡ false) × IsNative error)
  Starts registry options (ok s) =
      (s.host.options ≡ options)
      × (s.host.registry ≡ registry)
      × (s.host.stopping ≡ false)
      × (valid_endpoint s.host.options.endpoint ≡ true)
      × (0 < s.host.options.sessions)
      × (s.host.options.sessions ≤ max_sessions)
      × (minimum_timeout ≤ s.host.options.request_timeout)
      × (s.host.options.request_timeout ≤ maximum_timeout)
      × (s.workers ≡ replicate options.sessions accepting)
      × IsCounted s

  started :
      (registry : ClassRegistry Obj) (options : ServerOptions) (workers : List (Worker Obj))
      → out_of_bounds options ≡ false
      → workers ≡ replicate options.sessions accepting
      → Starts registry options (
          ok (record {
            host = record {
              registry = registry;
              identifiers = record { upcoming = 1 };
              options = options;
              stopping = false;
              statistics = new_statistics;
            };
            workers = workers;
          }))
  unfolding out_of_bounds
  started registry options workers b e = (
    refl,
    refl,
    refl,
    ground (arith, b),
    ground (arith, b),
    ground (arith, b),
    ground (arith, b),
    ground (arith, b),
    e,
    record {
      isolated = record {
        word = omega arith;
        safe = λ k w f.
            subst (IsSafe (record { upcoming = 1 }))
              (sym (replicated options.sessions k w (ap (λ l. get_elem? l k) (sym e) ∙ f)))
              word_one;
        apart = λ j k v w ne f g id. inl (
            subst (IsWithout id)
              (sym (replicated options.sessions j v (ap (λ l. get_elem? l j) (sym e) ∙ f)))
              none_there);
      };
      few =
          ground
            (arith, ap length e, length-replicate {A = Worker Obj} options.sessions accepting, b);
      counted = sym (nothing_open workers options.sessions e);
    },
  )
    where
      word_one : 1 < 2 ^ 64
      word_one = omega arith

      none_there : 0 ≤ 0
      none_there = omega arith

  -- `start` refuses options out of bounds as such, and reports no other failure so. A server that it
  -- has started runs with the options and the classes it was given: a valid endpoint, a timeout
  -- within its bounds, and a worker for each of its one to four sessions. It is not stopping, no
  -- session is open, and its sessions are isolated.
  pub start-Starts :
      (registry : ClassRegistry Obj) (options : ServerOptions) (security : LogonAnswers)
      (make : PipeMaker) (thread_error : Option ℕ)
      → Starts registry options (start registry options security make thread_error)
  unfolding start
  start-Starts registry options security make thread_error =
      elim (Bool-cases (out_of_bounds options)) [
        | inl bad ↦ rw (start, bad) (inl (bad, refl))
        | inr good ↦
            elim (Result-cases (launch {Obj = Obj} options.sessions security make thread_error)) [
              | inl (error, e) ↦
                  let launched =
                    rw e at (launch-Launched Obj options.sessions security make thread_error) in
                  rw (start, good, e) (inr (good, launched))
              | inr (workers, e) ↦
                  let launched =
                    rw e at (launch-Launched Obj options.sessions security make thread_error) in
                  rw (start, good, e) (started registry options workers good launched)
            ]
      ]
