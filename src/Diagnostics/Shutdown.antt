-- ===== src/Diagnostics/Shutdown.antt =====
-- src/diagnostics/diagnostics.cpp: the end of a session that traces.
use stream_labs_test_assingm.Base.{
  suc, arith, ◌||◌, ℕ, ◌-◌, ◌/◌, ◌++◌, ◌≡◌, ◌⊎◌, inl, inr, refl, ◌∙◌, Bool, true, false, not, List,
  [], ◌∷◌, ◌==◌, length, arith, if◌then◌else◌, if-Holds,
}
use stream_labs_test_assingm.Base.Text.{Text, codes}
use stream_labs_test_assingm.Base.Word.{sub64}
use stream_labs_test_assingm.Diagnostics.{
  TraceEvent, complete, Serializer, DiagnosticState, ClosingFaults, flush, write_trace, close_trace,
  close_log, close_outputs, finalize, write_event, end_scope,
}
use stream_labs_test_assingm.Diagnostics.Runs.{
  ProfileScope, Recording, Act, leaves, leave_scope, act, acts,
}
use stream_labs_test_assingm.Diagnostics.Traces.{Account, IsTrace, IsKept}
use stream_labs_test_assingm.Diagnostics.Ends.{told, end_scope-IsKept}
use stream_labs_test_assingm.Diagnostics.Accounts.{
  blamed, blamed-IsKept, scope_event, retold_all, IsRecorded,
}

-- The scopes that are open leave one after the other.
abbrev pub drains : List ProfileScope → Bool → ClosingFaults → ℕ → List Act
drains [] fails faults now = []
drains (scope ∷ scopes) fails faults now =
    leaves 0 fails faults now ∷ drains scopes fails faults now

module _ (j : Serializer) where
  -- No write, and no end of a scope, takes back that the end was asked for.
  write_trace-closing :
      (fails : Bool) (line : Text) (s : DiagnosticState)
      → (write_trace fails line s).closing ≡ s.closing
  unfolding write_trace
  write_trace-closing fails line s =
      if-Holds (λ (t : DiagnosticState). t.closing ≡ s.closing) fails _ _ refl refl

  close_trace-closing :
      (faults : ClosingFaults) (s : DiagnosticState) → (close_trace j faults s).closing ≡ s.closing
  unfolding close_trace flush
  close_trace-closing faults s =
      if-Holds (λ (t : DiagnosticState). t.closing ≡ s.closing) s.trace_is_open _ _
        (write_trace-closing faults.footer _ s) refl

  close_outputs-closing :
      (faults : ClosingFaults) (s : DiagnosticState)
      → (close_outputs j faults s).closing ≡ s.closing
  unfolding close_outputs close_log flush
  close_outputs-closing faults s =
      if-Holds (λ (t : DiagnosticState). t.closing ≡ s.closing) (close_trace j faults s).log_is_open
        _ _ (close_trace-closing faults s) (close_trace-closing faults s)

  finalize-closing :
      (faults : ClosingFaults) (s : DiagnosticState) → (finalize j faults s).0.closing ≡ s.closing
  unfolding finalize
  finalize-closing faults s =
      if-Holds (λ (t : DiagnosticState × Bool). t.0.closing ≡ s.closing) (not (s.active == 0)) _ _
        refl (close_outputs-closing faults s)

  write_event-closing :
      (fails : Bool) (event : TraceEvent) (s : DiagnosticState)
      → (write_event j fails event s).closing ≡ s.closing
  unfolding write_event
  write_event-closing fails event s =
      write_trace-closing fails ((if s.first_event then [] else codes ",") ++ j.dump_event event) s

  end_scope-closing :
      (fails : Bool) (faults : ClosingFaults) (name : Text) (thread start stop : ℕ)
      (s : DiagnosticState)
      → (end_scope j fails faults name thread start stop s).closing ≡ s.closing
  unfolding end_scope
  end_scope-closing fails faults name thread start stop s =
      let event = complete name thread ((start - s.origin) / 1000) ((stop - start) / 1000) in
      let written = write_event j fails event s in
      let t = record written { active = sub64 written.active 1 } in
      let same = write_event-closing fails event s in
      if-Holds (λ (x : DiagnosticState). x.closing ≡ s.closing) t.closing (finalize j faults t).0 t
        (finalize-closing faults t ∙ same) same

  abbrev pub IsClosed : Account → Recording → Type 0
  IsClosed account r =
      (r.scopes ≡ [])
      × (r.state.trace_is_open ≡ false)
      × (r.state.log_is_open ≡ false)
      × (((r.state.failed ≡ true) × (account.faulty ≡ true)) ⊎ IsTrace j account r.state)

  idle-IsClosed :
      (account : Account) (s : DiagnosticState)
      → IsKept j account 0 s
      → s.closing ≡ true
      → IsClosed account (record { state = s; scopes = [] })
  idle-IsClosed account s k c = elim k.stage [
    | inl (running, _) ↦ absurd (cc (c, running))
    | inr (inl (_, _, busy)) ↦ absurd (omega (arith, busy, k.counted))
    | inr (inr (_, shut, _, quiet)) ↦ (refl, shut, quiet, k.text)
  ]

  -- Once the end of a session was asked for, the open scopes need only leave: then the trace is
  -- closed and so is the log, and unless an event or the footer has failed to be written the text
  -- tells of every scope that has left and ends in its footer.
  pub drains-IsClosed :
      (account : Account) (scopes : List ProfileScope) (s : DiagnosticState) (fails : Bool)
      (faults : ClosingFaults) (now : ℕ)
      → IsRecorded j account (record { state = s; scopes = scopes })
      → s.closing ≡ true
      → let r : Recording = record { state = s; scopes = scopes } in
        IsClosed
          (retold_all j account r (drains scopes fails faults now))
          (acts j r (drains scopes fails faults now))
  unfolding acts act leave_scope
  drains-IsClosed account [] s fails faults now k c = idle-IsClosed account s k c
  drains-IsClosed account (scope ∷ scopes) s fails faults now k c =
      let blamed_account = blamed account (fails || faults.footer) in
      drains-IsClosed (told blamed_account (scope_event s.origin scope now)) scopes
        (end_scope j fails faults scope.name scope.thread scope.started now s) fails faults now
        (end_scope-IsKept j blamed_account (length scopes) fails faults scope.name scope.thread
          scope.started now s
          (blamed-IsKept j account (suc (length scopes)) (fails || faults.footer) s k)
          (λ e. ground (arith, e)) (λ e. ground (arith, e)))
        (end_scope-closing fails faults scope.name scope.thread scope.started now s ∙ c)
