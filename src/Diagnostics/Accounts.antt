-- ===== src/Diagnostics/Accounts.antt =====
-- src/diagnostics/diagnostics.cpp: every run of the program on a session that traces.
use stream_labs_test_assingm.Base.{
  ◌||◌, ℕ, zero, suc, ◌-◌, ◌/◌, ◌^◌, ◌<◌, ◌≡◌, inl, inr, refl, ap, Bool, true, false, not, Option,
  none, some, List, [], ◌∷◌, length, get_elem?, arith, if-Holds, Option-cases,
}
use stream_labs_test_assingm.Base.Text.{Text}
use stream_labs_test_assingm.Diagnostics.{
  TraceEvent, complete, Serializer, DiagnosticState, write_trace, begin_scope, write_event,
  new_state,
}
use stream_labs_test_assingm.Diagnostics.Runs.{
  ProfileScope, Recording, Act, logs, opens, leaves, finishes, remove, opened_scope, open_scope,
  leave_scope, act, acts,
}
use stream_labs_test_assingm.Diagnostics.Traces.{
  Account, IsKept, Begins, log-IsKept, begin_scope-Begins,
}
use stream_labs_test_assingm.Diagnostics.Closing.{finish-IsKept}
use stream_labs_test_assingm.Diagnostics.Ends.{told, end_scope-IsKept}

length-remove :
    (scopes : List ProfileScope) (k : ℕ) (scope : ProfileScope)
    → get_elem? scopes k ≡ some scope
    → length scopes ≡ suc (length (remove scopes k))
length-remove [] k scope e = absurd (cc e)
length-remove (x ∷ scopes) zero scope e = refl
length-remove (x ∷ scopes) (suc k) scope e = ap suc (length-remove scopes k scope e)

-- The event of a scope that ends at a moment, in microseconds from the origin of the trace.
abbrev pub scope_event : ℕ → ProfileScope → ℕ → TraceEvent
scope_event origin scope now =
    complete scope.name scope.thread ((scope.started - origin) / 1000)
      ((now - scope.started) / 1000)

-- The account where a write of the trace may fail.
abbrev pub blamed : Account → Bool → Account
blamed account fails = record account { faulty = account.faulty || fails }

-- The account once an act is done: only the end of a scope that is open tells anything, and
-- only it and the end of the session write to the trace.
abbrev pub retold : Account → Recording → Act → Account
retold account r (logs fails level message) = account
retold account r (opens name thread now) = account
retold account r (leaves k fails faults now) = elim (get_elem? r.scopes k) [
  | none ↦ account
  | some scope ↦
      told (blamed account (fails || faults.footer)) (scope_event r.state.origin scope now)
]
retold account r (finishes faults) = blamed account faults.footer

-- The account of a run: each scope that has left, when it left.
abbrev pub retold_all : Serializer → Account → Recording → List Act → Account
retold_all j account r [] = account
retold_all j account r (a ∷ more) = retold_all j (retold account r a) (act j r a) more

module _ (j : Serializer) where
  -- The invariant, for the scopes that are open and the account of those that have left.
  abbrev pub IsRecorded : Account → Recording → Type 0
  IsRecorded account r = IsKept j account (length r.scopes) r.state

  abbrev Opens : Account → List ProfileScope → DiagnosticState × Option ProfileScope → Type 0
  Opens account scopes (s, o) = IsKept j account (length (opened_scope scopes o)) s

  begun-Opens :
      (account : Account) (scopes : List ProfileScope) (scope : ℕ → ProfileScope)
      (s : DiagnosticState) (o : Option ℕ)
      → Begins j account (length scopes) (s, o)
      → Opens account scopes (elim o [ none ↦ (s, none) | some number ↦ (s, some (scope number)) ])
  unfolding opened_scope
  begun-Opens account scopes scope s none k = k
  begun-Opens account scopes scope s (some number) k = k

  open_scope-Opens :
      (account : Account) (scopes : List ProfileScope) (name : Text) (thread now : ℕ)
      (s : DiagnosticState)
      → IsKept j account (length scopes) s
      → Opens account scopes (open_scope name thread now s)
  unfolding open_scope opened_scope
  open_scope-Opens account scopes name thread now s k =
      let begun = begin_scope thread s in
      if-Holds (Opens account scopes) (not s.trace_enabled) _ _ k (
        begun-Opens account scopes _ begun.0 begun.1
          (begin_scope-Begins j account (length scopes) thread s k))

  pub blamed-IsKept :
      (account : Account) (n : ℕ) (fails : Bool) (s : DiagnosticState)
      → IsKept j account n s
      → IsKept j (blamed account fails) n s
  blamed-IsKept account n fails s k = record {
    stage = k.stage;
    text = elim k.text [
      | inl (failed, faulty) ↦ inl (failed, ap (λ f. f || fails) faulty)
      | inr lines ↦ inr lines
    ];
    counted = k.counted;
    under = k.under;
    bounded = k.bounded;
    word = k.word;
    few = k.few;
    later_event = k.later_event;
  }

  act-IsRecorded :
      (account : Account) (r : Recording) (a : Act)
      → IsRecorded account r
      → IsRecorded (retold account r a) (act j r a)
  unfolding act leave_scope
  act-IsRecorded account r (logs fails level message) k =
      log-IsKept j account (length r.scopes) fails level message r.state k
  act-IsRecorded account r (opens name thread now) k =
      open_scope-Opens account r.scopes name thread now r.state k
  act-IsRecorded account r (leaves i fails faults now) k =
      elim (Option-cases (get_elem? r.scopes i)) [
        | inl e ↦ rw (act, retold, e) k
        | inr (scope, e) ↦
            let before = rw (length-remove r.scopes i scope e) at k in
            rw (act, retold, e)
              (end_scope-IsKept j (blamed account (fails || faults.footer))
                (length (remove r.scopes i)) fails faults scope.name scope.thread scope.started now
                r.state
                (blamed-IsKept account (suc (length (remove r.scopes i))) (fails || faults.footer)
                  r.state before)
                (λ e. ground (arith, e)) (λ e. ground (arith, e)))
      ]
  act-IsRecorded account r (finishes faults) k =
      finish-IsKept j (blamed account faults.footer) (length r.scopes) faults r.state
        (blamed-IsKept account (length r.scopes) faults.footer r.state k) (λ e. ground (arith, e))

  -- Whatever the program's threads log, open, leave and finish, in any order, and whichever writes
  -- and flushes fail: the scopes admitted keep to the limit of events and the threads to theirs,
  -- `active` counts the open scopes, and the trace is closed, with the log, exactly once its end was
  -- asked for and no scope is open. Unless an event or the footer has failed to be written, its text
  -- is the header, the process, then for each scope that has left, in that order and behind a comma,
  -- the event of the name, the thread and the start that the scope holds, and of its duration, and,
  -- when it is closed, one footer.
  pub acts-IsRecorded :
      (account : Account) (r : Recording) (more : List Act)
      → IsRecorded account r
      → IsRecorded (retold_all j account r more) (acts j r more)
  unfolding acts
  acts-IsRecorded account r [] k = k
  acts-IsRecorded account r (a ∷ more) k =
      acts-IsRecorded (retold account r a) (act j r a) more (act-IsRecorded account r a k)

  -- A session starts with its trace open and no scope, if the two first writes do not fail.
  pub new_state-IsRecorded :
      (application : Text) (has_log : Bool) (limit now : ℕ)
      → limit < 2 ^ 64
      → IsRecorded
          (record { application = application; events = []; faulty = false })
          (record {
            state = new_state j application has_log true true limit now false false;
            scopes = [];
          })
  unfolding new_state write_event write_trace
  new_state-IsRecorded application has_log limit now h = record {
    stage = inl (refl, refl);
    text = inr (refl, inl (refl, refl));
    counted = refl;
    under = omega arith;
    bounded = omega arith;
    word = h;
    few = omega arith;
    later_event = refl;
  }
