-- ===== src/Diagnostics/Runs.antt =====
-- src/diagnostics/diagnostics.cpp: the sessions and scopes of the program on a state, in any order.
-- `profile_scope` is what its constructor has kept, until its destructor.
use stream_labs_test_assingm.Base.{
  ℕ, zero, suc, Bool, true, false, Option, none, some, List, [], ◌∷◌, not, if◌then◌else◌, get_elem?,
  take,
}
use stream_labs_test_assingm.Base.Text.{Text}
use stream_labs_test_assingm.Diagnostics.{
  LogLevel, Serializer, DiagnosticState, ClosingFaults, profile_name_bytes, log, begin_scope,
  end_scope, finish,
}

pub record ProfileScope : Type 0 where
  pub name : Text
  pub thread : ℕ
  pub started : ℕ

-- The constructor of `profile_scope`, at a moment.
unfoldable pub open_scope : Text → ℕ → ℕ → DiagnosticState → DiagnosticState × Option ProfileScope
open_scope name thread now s =
    let begun = begin_scope thread s in
    if not s.trace_enabled then (s, none) else elim begun.1 [
      | none ↦ (begun.0, none)
      | some number ↦ (
        begun.0,
        some (record { name = take profile_name_bytes name; thread = number; started = now }),
      )
    ]

-- `diagnostic_session`: no state where no output is asked for.
unfoldable pub session_finish :
    Serializer → ClosingFaults → Option DiagnosticState → Option DiagnosticState × Bool
session_finish j faults none = (none, true)
session_finish j faults (some s) = let out = finish j faults s in (some out.0, out.1)

unfoldable pub session_log :
    Bool → LogLevel → Text → Option DiagnosticState → Option DiagnosticState
session_log fails level message none = none
session_log fails level message (some s) = some (log fails level message s)

unfoldable pub session_failed : Option DiagnosticState → Bool
session_failed none = false
session_failed (some s) = s.failed

-- A state with the scopes that are open on it.
pub record Recording : Type 0 where
  pub state : DiagnosticState
  pub scopes : List ProfileScope

-- What the program's threads do, with what fails.
pub data Act : Type 0 where
  logs : Bool → LogLevel → Text → Act
  opens : Text → ℕ → ℕ → Act
  leaves : ℕ → Bool → ClosingFaults → ℕ → Act
  finishes : ClosingFaults → Act

abbrev pub remove : List ProfileScope → ℕ → List ProfileScope
remove [] k = []
remove (x ∷ xs) zero = xs
remove (x ∷ xs) (suc k) = x ∷ remove xs k

unfoldable pub opened_scope : List ProfileScope → Option ProfileScope → List ProfileScope
opened_scope scopes none = scopes
opened_scope scopes (some scope) = scope ∷ scopes

module _ (j : Serializer) where
  -- The destructor of `profile_scope`.
  unfoldable pub leave_scope :
      ProfileScope → Bool → ClosingFaults → ℕ → DiagnosticState → DiagnosticState
  leave_scope scope fails faults now s =
      end_scope j fails faults scope.name scope.thread scope.started now s

  unfoldable pub act : Recording → Act → Recording
  unfolding opened_scope
  act r (logs fails level message) = record r { state = log fails level message r.state }
  act r (opens name thread now) =
      let out = open_scope name thread now r.state in
      record { state = out.0; scopes = opened_scope r.scopes out.1 }
  act r (leaves k fails faults now) = elim (get_elem? r.scopes k) [
    | none ↦ r
    | some scope ↦ record {
      state = leave_scope scope fails faults now r.state;
      scopes = remove r.scopes k;
    }
  ]
  act r (finishes faults) = record r { state = (finish j faults r.state).0 }

  unfoldable pub acts : Recording → List Act → Recording
  acts r [] = r
  acts r (a ∷ more) = acts (act r a) more
