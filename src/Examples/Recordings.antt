-- ===== src/Examples/Recordings.antt =====
-- Witnesses and tests of src/diagnostics/diagnostics.cpp, with a serializer that writes names only.
use stream_labs_test_assingm.Base.{◌≡◌, ◌++◌, refl, true, false, List, [], ◌∷◌, arith}
use stream_labs_test_assingm.Base.Text.{Text, codes}
use stream_labs_test_assingm.Diagnostics.{
  TraceEvent, process_name, complete, Serializer, new_state, write_event, write_trace, begin_scope,
  admit_thread, end_scope, finalize, finish, close_outputs, close_trace, close_log, flush,
  ClosingFaults, trace_header, trace_footer,
}
use stream_labs_test_assingm.Base.Word.{add64, sub64}
use stream_labs_test_assingm.SortedMap.{find, emplace}
use stream_labs_test_assingm.Diagnostics.Runs.{
  Recording, Act, opens, finishes, act, acts, open_scope, opened_scope, leave_scope,
}
use stream_labs_test_assingm.Diagnostics.Traces.{Account}
use stream_labs_test_assingm.Diagnostics.Accounts.{
  IsRecorded, retold_all, acts-IsRecorded, new_state-IsRecorded,
}
use stream_labs_test_assingm.Diagnostics.Shutdown.{IsClosed, drains, drains-IsClosed}

abbrev write_name : TraceEvent → Text
write_name (process_name application) = application
write_name (complete name thread start duration) = name

abbrev names_only : Serializer
names_only = record { dump_event = write_name; dump_dropped = λ n. codes "{}" }

abbrev no_faults : ClosingFaults
no_faults = record { footer = false; trace_flush = false; log_flush = false }

abbrev started : Recording
started = record {
  state = new_state names_only (codes "a") true true true 10 0 false false;
  scopes = [];
}

abbrev nothing_told : Account
nothing_told = record { application = codes "a"; events = []; faulty = false }

started-IsRecorded : IsRecorded names_only nothing_told started
started-IsRecorded = new_state-IsRecorded names_only (codes "a") true 10 0 (omega arith)

-- Two scopes are opened, and the end is asked for while they are open.
abbrev two_scopes : List Act
two_scopes = opens (codes "x") 7 1 ∷ opens (codes "y") 8 2 ∷ finishes no_faults ∷ []

abbrev asked : Recording
asked = acts names_only started two_scopes

abbrev asked_told : Account
asked_told = retold_all names_only nothing_told started two_scopes

abbrev both_told : Account
both_told = retold_all names_only asked_told asked (drains asked.scopes false no_faults 9)

acts-IsRecorded_example : IsRecorded names_only asked_told asked
acts-IsRecorded_example =
    acts-IsRecorded names_only nothing_told started two_scopes started-IsRecorded

drained_trace :
    (acts names_only asked (drains asked.scopes false no_faults 9)).state.trace_lines
    ≡ trace_header
      ∷ codes "a"
      ∷ (codes "," ++ codes "y")
      ∷ (codes "," ++ codes "x")
      ∷ trace_footer (codes "{}")
      ∷ []
unfolding acts act new_state write_event write_trace open_scope opened_scope begin_scope
    admit_thread find emplace add64 sub64 leave_scope end_scope finalize finish close_outputs
    close_trace close_log flush
drained_trace = refl

asked_closing : asked.state.closing ≡ true
unfolding acts act new_state write_event write_trace open_scope opened_scope begin_scope
    admit_thread find emplace add64 sub64 finalize finish close_outputs close_trace close_log flush
asked_closing = refl

drains-IsClosed_example :
    IsClosed names_only both_told (acts names_only asked (drains asked.scopes false no_faults 9))
drains-IsClosed_example =
    drains-IsClosed names_only asked_told asked.scopes asked.state false no_faults 9
      (acts-IsRecorded names_only nothing_told started two_scopes started-IsRecorded) asked_closing
