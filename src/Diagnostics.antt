-- ===== src/Diagnostics.antt =====
-- src/diagnostics/diagnostics.cpp: the log and the trace of a process. Sinks and the serializer of
-- JSON are other libraries: a write and a flush are told whether they fail, and a line that failed
-- is taken as not written. The mutex makes each function one step. A thread is a number of the system's.
pub mod Runs
pub mod Traces
pub mod Closing
pub mod Ends
pub mod Accounts
pub mod Shutdown
use stream_labs_test_assingm.Base.{
  ℕ, ◌+◌, ◌-◌, ◌/◌, Bool, true, false, ◌&&◌, ◌||◌, not, Option, none, some, List, [], ◌∷◌, ◌++◌,
  leb, ◌==◌, if◌then◌else◌, length, take,
}
use stream_labs_test_assingm.Base.Text.{Text, codes, text_eq}
use stream_labs_test_assingm.Base.Result.{Result, ok, err}
use stream_labs_test_assingm.Base.Word.{add64, sub64}
use stream_labs_test_assingm.SortedMap.{SortedMap, find, emplace}

abbrev pub trace_thread_limit : ℕ
trace_thread_limit = 128

abbrev pub profile_name_bytes : ℕ
profile_name_bytes = 256

pub data LogLevel : Type 0 where
  debug info warning error : LogLevel

-- The events of a trace, as the code builds them. What is the same in each of them (the phase, the
-- category and the process) is left to the serializer.
pub data TraceEvent : Type 0 where
  process_name : Text → TraceEvent
  complete : Text → ℕ → ℕ → ℕ → TraceEvent

-- The `dump` of an event and of the metadata.
pub record Serializer : Type 0 where
  pub dump_event : TraceEvent → Text
  pub dump_dropped : ℕ → Text

pub record DiagnosticState : Type 0 where
  pub failed : Bool
  pub log_is_open : Bool
  -- What the log's sink was given, whatever its rotation keeps.
  pub log_lines : List (LogLevel × Text)
  pub trace_is_open : Bool
  pub trace_lines : List Text
  pub origin : ℕ
  pub threads : SortedMap ℕ
  pub event_limit : ℕ
  pub active : ℕ
  pub admitted : ℕ
  pub dropped : ℕ
  pub first_event : Bool
  pub trace_enabled : Bool
  pub closing : Bool

abbrev pub trace_header : Text
trace_header = codes "{\"traceEvents\":["

abbrev pub trace_footer : Text → Text
trace_footer metadata =
    codes "],\"displayTimeUnit\":\"ms\",\"otherData\":" ++ (metadata ++ codes "}")

-- `trace_->info(...)`: the sink's error handler sets the flag.
unfoldable pub write_trace : Bool → Text → DiagnosticState → DiagnosticState
write_trace fails line s =
    if fails
    then record s { failed = true }
    else record s { trace_lines = s.trace_lines ++ line ∷ [] }

unfoldable pub log : Bool → LogLevel → Text → DiagnosticState → DiagnosticState
log fails level message s =
    if not (s.log_is_open && not s.closing)
    then s
    else if fails
    then record s { failed = true }
    else record s { log_lines = s.log_lines ++ (level, message) ∷ [] }

-- A thread that is new gets the next number, if there is one left.
unfoldable pub admit_thread : ℕ → DiagnosticState → DiagnosticState × Option ℕ
admit_thread thread s =
    let number = length s.threads + 1 in
    if leb trace_thread_limit (length s.threads)
    then (record s { dropped = add64 s.dropped 1 }, none)
    else (
      record s {
        threads = emplace thread number s.threads;
        active = add64 s.active 1;
        admitted = add64 s.admitted 1;
      },
      some number,
    )

unfoldable pub begin_scope : ℕ → DiagnosticState → DiagnosticState × Option ℕ
unfolding admit_thread
begin_scope thread s =
    if not s.trace_is_open || s.closing || s.failed
    then (s, none)
    else if leb s.event_limit s.admitted
    then (record s { dropped = add64 s.dropped 1 }, none)
    else elim (find thread s.threads) [
      | none ↦ admit_thread thread s
      | some number ↦
          (record s { active = add64 s.active 1; admitted = add64 s.admitted 1 }, some number)
    ]

-- `flush`: the sink's error handler sets the flag.
unfoldable pub flush : Bool → DiagnosticState → DiagnosticState
flush fails s = record s { failed = s.failed || fails }

-- What fails where the outputs are closed.
pub record ClosingFaults : Type 0 where
  pub footer : Bool
  pub trace_flush : Bool
  pub log_flush : Bool

-- `finalize` once no scope is open: the trace's footer, its flush and its end.
unfoldable pub close_trace : Serializer → ClosingFaults → DiagnosticState → DiagnosticState
unfolding write_trace flush
close_trace j faults s =
    if s.trace_is_open
    then record (flush faults.trace_flush
        (write_trace faults.footer (trace_footer (j.dump_dropped s.dropped)) s)) {
          trace_is_open = false;
        }
    else s

-- Then the log's flush and its end.
unfoldable pub close_log : ClosingFaults → DiagnosticState → DiagnosticState
unfolding flush
close_log faults s =
    if s.log_is_open then record (flush faults.log_flush s) { log_is_open = false } else s

unfoldable pub close_outputs : Serializer → ClosingFaults → DiagnosticState → DiagnosticState
unfolding close_trace close_log
close_outputs j faults s = close_log faults (close_trace j faults s)

unfoldable pub finalize : Serializer → ClosingFaults → DiagnosticState → DiagnosticState × Bool
unfolding close_outputs
finalize j faults s =
    if not (s.active == 0)
    then (s, false)
    else (close_outputs j faults s, not (close_outputs j faults s).failed)

unfoldable pub write_event : Serializer → Bool → TraceEvent → DiagnosticState → DiagnosticState
unfolding write_trace
write_event j fails event s =
    record (write_trace fails ((if s.first_event then [] else codes ",") ++ j.dump_event event) s) {
      first_event = false;
    }

-- The scope's name, thread, start and stop, in nanoseconds, whether the write of the event fails, and
-- what fails where this scope's end closes the outputs.
unfoldable pub end_scope :
    Serializer → Bool → ClosingFaults → Text → ℕ → ℕ → ℕ → DiagnosticState → DiagnosticState
unfolding write_event finalize
end_scope j fails faults name thread start stop s =
    let event = complete name thread ((start - s.origin) / 1000) ((stop - start) / 1000) in
    let written = write_event j fails event s in
    let s' = record written { active = sub64 written.active 1 } in
    if s'.closing then (finalize j faults s').0 else s'

unfoldable pub finish : Serializer → ClosingFaults → DiagnosticState → DiagnosticState × Bool
unfolding finalize
finish j faults s = finalize j faults (record s { closing = true })

-- The constructor of `diagnostic_state` past `validate_paths`: which outputs are asked for, whether
-- profiling is built in, and whether the two writes fail.
unfoldable pub new_state :
    Serializer → Text → Bool → Bool → Bool → ℕ → ℕ → Bool → Bool → DiagnosticState
unfolding write_trace write_event
new_state j application has_log has_trace profiling_enabled limit now fails fails_event =
    let traces = profiling_enabled && has_trace in
    let s : DiagnosticState = record {
      failed = false;
      log_is_open = has_log;
      log_lines = [];
      trace_is_open = traces;
      trace_lines = [];
      origin = if traces then now else 0;
      threads = [];
      event_limit = limit;
      active = 0;
      admitted = 0;
      dropped = 0;
      first_event = true;
      trace_enabled = false;
      closing = false;
    } in
    if traces
    then record (write_event j fails_event (process_name application)
        (write_trace fails trace_header s)) { trace_enabled = true }
    else s

-- `validate_paths` over the answers of the file system: the two paths made canonical, whether the
-- system compares them as equal, and whether they are the same file. `none` is no error.
unfoldable pub validate_paths :
    Text → Text → Result Text Text → Result Text Text → Bool → Bool → Option Text
validate_paths log_file trace_file log_path trace_path compares_equal aliases =
    if text_eq log_file [] || text_eq trace_file [] then none else elim log_path [
      | err message ↦ some message
      | ok one ↦ elim trace_path [
        | err message ↦ some message
        | ok other ↦
            if (text_eq one other || compares_equal) || aliases
            then some (codes "Log and trace output must use different files")
            else none
      ]
    ]
