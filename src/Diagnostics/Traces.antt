-- ===== src/Diagnostics/Traces.antt =====
-- src/diagnostics/diagnostics.cpp: the bounds of a trace, its text and its stages, in every step.
use stream_labs_test_assingm.Base.{
  ℕ, suc, ◌+◌, ◌^◌, ◌≤◌, ◌<◌, ◌≡◌, ◌⊎◌, inl, inr, refl, Bool, true, false, ◌&&◌, ◌||◌, not, Option,
  none, some, List, [], ◌∷◌, ◌++◌, map, leb, length, arith, if-Cases, if-Holds, Option-cases,
}
use stream_labs_test_assingm.Base.Text.{Text, codes}
use stream_labs_test_assingm.Base.Word.{add64, add64_exact}
use stream_labs_test_assingm.SortedMap.{SortedMap, find, emplace}
use stream_labs_test_assingm.SortedMap.Laws.{length-emplace}
use stream_labs_test_assingm.Diagnostics.{
  LogLevel, TraceEvent, process_name, Serializer, DiagnosticState, trace_thread_limit, trace_header,
  trace_footer, log, admit_thread, begin_scope,
}

-- The lines of a trace: its header, the name of the process, and each scope behind a comma.
abbrev pub trace_body : Serializer → Text → List TraceEvent → List Text
trace_body j application events =
    trace_header
    ∷ j.dump_event (process_name application)
    ∷ map (λ e. codes "," ++ j.dump_event e) events

-- What a trace tells of: the process, and the scopes that have ended, in the order of their ends; and
-- whether a write of the trace has failed.
pub record Account : Type 0 where
  pub application : Text
  pub events : List TraceEvent
  pub faulty : Bool

-- The text of a trace that no write has failed on: the account's events, one for each scope that has
-- ended, and one footer once it is closed. Then it is a single JSON object.
abbrev pub IsTrace : Serializer → Account → DiagnosticState → Type 0
IsTrace j account s =
    (length account.events + s.active ≡ s.admitted)
    × (((s.trace_is_open ≡ true)
          × (s.trace_lines ≡ trace_body j account.application account.events))
        ⊎ ((s.trace_is_open ≡ false)
            × (dropped : ℕ) × (s.trace_lines
                ≡ trace_body j account.application account.events
                  ++ trace_footer (j.dump_dropped dropped) ∷ [])))

-- A trace runs; or its end is asked for and scopes are open; or it is closed, with the log.
abbrev pub Stage : DiagnosticState → Type 0
Stage s =
    ((s.closing ≡ false) × (s.trace_is_open ≡ true))
    ⊎ ((s.closing ≡ true) × (s.trace_is_open ≡ true) × (0 < s.active))
    ⊎ ((s.closing ≡ true) × (s.trace_is_open ≡ false) × (s.active ≡ 0) × (s.log_is_open ≡ false))

-- A state of a session that traces, with `n` scopes open.
pub record IsKept (j : Serializer) (account : Account) (n : ℕ) (s : DiagnosticState) : Type 0 where
  pub stage : Stage s
  pub text : ((s.failed ≡ true) × (account.faulty ≡ true)) ⊎ IsTrace j account s
  pub counted : s.active ≡ n
  pub under : s.active ≤ s.admitted
  pub bounded : s.admitted ≤ s.event_limit
  pub word : s.event_limit < 2 ^ 64
  pub few : length s.threads ≤ trace_thread_limit
  pub later_event : s.first_event ≡ false

module _ (j : Serializer) (account : Account) where
  pub log-IsKept :
      (n : ℕ) (fails : Bool) (level : LogLevel) (message : Text) (s : DiagnosticState)
      → IsKept j account n s
      → IsKept j account n (log fails level message s)
  unfolding log
  log-IsKept n fails level message s k =
      if-Holds (IsKept j account n) (not (s.log_is_open && not s.closing)) _ _ k (
        if-Holds (IsKept j account n) fails _ _
          (record {
            stage = k.stage;
            text = elim k.text [
              | inl (failed, faulty) ↦ inl (refl, faulty)
              | inr lines ↦ inr lines
            ];
            counted = k.counted;
            under = k.under;
            bounded = k.bounded;
            word = k.word;
            few = k.few;
            later_event = k.later_event;
          })
          (record {
            stage = k.stage;
            text = k.text;
            counted = k.counted;
            under = k.under;
            bounded = k.bounded;
            word = k.word;
            few = k.few;
            later_event = k.later_event;
          }))

  dropped-IsKept :
      (n : ℕ) (s : DiagnosticState) (count : ℕ)
      → IsKept j account n s
      → IsKept j account n (record s { dropped = count })
  dropped-IsKept n s count k = record {
    stage = k.stage;
    text = k.text;
    counted = k.counted;
    under = k.under;
    bounded = k.bounded;
    word = k.word;
    few = k.few;
    later_event = k.later_event;
  }

  -- A scope that is admitted.
  grown-IsKept :
      (n : ℕ) (s : DiagnosticState) (threads : SortedMap ℕ)
      → length threads ≤ trace_thread_limit
      → s.closing ≡ false
      → s.trace_is_open ≡ true
      → s.admitted < s.event_limit
      → IsKept j account n s
      → IsKept j account
          (suc n)
          (record s { threads = threads; active = add64 s.active 1; admitted = add64 s.admitted 1 })
  grown-IsKept n s threads few running open_ room k =
      let more = add64_exact s.active 1 (omega (arith, k.under, room, k.word)) in
      let most = add64_exact s.admitted 1 (omega (arith, room, k.word)) in
      record {
        stage = inl (running, open_);
        text = elim k.text [
          | inl failed ↦ inl failed
          | inr (size, lines) ↦ inr (omega (arith, size, more, most), lines)
        ];
        counted = omega (arith, more, k.counted);
        under = omega (arith, more, most, k.under);
        bounded = omega (arith, most, room);
        word = k.word;
        few = few;
        later_event = k.later_event;
      }

  -- By whether a scope was admitted.
  abbrev pub Begins : ℕ → DiagnosticState × Option ℕ → Type 0
  Begins n (s, none) = IsKept j account n s
  Begins n (s, some number) = IsKept j account (suc n) s

  admit_thread-Begins :
      (n thread : ℕ) (s : DiagnosticState)
      → find thread s.threads ≡ none
      → s.closing ≡ false
      → s.trace_is_open ≡ true
      → s.admitted < s.event_limit
      → IsKept j account n s
      → Begins n (admit_thread thread s)
  unfolding admit_thread
  admit_thread-Begins n thread s fresh running open_ room k =
      let number = length s.threads + 1 in
      if-Cases (Begins n) (leb trace_thread_limit (length s.threads)) _ _
        (λ full. dropped-IsKept n s (add64 s.dropped 1) k)
        (λ free.
          grown-IsKept n s (emplace thread number s.threads)
            (ground (arith, length-emplace thread number s.threads fresh, free)) running open_ room
            k)

  -- A scope is admitted only while the trace runs and has not failed.
  admits :
      (s : DiagnosticState)
      → (not s.trace_is_open || s.closing || s.failed) ≡ false
      → (s.closing ≡ false) × (s.trace_is_open ≡ true)
  admits s e = (ground (arith, e), ground (arith, e))

  pub begin_scope-Begins :
      (n thread : ℕ) (s : DiagnosticState) → IsKept j account n s → Begins n (begin_scope thread s)
  unfolding begin_scope
  begin_scope-Begins n thread s k =
      if-Cases (Begins n) (not s.trace_is_open || s.closing || s.failed) _ _ (λ refuses. k)
        (λ goes.
          if-Cases (Begins n) (leb s.event_limit s.admitted) _ _
            (λ full. dropped-IsKept n s (add64 s.dropped 1) k)
            (λ room. elim (Option-cases (find thread s.threads)) [
              | inl fresh ↦ rw fresh (
                  admit_thread-Begins n thread s fresh (admits s goes).0 (admits s goes).1
                    (ground (arith, room)) k)
              | inr (number, found) ↦ rw found (
                  grown-IsKept n s s.threads k.few (admits s goes).0 (admits s goes).1
                    (ground (arith, room)) k)
            ]))
