-- ===== src/Diagnostics/Closing.antt =====
-- src/diagnostics/diagnostics.cpp: the end of a session.
use stream_labs_test_assingm.Base.{
  ℕ, ◌^◌, ◌≤◌, ◌<◌, ◌≡◌, ◌⊎◌, inl, inr, refl, ap, Bool, true, false, not, ◌||◌, [], ◌∷◌, ◌++◌, ◌==◌,
  length, arith, if-Cases,
}
use stream_labs_test_assingm.Diagnostics.{
  Serializer, DiagnosticState, trace_thread_limit, trace_footer, ClosingFaults, flush, write_trace,
  close_trace, close_log, close_outputs, finalize, finish,
}
use stream_labs_test_assingm.Diagnostics.Traces.{Account, IsTrace, Stage, IsKept}

-- What is kept apart from the stage.
pub record IsWritten (j : Serializer) (account : Account) (n : ℕ) (s : DiagnosticState)
    : Type 0 where
  pub text : ((s.failed ≡ true) × (account.faulty ≡ true)) ⊎ IsTrace j account s
  pub counted : s.active ≡ n
  pub under : s.active ≤ s.admitted
  pub bounded : s.admitted ≤ s.event_limit
  pub word : s.event_limit < 2 ^ 64
  pub few : length s.threads ≤ trace_thread_limit
  pub later_event : s.first_event ≡ false

abbrev pub kept :
    (j : Serializer) (account : Account) (n : ℕ) (s : DiagnosticState)
    → IsWritten j account n s
    → Stage s
    → IsKept j account n s
kept j account n s w stage = record {
  stage = stage;
  text = w.text;
  counted = w.counted;
  under = w.under;
  bounded = w.bounded;
  word = w.word;
  few = w.few;
  later_event = w.later_event;
}

module _ (j : Serializer) (account : Account) where
  -- The text once the footer is behind it.
  abbrev footed : DiagnosticState → DiagnosticState
  footed s = record s {
    trace_lines = s.trace_lines ++ trace_footer (j.dump_dropped s.dropped) ∷ [];
    trace_is_open = false;
  }

  footed-text :
      (s : DiagnosticState)
      → s.trace_is_open ≡ true
      → ((s.failed ≡ true) × (account.faulty ≡ true)) ⊎ IsTrace j account s
      → ((s.failed ≡ true) × (account.faulty ≡ true)) ⊎ IsTrace j account (footed s)
  footed-text s o (inl failed) = inl failed
  footed-text s o (inr (size, inl (_, lines))) = inr (
    size,
    inr (refl, s.dropped, ap (λ l. l ++ trace_footer (j.dump_dropped s.dropped) ∷ []) lines),
  )
  footed-text s o (inr (size, inr (shut, _, _))) = absurd (cc (o, shut))

  -- What a flush or a flag set leaves of it.
  flush-text :
      (fails : Bool) (s : DiagnosticState)
      → ((s.failed ≡ true) × (account.faulty ≡ true)) ⊎ IsTrace j account s
      → ((s.failed || fails ≡ true) × (account.faulty ≡ true)) ⊎ IsTrace j account s
  flush-text fails s (inl (failed, faulty)) = inl (ap (λ f. f || fails) failed, faulty)
  flush-text fails s (inr t) = inr t

  flush-IsWritten :
      (n : ℕ) (fails : Bool) (s : DiagnosticState)
      → IsWritten j account n s
      → IsWritten j account n (flush fails s)
  unfolding flush
  flush-IsWritten n fails s w = record {
    text = flush-text fails s w.text;
    counted = w.counted;
    under = w.under;
    bounded = w.bounded;
    word = w.word;
    few = w.few;
    later_event = w.later_event;
  }

  -- A trace that is shut while no scope is open.
  abbrev Shut : ℕ → DiagnosticState → Type 0
  Shut n s =
      IsWritten j account n s × (s.closing ≡ true) × (s.trace_is_open ≡ false) × (s.active ≡ 0)

  close_trace-Shut :
      (n : ℕ) (faults : ClosingFaults) (s : DiagnosticState)
      → IsWritten j account n s
      → s.closing ≡ true
      → s.active ≡ 0
      → (faults.footer ≡ true → account.faulty ≡ true)
      → Shut n (close_trace j faults s)
  unfolding close_trace write_trace flush
  close_trace-Shut n faults s w c a h =
      if-Cases (Shut n) s.trace_is_open _ _
        (λ o.
          if-Cases (λ t. Shut n (record (flush faults.trace_flush t) { trace_is_open = false }))
            faults.footer _ _
            (λ fails. (
              record {
                text = inl (refl, h fails);
                counted = w.counted;
                under = w.under;
                bounded = w.bounded;
                word = w.word;
                few = w.few;
                later_event = w.later_event;
              },
              c,
              refl,
              a,
            ))
            (λ _. (
              flush-IsWritten n faults.trace_flush (footed s) (record {
                text = footed-text s o w.text;
                counted = w.counted;
                under = w.under;
                bounded = w.bounded;
                word = w.word;
                few = w.few;
                later_event = w.later_event;
              }),
              c,
              refl,
              a,
            )))
        (λ shut. (w, c, shut, a))

  close_outputs-IsKept :
      (n : ℕ) (faults : ClosingFaults) (s : DiagnosticState)
      → IsWritten j account n s
      → s.closing ≡ true
      → s.active ≡ 0
      → (faults.footer ≡ true → account.faulty ≡ true)
      → IsKept j account n (close_outputs j faults s)
  unfolding close_outputs close_log flush
  close_outputs-IsKept n faults s w c a h =
      let t = close_trace j faults s in
      let (w', c', shut, a') = close_trace-Shut n faults s w c a h in
      if-Cases (IsKept j account n) t.log_is_open _ _
        (λ o.
          kept j account n _
            (record {
              text = flush-text faults.log_flush t w'.text;
              counted = w'.counted;
              under = w'.under;
              bounded = w'.bounded;
              word = w'.word;
              few = w'.few;
              later_event = w'.later_event;
            })
            (inr (inr (c', shut, a', refl))))
        (λ o. kept j account n t w' (inr (inr (c', shut, a', o))))

  -- `finalize`, called while the end is asked for.
  pub finalize-IsKept :
      (n : ℕ) (faults : ClosingFaults) (s : DiagnosticState)
      → IsWritten j account n s
      → s.closing ≡ true
      → (s.trace_is_open ≡ true) ⊎ (s.active ≡ 0)
      → (faults.footer ≡ true → account.faulty ≡ true)
      → IsKept j account n (finalize j faults s).0
  unfolding finalize
  finalize-IsKept n faults s w c o h =
      if-Cases (λ (out : DiagnosticState × Bool). IsKept j account n out.0) (not (s.active == 0)) _
        _
        (λ busy. kept j account n s w (elim o [
          | inl open_ ↦ inr (inl (c, open_, ground (arith, busy)))
          | inr idle ↦ absurd (ground (arith, busy, idle))
        ]))
        (λ idle. close_outputs-IsKept n faults s w c (ground (arith, idle)) h)

  written : (n : ℕ) (s : DiagnosticState) → IsKept j account n s → IsWritten j account n s
  written n s k = record {
    text = k.text;
    counted = k.counted;
    under = k.under;
    bounded = k.bounded;
    word = k.word;
    few = k.few;
    later_event = k.later_event;
  }

  pub finish-IsKept :
      (n : ℕ) (faults : ClosingFaults) (s : DiagnosticState)
      → IsKept j account n s
      → (faults.footer ≡ true → account.faulty ≡ true)
      → IsKept j account n (finish j faults s).0
  unfolding finish
  finish-IsKept n faults s k h =
      finalize-IsKept n faults (record s { closing = true })
        (record {
          text = k.text;
          counted = k.counted;
          under = k.under;
          bounded = k.bounded;
          word = k.word;
          few = k.few;
          later_event = k.later_event;
        })
        refl
        (elim k.stage [
          | inl (_, open_) ↦ inl open_
          | inr (inl (_, open_, _)) ↦ inl open_
          | inr (inr (_, _, idle, _)) ↦ inr idle
        ])
        h
