-- ===== src/Diagnostics/Ends.antt =====
-- src/diagnostics/diagnostics.cpp: the end of a scope.
use stream_labs_test_assingm.Base.{
  ℕ, suc, ◌-◌, ◌/◌, ◌≡◌, ◌⊎◌, inl, inr, refl, sym, ap, ◌∙◌, Bool, true, false, [], ◌∷◌, ◌++◌, map,
  arith, length-append, if◌then◌else◌, if-Cases,
}
use mathlib.Core.List.{map-append}
use stream_labs_test_assingm.Base.Text.{Text, codes}
use stream_labs_test_assingm.Base.Word.{sub64, sub64_exact}
use stream_labs_test_assingm.Diagnostics.{
  TraceEvent, process_name, complete, Serializer, DiagnosticState, trace_header, ClosingFaults,
  write_trace, write_event, end_scope,
}
use stream_labs_test_assingm.Diagnostics.Traces.{Account, IsTrace, IsKept}
use stream_labs_test_assingm.Diagnostics.Closing.{IsWritten, kept, finalize-IsKept}

-- The account with one more scope.
abbrev pub told : Account → TraceEvent → Account
told account event = record account { events = account.events ++ event ∷ [] }

module _ (j : Serializer) (account : Account) where
  -- A scope that is open keeps the trace open.
  open_while : (n : ℕ) (s : DiagnosticState) → IsKept j account (suc n) s → s.trace_is_open ≡ true
  open_while n s k = elim k.stage [
    | inl (_, open_) ↦ open_
    | inr (inl (_, open_, _)) ↦ open_
    | inr (inr (_, _, idle, _)) ↦ absurd (omega (arith, idle, k.counted))
  ]

  -- The state once a scope's line is written and the scope is taken off.
  abbrev ended : Text → DiagnosticState → DiagnosticState
  ended line s = record s {
    trace_lines = s.trace_lines ++ line ∷ [];
    first_event = false;
    active = sub64 s.active 1;
  }

  one_less :
      (n : ℕ) (s : DiagnosticState) → IsKept j account (suc n) s → sub64 s.active 1 ≡ s.active - 1
  one_less n s k =
      sub64_exact s.active 1 (omega (arith, k.under, k.bounded, k.word)) (omega (arith, k.counted))

  ended-text :
      (n : ℕ) (event : TraceEvent) (line : Text) (s : DiagnosticState)
      → IsKept j account (suc n) s
      → line ≡ codes "," ++ j.dump_event event
      → ((s.failed ≡ true) × (account.faulty ≡ true)) ⊎ IsTrace j account s
      → ((s.failed ≡ true) × (account.faulty ≡ true))
        ⊎ IsTrace j (told account event) (ended line s)
  ended-text n event line s k e (inl failed) = inl failed
  ended-text n event line s k e (inr (size, inl (o, lines))) = inr (
    omega (arith, length-append account.events (event ∷ []), size, one_less n s k, k.counted),
    inl (
      o,
      ap (λ l. l ++ line ∷ []) lines
          ∙ ap
              (λ x.
                trace_header
                ∷ j.dump_event (process_name account.application)
                ∷ (map (λ y. codes "," ++ j.dump_event y) account.events ++ x ∷ []))
              e
          ∙ ap (λ l. trace_header ∷ j.dump_event (process_name account.application) ∷ l)
              (sym (map-append (λ x. codes "," ++ j.dump_event x) account.events (event ∷ []))),
    ),
  )
  ended-text n event line s k e (inr (size, inr (shut, _, _))) =
      absurd (cc (open_while n s k, shut))

  -- The two ways of the write of an event.
  abbrev Ended : TraceEvent → ℕ → DiagnosticState → DiagnosticState → Type 0
  Ended event n s t =
      IsWritten j (told account event) n t × (t.closing ≡ s.closing) × (t.trace_is_open ≡ true)

  write_event-Ended :
      (n : ℕ) (fails : Bool) (event : TraceEvent) (s : DiagnosticState)
      → IsKept j account (suc n) s
      → (fails ≡ true → account.faulty ≡ true)
      → Ended event n s (record (write_event j fails event s) {
        active = sub64 (write_event j fails event s).active 1;
      })
  unfolding write_event write_trace
  write_event-Ended n fails event s k h =
      if-Cases (λ t. Ended event n s (record t { first_event = false; active = sub64 t.active 1 }))
        fails _ _
        (λ failing. (
          record {
            text = inl (refl, h failing);
            counted = omega (arith, one_less n s k, k.counted);
            under = omega (arith, one_less n s k, k.under);
            bounded = k.bounded;
            word = k.word;
            few = k.few;
            later_event = refl;
          },
          refl,
          open_while n s k,
        ))
        (λ _. (
          record {
            text =
                ended-text n event _ s k
                  (ap (λ b. (if b then [] else codes ",") ++ j.dump_event event) k.later_event)
                  k.text;
            counted = omega (arith, one_less n s k, k.counted);
            under = omega (arith, one_less n s k, k.under);
            bounded = k.bounded;
            word = k.word;
            few = k.few;
            later_event = refl;
          },
          refl,
          open_while n s k,
        ))

  pub end_scope-IsKept :
      (n : ℕ) (fails : Bool) (faults : ClosingFaults) (name : Text) (thread start stop : ℕ)
      (s : DiagnosticState)
      → IsKept j account (suc n) s
      → (fails ≡ true → account.faulty ≡ true)
      → (faults.footer ≡ true → account.faulty ≡ true)
      → IsKept j
          (told account (complete name thread ((start - s.origin) / 1000) ((stop - start) / 1000)))
          n
          (end_scope j fails faults name thread start stop s)
  unfolding end_scope
  end_scope-IsKept n fails faults name thread start stop s k h hf =
      let event = complete name thread ((start - s.origin) / 1000) ((stop - start) / 1000) in
      let t = record (write_event j fails event s) {
        active = sub64 (write_event j fails event s).active 1;
      } in
      let e = write_event-Ended n fails event s k h in
      if-Cases (IsKept j (told account event) n) t.closing _ _
        (λ c. finalize-IsKept j (told account event) n faults t e.0 c (inl e.2) hf)
        (λ c. kept j (told account event) n t e.0 (inl (c, e.2)))
