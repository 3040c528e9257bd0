-- ===== src/Builtins/Registered.antt =====
-- src/domain/builtins.cpp: the objects of the two classes keep to the definitions they are
-- registered with.
use stream_labs_test_assingm.Base.{
  ◌+◌, ◌≤◌, ◌≡◌, refl, true, not, ◌||◌, some, List, [], ◌∷◌, ◌++◌, arith, length, inl, inr,
  Bool-cases, Option-cases,
}
use stream_labs_test_assingm.Base.Int.{ℤ, ◌+ℤ◌}
use stream_labs_test_assingm.Base.Text.{Text, codes, text_eq}
use stream_labs_test_assingm.Base.Word.{add64, add64_exact}
use stream_labs_test_assingm.Contracts.{Value, string, int64, double, NamedValue, max_string_bytes}
use stream_labs_test_assingm.Validation.{
  Utf8, valid_value, valid_named_values, valid_names, valid_name, kind_of, kind_eq, value_bytes,
}
use stream_labs_test_assingm.Objects.{ClassDefinition}
use stream_labs_test_assingm.Store.State.{state_matches, charge_from}
use stream_labs_test_assingm.Builtins.{
  Builtin, counter_object, text_buffer_object, state, invoke, increment, append, as_integer,
  as_text, single_argument, counter_definition, text_buffer_definition,
}
use stream_labs_test_assingm.Builtins.Laws.{append-bounded, overflows}

-- Valid texts, one behind the other, are valid.
pub record Utf8Joins (u : Utf8) : Type 0 where
  pub join :
      (s t : Text)
      → u.is_structurally_valid s ≡ true
      → u.is_structurally_valid t ≡ true
      → u.is_structurally_valid (s ++ t) ≡ true

module _ ⦃u : Utf8⦄ where
  -- The class that an object belongs to.
  abbrev pub definition_of : Builtin → ClassDefinition Builtin
  definition_of (counter_object n) = counter_definition
  definition_of (text_buffer_object t) = text_buffer_definition

  abbrev pub IsFit : Builtin → Type 0
  IsFit (counter_object n) = Unit {0}
  IsFit (text_buffer_object t) = valid_value (string t) ≡ true

  counter_matches : (n : _) → state_matches counter_definition (state (counter_object n)) ≡ true
  unfolding state_matches counter_definition state valid_named_values valid_names valid_name
      charge_from valid_value value_bytes kind_of kind_eq text_eq add64
  counter_matches n = refl

  text_length : (t : Text) → valid_value (string t) ≡ true → length t ≤ max_string_bytes
  unfolding valid_value
  text_length t v = ground arith

  text_buffer_matches :
      (t : Text)
      → valid_value (string t) ≡ true
      → state_matches text_buffer_definition (state (text_buffer_object t)) ≡ true
  unfolding state_matches text_buffer_definition state valid_named_values valid_names valid_name
      charge_from value_bytes kind_of kind_eq text_eq
  text_buffer_matches t v = rw v (ground (arith, add64_exact 0 (132 + length t), text_length t v))

  -- The state of a fit object is what its class is registered for.
  pub state-matches : (b : Builtin) → IsFit b → state_matches (definition_of b) (state b) ≡ true
  state-matches (counter_object n) f = counter_matches n
  state-matches (text_buffer_object t) f = text_buffer_matches t f

  single_argument-valid :
      (arguments : List NamedValue) (name : Text) (v : Value)
      → single_argument arguments name ≡ some v
      → valid_value v ≡ true
  unfolding single_argument
  single_argument-valid [] name v h = absurd (ground arith)
  single_argument-valid (front ∷ []) name v h =
      elim (Bool-cases (not (text_eq front.name name) || not (valid_value front.datum))) [
        | inl bad ↦ absurd (cc (rw bad at h))
        | inr good ↦
            let same : front.datum ≡ v = ground arith in
            let valid : valid_value front.datum ≡ true = ground arith in rw same at valid
      ]
  single_argument-valid (front ∷ other ∷ arguments) name v h = absurd (ground arith)

  text_argument-valid :
      (arguments : List NamedValue) (name t : Text)
      → as_text (single_argument arguments name) ≡ some t
      → valid_value (string t) ≡ true
  unfolding as_text
  text_argument-valid arguments name t h = elim (Option-cases (single_argument arguments name)) [
    | inl missing ↦ absurd (cc (rw (missing, as_text) at h))
    | inr (v, e) ↦ from_value v (single_argument-valid arguments name v e) (rw e at h)
  ]
    where
      from_value :
          (v : Value)
          → valid_value v ≡ true
          → as_text (some v) ≡ some t
          → valid_value (string t) ≡ true
      from_value (string s) good k = let e : s ≡ t = ground arith in rw e at good
      from_value (int64 n) good k = absurd (ground arith)
      from_value (double n) good k = absurd (ground arith)

  valid_text :
      (t : Text)
      → (valid_value (string t) ≡ true → u.is_structurally_valid t ≡ true)
        × (length t ≤ max_string_bytes
            → u.is_structurally_valid t ≡ true
            → valid_value (string t) ≡ true)
  unfolding valid_value
  valid_text t = (λ v. ground arith, λ l h. ground arith)

  append-IsFit :
      (t suffix : Text)
      → Utf8Joins u
      → valid_value (string t) ≡ true
      → valid_value (string suffix) ≡ true
      → IsFit (append t suffix).0 × (definition_of (append t suffix).0 ≡ text_buffer_definition)
  append-IsFit t suffix j a b = elim (append-bounded t suffix (text_length t a)) [
    | inl (fits, e) ↦ rw e (
      (valid_text (t ++ suffix)).1 fits
          (j.join t suffix ((valid_text t).0 a) ((valid_text suffix).0 b)),
      refl,
    )
    | inr (_, e) ↦ rw e (a, refl)
  ]

  increment_counts : (n delta : ℤ) → (m : ℤ) × ((increment n delta).0 ≡ counter_object m)
  unfolding increment
  increment_counts n delta = elim (Bool-cases (overflows n delta)) [
    | inl over ↦ (n, rw over)
    | inr fits ↦ (n +ℤ delta, rw fits)
  ]

  -- Whatever it is called with, a method leaves a fit object of the same class fit, so its state
  -- still matches its definition; and what the factories make is fit.
  pub invoke-IsFit :
      (b : Builtin) (name : Text) (arguments : List NamedValue)
      → Utf8Joins u
      → IsFit b
      → IsFit (invoke b name arguments).0
        × (definition_of (invoke b name arguments).0 ≡ definition_of b)
  unfolding invoke
  invoke-IsFit (counter_object n) name arguments j f =
      elim (Bool-cases (text_eq name (codes "increment"))) [
        | inr other ↦ rw other (tt, refl)
        | inl known ↦ elim (Option-cases (as_integer (single_argument arguments (codes "delta")))) [
          | inl missing ↦ rw (known, missing) (tt, refl)
          | inr (delta, e) ↦
              let counts = increment_counts n delta in rw (known, e, counts.1) (tt, refl)
        ]
      ]
  invoke-IsFit (text_buffer_object t) name arguments j f =
      elim (Bool-cases (text_eq name (codes "append"))) [
        | inr other ↦ rw other (f, refl)
        | inl known ↦ elim (Option-cases (as_text (single_argument arguments (codes "suffix")))) [
          | inl missing ↦ rw (known, missing) (f, refl)
          | inr (suffix, e) ↦
              rw (known, e)
                (append-IsFit t suffix j f
                  (text_argument-valid arguments (codes "suffix") suffix e))
        ]
      ]
