-- ===== src/Examples/Builtins.antt =====
-- Witnesses and tests of src/domain/builtins.cpp.
use stream_labs_test_assingm.Base.{
  ◌≡◌, ◌≤◌, ◌<◌, ◌++◌, refl, true, List, [], ◌∷◌, arith, ◌⊎◌, length,
}
use stream_labs_test_assingm.Base.Int.{pos, negsuc, ◌+ℤ◌, ◌-ℤ◌, ltb_ℤ}
use stream_labs_test_assingm.Base.Text.{codes}
use stream_labs_test_assingm.Base.Result.{ok, err}
use stream_labs_test_assingm.Contracts.{string, int64, NamedValue, ErrorCode, max_string_bytes}
use stream_labs_test_assingm.Contracts.{Parameter, ValueKind}
use stream_labs_test_assingm.Validation.{
  valid_names, valid_names_from, valid_name, name_character, name_seen, valid_arguments,
  valid_named_values, holds_kind, kind_of, kind_eq,
}
use stream_labs_test_assingm.Validation.Arguments.{
  valid_arguments-names_of, parameter_names, argument_names,
}
use stream_labs_test_assingm.Base.Text.{text_eq}
use stream_labs_test_assingm.Validation.{valid_value, make_error}
use stream_labs_test_assingm.Store.State.{state_matches}
use stream_labs_test_assingm.Builtins.{
  counter_object, text_buffer_object, increment, append, invoke, state, int64_max, int64_min,
  text_buffer_definition,
}
use stream_labs_test_assingm.Builtins.Laws.{IsInt64, increment-exact, append-bounded, bounds_exact}
use stream_labs_test_assingm.Builtins.Registered.{IsFit, definition_of, invoke-IsFit, state-matches}
use stream_labs_test_assingm.Examples.Sample.{ascii, ascii-Joins}

max_IsInt64 : IsInt64 int64_max
max_IsInt64 = record { lower = ground arith; upper = ground arith }

one_IsInt64 : IsInt64 (pos 1)
one_IsInt64 = record { lower = ground arith; upper = ground arith }

increment-exact_example :
    (IsInt64 (int64_max +ℤ pos 1)
      × (increment int64_max (pos 1)
          ≡ (counter_object (int64_max +ℤ pos 1), ok (int64 (int64_max +ℤ pos 1)))))
    ⊎ ((¬ IsInt64 (int64_max +ℤ pos 1))
        × (increment int64_max (pos 1)
            ≡ (counter_object int64_max, err (make_error ErrorCode.numeric_overflow))))
increment-exact_example = increment-exact int64_max (pos 1) max_IsInt64 one_IsInt64

-- The largest integer overflows, and the smallest can be reached.
increments :
    (increment int64_max (pos 1)
      ≡ (counter_object int64_max, err (make_error ErrorCode.numeric_overflow)))
    × (increment (negsuc 0) int64_min
        ≡ (counter_object (negsuc 0), err (make_error ErrorCode.numeric_overflow)))
    × (increment (pos 0) int64_min ≡ (counter_object int64_min, ok (int64 int64_min)))
unfolding increment ◌+ℤ◌ ◌-ℤ◌
increments = (refl, refl, refl)

increment_bounds :
    (ltb_ℤ (pos 0) (pos 1) ≡ true → IsInt64 (int64_max -ℤ pos 1))
    × (ltb_ℤ (pos 1) (pos 0) ≡ true → IsInt64 (int64_min -ℤ pos 1))
increment_bounds = bounds_exact (pos 1) one_IsInt64

append-bounded_example :
    ((length (codes "ab" ++ codes "c") ≤ max_string_bytes)
      × (append (codes "ab") (codes "c")
          ≡ (text_buffer_object (codes "ab" ++ codes "c"), ok (string (codes "ab" ++ codes "c")))))
    ⊎ ((max_string_bytes < length (codes "ab" ++ codes "c"))
        × (append (codes "ab") (codes "c")
            ≡ (text_buffer_object (codes "ab"), err (make_error ErrorCode.quota_exceeded))))
append-bounded_example = append-bounded (codes "ab") (codes "c") (omega arith)

ab_fits : IsFit (text_buffer_object (codes "ab"))
unfolding valid_value
ab_fits = refl

abbrev suffix : List NamedValue
suffix = record { name = codes "suffix"; datum = string (codes "c") } ∷ []

invoke-IsFit_example :
    IsFit (invoke (text_buffer_object (codes "ab")) (codes "append") suffix).0
    × (definition_of (invoke (text_buffer_object (codes "ab")) (codes "append") suffix).0
        ≡ text_buffer_definition)
invoke-IsFit_example =
    invoke-IsFit (text_buffer_object (codes "ab")) (codes "append") suffix ascii-Joins ab_fits

state-matches_example :
    state_matches text_buffer_definition (state (text_buffer_object (codes "ab"))) ≡ true
state-matches_example = state-matches (text_buffer_object (codes "ab")) ab_fits

abbrev suffix_parameter : List Parameter
suffix_parameter = record { name = codes "suffix"; kind = ValueKind.text } ∷ []

suffix_is_valid :
    (valid_names (parameter_names suffix_parameter) ≡ true)
    × (valid_arguments suffix suffix_parameter ≡ true)
unfolding valid_names valid_names_from valid_name name_character name_seen valid_arguments
    valid_named_values valid_value holds_kind kind_of kind_eq text_eq
suffix_is_valid = (refl, refl)

valid_arguments-names_of_example :
    (name_seen (codes "suffix") (parameter_names suffix_parameter) ≡ true
      → name_seen (codes "suffix") (argument_names suffix) ≡ true)
    × (name_seen (codes "suffix") (argument_names suffix) ≡ true
        → name_seen (codes "suffix") (parameter_names suffix_parameter) ≡ true)
valid_arguments-names_of_example =
    valid_arguments-names_of suffix suffix_parameter suffix_is_valid.0 suffix_is_valid.1
      (codes "suffix")
