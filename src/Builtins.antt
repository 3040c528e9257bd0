-- ===== src/Builtins.antt =====
-- src/domain/builtins.cpp: the classes Counter and TextBuffer that the server registers.
-- The two subclasses of `object` are the two constructors of `Builtin`.
pub mod Laws
pub mod Registered
use stream_labs_test_assingm.Base.{
  ℕ, ◌-◌, ◌^◌, Bool, true, false, ◌&&◌, ◌||◌, not, Option, none, some, List, [], ◌∷◌, ◌++◌, ltb,
  if◌then◌else◌, length,
}
use stream_labs_test_assingm.Base.Int.{ℤ, pos, negsuc, ◌+ℤ◌, ◌-ℤ◌, ltb_ℤ}
use stream_labs_test_assingm.Base.Text.{Text, codes, text_eq}
use stream_labs_test_assingm.Base.Result.{Result, ok, err}
use stream_labs_test_assingm.Base.Word.{sub64}
use stream_labs_test_assingm.Contracts.{
  Value, string, int64, double, ValueKind, ErrorCode, RemoteError, NamedValue, Parameter, Attribute,
  Method, ClassDescription, max_string_bytes,
}
use stream_labs_test_assingm.Validation.{Utf8, valid_value, make_error}
use stream_labs_test_assingm.Objects.{ObjectClass, ClassDefinition, max_object_state_bytes}

abbrev pub int64_max : ℤ
int64_max = pos (2 ^ 63 - 1)

abbrev pub int64_min : ℤ
int64_min = negsuc (2 ^ 63 - 1)

pub data Builtin : Type 0 where
  counter_object : ℤ → Builtin
  text_buffer_object : Text → Builtin

-- `*delta`, where there is an argument and it is an integer; `none` is the null pointer.
unfoldable pub as_integer : Option Value → Option ℤ
as_integer (some (int64 n)) = some n
as_integer _ = none

unfoldable pub as_text : Option Value → Option Text
as_text (some (string t)) = some t
as_text _ = none

unfoldable pub clone : Builtin → Option Builtin
clone b = some b

unfoldable pub state : Builtin → List NamedValue
state (counter_object n) = record { name = codes "value"; datum = int64 n } ∷ []
state (text_buffer_object t) = record { name = codes "text"; datum = string t } ∷ []

-- The int64 bounds are checked before the addition, by differences that stay within them.
unfoldable pub increment : ℤ → ℤ → Builtin × Result RemoteError Value
increment n delta =
    if (ltb_ℤ (pos 0) delta && ltb_ℤ (int64_max -ℤ delta) n)
      || (ltb_ℤ delta (pos 0) && ltb_ℤ n (int64_min -ℤ delta))
    then (counter_object n, err (make_error ErrorCode.numeric_overflow))
    else (counter_object (n +ℤ delta), ok (int64 (n +ℤ delta)))

unfoldable pub append : Text → Text → Builtin × Result RemoteError Value
append t suffix =
    if ltb (sub64 max_string_bytes (length t)) (length suffix)
    then (text_buffer_object t, err (make_error ErrorCode.quota_exceeded))
    else (text_buffer_object (t ++ suffix), ok (string (t ++ suffix)))

module _ ⦃u : Utf8⦄ where
  unfoldable pub single_argument : List NamedValue → Text → Option Value
  single_argument [] name = none
  single_argument (front ∷ []) name =
      if not (text_eq front.name name) || not (valid_value front.datum)
      then none
      else some front.datum
  single_argument (front ∷ other ∷ arguments) name = none

  unfoldable pub invoke : Builtin → Text → List NamedValue → Builtin × Result RemoteError Value
  unfolding single_argument as_integer as_text increment append
  invoke (counter_object n) name arguments =
      if not (text_eq name (codes "increment"))
      then (counter_object n, err (make_error ErrorCode.not_found))
      else elim (as_integer (single_argument arguments (codes "delta"))) [
        | none ↦ (counter_object n, err (make_error ErrorCode.invalid_request))
        | some delta ↦ increment n delta
      ]
  invoke (text_buffer_object t) name arguments =
      if not (text_eq name (codes "append"))
      then (text_buffer_object t, err (make_error ErrorCode.not_found))
      else elim (as_text (single_argument arguments (codes "suffix"))) [
        | none ↦ (text_buffer_object t, err (make_error ErrorCode.invalid_request))
        | some suffix ↦ append t suffix
      ]

  unfoldable pub create_counter : List NamedValue → Result RemoteError (Option Builtin)
  unfolding single_argument as_integer
  create_counter arguments = elim (as_integer (single_argument arguments (codes "initial"))) [
    | none ↦ err (make_error ErrorCode.invalid_request)
    | some initial ↦ ok (some (counter_object initial))
  ]

  unfoldable pub create_text_buffer : List NamedValue → Result RemoteError (Option Builtin)
  unfolding single_argument as_text
  create_text_buffer arguments = elim (as_text (single_argument arguments (codes "initial"))) [
    | none ↦ err (make_error ErrorCode.invalid_request)
    | some initial ↦ ok (some (text_buffer_object initial))
  ]

  unfoldable pub counter_definition : ClassDefinition Builtin
  unfolding create_counter
  counter_definition = record {
    description = record {
      name = codes "Counter";
      attributes = record { name = codes "value"; kind = ValueKind.integer; read_only = true } ∷ [];
      methods =
          record {
            name = codes "increment";
            parameters = record { name = codes "delta"; kind = ValueKind.integer } ∷ [];
            result_kind = ValueKind.integer;
          }
          ∷ [];
      constructor_parameters = record { name = codes "initial"; kind = ValueKind.integer } ∷ [];
    };
    callable = true;
    create = create_counter;
    max_state_bytes = max_object_state_bytes;
  }

  unfoldable pub text_buffer_definition : ClassDefinition Builtin
  unfolding create_text_buffer
  text_buffer_definition = record {
    description = record {
      name = codes "TextBuffer";
      attributes = record { name = codes "text"; kind = ValueKind.text; read_only = true } ∷ [];
      methods =
          record {
            name = codes "append";
            parameters = record { name = codes "suffix"; kind = ValueKind.text } ∷ [];
            result_kind = ValueKind.text;
          }
          ∷ [];
      constructor_parameters = record { name = codes "initial"; kind = ValueKind.text } ∷ [];
    };
    callable = true;
    create = create_text_buffer;
    max_state_bytes = max_object_state_bytes;
  }

  -- The virtual functions of the two classes.
  instance unfoldable pub builtin_class : ObjectClass Builtin
  unfolding clone state invoke
  builtin_class = record { clone = clone; state = state; invoke = invoke }
