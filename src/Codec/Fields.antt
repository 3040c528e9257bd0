-- ===== src/Codec/Fields.antt =====
-- src/protocol/codec.cpp: reading and writing values, named values, records, parameters and class
-- descriptions.
use stream_labs_test_assingm.Base.{
  zero, suc, ◌+◌, ℕ, ◌%◌, ◌||◌, not, false, Option, none, some, List, [], ◌∷◌, ◌++◌, ◌==◌,
  if◌then◌else◌,
}
use stream_labs_test_assingm.Base.Text.{Text}
use stream_labs_test_assingm.Contracts.{
  Value, string, int64, double, ValueKind, NamedValue, ValueRecord, Parameter, Attribute, Method,
  ClassDescription,
}
use stream_labs_test_assingm.Validation.{valid_name, valid_names, valid_kind, is_finite, names_of}
use stream_labs_test_assingm.Codec.Wire.{
  WireValue, WireNamedValue, WireValueRecord, WireParameter, WireAttribute, WireMethod,
  WireClassDescription, value_or_default,
}

unfoldable pub read_value : WireValue → Option Value
read_value (WireValue.text t) = some (string t)
read_value (WireValue.integer n) = some (int64 n)
read_value (WireValue.real b) = if is_finite b then some (double b) else none
read_value WireValue.not_set = none

unfoldable pub write_value : Value → WireValue
write_value (string t) = WireValue.text t
write_value (int64 n) = WireValue.integer n
write_value (double b) = WireValue.real b

-- The loop of `read_named`; `none` is the early return.
unfoldable pub read_named_from : List NamedValue → List WireNamedValue → Option (List NamedValue)
read_named_from output [] = some output
read_named_from output (entry ∷ entries) = elim (read_value (value_or_default entry.value)) [
  | none ↦ none
  | some datum ↦
      read_named_from (output ++ record { name = entry.name; datum = datum } ∷ []) entries
]

-- `if (!valid_names(output)) return nullopt`, for entries with these names.
abbrev pub with_valid_names {ℓ} : {A : Type ℓ} → (A → Text) → Option (List A) → Option (List A)
with_valid_names name none = none
with_valid_names name (some output) =
    if valid_names (names_of name output) then some output else none

unfoldable pub read_named : List WireNamedValue → Option (List NamedValue)
unfolding read_named_from
read_named entries = with_valid_names (λ e. e.name) (read_named_from [] entries)

unfoldable pub write_named : List NamedValue → List WireNamedValue
write_named [] = []
write_named (entry ∷ entries) =
    record { name = entry.name; value = some (write_value entry.datum) } ∷ write_named entries

unfoldable pub read_record : WireValueRecord → Option ValueRecord
read_record input = elim (read_value (value_or_default input.value)) [
  | none ↦ none
  | some datum ↦ if input.id == 0 then none else some (record { id = input.id; datum = datum })
]

unfoldable pub write_record : ValueRecord → WireValueRecord
write_record input = record { id = input.id; value = some (write_value input.datum) }

-- `static_cast<value_kind>` of a byte.
abbrev pub kind_of_byte : ℕ → ValueKind
kind_of_byte zero = ValueKind.unknown_kind 0
kind_of_byte (suc zero) = ValueKind.text
kind_of_byte (suc (suc zero)) = ValueKind.integer
kind_of_byte (suc (suc (suc zero))) = ValueKind.real
kind_of_byte (suc (suc (suc (suc n)))) = ValueKind.unknown_kind (suc n)

-- The enum's byte, `static_cast<int>` of it and `static_cast<pb::ValueKind>` of it.
abbrev pub kind_byte : ValueKind → ℕ
kind_byte ValueKind.text = 1
kind_byte ValueKind.integer = 2
kind_byte ValueKind.real = 3
kind_byte (ValueKind.unknown_kind zero) = 0
kind_byte (ValueKind.unknown_kind (suc n)) = n + 4

-- The cast to an 8-bit enum, its check, and the check that the cast lost nothing.
unfoldable pub read_kind : ℕ → Option ValueKind
read_kind wire =
    let kind = kind_of_byte (wire % 256) in
    if not (valid_kind kind) || not (kind_byte kind == wire) then none else some kind

-- The loop of `read_parameters`.
unfoldable pub read_parameters_from : List Parameter → List WireParameter → Option (List Parameter)
read_parameters_from output [] = some output
read_parameters_from output (argument ∷ input) = elim (read_kind argument.kind) [
  | none ↦ none
  | some kind ↦
      read_parameters_from (output ++ record { name = argument.name; kind = kind } ∷ []) input
]

unfoldable pub read_parameters : List WireParameter → Option (List Parameter)
unfolding read_parameters_from
read_parameters input = with_valid_names (λ p. p.name) (read_parameters_from [] input)

unfoldable pub write_parameters : List Parameter → List WireParameter
write_parameters [] = []
write_parameters (argument ∷ input) =
    record { name = argument.name; kind = kind_byte argument.kind } ∷ write_parameters input

-- The loop of `read_description` over the attributes.
unfoldable pub read_attributes_from : List Attribute → List WireAttribute → Option (List Attribute)
read_attributes_from output [] = some output
read_attributes_from output (field ∷ fields) = elim (read_kind field.kind) [
  | none ↦ none
  | some kind ↦
      read_attributes_from
        (output ++ record { name = field.name; kind = kind; read_only = field.read_only } ∷ [])
        fields
]

-- One round of the loop over the methods.
unfoldable pub read_method : WireMethod → Option Method
read_method function = elim (read_kind function.result_kind) [
  | none ↦ none
  | some kind ↦ elim (read_parameters function.parameters) [
    | none ↦ none
    | some parameters ↦
        some (record { name = function.name; parameters = parameters; result_kind = kind })
  ]
]

unfoldable pub read_methods_from : List Method → List WireMethod → Option (List Method)
unfolding read_method
read_methods_from output [] = some output
read_methods_from output (function ∷ functions) = elim (read_method function) [
  | none ↦ none
  | some descriptor ↦ read_methods_from (output ++ descriptor ∷ []) functions
]

-- `read_description` once the loops are done.
unfoldable pub finish_description :
    Text → List Parameter → List Attribute → List Method → Option ClassDescription
finish_description name constructor attributes methods =
    if not (valid_names (names_of (λ a. a.name) attributes))
      || not (valid_names (names_of (λ m. m.name) methods))
    then none
    else some (record {
      name = name;
      attributes = attributes;
      methods = methods;
      constructor_parameters = constructor;
    })

unfoldable pub read_description : WireClassDescription → Option ClassDescription
unfolding read_attributes_from read_methods_from finish_description
read_description input =
    if not (valid_name input.name false)
    then none
    else elim (read_parameters input.constructor_parameters) [
      | none ↦ none
      | some constructor ↦ elim (read_attributes_from [] input.attributes) [
        | none ↦ none
        | some attributes ↦ elim (read_methods_from [] input.methods) [
          | none ↦ none
          | some methods ↦ finish_description input.name constructor attributes methods
        ]
      ]
    ]

unfoldable pub write_attributes : List Attribute → List WireAttribute
write_attributes [] = []
write_attributes (field ∷ fields) =
    record { name = field.name; kind = kind_byte field.kind; read_only = field.read_only }
    ∷ write_attributes fields

unfoldable pub write_methods : List Method → List WireMethod
unfolding write_parameters
write_methods [] = []
write_methods (function ∷ functions) =
    record {
      name = function.name;
      parameters = write_parameters function.parameters;
      result_kind = kind_byte function.result_kind;
    }
    ∷ write_methods functions

unfoldable pub write_description : ClassDescription → WireClassDescription
unfolding write_attributes write_methods
write_description input = record {
  name = input.name;
  attributes = write_attributes input.attributes;
  methods = write_methods input.methods;
  constructor_parameters = write_parameters input.constructor_parameters;
}
