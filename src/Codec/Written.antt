-- ===== src/Codec/Written.antt =====
-- src/protocol/codec.cpp: each field that is written reads back as it was, or not at all.
use stream_labs_test_assingm.Base.{
  ℕ, zero, suc, ◌+◌, ◌%◌, ◌≡◌, refl, ap, sym, false, ◌||◌, not, Option, none, some, List, [], ◌∷◌,
  ◌++◌, append_assoc, append-nil, ◌==◌, if◌then◌else◌, arith, inl, inr, Bool-cases, ◌⊎◌, ◌≤◌,
}
use stream_labs_test_assingm.Base.Text.{Text}
use stream_labs_test_assingm.Contracts.{
  Value, string, int64, double, ValueKind, NamedValue, ValueRecord, Parameter, Attribute, Method,
  ClassDescription,
}
use stream_labs_test_assingm.Validation.{is_finite, valid_names, valid_kind, names_of, valid_name}
use stream_labs_test_assingm.Codec.Fields.{
  read_value, write_value, read_named_from, read_named, write_named, read_record, write_record,
  kind_of_byte, kind_byte, read_kind, read_parameters_from, read_parameters, write_parameters,
  read_attributes_from, write_attributes, read_method, read_methods_from, write_methods,
  finish_description, read_description, write_description, with_valid_names,
}

-- A reader's answer is the value, or a refusal.
abbrev pub OnlyGives {ℓ} : {A : Type ℓ} → A → Option A → Type ℓ
OnlyGives {A} a answer = (answer ≡ none) ⊎ (answer ≡ some a)

pub read-write_value : (v : Value) → OnlyGives v (read_value (write_value v))
unfolding read_value write_value
read-write_value (string t) = inr refl
read-write_value (int64 n) = inr refl
read-write_value (double b) = elim (Bool-cases (is_finite b)) [
  | inl finite ↦ inr (rw finite)
  | inr infinite ↦ inl (rw infinite)
]

read-write_named_from :
    (output entries : List NamedValue)
    → OnlyGives (output ++ entries) (read_named_from output (write_named entries))
unfolding read_named_from write_named
read-write_named_from output [] = inr (ap some (sym (append-nil output)))
read-write_named_from output (entry ∷ entries) = elim (read-write_value entry.datum) [
  | inl bad ↦ inl (rw (bad, read_named_from))
  | inr good ↦
      rw (good, read_named_from, ← append_assoc output (entry ∷ []) entries)
        (read-write_named_from (output ++ entry ∷ []) entries)
]

with_valid_names-gives {ℓ} :
    {A : Type ℓ} (name : A → Text) (output : List A) (answer : Option (List A))
    → OnlyGives output answer
    → OnlyGives output (with_valid_names name answer)
with_valid_names-gives name output answer (inl bad) = inl (rw bad)
with_valid_names-gives name output answer (inr good) =
    rw good (elim (Bool-cases (valid_names (names_of name output))) [
      | inl valid ↦ inr (rw valid)
      | inr invalid ↦ inl (rw invalid)
    ])

pub read-write_named :
    (entries : List NamedValue) → OnlyGives entries (read_named (write_named entries))
unfolding read_named
read-write_named entries = with_valid_names-gives _ entries _ (read-write_named_from [] entries)

pub read-write_record : (r : ValueRecord) → OnlyGives r (read_record (write_record r))
unfolding read_record write_record
read-write_record r = elim (read-write_value r.datum) [
  | inl bad ↦ inl (rw (bad, read_record))
  | inr good ↦
      rw (good, read_record)
        (elim (Bool-cases (r.id == 0)) [ inl zero_id ↦ inl (rw zero_id) | inr id ↦ inr (rw id) ])
]

-- A pattern above the named values is refused, whatever byte the cast leaves of it.
large_kind_refused :
    (b m : ℕ)
    → 4 ≤ m
    → (if not (valid_kind (kind_of_byte b)) || not (kind_byte (kind_of_byte b) == m)
        then none
        else some (kind_of_byte b))
      ≡ none
unfolding valid_kind
large_kind_refused zero m h = refl
large_kind_refused (suc zero) m h = ground arith
large_kind_refused (suc (suc zero)) m h = ground arith
large_kind_refused (suc (suc (suc zero))) m h = ground arith
large_kind_refused (suc (suc (suc (suc b)))) m h = refl

read-write_kind : (k : ValueKind) → OnlyGives k (read_kind (kind_byte k))
unfolding read_kind valid_kind
read-write_kind ValueKind.text = inr refl
read-write_kind ValueKind.integer = inr refl
read-write_kind ValueKind.real = inr refl
read-write_kind (ValueKind.unknown_kind zero) = inl refl
read-write_kind (ValueKind.unknown_kind (suc n)) =
    inl (large_kind_refused ((n + 4) % 256) (n + 4) (omega arith))

read-write_parameters_from :
    (output input : List Parameter)
    → OnlyGives (output ++ input) (read_parameters_from output (write_parameters input))
unfolding read_parameters_from write_parameters
read-write_parameters_from output [] = inr (ap some (sym (append-nil output)))
read-write_parameters_from output (p ∷ input) = elim (read-write_kind p.kind) [
  | inl bad ↦ inl (rw (bad, read_parameters_from))
  | inr good ↦
      rw (good, read_parameters_from, ← append_assoc output (p ∷ []) input)
        (read-write_parameters_from (output ++ p ∷ []) input)
]

read-write_parameters :
    (input : List Parameter) → OnlyGives input (read_parameters (write_parameters input))
unfolding read_parameters
read-write_parameters input = with_valid_names-gives _ input _ (read-write_parameters_from [] input)

read-write_attributes_from :
    (output input : List Attribute)
    → OnlyGives (output ++ input) (read_attributes_from output (write_attributes input))
unfolding read_attributes_from write_attributes
read-write_attributes_from output [] = inr (ap some (sym (append-nil output)))
read-write_attributes_from output (a ∷ input) = elim (read-write_kind a.kind) [
  | inl bad ↦ inl (rw (bad, read_attributes_from))
  | inr good ↦
      rw (good, read_attributes_from, ← append_assoc output (a ∷ []) input)
        (read-write_attributes_from (output ++ a ∷ []) input)
]

read-write_methods_from :
    (output input : List Method)
    → OnlyGives (output ++ input) (read_methods_from output (write_methods input))
unfolding read_methods_from write_methods
read-write_methods_from output [] = inr (ap some (sym (append-nil output)))
read-write_methods_from output (m ∷ input) = elim (read-write_kind m.result_kind) [
  | inl bad ↦ inl (rw (bad, read_method, read_methods_from))
  | inr good ↦ elim (read-write_parameters m.parameters) [
    | inl wrong ↦ inl (rw (good, wrong, read_method, read_methods_from))
    | inr right ↦
        rw (good, right, read_method, read_methods_from, ← append_assoc output (m ∷ []) input)
          (read-write_methods_from (output ++ m ∷ []) input)
  ]
]

finish_description-gives :
    (d : ClassDescription)
    → OnlyGives d (finish_description d.name d.constructor_parameters d.attributes d.methods)
unfolding finish_description
finish_description-gives d =
    elim (Bool-cases (
      not (valid_names (names_of (λ a. a.name) d.attributes))
      || not (valid_names (names_of (λ m. m.name) d.methods)))) [
        | inl bad ↦ inl (rw bad)
        | inr good ↦ inr (rw good)
      ]

pub read-write_description :
    (d : ClassDescription) → OnlyGives d (read_description (write_description d))
unfolding read_description write_description
read-write_description d = elim (Bool-cases (valid_name d.name false)) [
  | inr bad ↦ inl (rw bad)
  | inl good ↦ elim (read-write_parameters d.constructor_parameters) [
    | inl wrong ↦ inl (rw (good, wrong))
    | inr right ↦ elim (read-write_attributes_from [] d.attributes) [
      | inl wrong ↦ inl (rw (good, right, wrong))
      | inr attributes ↦ elim (read-write_methods_from [] d.methods) [
        | inl wrong ↦ inl (rw (good, right, attributes, wrong))
        | inr methods ↦ rw (good, right, attributes, methods) (finish_description-gives d)
      ]
    ]
  ]
]
