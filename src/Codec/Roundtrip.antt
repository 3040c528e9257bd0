-- ===== src/Codec/Roundtrip.antt =====
-- src/protocol/codec.cpp: what the readers accept of what the writers wrote is what was written.
use stream_labs_test_assingm.Base.{
  ℕ, zero, suc, ◌≡◌, refl, ap, sym, true, false, ◌&&◌, ◌||◌, not, Option, none, some, List, [], ◌∷◌,
  ◌++◌, append_assoc, append-nil, leb, ◌==◌, arith, inl, inr, Bool-cases, ◌⊎◌,
}
use stream_labs_test_assingm.Base.Result.{all_of}
use stream_labs_test_assingm.Contracts.{
  ValueRecord, ClassesPage, ErrorCode, Operation, list_classes, describe_class, put_value,
  get_value, list_values, create_object, get_object, release_object, get_attribute, invoke_method,
  Outcome, classes_page, class_description, value_record, values_page, object_snapshot, released,
  value, remote_error,
}
use stream_labs_test_assingm.Validation.{valid_name, valid_page_size}
use stream_labs_test_assingm.Codec.Bodies.{
  read_operation, write_operation, read_outcome, write_outcome, read_classes, read_records,
  write_records, finish_values, error_byte, error_of_byte, is_empty, is_sorted, has_adjacent,
  wrong_cursor,
}
use stream_labs_test_assingm.Codec.Written.{
  OnlyGives, read-write_value, read-write_named, read-write_record, read-write_description,
}

-- Whatever operation is written, the reader refuses it or gives it back unchanged.
pub read-write_operation :
    (operation : Operation) → OnlyGives operation (read_operation (write_operation operation))
unfolding read_operation write_operation
read-write_operation (list_classes q) =
    elim (Bool-cases (valid_name q.after true && valid_page_size q.limit)) [
      | inl good ↦ inr (rw good)
      | inr bad ↦ inl (rw bad)
    ]
read-write_operation (describe_class q) = elim (Bool-cases (valid_name q.name false)) [
  | inl good ↦ inr (rw good)
  | inr bad ↦ inl (rw bad)
]
read-write_operation (put_value q) = elim (read-write_value q.datum) [
  | inl bad ↦ inl (rw (bad, read_operation))
  | inr good ↦ inr (rw (good, read_operation))
]
read-write_operation (get_value q) = elim (Bool-cases (q.id == 0)) [
  | inl bad ↦ inl (rw bad)
  | inr good ↦ inr (rw good)
]
read-write_operation (list_values q) = elim (Bool-cases (valid_page_size q.limit)) [
  | inl good ↦ inr (rw good)
  | inr bad ↦ inl (rw bad)
]
read-write_operation (create_object q) = elim (Bool-cases (valid_name q.class_name false)) [
  | inr bad ↦ inl (rw bad)
  | inl name ↦ elim (read-write_named q.arguments) [
    | inl bad ↦ inl (rw (name, bad, read_operation))
    | inr good ↦ inr (rw (name, good, read_operation))
  ]
]
read-write_operation (get_object q) = elim (Bool-cases (q.id == 0)) [
  | inl bad ↦ inl (rw bad)
  | inr good ↦ inr (rw good)
]
read-write_operation (release_object q) = elim (Bool-cases (q.id == 0)) [
  | inl bad ↦ inl (rw bad)
  | inr good ↦ inr (rw good)
]
read-write_operation (get_attribute q) =
    elim (Bool-cases (not (q.id == 0) && valid_name q.name false)) [
      | inl good ↦ inr (rw good)
      | inr bad ↦ inl (rw bad)
    ]
read-write_operation (invoke_method q) =
    elim (Bool-cases (not (q.id == 0) && valid_name q.name false)) [
      | inr bad ↦ inl (rw bad)
      | inl name ↦ elim (read-write_named q.arguments) [
        | inl bad ↦ inl (rw (name, bad, read_operation))
        | inr good ↦ inr (rw (name, good, read_operation))
      ]
    ]

read-write_records :
    (previous : ℕ) (output records : List ValueRecord)
    → (read_records previous output (write_records records) ≡ none)
      ⊎ ((last : ℕ) × (read_records previous output (write_records records)
            ≡ some (last, output ++ records)))
unfolding read_records write_records
read-write_records previous output [] =
    inr (previous, ap (λ r. some (previous, r)) (sym (append-nil output)))
read-write_records previous output (r ∷ records) = elim (read-write_record r) [
  | inl bad ↦ inl (rw (bad, read_records))
  | inr good ↦ elim (Bool-cases (leb r.id previous)) [
    | inl low ↦ inl (rw (good, read_records, low))
    | inr high ↦
        rw (good, read_records, high, ← append_assoc output (r ∷ []) records)
          (read-write_records r.id (output ++ r ∷ []) records)
  ]
]

finish_values-gives :
    (next : ℕ) (values : List ValueRecord) (answer : Option (ℕ × List ValueRecord))
    → (answer ≡ none) ⊎ ((last : ℕ) × (answer ≡ some (last, values)))
    → OnlyGives (values_page (record { values = values; next = next })) (finish_values next answer)
unfolding finish_values
finish_values-gives next values answer (inl bad) = inl (rw bad)
finish_values-gives next values answer (inr (last, good)) =
    rw good (elim (Bool-cases (not (next == 0) && (is_empty values || not (next == last)))) [
      | inl bad ↦ inl (rw bad)
      | inr right ↦ inr (rw right)
    ])

read-write_error :
    (code : ErrorCode)
    → (leb 1 (error_byte code) && leb (error_byte code) 10 ≡ false)
      ⊎ ((leb 1 (error_byte code) && leb (error_byte code) 10 ≡ true)
          × (error_of_byte (error_byte code) ≡ code))
read-write_error ErrorCode.invalid_request = inr (refl, refl)
read-write_error ErrorCode.not_found = inr (refl, refl)
read-write_error ErrorCode.quota_exceeded = inr (refl, refl)
read-write_error ErrorCode.timeout = inr (refl, refl)
read-write_error ErrorCode.cancelled = inr (refl, refl)
read-write_error ErrorCode.access_denied = inr (refl, refl)
read-write_error ErrorCode.transport_failure = inr (refl, refl)
read-write_error ErrorCode.internal_failure = inr (refl, refl)
read-write_error ErrorCode.unsupported_version = inr (refl, refl)
read-write_error ErrorCode.numeric_overflow = inr (refl, refl)
read-write_error (ErrorCode.unknown_code zero) = inl refl
read-write_error (ErrorCode.unknown_code (suc n)) = inl (ground arith)

read_classes-gives : (page : ClassesPage) → OnlyGives (classes_page page) (read_classes page)
unfolding read_classes
read_classes-gives page =
    elim (Bool-cases (
      not (all_of (λ name. valid_name name false) page.names)
      || not (is_sorted page.names)
      || has_adjacent page.names
      || wrong_cursor page.next page.names)) [ inl bad ↦ inl (rw bad) | inr good ↦ inr (rw good) ]

-- Whatever outcome is written, the reader refuses it or gives it back unchanged.
pub read-write_outcome : (out : Outcome) → OnlyGives out (read_outcome (write_outcome out))
unfolding read_outcome write_outcome
read-write_outcome (classes_page page) = read_classes-gives page
read-write_outcome (class_description d) = elim (read-write_description d) [
  | inl bad ↦ inl (rw (bad, read_outcome))
  | inr good ↦ inr (rw (good, read_outcome))
]
read-write_outcome (value_record r) = elim (read-write_record r) [
  | inl bad ↦ inl (rw (bad, read_outcome))
  | inr good ↦ inr (rw (good, read_outcome))
]
read-write_outcome (values_page page) =
    finish_values-gives page.next page.values _ (read-write_records 0 [] page.values)
read-write_outcome (object_snapshot o) =
    elim (Bool-cases (not (o.id == 0) && valid_name o.class_name false)) [
      | inr bad ↦ inl (rw bad)
      | inl name ↦ elim (read-write_named o.state) [
        | inl bad ↦ inl (rw (name, bad, read_outcome))
        | inr good ↦ inr (rw (name, good, read_outcome))
      ]
    ]
read-write_outcome released = inr refl
read-write_outcome (value v) = elim (read-write_value v) [
  | inl bad ↦ inl (rw (bad, read_outcome))
  | inr good ↦ inr (rw (good, read_outcome))
]
read-write_outcome (remote_error e) = elim (read-write_error e.code) [
  | inl bad ↦ inl (rw bad)
  | inr (good, same) ↦ inr (rw (good, same))
]
