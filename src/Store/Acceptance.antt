-- ===== src/Store/Acceptance.antt =====
-- src/domain/domain.cpp, `session_store::apply(const p::put_value&)`: when a value is stored.
use stream_labs_test_assingm.Base.{◌+◌, ◌^◌, ◌≤◌, ◌<◌, ◌≡◌, ◌⊎◌, true, false, length}
use stream_labs_test_assingm.Contracts.{ErrorCode, PutValue, put_value, value_record}
use stream_labs_test_assingm.Validation.{Utf8, valid_value}
use stream_labs_test_assingm.Objects.{ObjectClass}
use stream_labs_test_assingm.Identifiers.{IdentifierSource, horizon}
use stream_labs_test_assingm.Store.State.{SessionStore, refusal}
use stream_labs_test_assingm.Store.Execute.{execute}
use stream_labs_test_assingm.Store.Invariant.{value_charge}

module _ {Obj : Type 0} ⦃o : ObjectClass Obj⦄ ⦃u : Utf8⦄ where
  -- Room in the number of values, in the bytes, as true sums, and in the ids.
  abbrev pub HasRoom : SessionStore Obj → IdentifierSource → PutValue → Type 0
  HasRoom s ids query =
      (length s.values < s.limits.values)
      × (s.used + value_charge query.datum ≤ s.limits.bytes)
      × (horizon ids < 2 ^ 64)

  -- Which of the three ends a write has.
  abbrev pub Decided : SessionStore Obj → IdentifierSource → PutValue → Type 0
  Decided s ids query =
      ((valid_value query.datum ≡ false)
        × ((execute s ids (put_value query)).2 ≡ refusal ErrorCode.invalid_request))
      ⊎ ((valid_value query.datum ≡ true)
          × (¬ HasRoom s ids query)
          × ((execute s ids (put_value query)).2 ≡ refusal ErrorCode.quota_exceeded))
      ⊎ ((valid_value query.datum ≡ true)
          × HasRoom s ids query
          × ((execute s ids (put_value query)).2
              ≡ value_record (record { id = horizon ids; datum = query.datum })))
