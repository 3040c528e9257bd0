-- ===== src/Store/Invariant.antt =====
-- src/domain/domain.cpp, `session_store`: the invariant of a store and its id source, and the sums
-- that its tests keep from wrapping.
use stream_labs_test_assingm.Base.{
  ℕ, ◌+◌, ◌-◌, ◌≤◌, ◌≡◌, Bool, true, some, List, [], ◌∷◌, arith, inl, inr, Bool-cases, length,
  subst,
}
use stream_labs_test_assingm.Base.Text.{Text, text_eq, text_eq→eq}
use stream_labs_test_assingm.Base.Result.{find_if}
use stream_labs_test_assingm.Base.Word.{add64, sub64, add64_exact, sub64_exact}
use stream_labs_test_assingm.Contracts.{Value, string, int64, double, max_string_bytes}
use stream_labs_test_assingm.Validation.{Utf8, valid_value, value_bytes}
use stream_labs_test_assingm.SortedMap.{total, Ascending, KeysBelow, AllValues}
use stream_labs_test_assingm.Objects.{
  ObjectClass, ClassDefinition, record_charge, max_session_bytes,
}
use stream_labs_test_assingm.Registry
use stream_labs_test_assingm.Registry.{ClassRegistry}
use stream_labs_test_assingm.Identifiers.{IdentifierSource, IsWord, horizon}
use stream_labs_test_assingm.Store.State.{SessionStore, StoredObject, state_matches, object_charge}

abbrev pub value_charge : Value → ℕ
value_charge v = record_charge + value_bytes v

abbrev pub charge_of : {Obj : Type 0} → StoredObject Obj → ℕ
charge_of entry = entry.charge

-- A stored object's state agrees with its definition, and is what it was charged for.
pub record IsWhole {Obj : Type 0} ⦃o : ObjectClass Obj⦄ ⦃u : Utf8⦄ (entry : StoredObject Obj)
    : Type 0 where
  pub matches : state_matches entry.definition (o.state entry.held) ≡ true
  pub charged : entry.charge ≡ object_charge entry.definition.description (o.state entry.held)

pub record Inv {Obj : Type 0} ⦃o : ObjectClass Obj⦄ ⦃u : Utf8⦄ (s : SessionStore Obj)
    (ids : IdentifierSource) : Type 0 where
  pub word : IsWord ids
  pub accounted : s.used ≡ total value_charge s.values + total charge_of s.objects
  pub within : s.used ≤ s.limits.bytes
  pub ceiling : s.limits.bytes ≤ max_session_bytes
  pub values_room : length s.values ≤ s.limits.values
  pub objects_room : length s.objects ≤ s.limits.objects
  pub values_ascending : Ascending 0 s.values
  pub objects_ascending : Ascending 0 s.objects
  pub values_issued : KeysBelow (horizon ids) s.values
  pub objects_issued : KeysBelow (horizon ids) s.objects
  pub values_valid : AllValues (λ v. valid_value v ≡ true) s.values
  pub objects_whole : AllValues (λ e. IsWhole e) s.objects

-- A charge that passed its test is added without wrapping, and fits the budget.
pub charge_exact :
    (bytes used charge : ℕ)
    → used ≤ bytes
    → bytes ≤ max_session_bytes
    → charge ≤ sub64 bytes used
    → (add64 used charge ≡ used + charge) × (used + charge ≤ bytes)
charge_exact bytes used charge h k c =
    let room : sub64 bytes used ≡ bytes - used = sub64_exact bytes used (omega arith) h in
    (add64_exact used charge (omega arith), omega arith)

pub value_bytes-bound :
    ⦃u : Utf8⦄ (v : Value) → valid_value v ≡ true → value_bytes v ≤ max_string_bytes
unfolding valid_value value_bytes
value_bytes-bound (string t) h = ground arith
value_bytes-bound (int64 n) h = omega arith
value_bytes-bound (double b) h = omega arith

pub value_charge_exact :
    ⦃u : Utf8⦄ (v : Value)
    → valid_value v ≡ true
    → add64 record_charge (value_bytes v) ≡ value_charge v
value_charge_exact v h =
    add64_exact record_charge (value_bytes v) (omega (arith, value_bytes-bound v h))

pub find_if-holds :
    {A : Type 0} (p : A → Bool) (xs : List A) (x : A) → find_if p xs ≡ some x → p x ≡ true
find_if-holds p [] x h = absurd (ground arith)
find_if-holds p (y ∷ ys) x h = elim (Bool-cases (p y)) [
  | inl hit ↦ let e : y ≡ x = ground arith in subst (λ z. p z ≡ true) e hit
  | inr miss ↦ find_if-holds p ys x (rw miss at h)
]

pub registered_name :
    {Obj : Type 0} (registry : ClassRegistry Obj) (name : Text) (d : ClassDefinition Obj)
    → Registry.find registry name ≡ some d
    → d.description.name ≡ name
unfolding Registry.find
registered_name registry name d h =
    text_eq→eq d.description.name name
      (find_if-holds (λ entry. text_eq entry.description.name name) registry.definitions d h)
