-- ===== src/Store/State.antt =====
-- src/domain/domain.cpp, `session_store`: the state of one session, and the checks and charges of an
-- object's state. The registry is frozen while a store exists, so an object keeps its definition.
use stream_labs_test_assingm.Base.{
  ℕ, ◌+◌, min, Bool, true, false, ◌||◌, not, List, [], ◌∷◌, leb, ◌==◌, if◌then◌else◌, length,
}
use stream_labs_test_assingm.Base.Word.{add64}
use stream_labs_test_assingm.Contracts.{
  Value, NamedValue, Attribute, ClassDescription, ErrorCode, Outcome, remote_error,
}
use stream_labs_test_assingm.Validation.{
  Utf8, valid_named_values, value_bytes, holds_kind, find_named, make_error,
}
use stream_labs_test_assingm.SortedMap.{SortedMap}
use stream_labs_test_assingm.Objects.{
  ClassDefinition, record_charge, max_stored_values, max_stored_objects, max_session_bytes,
}
use stream_labs_test_assingm.Registry.{ClassRegistry}
use stream_labs_test_assingm.Identifiers.{IdentifierSource}

pub record SessionLimits : Type 0 where
  pub values : ℕ
  pub objects : ℕ
  pub bytes : ℕ

pub record StoredObject (Obj : Type 0) : Type 0 where
  pub definition : ClassDefinition Obj
  pub held : Obj
  pub charge : ℕ

pub record SessionStore (Obj : Type 0) : Type 0 where
  pub registry : ClassRegistry Obj
  pub limits : SessionLimits
  pub values : SortedMap Value
  pub objects : SortedMap (StoredObject Obj)
  pub used : ℕ
  pub closed : Bool

-- What an operation returns.
abbrev pub Step : Type 0 → Type 0
Step Obj = SessionStore Obj × IdentifierSource × Outcome

-- The loop of `state_charge`.
unfoldable pub charge_from : ℕ → List NamedValue → ℕ
charge_from charge [] = charge
charge_from charge (field ∷ state) =
    charge_from (add64 charge (record_charge + length field.name + value_bytes field.datum)) state

abbrev pub state_charge : List NamedValue → ℕ
state_charge state = charge_from 0 state

-- The loop of `state_matches`.
unfoldable pub attributes_match : List NamedValue → List Attribute → Bool
unfolding holds_kind
attributes_match state [] = true
attributes_match state (attribute ∷ attributes) =
    let rest = attributes_match state attributes in
    if not (holds_kind attribute.kind (find_named attribute.name state)) then false else rest

abbrev pub object_charge : ClassDescription → List NamedValue → ℕ
object_charge description state =
    add64 (add64 record_charge (length description.name)) (state_charge state)

abbrev pub refusal : ErrorCode → Outcome
refusal code = remote_error (make_error code)

module _ {Obj : Type 0} where
  unfoldable pub new_store : ClassRegistry Obj → SessionLimits → SessionStore Obj
  new_store registry limits = record {
    registry = registry;
    limits = record {
      values = min limits.values max_stored_values;
      objects = min limits.objects max_stored_objects;
      bytes = min limits.bytes max_session_bytes;
    };
    values = [];
    objects = [];
    used = 0;
    closed = false;
  }

  unfoldable pub close : SessionStore Obj → SessionStore Obj
  close s = record s { objects = []; values = []; used = 0; closed = true }

  abbrev pub accounted_bytes : SessionStore Obj → ℕ
  accounted_bytes s = s.used

  -- The early returns of an operation.
  abbrev pub fail : SessionStore Obj → IdentifierSource → ErrorCode → Step Obj
  fail s ids code = (s, ids, refusal code)

module _ {Obj : Type 0} ⦃u : Utf8⦄ where
  unfoldable pub state_matches : ClassDefinition Obj → List NamedValue → Bool
  unfolding attributes_match
  state_matches definition state =
      if not (length state == length definition.description.attributes)
        || not (valid_named_values state)
      then false
      else if attributes_match state definition.description.attributes
      then leb (state_charge state) definition.max_state_bytes
      else false
