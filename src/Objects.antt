-- ===== src/Objects.antt =====
-- The class `object`, its factories and `class_definition` of include/pipeforge/domain.hpp, and the
-- limits of the domain. A class of objects is whatever code a server registers: its states and its
-- methods are the arguments `Obj` and `ObjectClass` of all that uses them.
use stream_labs_test_assingm.Base.{ℕ, ◌*◌, ◌/◌, Bool, List, Option}
use stream_labs_test_assingm.Base.Text.{Text}
use stream_labs_test_assingm.Base.Result.{Result}
use stream_labs_test_assingm.Contracts.{
  Value, NamedValue, RemoteError, ClassDescription, max_payload_bytes,
}

abbrev pub max_stored_values : ℕ
max_stored_values = 100

abbrev pub max_stored_objects : ℕ
max_stored_objects = 100

abbrev pub max_session_bytes : ℕ
max_session_bytes = 8 * 1024 * 1024

abbrev pub max_object_state_bytes : ℕ
max_object_state_bytes = max_payload_bytes / 2

abbrev pub record_charge : ℕ
record_charge = 128

-- `clone` may break its contract and return null; `invoke` changes the object that it is called on.
pub record ObjectClass (Obj : Type 0) : Type 0 where
  pub clone : Obj → Option Obj
  pub state : Obj → List NamedValue
  pub invoke : Obj → Text → List NamedValue → Obj × Result RemoteError Value

-- A factory may break its contract and return a null pointer.
abbrev pub ObjectFactory : Type 0 → Type 0
ObjectFactory Obj = List NamedValue → Result RemoteError (Option Obj)

-- `create` is a std::function: `callable` says that it holds a target.
pub record ClassDefinition (Obj : Type 0) : Type 0 where
  pub description : ClassDescription
  pub callable : Bool
  pub create : ObjectFactory Obj
  pub max_state_bytes : ℕ
