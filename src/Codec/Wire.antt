-- ===== src/Codec/Wire.antt =====
-- proto/pipeforge/v1/protocol.proto: the messages of the generated code, field by field.
-- An enum field is the 32-bit pattern of its int. A singular message field has presence; `Option`
-- says so, and reading an absent one reads the default instance.
use stream_labs_test_assingm.Base.{ℕ, Bool, List, Option, none, some}
use stream_labs_test_assingm.Base.Int.{ℤ}
use stream_labs_test_assingm.Base.Text.{Text}

-- `message Value`, the oneof `data`.
pub data WireValue : Type 0 where
  not_set : WireValue
  text : Text → WireValue
  integer : ℤ → WireValue
  real : ℕ → WireValue

-- The accessor `value()`.
abbrev pub value_or_default : Option WireValue → WireValue
value_or_default none = not_set
value_or_default (some v) = v

pub record WireNamedValue : Type 0 where
  pub name : Text
  pub value : Option WireValue

pub record WireValueRecord : Type 0 where
  pub id : ℕ
  pub value : Option WireValue

pub record WireParameter : Type 0 where
  pub name : Text
  pub kind : ℕ

pub record WireAttribute : Type 0 where
  pub name : Text
  pub kind : ℕ
  pub read_only : Bool

pub record WireMethod : Type 0 where
  pub name : Text
  pub parameters : List WireParameter
  pub result_kind : ℕ

pub record WireClassDescription : Type 0 where
  pub name : Text
  pub attributes : List WireAttribute
  pub methods : List WireMethod
  pub constructor_parameters : List WireParameter

pub record WireObjectSnapshot : Type 0 where
  pub id : ℕ
  pub class_name : Text
  pub state : List WireNamedValue

pub record WireListClasses : Type 0 where
  pub after : Text
  pub limit : ℕ

pub record WireDescribeClass : Type 0 where
  pub name : Text

pub record WirePutValue : Type 0 where
  pub value : Option WireValue

pub record WireGetValue : Type 0 where
  pub id : ℕ

pub record WireListValues : Type 0 where
  pub after : ℕ
  pub limit : ℕ

pub record WireCreateObject : Type 0 where
  pub class_name : Text
  pub arguments : List WireNamedValue

pub record WireGetObject : Type 0 where
  pub id : ℕ

pub record WireReleaseObject : Type 0 where
  pub id : ℕ

pub record WireGetAttribute : Type 0 where
  pub id : ℕ
  pub name : Text

pub record WireInvokeMethod : Type 0 where
  pub id : ℕ
  pub name : Text
  pub arguments : List WireNamedValue

pub record WireClassesPage : Type 0 where
  pub names : List Text
  pub next : Text

pub record WireValuesPage : Type 0 where
  pub values : List WireValueRecord
  pub next : ℕ

pub record WireRemoteError : Type 0 where
  pub code : ℕ
  pub message : Text

-- The oneof `operation` of `message Request`.
pub data WireOperation : Type 0 where
  operation_not_set : WireOperation
  list_classes : WireListClasses → WireOperation
  describe_class : WireDescribeClass → WireOperation
  put_value : WirePutValue → WireOperation
  get_value : WireGetValue → WireOperation
  list_values : WireListValues → WireOperation
  create_object : WireCreateObject → WireOperation
  get_object : WireGetObject → WireOperation
  release_object : WireReleaseObject → WireOperation
  get_attribute : WireGetAttribute → WireOperation
  invoke_method : WireInvokeMethod → WireOperation

-- The oneof `outcome` of `message Response`.
pub data WireOutcome : Type 0 where
  outcome_not_set : WireOutcome
  classes : WireClassesPage → WireOutcome
  description : WireClassDescription → WireOutcome
  value_record : WireValueRecord → WireOutcome
  values : WireValuesPage → WireOutcome
  object : WireObjectSnapshot → WireOutcome
  released : WireOutcome
  value : WireValue → WireOutcome
  error : WireRemoteError → WireOutcome

-- `message Request` with `Body` the operation, `message Response` with `Body` the outcome.
pub record WireEnvelope (Body : Type 0) : Type 0 where
  pub version : Option ℕ
  pub request_id : ℕ
  pub body : Body
