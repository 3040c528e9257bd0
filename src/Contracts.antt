-- ===== src/Contracts.antt =====
-- include/pipeforge/contracts.hpp and the failures of include/pipeforge/protocol.hpp: owning
-- values, class metadata, operations, outcomes, and the request and response envelopes.
-- A std::string is its bytes, an int64 an integer, a double its 64-bit IEEE-754 pattern. A variant
-- always holds one of its alternatives: nothing here throws while a value is assigned.
use stream_labs_test_assingm.Base.{ℕ, ◌*◌, Bool, List, Option}
use stream_labs_test_assingm.Base.Int.{ℤ}
use stream_labs_test_assingm.Base.Text.{Text}
use stream_labs_test_assingm.Base.Result.{Result}

abbrev pub version : ℕ
version = 1

abbrev pub max_payload_bytes : ℕ
max_payload_bytes = 1024 * 1024

abbrev pub max_string_bytes : ℕ
max_string_bytes = 64 * 1024

abbrev pub frame_header_bytes : ℕ
frame_header_bytes = 4

abbrev pub max_entries : ℕ
max_entries = 64

abbrev pub max_name_bytes : ℕ
max_name_bytes = 128

abbrev pub max_recursion_depth : ℕ
max_recursion_depth = 16

abbrev pub max_message_nodes : ℕ
max_message_nodes = 4096

abbrev pub default_page_size : ℕ
default_page_size = 32

pub data Value : Type 0 where
  string : Text → Value
  int64 : ℤ → Value
  double : ℕ → Value

-- The last constructor is an enum object that holds none of the ten named values: `unknown_code 0`
-- holds the byte 0, and `unknown_code (n + 1)` the byte n + 11.
pub data ErrorCode : Type 0 where
  invalid_request not_found quota_exceeded timeout cancelled access_denied : ErrorCode
  transport_failure internal_failure unsupported_version numeric_overflow : ErrorCode
  unknown_code : ℕ → ErrorCode

-- The last constructor is an enum object that holds none of the three named values: `unknown_kind 0`
-- holds the byte 0, and `unknown_kind (n + 1)` the byte n + 4.
pub data ValueKind : Type 0 where
  text integer real : ValueKind
  unknown_kind : ℕ → ValueKind

pub record NamedValue : Type 0 where
  pub name : Text
  pub datum : Value

pub record ValueRecord : Type 0 where
  pub id : ℕ
  pub datum : Value

pub record Parameter : Type 0 where
  pub name : Text
  pub kind : ValueKind

pub record Attribute : Type 0 where
  pub name : Text
  pub kind : ValueKind
  pub read_only : Bool

pub record Method : Type 0 where
  pub name : Text
  pub parameters : List Parameter
  pub result_kind : ValueKind

pub record ClassDescription : Type 0 where
  pub name : Text
  pub attributes : List Attribute
  pub methods : List Method
  pub constructor_parameters : List Parameter

pub record ObjectSnapshot : Type 0 where
  pub id : ℕ
  pub class_name : Text
  pub state : List NamedValue

pub record ListClasses : Type 0 where
  pub after : Text
  pub limit : ℕ

pub record DescribeClass : Type 0 where
  pub name : Text

pub record PutValue : Type 0 where
  pub datum : Value

pub record GetValue : Type 0 where
  pub id : ℕ

pub record ListValues : Type 0 where
  pub after : ℕ
  pub limit : ℕ

pub record CreateObject : Type 0 where
  pub class_name : Text
  pub arguments : List NamedValue

pub record GetObject : Type 0 where
  pub id : ℕ

pub record ReleaseObject : Type 0 where
  pub id : ℕ

pub record GetAttribute : Type 0 where
  pub id : ℕ
  pub name : Text

pub record InvokeMethod : Type 0 where
  pub id : ℕ
  pub name : Text
  pub arguments : List NamedValue

pub data Operation : Type 0 where
  list_classes : ListClasses → Operation
  describe_class : DescribeClass → Operation
  put_value : PutValue → Operation
  get_value : GetValue → Operation
  list_values : ListValues → Operation
  create_object : CreateObject → Operation
  get_object : GetObject → Operation
  release_object : ReleaseObject → Operation
  get_attribute : GetAttribute → Operation
  invoke_method : InvokeMethod → Operation

pub record ClassesPage : Type 0 where
  pub names : List Text
  pub next : Text

pub record ValuesPage : Type 0 where
  pub values : List ValueRecord
  pub next : ℕ

pub record RemoteError : Type 0 where
  pub code : ErrorCode
  pub message : Text

pub data Outcome : Type 0 where
  classes_page : ClassesPage → Outcome
  class_description : ClassDescription → Outcome
  value_record : ValueRecord → Outcome
  values_page : ValuesPage → Outcome
  object_snapshot : ObjectSnapshot → Outcome
  released : Outcome
  value : Value → Outcome
  remote_error : RemoteError → Outcome

pub record Request : Type 0 where
  pub id : ℕ
  pub body : Operation
  pub protocol_version : ℕ

pub record Response : Type 0 where
  pub id : ℕ
  pub body : Outcome
  pub protocol_version : ℕ

pub data FailureCode : Type 0 where
  malformed invalid_fields unsupported_version limit_exceeded truncated : FailureCode

pub record Failure : Type 0 where
  pub code : FailureCode
  pub close_session : Bool
  pub request_id : Option ℕ

-- `std::variant<T, failure>`
abbrev pub Fallible : Type 0 → Type 0
Fallible A = Result Failure A
