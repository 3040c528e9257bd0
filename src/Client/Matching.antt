-- ===== src/Client/Matching.antt =====
-- src/client/client.cpp: `translate`, and `matches`, which outcomes answer which operations.
use stream_labs_test_assingm.Base.{ℕ, Bool, true, false, ◌&&◌, ◌||◌, not, ◌==◌, ◌%◌, ◌/◌, ◌^◌}
use stream_labs_test_assingm.Base.Int.{ltb_ℤ}
use stream_labs_test_assingm.Base.Text.{text_eq}
use stream_labs_test_assingm.Contracts.{
  Value, string, int64, double, Operation, list_classes, describe_class, put_value, get_value,
  list_values, create_object, get_object, release_object, get_attribute, invoke_method, Outcome,
  classes_page, class_description, value_record, values_page, object_snapshot, released, value,
  remote_error,
}
use stream_labs_test_assingm.Completion
use stream_labs_test_assingm.Completion.{TransportFailure}

-- `client::failure_kind`
pub data ClientFailureKind : Type 0 where
  invalid_request not_connected quota_exceeded timeout cancelled disconnected : ClientFailureKind
  access_denied protocol_violation transport_failure internal_failure : ClientFailureKind

-- `client::failure`
pub record ClientFailure : Type 0 where
  pub kind : ClientFailureKind
  pub native_error : ℕ

-- `{kind}`
abbrev pub local_failure : ClientFailureKind → ClientFailure
local_failure kind = record { kind = kind; native_error = 0 }

unfoldable pub translate_kind : Completion.FailureKind → ClientFailureKind
translate_kind Completion.timeout = timeout
translate_kind Completion.cancelled = cancelled
translate_kind Completion.disconnected = disconnected
translate_kind Completion.access_denied = access_denied
translate_kind Completion.protocol_violation = protocol_violation
translate_kind Completion.invalid_configuration = invalid_request
translate_kind _ = transport_failure

abbrev pub translate : TransportFailure → ClientFailure
translate error = record { kind = translate_kind error.kind; native_error = error.native_error }

-- `==` of two binary64 patterns: both zeros are equal, and NaN equals nothing.
unfoldable pub double_eq : ℕ → ℕ → Bool
double_eq a b =
    (a % 2 ^ 63 == 0 && b % 2 ^ 63 == 0)
    || (a == b && not (a / 2 ^ 52 % 2 ^ 11 == 2047 && not (a % 2 ^ 52 == 0)))

unfoldable pub value_eq : Value → Value → Bool
unfolding double_eq
value_eq (string s) (string t) = text_eq s t
value_eq (int64 m) (int64 n) = not (ltb_ℤ m n) && not (ltb_ℤ n m)
value_eq (double a) (double b) = double_eq a b
value_eq _ _ = false

unfoldable pub matches : Operation → Outcome → Bool
unfolding value_eq
matches _ (remote_error error) = true
matches (list_classes request) (classes_page page) = true
matches (describe_class request) (class_description description) =
    text_eq description.name request.name
matches (put_value request) (value_record r) = value_eq r.datum request.datum
matches (get_value request) (value_record r) = r.id == request.id
matches (list_values request) (values_page page) = true
matches (create_object request) (object_snapshot object) =
    text_eq object.class_name request.class_name
matches (get_object request) (object_snapshot object) = object.id == request.id
matches (release_object request) released = true
matches (get_attribute request) (value result) = true
matches (invoke_method request) (value result) = true
matches _ _ = false
