-- ===== src/Validation.antt =====
-- src/contracts/validation.cpp and include/pipeforge/validation.hpp: the checks that the codec, the
-- registry and the store share.
-- `utf8_range::IsStructurallyValid` is third-party code: it is the field of `Utf8`.
pub mod Arguments
use stream_labs_test_assingm.Base.{
  ℕ, ◌+◌, ◌/◌, ◌%◌, ◌^◌, Bool, true, false, ◌&&◌, ◌||◌, not, Option, none, some, List, [], ◌∷◌, ltb,
  leb, ◌==◌, if◌then◌else◌, length,
}
use stream_labs_test_assingm.Base.Text.{Text, codes, text_eq}
use stream_labs_test_assingm.Base.Result.{all_of, find_if}
use stream_labs_test_assingm.Contracts.{
  Value, string, int64, double, ValueKind, ErrorCode, RemoteError, NamedValue, Parameter, Method,
  ClassDescription, max_string_bytes, max_entries, max_name_bytes, max_message_nodes,
}

pub record Utf8 : Type 0 where
  pub is_structurally_valid : Text → Bool

unfoldable pub name_character : ℕ → Bool
name_character c =
    (leb b'a' c && leb c b'z')
    || (leb b'A' c && leb c b'Z')
    || (leb b'0' c && leb c b'9')
    || c == b'_'

-- An argument stands for the default `allow_empty = false`.
unfoldable pub valid_name : Text → Bool → Bool
unfolding name_character
valid_name [] allow_empty = allow_empty
valid_name (front ∷ rest) allow_empty =
    if ltb max_name_bytes (length (front ∷ rest)) || (leb b'0' front && leb front b'9')
    then false
    else all_of name_character (front ∷ rest)

unfoldable pub valid_kind : ValueKind → Bool
valid_kind (ValueKind.unknown_kind k) = false
valid_kind _ = true

-- `std::isfinite` on an IEEE-754 binary64 pattern: the exponent is not all ones.
abbrev pub is_finite : ℕ → Bool
is_finite bits = not (bits / 2 ^ 52 % 2 ^ 11 == 2047)

unfoldable pub kind_of : Value → ValueKind
kind_of (string t) = ValueKind.text
kind_of (int64 n) = ValueKind.integer
kind_of (double b) = ValueKind.real

unfoldable pub value_bytes : Value → ℕ
value_bytes (string t) = length t
value_bytes (int64 n) = 8
value_bytes (double b) = 8

unfoldable pub valid_page_size : ℕ → Bool
valid_page_size size = not (size == 0) && leb size max_entries

-- The names seen so far, the `std::set` of `valid_names`.
unfoldable pub name_seen : Text → List Text → Bool
name_seen n [] = false
name_seen n (m ∷ seen) = text_eq n m || name_seen n seen

unfoldable pub valid_names_from : List Text → List Text → Bool
unfolding name_seen
valid_names_from seen [] = true
valid_names_from seen (n ∷ names) =
    valid_name n false && not (name_seen n seen) && valid_names_from (n ∷ seen) names

abbrev pub names_of {ℓ} : {A : Type ℓ} → (A → Text) → List A → List Text
names_of f [] = []
names_of f (x ∷ xs) = f x ∷ names_of f xs

-- The template takes the entries; here the caller gives their names.
unfoldable pub valid_names : List Text → Bool
unfolding valid_names_from
valid_names names = valid_names_from [] names

unfoldable pub valid_parameters : List Parameter → Bool
valid_parameters parameters =
    leb (length parameters) max_entries
    && valid_names (names_of (λ p. p.name) parameters)
    && all_of (λ item. valid_kind item.kind) parameters

module _ ⦃u : Utf8⦄ where
  unfoldable pub valid_value : Value → Bool
  valid_value (string t) = leb (length t) max_string_bytes && u.is_structurally_valid t
  valid_value (int64 n) = true
  valid_value (double b) = is_finite b

  unfoldable pub valid_named_values : List NamedValue → Bool
  valid_named_values entries =
      leb (length entries) max_entries
      && valid_names (names_of (λ e. e.name) entries)
      && all_of (λ item. valid_value item.datum) entries

-- `kind_a == kind_b`, the enum's own comparison.
unfoldable pub kind_eq : ValueKind → ValueKind → Bool
kind_eq ValueKind.text ValueKind.text = true
kind_eq ValueKind.integer ValueKind.integer = true
kind_eq ValueKind.real ValueKind.real = true
kind_eq (ValueKind.unknown_kind j) (ValueKind.unknown_kind k) = j == k
kind_eq _ _ = false

-- `found != end && kind_of(found->data) == kind`
unfoldable pub holds_kind : ValueKind → Option NamedValue → Bool
holds_kind kind none = false
holds_kind kind (some found) = kind_eq (kind_of found.datum) kind

-- std::ranges::find by `named_value::name`
abbrev pub find_named : Text → List NamedValue → Option NamedValue
find_named n entries = find_if (λ e. text_eq e.name n) entries

module _ ⦃u : Utf8⦄ where
  unfoldable pub valid_arguments : List NamedValue → List Parameter → Bool
  unfolding holds_kind
  valid_arguments arguments parameters =
      if not (length arguments == length parameters) || not (valid_named_values arguments)
      then false
      else all_of (λ parameter. holds_kind parameter.kind (find_named parameter.name arguments))
          parameters

-- The loop over the methods; `none` is the early `return false`.
unfoldable pub count_methods : ℕ → List Method → Option ℕ
count_methods nodes [] = some nodes
count_methods nodes (m ∷ methods) =
    let rest = count_methods (nodes + length m.parameters) methods in
    if not (valid_kind m.result_kind) || not (valid_parameters m.parameters) then none else rest

-- `nodes < max_message_nodes` after the loop.
unfoldable pub fits_message : Option ℕ → Bool
fits_message none = false
fits_message (some nodes) = ltb nodes max_message_nodes

unfoldable pub valid_description : ClassDescription → Bool
unfolding count_methods fits_message
valid_description d =
    if not (valid_name d.name false)
      || ltb max_entries (length d.attributes)
      || ltb max_entries (length d.methods)
      || not (valid_names (names_of (λ a. a.name) d.attributes))
      || not (valid_names (names_of (λ m. m.name) d.methods))
      || not (valid_parameters d.constructor_parameters)
    then false
    else if all_of (λ a. valid_kind a.kind) d.attributes
    then fits_message (
        count_methods (1 + length d.attributes + length d.methods + length d.constructor_parameters)
          d.methods)
    else false

unfoldable pub make_error : ErrorCode → RemoteError
make_error ErrorCode.invalid_request = record {
  code = ErrorCode.invalid_request;
  message = codes "Invalid request";
}
make_error ErrorCode.not_found = record {
  code = ErrorCode.not_found;
  message = codes "Resource not found";
}
make_error ErrorCode.quota_exceeded = record {
  code = ErrorCode.quota_exceeded;
  message = codes "Resource limit exceeded";
}
make_error ErrorCode.timeout = record {
  code = ErrorCode.timeout;
  message = codes "Operation timed out";
}
make_error ErrorCode.cancelled = record {
  code = ErrorCode.cancelled;
  message = codes "Operation cancelled";
}
make_error ErrorCode.access_denied = record {
  code = ErrorCode.access_denied;
  message = codes "Session access denied";
}
make_error ErrorCode.transport_failure = record {
  code = ErrorCode.transport_failure;
  message = codes "Transport failure";
}
make_error ErrorCode.unsupported_version = record {
  code = ErrorCode.unsupported_version;
  message = codes "Unsupported protocol version";
}
make_error ErrorCode.numeric_overflow = record {
  code = ErrorCode.numeric_overflow;
  message = codes "Numeric overflow";
}
make_error _ = record { code = ErrorCode.internal_failure; message = codes "Internal failure" }
