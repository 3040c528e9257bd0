-- ===== src/Codec/Limits.antt =====
-- src/protocol/codec.cpp, `bounded_unknowns` and `validate_message`: the resource limits of a parsed
-- message, over what reflection shows of it.
use stream_labs_test_assingm.Base.{
  ℕ, suc, ◌+◌, ◌-◌, ◌||◌, not, Bool, Option, none, some, List, [], ◌∷◌, ltb, ◌==◌, if◌then◌else◌,
  length,
}
use stream_labs_test_assingm.Base.Text.{Text}
use stream_labs_test_assingm.Base.Result.{Result, ok, err}
use stream_labs_test_assingm.Contracts.{
  FailureCode, max_recursion_depth, max_string_bytes, max_entries,
}
use stream_labs_test_assingm.Validation.{Utf8}

abbrev pub max_unknown_fields : ℕ
max_unknown_fields = 128

-- google::protobuf::UnknownFieldSet: its fields in their order, a length-delimited one by its size.
pub data UnknownFieldSet : Type 0 where
  no_unknowns : UnknownFieldSet
  length_delimited : ℕ → UnknownFieldSet → UnknownFieldSet
  group : UnknownFieldSet → UnknownFieldSet → UnknownFieldSet
  number : UnknownFieldSet → UnknownFieldSet

-- google::protobuf::Message as `Reflection::ListFields` shows it: the fields that are set, each
-- with its elements (one, where the field is not repeated).
mutual
  pub data Message : Type 0 where
    message : UnknownFieldSet → Fields → Message

  pub data Fields : Type 0 where
    no_fields : Fields
    message_field : Messages → Fields → Fields
    string_field : List Text → Fields → Fields
    number_field : ℕ → Fields → Fields

  pub data Messages : Type 0 where
    no_messages : Messages
    one_message : Message → Messages → Messages

unfoldable pub field_count : UnknownFieldSet → ℕ
field_count no_unknowns = 0
field_count (length_delimited size rest) = suc (field_count rest)
field_count (group inner rest) = suc (field_count rest)
field_count (number rest) = suc (field_count rest)

-- The test at the head of `bounded_unknowns`.
unfoldable pub refuses_unknowns : UnknownFieldSet → ℕ → ℕ → Bool
unfolding field_count
refuses_unknowns unknown remaining depth =
    ltb max_recursion_depth depth || ltb remaining (field_count unknown)

abbrev pub and_then {ℓ κ} : {A : Type ℓ} {B : Type κ} → Option A → (A → Option B) → Option B
and_then none f = none
and_then (some a) f = f a

-- The loop of `bounded_unknowns`: what is left of `remaining`, or `none` for `false`.
unfoldable pub check_unknowns : UnknownFieldSet → ℕ → ℕ → Option ℕ
check_unknowns no_unknowns remaining depth = some remaining
check_unknowns (length_delimited size rest) remaining depth =
    let next = check_unknowns rest remaining depth in
    if ltb max_string_bytes size then none else next
check_unknowns (group inner rest) remaining depth =
    let nested = check_unknowns inner (remaining - field_count inner) (depth + 1) in
    and_then (if refuses_unknowns inner remaining (depth + 1) then none else nested)
      (λ left. check_unknowns rest left depth)
check_unknowns (number rest) remaining depth = check_unknowns rest remaining depth

unfoldable pub bounded_unknowns : UnknownFieldSet → ℕ → ℕ → Option ℕ
bounded_unknowns unknown remaining depth =
    if refuses_unknowns unknown remaining depth
    then none
    else check_unknowns unknown (remaining - field_count unknown) depth

unfoldable pub count_messages : Messages → ℕ
count_messages no_messages = 0
count_messages (one_message m ms) = suc (count_messages ms)

-- The budgets that the calls share by reference: nodes, and unknown fields.
pub record Budget : Type 0 where
  pub nodes : ℕ
  pub unknowns : ℕ

abbrev pub chain {ℓ} :
    {A B : Type ℓ} → Result FailureCode A → (A → Result FailureCode B) → Result FailureCode B
chain (ok a) f = f a
chain (err e) f = err e

module _ ⦃u : Utf8⦄ where
  -- The strings of one field.
  unfoldable pub validate_strings : List Text → Budget → Result FailureCode Budget
  validate_strings [] budget = ok budget
  validate_strings (text ∷ texts) budget =
      let next = validate_strings texts budget in
      if ltb max_string_bytes (length text)
      then err FailureCode.limit_exceeded
      else if not (u.is_structurally_valid text)
      then err FailureCode.invalid_fields
      else next

  -- The message's own part of `validate_message`: the node, and its unknown fields.
  unfoldable pub enter_message : UnknownFieldSet → Budget → Result FailureCode Budget
  enter_message unknown budget =
      if budget.nodes == 0
      then err FailureCode.limit_exceeded
      else elim (bounded_unknowns unknown budget.unknowns 0) [
        | none ↦ err FailureCode.limit_exceeded
        | some left ↦ ok (record { nodes = budget.nodes - 1; unknowns = left })
      ]

  -- `count > max_entries` for one field.
  unfoldable pub guard_count : ℕ → Budget → Result FailureCode Budget
  guard_count count budget =
      if ltb max_entries count then err FailureCode.limit_exceeded else ok budget

  unfoldable mutual
    pub validate_message : Message → Budget → Result FailureCode Budget
    validate_message (message unknown fields) budget =
        chain (enter_message unknown budget) (validate_fields fields)

    pub validate_fields : Fields → Budget → Result FailureCode Budget
    validate_fields no_fields budget = ok budget
    validate_fields (message_field children fields) budget =
        chain (guard_count (count_messages children) budget)
          (λ b. chain (validate_messages children b) (validate_fields fields))
    validate_fields (string_field texts fields) budget =
        chain (guard_count (length texts) budget)
          (λ b. chain (validate_strings texts b) (validate_fields fields))
    validate_fields (number_field count fields) budget =
        chain (guard_count count budget) (validate_fields fields)

    pub validate_messages : Messages → Budget → Result FailureCode Budget
    validate_messages no_messages budget = ok budget
    validate_messages (one_message child children) budget =
        chain (validate_message child budget) (validate_messages children)
