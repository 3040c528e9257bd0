-- ===== src/Codec/Bounds.antt =====
-- src/protocol/codec.cpp, `validate_message`: what a message that passes has been shown to hold.
use stream_labs_test_assingm.Base.{
  ℕ, suc, ◌+◌, ◌-◌, ◌≤◌, ◌≡◌, refl, false, some, List, [], ◌∷◌, ◌==◌, arith, inl, inr, Bool-cases,
  Option-cases, length,
}
use stream_labs_test_assingm.Base.Text.{Text}
use stream_labs_test_assingm.Base.Result.{Result, ok, err}
use stream_labs_test_assingm.Contracts.{FailureCode}
use stream_labs_test_assingm.Validation.{Utf8}
use stream_labs_test_assingm.Codec.Limits.{
  UnknownFieldSet, no_unknowns, length_delimited, group, number, Message, Fields, Messages, message,
  no_fields, message_field, string_field, number_field, no_messages, one_message, field_count,
  refuses_unknowns, check_unknowns, bounded_unknowns, count_messages, Budget, chain,
  validate_strings, enter_message, guard_count, validate_message, validate_fields,
  validate_messages,
}

-- Every unknown field, those inside groups too.
unfoldable pub all_unknowns : UnknownFieldSet → ℕ
all_unknowns no_unknowns = 0
all_unknowns (length_delimited size rest) = suc (all_unknowns rest)
all_unknowns (group inner rest) = suc (all_unknowns inner + all_unknowns rest)
all_unknowns (number rest) = suc (all_unknowns rest)

-- The fields inside the groups of a set.
unfoldable pub nested_unknowns : UnknownFieldSet → ℕ
nested_unknowns no_unknowns = 0
nested_unknowns (length_delimited size rest) = nested_unknowns rest
nested_unknowns (group inner rest) = all_unknowns inner + nested_unknowns rest
nested_unknowns (number rest) = nested_unknowns rest

all_unknowns-split : (s : UnknownFieldSet) → all_unknowns s ≡ field_count s + nested_unknowns s
unfolding all_unknowns nested_unknowns field_count
all_unknowns-split no_unknowns = refl
all_unknowns-split (length_delimited size rest) = omega (arith, all_unknowns-split rest)
all_unknowns-split (group inner rest) = omega (arith, all_unknowns-split rest)
all_unknowns-split (number rest) = omega (arith, all_unknowns-split rest)

refuses_unknowns-room :
    (s : UnknownFieldSet) (remaining depth : ℕ)
    → refuses_unknowns s remaining depth ≡ false
    → field_count s ≤ remaining
unfolding refuses_unknowns
refuses_unknowns-room s remaining depth h = ground arith

check_unknowns-exact :
    (s : UnknownFieldSet) (remaining depth left : ℕ)
    → check_unknowns s remaining depth ≡ some left
    → left + nested_unknowns s ≡ remaining
unfolding check_unknowns nested_unknowns
check_unknowns-exact no_unknowns r d left h = ground arith
check_unknowns-exact (length_delimited size rest) r d left h =
    ground (arith, check_unknowns-exact rest r d left)
check_unknowns-exact (group inner rest) r d left h =
    elim (Bool-cases (refuses_unknowns inner r (d + 1))) [
      | inl refused ↦ absurd (cc (rw refused at h))
      | inr allowed ↦ elim (Option-cases (check_unknowns inner (r - field_count inner) (d + 1))) [
        | inl failed ↦ absurd (cc (rw (allowed, failed) at h))
        | inr (middle, e) ↦ omega (
          arith,
          refuses_unknowns-room inner r (d + 1) allowed,
          all_unknowns-split inner,
          check_unknowns-exact inner (r - field_count inner) (d + 1) middle e,
          check_unknowns-exact rest middle d left (rw (allowed, e) at h),
        )
      ]
    ]
check_unknowns-exact (number rest) r d left h = check_unknowns-exact rest r d left h

bounded_unknowns-exact :
    (s : UnknownFieldSet) (remaining depth left : ℕ)
    → bounded_unknowns s remaining depth ≡ some left
    → left + all_unknowns s ≡ remaining
unfolding bounded_unknowns
bounded_unknowns-exact s r d left h = elim (Bool-cases (refuses_unknowns s r d)) [
  | inl refused ↦ absurd (cc (rw refused at h))
  | inr allowed ↦ omega (
    arith,
    refuses_unknowns-room s r d allowed,
    all_unknowns-split s,
    check_unknowns-exact s (r - field_count s) d left (rw allowed at h),
  )
]

-- The messages in a tree, and their unknown fields.
unfoldable mutual
  pub all_nodes : Message → ℕ
  all_nodes (message unknown fields) = suc (field_nodes fields)

  pub field_nodes : Fields → ℕ
  field_nodes no_fields = 0
  field_nodes (message_field children fields) = child_nodes children + field_nodes fields
  field_nodes (string_field texts fields) = field_nodes fields
  field_nodes (number_field count fields) = field_nodes fields

  pub child_nodes : Messages → ℕ
  child_nodes no_messages = 0
  child_nodes (one_message child children) = all_nodes child + child_nodes children

unfoldable mutual
  pub message_unknowns : Message → ℕ
  message_unknowns (message unknown fields) = all_unknowns unknown + field_unknowns fields

  pub field_unknowns : Fields → ℕ
  field_unknowns no_fields = 0
  field_unknowns (message_field children fields) = child_unknowns children + field_unknowns fields
  field_unknowns (string_field texts fields) = field_unknowns fields
  field_unknowns (number_field count fields) = field_unknowns fields

  pub child_unknowns : Messages → ℕ
  child_unknowns no_messages = 0
  child_unknowns (one_message child children) = message_unknowns child + child_unknowns children

-- What the budgets were charged for.
abbrev pub Spent : Budget → Budget → ℕ → ℕ → Type 0
Spent before after nodes unknowns =
    (after.nodes + nodes ≡ before.nodes) × (after.unknowns + unknowns ≡ before.unknowns)

chain-ok {ℓ} :
    {A B : Type ℓ} (m : Result FailureCode A) (f : A → Result FailureCode B) (b : B)
    → chain m f ≡ ok b
    → (a : A) × (m ≡ ok a) × (f a ≡ ok b)
chain-ok (ok a) f b h = (a, refl, h)
chain-ok (err e) f b h = absurd (cc)

module _ ⦃u : Utf8⦄ where
  enter_message-Spent :
      (unknown : UnknownFieldSet) (before after : Budget)
      → enter_message unknown before ≡ ok after
      → Spent before after 1 (all_unknowns unknown)
  unfolding enter_message
  enter_message-Spent unknown before after h = elim (Bool-cases (before.nodes == 0)) [
    | inl empty ↦ absurd (ground arith)
    | inr some_left ↦ elim (Option-cases (bounded_unknowns unknown before.unknowns 0)) [
      | inl refused ↦ absurd (ground arith)
      | inr (left, e) ↦
          let spent = bounded_unknowns-exact unknown before.unknowns 0 left e in
          (ground arith, ground (arith, spent))
    ]
  ]

  guard_count-same :
      (count : ℕ) (before after : Budget) → guard_count count before ≡ ok after → after ≡ before
  unfolding guard_count
  guard_count-same count before after h = ground arith

  validate_strings-same :
      (texts : List Text) (before after : Budget)
      → validate_strings texts before ≡ ok after
      → after ≡ before
  unfolding validate_strings
  validate_strings-same [] before after h = ground arith
  validate_strings-same (t ∷ texts) before after h =
      ground (arith, validate_strings-same texts before after)

module _ ⦃u : Utf8⦄ where
  mutual
    unfolding validate_message validate_fields validate_messages all_nodes field_nodes child_nodes
        message_unknowns field_unknowns child_unknowns

    message-Spent :
        (m : Message) (before after : Budget)
        → validate_message m before ≡ ok after
        → Spent before after (all_nodes m) (message_unknowns m)
    message-Spent (message unknown fields) before after h =
        let c = chain-ok (enter_message unknown before) (validate_fields fields) after h in
        let here = enter_message-Spent unknown before c.0 c.1 in
        let there = fields-Spent fields c.0 after c.2 in
        (omega (arith, here, there), omega (arith, here, there))

    fields-Spent :
        (f : Fields) (before after : Budget)
        → validate_fields f before ≡ ok after
        → Spent before after (field_nodes f) (field_unknowns f)
    fields-Spent no_fields before after h = (ground arith, ground arith)
    fields-Spent (message_field children fields) before after h =
        let c = chain-ok (guard_count (count_messages children) before) _ after h in
        let d = chain-ok (validate_messages children c.0) (validate_fields fields) after c.2 in
        let same = guard_count-same (count_messages children) before c.0 c.1 in
        let here = messages-Spent children c.0 d.0 d.1 in
        let there = fields-Spent fields d.0 after d.2 in
        (ground (arith, same, here, there), ground (arith, same, here, there))
    fields-Spent (string_field texts fields) before after h =
        let c = chain-ok (guard_count (length texts) before) _ after h in
        let d = chain-ok (validate_strings texts c.0) (validate_fields fields) after c.2 in
        let same = guard_count-same (length texts) before c.0 c.1 in
        let same' = validate_strings-same texts c.0 d.0 d.1 in
        let there = fields-Spent fields d.0 after d.2 in
        (ground (arith, same, same', there), ground (arith, same, same', there))
    fields-Spent (number_field count fields) before after h =
        let c = chain-ok (guard_count count before) (validate_fields fields) after h in
        let same = guard_count-same count before c.0 c.1 in
        let there = fields-Spent fields c.0 after c.2 in
        (ground (arith, same, there), ground (arith, same, there))

    messages-Spent :
        (m : Messages) (before after : Budget)
        → validate_messages m before ≡ ok after
        → Spent before after (child_nodes m) (child_unknowns m)
    messages-Spent no_messages before after h = (ground arith, ground arith)
    messages-Spent (one_message child children) before after h =
        let c = chain-ok (validate_message child before) (validate_messages children) after h in
        let here = message-Spent child before c.0 c.1 in
        let there = messages-Spent children c.0 after c.2 in
        (omega (arith, here, there), omega (arith, here, there))

  -- An accepted tree of messages has at most as many messages, and at most as many unknown fields at
  -- any depth of groups, as the budgets it was given; what is left of them is the difference.
  pub validate_message-Spent :
      (m : Message) (before after : Budget)
      → validate_message m before ≡ ok after
      → (after.nodes + all_nodes m ≡ before.nodes)
        × (after.unknowns + message_unknowns m ≡ before.unknowns)
  validate_message-Spent m before after h = message-Spent m before after h
