-- ===== src/Registry.antt =====
-- src/domain/domain.cpp, `class_registry`: the classes in the order of their names.
-- The vector is sorted, so the binary searches of <algorithm> find what a scan finds.
pub mod Laws
use stream_labs_test_assingm.Base.{
  ℕ, ◌≤◌, Bool, true, false, ◌||◌, not, Option, none, some, List, [], ◌∷◌, ◌++◌, ltb, leb, ◌==◌,
  if◌then◌else◌, length,
}
use stream_labs_test_assingm.Base.Text.{Text, text_eq, text_lt}
use stream_labs_test_assingm.Base.Result.{Result, ok, err, find_if, back}
use stream_labs_test_assingm.Contracts.{
  ErrorCode, RemoteError, ClassesPage, ListClasses, max_entries,
}
use stream_labs_test_assingm.Validation.{valid_name, valid_page_size, valid_description, make_error}
use stream_labs_test_assingm.Objects.{ClassDefinition, max_object_state_bytes}

pub record ClassRegistry (Obj : Type 0) : Type 0 where
  pub definitions : List (ClassDefinition Obj)

-- `page.names.back()`, which is undefined on no names, with the empty text in its place.
abbrev pub last_name : List Text → Text
last_name names = elim (back names) [ none ↦ [] | some n ↦ n ]

module _ {Obj : Type 0} where
  -- `null` is `none`.
  unfoldable pub find : ClassRegistry Obj → Text → Option (ClassDefinition Obj)
  find registry name = find_if (λ entry. text_eq entry.description.name name) registry.definitions

  -- The insertion at `std::ranges::lower_bound`.
  unfoldable pub insert_sorted :
      ClassDefinition Obj → List (ClassDefinition Obj) → List (ClassDefinition Obj)
  insert_sorted definition [] = definition ∷ []
  insert_sorted definition (entry ∷ entries) =
      let rest = insert_sorted definition entries in
      if text_lt entry.description.name definition.description.name
      then entry ∷ rest
      else definition ∷ entry ∷ entries

  abbrev pub found : Option (ClassDefinition Obj) → Bool
  found none = false
  found (some d) = true

  unfoldable pub add :
      ClassRegistry Obj → ClassDefinition Obj → ClassRegistry Obj × Option RemoteError
  unfolding insert_sorted
  add registry definition =
      if not (valid_description definition.description)
        || not definition.callable
        || definition.max_state_bytes == 0
        || ltb max_object_state_bytes definition.max_state_bytes
        || found (find registry definition.description.name)
      then (registry, some (make_error ErrorCode.invalid_request))
      else if leb max_entries (length registry.definitions)
      then (registry, some (make_error ErrorCode.quota_exceeded))
      else (record registry { definitions = insert_sorted definition registry.definitions }, none)

  -- `std::ranges::upper_bound`: the entries from the first name above `after` on.
  unfoldable pub names_above : Text → List (ClassDefinition Obj) → List (ClassDefinition Obj)
  names_above after [] = []
  names_above after (entry ∷ entries) =
      let rest = names_above after entries in
      if text_lt after entry.description.name then entry ∷ entries else rest

  -- The loop of `list`: the page's names, and the entries left.
  unfoldable pub fill_names :
      ℕ → List Text → List (ClassDefinition Obj) → List Text × List (ClassDefinition Obj)
  fill_names limit names [] = (names, [])
  fill_names limit names (entry ∷ entries) =
      let next = fill_names limit (names ++ entry.description.name ∷ []) entries in
      if ltb (length names) limit then next else (names, entry ∷ entries)

  abbrev pub name_cursor : List Text → List (ClassDefinition Obj) → Text
  name_cursor names [] = []
  name_cursor names (entry ∷ entries) = last_name names

  unfoldable pub list : ClassRegistry Obj → ListClasses → Result RemoteError ClassesPage
  list registry query =
      if not (valid_name query.after true) || not (valid_page_size query.limit)
      then err (make_error ErrorCode.invalid_request)
      else let (names, left) =
          fill_names query.limit [] (names_above query.after registry.definitions) in
        ok (record { names = names; next = name_cursor names left })
