-- ===== src/Registry/Laws.antt =====
-- src/domain/domain.cpp, `class_registry`: the order of the definitions, and what a lookup finds.
use stream_labs_test_assingm.Base.{
  ◌≡◌, ◌≢◌, refl, true, false, ◌||◌, not, Option, none, some, List, [], ◌∷◌, ltb, leb, ◌==◌, length,
  ◌⊎◌, inl, inr, Bool-cases, Option-cases, arith,
}
use stream_labs_test_assingm.Base.Text.{Text, text_eq, text_lt, text_eq_refl, text_lt_total}
use stream_labs_test_assingm.Base.Result.{find_if}
use stream_labs_test_assingm.Contracts.{max_entries}
use stream_labs_test_assingm.Validation.{valid_description}
use stream_labs_test_assingm.Objects.{ClassDefinition, max_object_state_bytes}
use stream_labs_test_assingm.Registry.{ClassRegistry, find, insert_sorted, add, found}

module _ {Obj : Type 0} where
  -- The names rise, from above `low`.
  abbrev pub Rising : Text → List (ClassDefinition Obj) → Type 0
  Rising low [] = Unit {0}
  Rising low (entry ∷ entries) =
      (text_lt low entry.description.name ≡ true) × Rising entry.description.name entries

  abbrev pub IsSorted : List (ClassDefinition Obj) → Type 0
  IsSorted [] = Unit {0}
  IsSorted (entry ∷ entries) = Rising entry.description.name entries

  abbrev pub lookup : List (ClassDefinition Obj) → Text → Option (ClassDefinition Obj)
  lookup entries name = find_if (λ entry. text_eq entry.description.name name) entries

  missing_head :
      (entry : ClassDefinition Obj) (entries : List (ClassDefinition Obj)) (name : Text)
      → lookup (entry ∷ entries) name ≡ none
      → (text_eq entry.description.name name ≡ false) × (lookup entries name ≡ none)
  missing_head entry entries name h = elim (Bool-cases (text_eq entry.description.name name)) [
    | inl same ↦ absurd (cc (rw same at h))
    | inr other ↦ (other, rw other at h)
  ]

  insert_sorted-Rising :
      (d : ClassDefinition Obj) (low : Text) (entries : List (ClassDefinition Obj))
      → Rising low entries
      → text_lt low d.description.name ≡ true
      → lookup entries d.description.name ≡ none
      → Rising low (insert_sorted d entries)
  unfolding insert_sorted
  insert_sorted-Rising d low [] r h m = (h, tt)
  insert_sorted-Rising d low (entry ∷ entries) r h m =
      let head = missing_head entry entries d.description.name m in
      elim (Bool-cases (text_lt entry.description.name d.description.name)) [
        | inl below ↦
            rw below (r.0, insert_sorted-Rising d entry.description.name entries r.1 below head.1)
        | inr over ↦
            rw over (h, (text_lt_total entry.description.name d.description.name over head.0, r.1))
      ]

  insert_sorted-IsSorted :
      (d : ClassDefinition Obj) (entries : List (ClassDefinition Obj))
      → IsSorted entries
      → lookup entries d.description.name ≡ none
      → IsSorted (insert_sorted d entries)
  unfolding insert_sorted
  insert_sorted-IsSorted d [] r m = tt
  insert_sorted-IsSorted d (entry ∷ entries) r m =
      let head = missing_head entry entries d.description.name m in
      elim (Bool-cases (text_lt entry.description.name d.description.name)) [
        | inl below ↦
            rw below (insert_sorted-Rising d entry.description.name entries r below head.1)
        | inr over ↦
            rw over (text_lt_total entry.description.name d.description.name over head.0, r)
      ]

  lookup-insert_sorted :
      (d : ClassDefinition Obj) (entries : List (ClassDefinition Obj))
      → lookup entries d.description.name ≡ none
      → lookup (insert_sorted d entries) d.description.name ≡ some d
  unfolding insert_sorted
  lookup-insert_sorted d [] m = rw (text_eq_refl d.description.name) refl
  lookup-insert_sorted d (entry ∷ entries) m =
      let head = missing_head entry entries d.description.name m in
      elim (Bool-cases (text_lt entry.description.name d.description.name)) [
        | inl below ↦ rw (below, head.0) (lookup-insert_sorted d entries head.1)
        | inr over ↦ rw (over, text_eq_refl d.description.name) refl
      ]

  lookup-insert_sorted-other :
      (d : ClassDefinition Obj) (entries : List (ClassDefinition Obj)) (name : Text)
      → text_eq d.description.name name ≡ false
      → lookup (insert_sorted d entries) name ≡ lookup entries name
  unfolding insert_sorted
  lookup-insert_sorted-other d [] name h = rw h refl
  lookup-insert_sorted-other d (entry ∷ entries) name h =
      elim (Bool-cases (text_lt entry.description.name d.description.name)) [
        | inl below ↦ rw (below, lookup-insert_sorted-other d entries name h) refl
        | inr over ↦ rw (over, h) refl
      ]

  -- What a call of `add` makes of the registry.
  abbrev pub TakesIn : ClassRegistry Obj → ClassDefinition Obj → Type 0
  TakesIn r d =
      (((add r d).1 ≡ none)
        × IsSorted (add r d).0.definitions
        × (find (add r d).0 d.description.name ≡ some d)
        × ((name : Text)
            → text_eq d.description.name name ≡ false
            → find (add r d).0 name ≡ find r name))
      ⊎ (((add r d).1 ≢ none) × ((add r d).0 ≡ r))

  not_found :
      (r : ClassRegistry Obj) (d : ClassDefinition Obj)
      → found (find r d.description.name) ≡ false
      → lookup r.definitions d.description.name ≡ none
  unfolding find
  not_found r d h = elim (Option-cases (lookup r.definitions d.description.name)) [
    | inl none_there ↦ none_there
    | inr (e, there) ↦ absurd (cc (rw (there, find) at h))
  ]

  -- A definition is taken into a sorted registry in its place, so that it is found by its name, all
  -- other lookups give what they gave, and the names stay in order and distinct; or it is refused
  -- with an error, and the registry is unchanged.
  pub add-lookup :
      (r : ClassRegistry Obj) (d : ClassDefinition Obj) → IsSorted r.definitions → TakesIn r d
  unfolding add find
  add-lookup r d s =
      elim (Bool-cases (
        not (valid_description d.description)
        || not d.callable
        || d.max_state_bytes == 0
        || ltb max_object_state_bytes d.max_state_bytes
        || found (find r d.description.name))) [
          | inl bad ↦ inr (rw bad (λ e. absurd (cc e)), rw bad refl)
          | inr good ↦ elim (Bool-cases (leb max_entries (length r.definitions))) [
            | inl full ↦ inr (rw (good, full) (λ e. absurd (cc e)), rw (good, full) refl)
            | inr room ↦
                let missing : lookup r.definitions d.description.name ≡ none =
                  not_found r d (ground arith) in
                inl (
                  rw (good, room)
                    (
                      refl,
                      insert_sorted-IsSorted d r.definitions s missing,
                      lookup-insert_sorted d r.definitions missing,
                      λ name other. lookup-insert_sorted-other d r.definitions name other,
                    ))
          ]
        ]
