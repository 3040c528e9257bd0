-- ===== src/Validation/Arguments.antt =====
-- src/contracts/validation.cpp, `valid_arguments`: the arguments are those of the parameters.
use stream_labs_test_assingm.Base.{
  ◌+◌, ◌≤◌, ◌≡◌, ◌⊎◌, refl, ap, ◌∙◌, true, false, ◌||◌, not, List, [], ◌∷◌, ◌==◌, arith, length,
  inl, inr, Bool-cases, if◌then◌else◌,
}
use stream_labs_test_assingm.Base.Text.{Text, text_eq, text_eq→eq, text_eq_refl}
use stream_labs_test_assingm.Base.Result.{all_of}
use stream_labs_test_assingm.Contracts.{NamedValue, Parameter, ValueKind}
use stream_labs_test_assingm.Validation.{
  Utf8, name_seen, names_of, valid_names, valid_names_from, find_named, holds_kind, valid_arguments,
  valid_named_values,
}

text_eq_sym : (s t : Text) → text_eq s t ≡ text_eq t s
unfolding text_eq
text_eq_sym [] [] = refl
text_eq_sym [] (b ∷ t) = refl
text_eq_sym (a ∷ s) [] = refl
text_eq_sym (a ∷ s) (b ∷ t) = ground (arith, text_eq_sym s t)

-- Without the first entry of a name.
unfoldable pub remove : Text → List Text → List Text
remove n [] = []
remove n (m ∷ names) = let rest = remove n names in if text_eq n m then names else m ∷ rest

length-remove :
    (n : Text) (names : List Text)
    → name_seen n names ≡ true
    → length names ≡ length (remove n names) + 1
unfolding name_seen remove
length-remove n [] h = absurd (ground arith)
length-remove n (m ∷ names) h = elim (Bool-cases (text_eq n m)) [
  | inl same ↦ rw same (omega arith)
  | inr other ↦
      let deeper : name_seen n names ≡ true = ground arith in
      rw other (omega (arith, length-remove n names deeper))
]

name_seen_eq :
    (k n : Text) (names : List Text) → text_eq k n ≡ true → name_seen k names ≡ name_seen n names
name_seen_eq k n names h = ap (λ t. name_seen t names) (text_eq→eq k n h)

name_seen-remove :
    (k n : Text) (names : List Text)
    → name_seen k names ≡ true
    → (text_eq k n ≡ true) ⊎ (name_seen k (remove n names) ≡ true)
unfolding name_seen remove
name_seen-remove k n [] h = absurd (ground arith)
name_seen-remove k n (m ∷ names) h = elim (Bool-cases (text_eq n m)) [
  | inl same ↦ elim (Bool-cases (text_eq k m)) [
    | inl here ↦ inl (joined same here)
    | inr elsewhere ↦ inr (rw same (ground arith))
  ]
  | inr other ↦ elim (Bool-cases (text_eq k m)) [
    | inl here ↦ inr (rw (other, here, name_seen) refl)
    | inr elsewhere ↦ elim (name_seen-remove k n names (ground arith)) [
      | inl e ↦ inl e
      | inr e ↦ inr (rw (other, elsewhere, name_seen) e)
    ]
  ]
]
  where
    joined : text_eq n m ≡ true → text_eq k m ≡ true → text_eq k n ≡ true
    joined same here = rw (text_eq→eq n m same) here

abbrev pub Distinct : List Text → Type 0
Distinct [] = Unit {0}
Distinct (n ∷ names) = (name_seen n names ≡ false) × Distinct names

valid_names_from-fresh :
    (k : Text) (seen names : List Text)
    → valid_names_from seen names ≡ true
    → name_seen k names ≡ true
    → name_seen k seen ≡ false
unfolding valid_names_from name_seen
valid_names_from-fresh k seen [] h i = absurd (ground arith)
valid_names_from-fresh k seen (n ∷ names) h i = elim (Bool-cases (text_eq k n)) [
  | inl same ↦ name_seen_eq k n seen same ∙ ground arith
  | inr other ↦ ground (arith, valid_names_from-fresh k (n ∷ seen) names)
]

valid_names_from-Distinct :
    (seen names : List Text) → valid_names_from seen names ≡ true → Distinct names
unfolding valid_names_from name_seen
valid_names_from-Distinct seen [] h = tt
valid_names_from-Distinct seen (n ∷ names) h =
    let rest : valid_names_from (n ∷ seen) names ≡ true = ground arith in
    (
      elim (Bool-cases (name_seen n names)) [
        | inl again ↦
            absurd
              (cc (name_seen_self n seen, valid_names_from-fresh n (n ∷ seen) names rest again))
        | inr once ↦ once
      ],
      valid_names_from-Distinct (n ∷ seen) names rest,
    )
  where
    name_seen_self : (n : Text) (names : List Text) → name_seen n (n ∷ names) ≡ true
    name_seen_self n names = rw (text_eq_refl n, name_seen) refl

-- As many names as distinct ones, which they include, are no others.
pub no_other_names :
    (wanted given : List Text)
    → Distinct wanted
    → ((k : Text) → name_seen k wanted ≡ true → name_seen k given ≡ true)
    → length given ≤ length wanted
    → (k : Text) → name_seen k given ≡ true
    → name_seen k wanted ≡ true
unfolding name_seen
no_other_names [] [] d all short k h = h
no_other_names [] (g ∷ given) d all short k h = absurd (omega arith)
no_other_names (n ∷ wanted) given d all short k h =
    let found : name_seen n given ≡ true = all n (rw (text_eq_refl n, name_seen) refl) in
    elim (name_seen-remove k n given h) [
      | inl same ↦ rw (same, name_seen) refl
      | inr left ↦
          let rest =
            no_other_names wanted (remove n given) d.1
              (λ j i. elim (name_seen-remove j n given (all j (ground arith))) [
                | inl same ↦ absurd (cc (name_seen_eq j n wanted same, i, d.0))
                | inr there ↦ there
              ])
              (omega (arith, length-remove n given found)) k left in
          ground arith
    ]

length-names_of : {A : Type 0} (f : A → Text) (xs : List A) → length (names_of f xs) ≡ length xs
length-names_of f [] = refl
length-names_of f (x ∷ xs) = omega (arith, length-names_of f xs)

abbrev pub parameter_names : List Parameter → List Text
parameter_names parameters = names_of (λ p. p.name) parameters

abbrev pub argument_names : List NamedValue → List Text
argument_names arguments = names_of (λ a. a.name) arguments

name_seen-find_named :
    (kind : ValueKind) (n : Text) (arguments : List NamedValue)
    → holds_kind kind (find_named n arguments) ≡ true
    → name_seen n (argument_names arguments) ≡ true
unfolding holds_kind name_seen
name_seen-find_named kind n [] h = absurd (ground arith)
name_seen-find_named kind n (a ∷ arguments) h = elim (Bool-cases (text_eq a.name n)) [
  | inl here ↦
      let turned : text_eq n a.name ≡ true = text_eq_sym n a.name ∙ here in
      rw (turned, name_seen) refl
  | inr elsewhere ↦
      let turned : text_eq n a.name ≡ false = text_eq_sym n a.name ∙ elsewhere in
      rw (turned, name_seen) (name_seen-find_named kind n arguments (rw elsewhere at h))
]

parameters_given :
    (arguments : List NamedValue) (parameters : List Parameter)
    → all_of (λ p. holds_kind p.kind (find_named p.name arguments)) parameters ≡ true
    → (k : Text) → name_seen k (parameter_names parameters) ≡ true
    → name_seen k (argument_names arguments) ≡ true
unfolding name_seen
parameters_given arguments [] h k i = absurd (ground arith)
parameters_given arguments (p ∷ parameters) h k i = elim (Bool-cases (text_eq k p.name)) [
  | inl same ↦
      name_seen_eq k p.name (argument_names arguments) same
      ∙ name_seen-find_named p.kind p.name arguments (ground arith)
  | inr other ↦ parameters_given arguments parameters (ground arith) k (ground arith)
]

-- Arguments that are valid for parameters of distinct names have exactly the parameters' names: no
-- parameter is without its argument, and there is no argument besides.
pub valid_arguments-names_of :
    ⦃u : Utf8⦄ (arguments : List NamedValue) (parameters : List Parameter)
    → valid_names (parameter_names parameters) ≡ true
    → valid_arguments arguments parameters ≡ true
    → (k : Text)
    → (name_seen k (parameter_names parameters) ≡ true
        → name_seen k (argument_names arguments) ≡ true)
      × (name_seen k (argument_names arguments) ≡ true
          → name_seen k (parameter_names parameters) ≡ true)
unfolding valid_arguments valid_names
valid_arguments-names_of arguments parameters v h k =
    elim (Bool-cases
      (not (length arguments == length parameters) || not (valid_named_values arguments))) [
        | inl bad ↦ absurd (cc (rw bad at h))
        | inr good ↦
            let given = parameters_given arguments parameters (rw good at h) in
            let same : length arguments ≡ length parameters = ground arith in
            (
              given k,
              no_other_names (parameter_names parameters) (argument_names arguments)
                  (valid_names_from-Distinct [] (parameter_names parameters) v) given
                  (omega (
                    arith,
                    length-names_of (λ (p : Parameter). p.name) parameters,
                    length-names_of (λ (a : NamedValue). a.name) arguments,
                    same,
                  ))
                  k,
            )
      ]
