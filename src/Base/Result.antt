-- ===== src/Base/Result.antt =====
-- A value or an error: the `std::variant<T, failure>` and `std::variant<T, remote_error>` of the
-- sources, and the searches of <algorithm> that several components share.
use stream_labs_test_assingm.Base.{
  ◌≡◌, ◌⊎◌, inl, inr, refl, Bool, true, ◌&&◌, List, [], ◌∷◌, Option, none, some, if◌then◌else◌,
}

pub data Result {ℓ κ} (E : Type ℓ) (A : Type κ) : Type (ℓ ⊔ κ) where
  ok : A → Result E A
  err : E → Result E A

module _ {ℓ} {A : Type ℓ} where
  -- std::ranges::all_of
  abbrev pub all_of : (A → Bool) → List A → Bool
  all_of p [] = true
  all_of p (x ∷ xs) = p x && all_of p xs

  -- std::ranges::find_if, with `none` for the end
  abbrev pub find_if : (A → Bool) → List A → Option A
  find_if p [] = none
  find_if p (x ∷ xs) = if p x then some x else find_if p xs

  -- The last element; `none` is the empty sequence, on which `back()` is undefined.
  abbrev pub back : List A → Option A
  back [] = none
  back (x ∷ []) = some x
  back (x ∷ y ∷ r) = back (y ∷ r)

pub Result-cases :
    {E A : Type 0} (r : Result E A) → ((e : E) × (r ≡ err e)) ⊎ ((a : A) × (r ≡ ok a))
Result-cases (ok a) = inr (a, refl)
Result-cases (err e) = inl (e, refl)

-- A result holds one value.
pub ok-injective : {E A : Type 0} (r : Result E A) {v w : A} → r ≡ ok v → r ≡ ok w → v ≡ w
ok-injective (ok a) e f = cc (e, f)
ok-injective (err x) e f = absurd (cc e)
