-- ===== src/SortedMap.antt =====
-- std::map with 64-bit unsigned keys, which the store and the client keep: the entries in the order
-- of their keys, and what the sources use of it.
pub mod Laws
use stream_labs_test_assingm.Base.{
  ℕ, ◌+◌, ◌<◌, Option, none, some, List, [], ◌∷◌, ltb, ◌==◌, if◌then◌else◌,
}

abbrev pub SortedMap {ℓ} : Type ℓ → Type ℓ
SortedMap V = List (ℕ × V)

module _ {ℓ} {V : Type ℓ} where
  -- `none` is the end iterator.
  unfoldable pub find : ℕ → SortedMap V → Option V
  find k [] = none
  find k ((j, v) ∷ m) = if j == k then some v else find k m

  -- A key that is there keeps its value.
  unfoldable pub emplace : ℕ → V → SortedMap V → SortedMap V
  emplace k v [] = (k, v) ∷ []
  emplace k v ((j, w) ∷ m) =
      let rest = emplace k v m in
      if ltb k j then (k, v) ∷ (j, w) ∷ m else if j == k then (j, w) ∷ m else (j, w) ∷ rest

  unfoldable pub erase : ℕ → SortedMap V → SortedMap V
  erase k [] = []
  erase k ((j, v) ∷ m) = let rest = erase k m in if j == k then m else (j, v) ∷ rest

  -- A write through the iterator that `find` returned.
  unfoldable pub assign : ℕ → V → SortedMap V → SortedMap V
  assign k v [] = []
  assign k v ((j, w) ∷ m) = let rest = assign k v m in if j == k then (j, v) ∷ m else (j, w) ∷ rest

  -- The entries from the first key above `k` on.
  unfoldable pub upper_bound : ℕ → SortedMap V → SortedMap V
  upper_bound k [] = []
  upper_bound k ((j, v) ∷ m) = let rest = upper_bound k m in if ltb k j then (j, v) ∷ m else rest

  -- Keys rise, from above `low`.
  abbrev pub Ascending : ℕ → SortedMap V → Type 0
  Ascending low [] = Unit {0}
  Ascending low ((j, v) ∷ m) = (low < j) × Ascending j m

  abbrev pub KeysBelow : ℕ → SortedMap V → Type 0
  KeysBelow high [] = Unit {0}
  KeysBelow high ((j, v) ∷ m) = (j < high) × KeysBelow high m

  abbrev pub AllValues {κ} : (V → Type κ) → SortedMap V → Type κ
  AllValues P [] = Unit
  AllValues P ((j, v) ∷ m) = P v × AllValues P m

  unfoldable pub total : (V → ℕ) → SortedMap V → ℕ
  total f [] = 0
  total f ((j, v) ∷ m) = f v + total f m
