-- ===== src/SortedMap/Laws.antt =====
-- std::map: each write against each read, and what the writes keep.
use stream_labs_test_assingm.Base.{
  ℕ, suc, ◌+◌, ◌≤◌, ◌<◌, ◌≡◌, refl, none, some, [], ◌∷◌, ◌==◌, if◌then◌else◌, arith, length,
  Bool-cases, inl, inr, subst,
}
use stream_labs_test_assingm.SortedMap.{
  SortedMap, find, emplace, erase, assign, Ascending, KeysBelow, AllValues, total,
}

module _ {ℓ} {V : Type ℓ} where
  pub find_fresh : (k : ℕ) (m : SortedMap V) → KeysBelow k m → find k m ≡ none
  unfolding find
  find_fresh k [] b = refl
  find_fresh k ((j, v) ∷ m) b = ground (arith, find_fresh k m b.1)

  pub find-emplace :
      (k j : ℕ) (v : V) (m : SortedMap V)
      → find k m ≡ none
      → find j (emplace k v m) ≡ (if k == j then some v else find j m)
  unfolding find emplace
  find-emplace k j v [] h = refl
  find-emplace k j v ((i, w) ∷ m) h = ground (arith, find-emplace k j v m)

  pub find_below : (k low : ℕ) (m : SortedMap V) → Ascending low m → k ≤ low → find k m ≡ none
  unfolding find
  find_below k low [] a h = refl
  find_below k low ((j, v) ∷ m) a h = ground (arith, find_below k j m a.1)

  pub find-erase :
      (k j low : ℕ) (m : SortedMap V)
      → Ascending low m
      → find j (erase k m) ≡ (if k == j then none else find j m)
  unfolding find erase
  find-erase k j low [] a = ground arith
  find-erase k j low ((i, w) ∷ m) a = ground (arith, find-erase k j i m a.1, find_below j i m a.1)

  pub find-assign :
      (k j : ℕ) (v w : V) (m : SortedMap V)
      → find k m ≡ some w
      → find j (assign k v m) ≡ (if k == j then some v else find j m)
  unfolding find assign
  find-assign k j v w [] h = ground arith
  find-assign k j v w ((i, x) ∷ m) h = ground (arith, find-assign k j v w m)

  pub total-emplace :
      (f : V → ℕ) (k : ℕ) (v : V) (m : SortedMap V)
      → find k m ≡ none
      → total f (emplace k v m) ≡ total f m + f v
  unfolding find emplace total
  total-emplace f k v [] h = omega arith
  total-emplace f k v ((j, w) ∷ m) h = ground (arith, total-emplace f k v m)

  pub total-erase :
      (f : V → ℕ) (k : ℕ) (v : V) (m : SortedMap V)
      → find k m ≡ some v
      → total f (erase k m) + f v ≡ total f m
  unfolding find erase total
  total-erase f k v [] h = ground arith
  total-erase f k v ((j, w) ∷ m) h = ground (arith, total-erase f k v m)

  pub total-assign :
      (f : V → ℕ) (k : ℕ) (v w : V) (m : SortedMap V)
      → find k m ≡ some w
      → total f (assign k v m) + f w ≡ total f m + f v
  unfolding find assign total
  total-assign f k v w [] h = ground arith
  total-assign f k v w ((j, x) ∷ m) h = ground (arith, total-assign f k v w m)

  pub length-emplace :
      (k : ℕ) (v : V) (m : SortedMap V) → find k m ≡ none → length (emplace k v m) ≡ suc (length m)
  unfolding find emplace
  length-emplace k v [] h = refl
  length-emplace k v ((j, w) ∷ m) h = ground (arith, length-emplace k v m)

  pub length-erase : (k : ℕ) (m : SortedMap V) → length (erase k m) ≤ length m
  unfolding erase
  length-erase k [] = omega arith
  length-erase k ((j, w) ∷ m) = ground (arith, length-erase k m)

  pub length-assign : (k : ℕ) (v : V) (m : SortedMap V) → length (assign k v m) ≡ length m
  unfolding assign
  length-assign k v [] = refl
  length-assign k v ((j, w) ∷ m) = ground (arith, length-assign k v m)

  Ascending-mono : (a b : ℕ) (m : SortedMap V) → a ≤ b → Ascending b m → Ascending a m
  Ascending-mono a b [] h s = tt
  Ascending-mono a b ((j, v) ∷ m) h s = (omega arith, s.1)

  pub emplace-Ascending :
      (low k : ℕ) (v : V) (m : SortedMap V)
      → low < k
      → Ascending low m
      → Ascending low (emplace k v m)
  unfolding emplace
  emplace-Ascending low k v [] h a = (h, tt)
  emplace-Ascending low k v ((j, w) ∷ m) h a = ground (arith, emplace-Ascending j k v m)

  pub erase-Ascending : (low k : ℕ) (m : SortedMap V) → Ascending low m → Ascending low (erase k m)
  unfolding erase
  erase-Ascending low k [] a = tt
  erase-Ascending low k ((j, w) ∷ m) a =
      ground (arith, erase-Ascending j k m a.1, Ascending-mono low j m)

  pub assign-Ascending :
      (low k : ℕ) (v : V) (m : SortedMap V) → Ascending low m → Ascending low (assign k v m)
  unfolding assign
  assign-Ascending low k v [] a = tt
  assign-Ascending low k v ((j, w) ∷ m) a = ground (arith, assign-Ascending j k v m a.1)

  pub KeysBelow-mono : (a b : ℕ) (m : SortedMap V) → a ≤ b → KeysBelow a m → KeysBelow b m
  KeysBelow-mono a b [] h s = tt
  KeysBelow-mono a b ((j, v) ∷ m) h s = (omega arith, KeysBelow-mono a b m h s.1)

  pub emplace-KeysBelow :
      (high k : ℕ) (v : V) (m : SortedMap V)
      → k < high
      → KeysBelow high m
      → KeysBelow high (emplace k v m)
  unfolding emplace
  emplace-KeysBelow high k v [] h b = (h, tt)
  emplace-KeysBelow high k v ((j, w) ∷ m) h b = ground (arith, emplace-KeysBelow high k v m h b.1)

  pub erase-KeysBelow :
      (high k : ℕ) (m : SortedMap V) → KeysBelow high m → KeysBelow high (erase k m)
  unfolding erase
  erase-KeysBelow high k [] b = tt
  erase-KeysBelow high k ((j, w) ∷ m) b = ground (arith, erase-KeysBelow high k m b.1)

  pub assign-KeysBelow :
      (high k : ℕ) (v : V) (m : SortedMap V) → KeysBelow high m → KeysBelow high (assign k v m)
  unfolding assign
  assign-KeysBelow high k v [] b = tt
  assign-KeysBelow high k v ((j, w) ∷ m) b = ground (arith, assign-KeysBelow high k v m b.1)

  module _ {κ} (P : V → Type κ) where
    pub find-AllValues : (k : ℕ) (m : SortedMap V) (v : V) → AllValues P m → find k m ≡ some v → P v
    unfolding find
    find-AllValues k [] v a h = absurd (ground arith)
    find-AllValues k ((j, w) ∷ m) v a h = elim (Bool-cases (j == k)) [
      | inl hit ↦ let e : w ≡ v = ground arith in subst P e a.0
      | inr miss ↦ find-AllValues k m v a.1 (rw miss at h)
    ]

    pub emplace-AllValues :
        (k : ℕ) (v : V) (m : SortedMap V) → P v → AllValues P m → AllValues P (emplace k v m)
    unfolding emplace
    emplace-AllValues k v [] p a = (p, tt)
    emplace-AllValues k v ((j, w) ∷ m) p a = ground (arith, emplace-AllValues k v m p a.1)

    pub erase-AllValues : (k : ℕ) (m : SortedMap V) → AllValues P m → AllValues P (erase k m)
    unfolding erase
    erase-AllValues k [] a = tt
    erase-AllValues k ((j, w) ∷ m) a = ground (arith, erase-AllValues k m a.1)

    pub assign-AllValues :
        (k : ℕ) (v : V) (m : SortedMap V) → P v → AllValues P m → AllValues P (assign k v m)
    unfolding assign
    assign-AllValues k v [] p a = tt
    assign-AllValues k v ((j, w) ∷ m) p a = ground (arith, assign-AllValues k v m p a.1)
