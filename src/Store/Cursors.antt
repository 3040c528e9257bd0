-- ===== src/Store/Cursors.antt =====
-- src/domain/domain.cpp, `apply(const list_values&)`: what one page takes, and where its cursor
-- stands.
use stream_labs_test_assingm.Base.{
  ℕ, zero, suc, ◌≤◌, ◌≡◌, ◌≢◌, refl, sym, ◌∙◌, true, List, [], ◌∷◌, ◌++◌, append_assoc, append-nil,
  ltb, arith, inl, inr, Bool-cases, length, take, drop,
}
use stream_labs_test_assingm.Base.Word.{add64, sub64, sub64_exact}
use stream_labs_test_assingm.Contracts.{Value, ValueRecord}
use stream_labs_test_assingm.Validation.{Utf8, valid_value, valid_page_size, value_bytes}
use stream_labs_test_assingm.SortedMap.{SortedMap, upper_bound, Ascending, AllValues}
use stream_labs_test_assingm.Objects.{record_charge}
use stream_labs_test_assingm.Store.Values.{fill_values, last_id, page_byte_budget}
use stream_labs_test_assingm.Store.Invariant.{value_charge_exact, value_bytes-bound}

-- The entries of the map, as the records that a page shows.
abbrev pub records : SortedMap Value → List ValueRecord
records [] = []
records ((id, datum) ∷ m) = record { id = id; datum = datum } ∷ records m

-- The loop takes some entries from the front and leaves the rest.
pub fill_values-takes :
    (limit bytes : ℕ) (page : List ValueRecord) (items : SortedMap Value)
    → (n : ℕ) × ((fill_values limit bytes page items).0 ≡ page ++ records (take n items))
      × ((fill_values limit bytes page items).1 ≡ drop n items)
unfolding fill_values
fill_values-takes limit bytes page [] = (0, sym (append-nil page), refl)
fill_values-takes limit bytes page ((id, datum) ∷ items) =
    let charge = add64 record_charge (value_bytes datum) in
    let rest =
      fill_values-takes limit (add64 bytes charge) (page ++ record { id = id; datum = datum } ∷ [])
        items in
    elim (Bool-cases (ltb (length page) limit)) [
      | inr full ↦ (0, rw full (sym (append-nil page)), rw full)
      | inl room ↦ elim (Bool-cases (ltb (sub64 page_byte_budget bytes) charge)) [
        | inl large ↦ (0, rw (room, large) (sym (append-nil page)), rw (room, large))
        | inr fits ↦
            (suc rest.0, rw (room, fits) (rest.1 ∙ append_assoc page _ _), rw (room, fits) rest.2)
      ]
    ]

-- The first entry always fits: one value is far below the budget of a page.
pub fill_values-progress :
    ⦃u : Utf8⦄ (limit id : ℕ) (datum : Value) (items : SortedMap Value)
    → valid_page_size limit ≡ true
    → valid_value datum ≡ true
    → fill_values limit 0 [] ((id, datum) ∷ items)
      ≡ fill_values limit
          (add64 0 (add64 record_charge (value_bytes datum)))
          (record { id = id; datum = datum } ∷ [])
          items
unfolding fill_values valid_page_size
fill_values-progress limit id datum items l v =
    ground
      (arith, value_charge_exact datum v, value_bytes-bound datum v, sub64_exact page_byte_budget 0)

-- A page that leaves entries behind has records, so its cursor is defined.
pub page_not_empty :
    ⦃u : Utf8⦄ (limit : ℕ) (items : SortedMap Value)
    → valid_page_size limit ≡ true
    → AllValues (λ v. valid_value v ≡ true) items
    → (fill_values limit 0 [] items).1 ≢ []
    → (fill_values limit 0 [] items).0 ≢ []
unfolding fill_values
page_not_empty limit [] l v h = absurd (h refl)
page_not_empty limit ((id, datum) ∷ items) l v h =
    let took =
      fill_values-takes limit (add64 0 (add64 record_charge (value_bytes datum)))
        (record { id = id; datum = datum } ∷ []) items in
    rw (fill_values-progress limit id datum items l v.0, took.1) (λ e. absurd (cc))

pub upper_bound_low : (low : ℕ) (m : SortedMap Value) → Ascending low m → upper_bound low m ≡ m
unfolding upper_bound
upper_bound_low low [] a = refl
upper_bound_low low ((j, v) ∷ m) a = ground arith

pub upper_bound-Ascending :
    (low k : ℕ) (m : SortedMap Value) → Ascending low m → Ascending k (upper_bound k m)
unfolding upper_bound
upper_bound-Ascending low k [] a = tt
upper_bound-Ascending low k ((j, v) ∷ m) a = ground (arith, upper_bound-Ascending j k m a.1)

pub upper_bound-upper_bound :
    (a b : ℕ) (m : SortedMap Value) → a ≤ b → upper_bound b (upper_bound a m) ≡ upper_bound b m
unfolding upper_bound
upper_bound-upper_bound a b [] h = refl
upper_bound-upper_bound a b ((j, v) ∷ m) h = ground (arith, upper_bound-upper_bound a b m h)

-- The key of the last entry taken.
unfoldable pub last_taken : (n : ℕ) → SortedMap Value → ℕ
last_taken n m = last_id (records (take n m))

pub last_taken-le :
    (n j : ℕ) (v : Value) (m : SortedMap Value)
    → Ascending j m
    → j ≤ last_taken (suc n) ((j, v) ∷ m)
unfolding last_taken
last_taken-le zero j v m a = omega arith
last_taken-le (suc n) j v [] a = omega arith
last_taken-le (suc n) j v ((k, w) ∷ m) a = omega (arith, last_taken-le n k w m a.1)

-- The cursor of a page leads back to the entries that the page left.
pub upper_bound-last_taken :
    (n j : ℕ) (v : Value) (m : SortedMap Value)
    → Ascending j m
    → upper_bound (last_taken (suc n) ((j, v) ∷ m)) ((j, v) ∷ m) ≡ drop n m
unfolding upper_bound last_taken
upper_bound-last_taken zero j v m a = ground (arith, upper_bound_low j m a)
upper_bound-last_taken (suc n) j v [] a = ground arith
upper_bound-last_taken (suc n) j v ((k, w) ∷ m) a =
    ground (arith, last_taken-le n k w m a.1, upper_bound-last_taken n k w m a.1)
