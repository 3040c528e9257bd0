-- ===== src/Store/Paging.antt =====
-- src/domain/domain.cpp, `apply(const list_values&)`: the pages of a session's values, read one
-- after another by their cursors.
use stream_labs_test_assingm.Base.{
  ℕ, zero, suc, ◌+◌, ◌<◌, ◌≡◌, ◌≢◌, refl, ap, sym, ◌∙◌, true, List, [], ◌∷◌, ◌++◌, append-nil, ◌==◌,
  if◌then◌else◌, arith, length, take, drop, take-append-drop, length-drop,
}
use stream_labs_test_assingm.Base.Word.{add64}
use stream_labs_test_assingm.Contracts.{Value, ValueRecord, values_page}
use stream_labs_test_assingm.Validation.{Utf8, valid_value, valid_page_size, value_bytes}
use stream_labs_test_assingm.SortedMap.{SortedMap, upper_bound, Ascending, AllValues}
use stream_labs_test_assingm.Objects.{ObjectClass, record_charge}
use stream_labs_test_assingm.Identifiers.{IdentifierSource}
use stream_labs_test_assingm.Store.State.{SessionStore}
use stream_labs_test_assingm.Store.Values.{fill_values, apply_list_values, value_cursor}
use stream_labs_test_assingm.Store.Invariant.{Inv}
use stream_labs_test_assingm.Store.Cursors.{
  records, fill_values-takes, fill_values-progress, upper_bound_low, upper_bound-upper_bound,
  last_taken, last_taken-le, upper_bound-last_taken,
}

module _ {Obj : Type 0} where
  -- Reading page after page, as a client does, until a page names no next cursor.
  pub read_pages : ℕ → SessionStore Obj → ℕ → ℕ → List ValueRecord
  -- One page, and the pages that its cursor leads to.
  read_pages zero s limit after = []
  read_pages (suc fuel) s limit after =
      elim (apply_list_values s (record { after = after; limit = limit })) [
        | values_page page ↦
            let rest = read_pages fuel s limit page.next in
            if page.next == 0 then page.values else page.values ++ rest
        | _ ↦ []
      ]

  list_values_page :
      (s : SessionStore Obj) (limit after : ℕ) (page : List ValueRecord) (left : SortedMap Value)
      → valid_page_size limit ≡ true
      → (fill_values limit 0 [] (upper_bound after s.values)).0 ≡ page
      → (fill_values limit 0 [] (upper_bound after s.values)).1 ≡ left
      → apply_list_values s (record { after = after; limit = limit })
        ≡ values_page (record { values = page; next = value_cursor page left })
  unfolding apply_list_values
  list_values_page s limit after page left l p r = rw (l, p, r)

  last_page :
      (fuel : ℕ) (s : SessionStore Obj) (limit after : ℕ) (page : List ValueRecord)
      → apply_list_values s (record { after = after; limit = limit })
        ≡ values_page (record { values = page; next = 0 })
      → read_pages (suc fuel) s limit after ≡ page
  unfolding read_pages
  last_page fuel s limit after page e = rw (e, read_pages)

  more_pages :
      (fuel : ℕ) (s : SessionStore Obj) (limit after next : ℕ) (page : List ValueRecord)
      → next ≢ 0
      → apply_list_values s (record { after = after; limit = limit })
        ≡ values_page (record { values = page; next = next })
      → read_pages (suc fuel) s limit after ≡ page ++ read_pages fuel s limit next
  unfolding read_pages
  more_pages fuel s limit after next page z e = rw (e, read_pages) (ground arith)

records-append : (m n : SortedMap Value) → records (m ++ n) ≡ records m ++ records n
records-append [] n = refl
records-append ((j, v) ∷ m) n = ap (◌∷◌ (record { id = j; datum = v })) (records-append m n)

fill_values-nil : (limit : ℕ) → fill_values limit 0 [] [] ≡ ([], [])
unfolding fill_values
fill_values-nil limit = refl

take_whole : (n : ℕ) (m : SortedMap Value) → drop n m ≡ [] → records (take n m) ≡ records m
take_whole n m e = ap records (
    sym (append-nil (take n m))
    ∙ ap (λ (r : SortedMap Value). take n m ++ r) (sym e)
    ∙ take-append-drop n m)

take_more : (n : ℕ) (m : SortedMap Value) → records (take n m) ++ records (drop n m) ≡ records m
take_more n m = sym (records-append (take n m) (drop n m)) ∙ ap records (take-append-drop n m)

drop-Ascending :
    (n j : ℕ) (v : Value) (m : SortedMap Value)
    → Ascending j m
    → Ascending (last_taken (suc n) ((j, v) ∷ m)) (drop n m)
unfolding last_taken
drop-Ascending zero j v m a = a
drop-Ascending (suc n) j v [] a = tt
drop-Ascending (suc n) j v ((k, w) ∷ m) a = drop-Ascending n k w m a.1

drop-AllValues :
    (P : Value → Type 0) (n : ℕ) (m : SortedMap Value) → AllValues P m → AllValues P (drop n m)
drop-AllValues P zero m a = a
drop-AllValues P (suc n) [] a = tt
drop-AllValues P (suc n) ((k, w) ∷ m) a = drop-AllValues P n m a.1

module _ {Obj : Type 0} (fuel : ℕ) (s : SessionStore Obj) (limit after : ℕ) where
  -- The page that took `n` entries behind the first, and the pages behind it.
  page_and_rest :
      (n id : ℕ) (datum : Value) (items left : SortedMap Value)
      → valid_page_size limit ≡ true
      → (fill_values limit 0 [] (upper_bound after s.values)).0
        ≡ records (take (suc n) ((id, datum) ∷ items))
      → (fill_values limit 0 [] (upper_bound after s.values)).1 ≡ left
      → left ≡ drop n items
      → last_taken (suc n) ((id, datum) ∷ items) ≢ 0
      → read_pages fuel s limit (last_taken (suc n) ((id, datum) ∷ items)) ≡ records (drop n items)
      → read_pages (suc fuel) s limit after ≡ records ((id, datum) ∷ items)
  unfolding last_taken
  page_and_rest n id datum items [] l p r d z rest =
      last_page fuel s limit after _ (list_values_page s limit after _ [] l p r)
      ∙ take_whole (suc n) ((id, datum) ∷ items) (sym d)
  page_and_rest n id datum items (e ∷ left) l p r d z rest =
      more_pages fuel s limit after _ _ z (list_values_page s limit after _ (e ∷ left) l p r)
      ∙ rw rest (take_more (suc n) ((id, datum) ∷ items))

module _ {Obj : Type 0} ⦃u : Utf8⦄ where
  pages_from :
      (fuel : ℕ) (s : SessionStore Obj) (limit after : ℕ) (items : SortedMap Value)
      → AllValues (λ v. valid_value v ≡ true) items
      → Ascending after items
      → valid_page_size limit ≡ true
      → length items < fuel
      → upper_bound after s.values ≡ items
      → read_pages fuel s limit after ≡ records items
  pages_from zero s limit after items v b l h e = elim h [ ]
  pages_from (suc fuel) s limit after [] v b l h e =
      last_page fuel s limit after []
        (list_values_page s limit after [] [] l (rw (e, fill_values-nil)) (rw (e, fill_values-nil)))
  pages_from (suc fuel) s limit after ((id, datum) ∷ items) v b l h e =
      let took =
        fill_values-takes limit (add64 0 (add64 record_charge (value_bytes datum)))
          (record { id = id; datum = datum } ∷ []) items in
      let k = last_taken (suc took.0) ((id, datum) ∷ items) in
      let above = last_taken-le took.0 id datum items b.1 in
      page_and_rest fuel s limit after took.0 id datum items _ l
        (rw (e, fill_values-progress limit id datum items l v.0) took.1)
        (rw (e, fill_values-progress limit id datum items l v.0) took.2) refl
        (λ z. absurd (omega (arith, above, b.0)))
        (pages_from fuel s limit k (drop took.0 items) (drop-AllValues _ took.0 items v.1)
          (drop-Ascending took.0 id datum items b.1) l (omega (arith, length-drop took.0 items))
          (sym (upper_bound-upper_bound after k s.values (omega (arith, above, b.0)))
            ∙ ap (upper_bound k) e
            ∙ upper_bound-last_taken took.0 id datum items b.1))

module _ {Obj : Type 0} ⦃o : ObjectClass Obj⦄ ⦃u : Utf8⦄ where
  -- Reading the pages of a store that meets the invariant, from cursor 0 and with any valid limit,
  -- yields every stored value once, in the order of the ids, within one page for each value and one
  -- more.
  pub read_pages_complete :
      (s : SessionStore Obj) (ids : IdentifierSource) (limit : ℕ)
      → Inv s ids
      → valid_page_size limit ≡ true
      → read_pages (length s.values + 1) s limit 0 ≡ records s.values
  read_pages_complete s ids limit inv l =
      pages_from (length s.values + 1) s limit 0 s.values inv.values_valid inv.values_ascending l
        (omega arith) (upper_bound_low 0 s.values inv.values_ascending)
