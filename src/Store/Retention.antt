-- ===== src/Store/Retention.antt =====
-- src/domain/domain.cpp, `session_store`: what is stored can be read again, after whatever the
-- session does next.
use stream_labs_test_assingm.Base.{
  ℕ, ◌≡◌, refl, sym, ◌∙◌, false, some, List, [], ◌∷◌, ◌==◌, arith, inl, inr, Bool-cases, ◌≢◌,
}
use stream_labs_test_assingm.Contracts.{
  Value, ValueRecord, value_record, Operation, list_classes, describe_class, put_value, get_value,
  list_values, create_object, get_object, release_object, get_attribute, invoke_method, PutValue,
}
use stream_labs_test_assingm.Validation.{Utf8}
use stream_labs_test_assingm.SortedMap.{find}
use stream_labs_test_assingm.SortedMap.Laws.{find_fresh, find-emplace}
use stream_labs_test_assingm.Objects.{ObjectClass}
use stream_labs_test_assingm.Identifiers.{IdentifierSource, horizon}
use stream_labs_test_assingm.Store.State.{SessionStore}
use stream_labs_test_assingm.Store.Values.{apply_get_value}
use stream_labs_test_assingm.Store.Execute.{apply, execute}
use stream_labs_test_assingm.Store.Outcomes.{
  apply_put_value-Outcome, apply_create_object-Created, apply_release_object-Released,
}
use stream_labs_test_assingm.Store.Invocations.{apply_invoke_method-Invoked}
use stream_labs_test_assingm.Store.Atomicity.{execute_open, execute_closed}
use stream_labs_test_assingm.Store.Invariant.{Inv}
use stream_labs_test_assingm.Store.Preservation.{execute-Inv}

module _ {Obj : Type 0} ⦃o : ObjectClass Obj⦄ ⦃u : Utf8⦄ where
  -- The operations of a session, one after another.
  pub run :
      SessionStore Obj → IdentifierSource → List Operation → SessionStore Obj × IdentifierSource
  run s ids [] = (s, ids)
  run s ids (operation ∷ operations) =
      run (execute s ids operation).0 (execute s ids operation).1 operations

  -- What an operation keeps: a value that is stored, and whether the store is closed.
  abbrev Keeps : SessionStore Obj → SessionStore Obj → Type 0
  Keeps s t =
      (t.closed ≡ s.closed)
      × ((k : ℕ) (v : Value) → find k s.values ≡ some v → find k t.values ≡ some v)

  same-Keeps : (s t : SessionStore Obj) → t.closed ≡ s.closed → t.values ≡ s.values → Keeps s t
  same-Keeps s t c v = (c, λ k w h. rw v h)

  apply-Keeps :
      (s : SessionStore Obj) (ids : IdentifierSource) (operation : Operation)
      → Inv s ids
      → Keeps s (apply s ids operation).0
  unfolding apply
  apply-Keeps s ids (put_value query) inv = elim (apply_put_value-Outcome s ids query inv.word) [
    | inl (_, failed) ↦ rw failed (same-Keeps s s refl refl)
    | inr (fits, issued, stored) ↦ rw stored (
      refl,
      λ k v h.
          rw (find-emplace (horizon ids) k query.datum s.values (find_fresh _ _ inv.values_issued))
            (elim (Bool-cases (horizon ids == k)) [
              | inl same ↦ absurd (ground (arith, find_fresh k s.values))
              | inr other ↦ rw other h
            ]),
    )
  ]
  apply-Keeps s ids (create_object query) inv =
      elim (apply_create_object-Created s ids query inv.word) [
        | inl (_, failed) ↦ rw failed (same-Keeps s s refl refl)
        | inr (_, _, _, _, stored) ↦ rw stored (refl, λ k v h. h)
      ]
  apply-Keeps s ids (release_object query) inv = elim (apply_release_object-Released s query) [
    | inl (_, failed) ↦ rw failed (same-Keeps s s refl refl)
    | inr (_, _, stored) ↦ rw stored (refl, λ k v h. h)
  ]
  apply-Keeps s ids (invoke_method query) inv = elim (apply_invoke_method-Invoked s query) [
    | inl (_, failed) ↦ rw failed (same-Keeps s s refl refl)
    | inr (_, _, _, _, _, _, stored) ↦ rw stored (refl, λ k v h. h)
  ]
  apply-Keeps s ids (list_classes query) inv = same-Keeps s s refl refl
  apply-Keeps s ids (describe_class query) inv = same-Keeps s s refl refl
  apply-Keeps s ids (get_value query) inv = same-Keeps s s refl refl
  apply-Keeps s ids (list_values query) inv = same-Keeps s s refl refl
  apply-Keeps s ids (get_object query) inv = same-Keeps s s refl refl
  apply-Keeps s ids (get_attribute query) inv = same-Keeps s s refl refl

  execute-Keeps :
      (s : SessionStore Obj) (ids : IdentifierSource) (operation : Operation)
      → Inv s ids
      → Keeps s (execute s ids operation).0
  execute-Keeps s ids operation inv = elim (Bool-cases s.closed) [
    | inl shut ↦ rw (execute_closed s ids operation shut) (same-Keeps s s refl refl)
    | inr live ↦ rw (execute_open s ids operation live) (apply-Keeps s ids operation inv)
  ]

  run-Keeps :
      (s : SessionStore Obj) (ids : IdentifierSource) (operations : List Operation)
      → Inv s ids
      → Keeps s (run s ids operations).0
  unfolding run
  run-Keeps s ids [] inv = same-Keeps s s refl refl
  run-Keeps s ids (operation ∷ operations) inv =
      let first = execute-Keeps s ids operation inv in
      let rest =
        run-Keeps (execute s ids operation).0 (execute s ids operation).1 operations
          (execute-Inv s ids operation inv) in
      (rest.0 ∙ first.0, λ k v h. rest.1 k v (first.1 k v h))

  get_value_stored :
      (s : SessionStore Obj) (ids : IdentifierSource) (r : ValueRecord)
      → s.closed ≡ false
      → r.id ≢ 0
      → find r.id s.values ≡ some r.datum
      → (execute s ids (get_value (record { id = r.id }))).2 ≡ value_record r
  unfolding apply apply_get_value
  get_value_stored s ids r live nonzero stored = rw (execute_open s ids _ live) (ground arith)

  put_stored :
      (s : SessionStore Obj) (ids : IdentifierSource) (query : PutValue) (r : ValueRecord)
      → Inv s ids
      → s.closed ≡ false
      → (execute s ids (put_value query)).2 ≡ value_record r
      → (r.datum ≡ query.datum)
        × (r.id ≢ 0)
        × (find r.id (execute s ids (put_value query)).0.values ≡ some r.datum)
  unfolding apply
  put_stored s ids query r inv live =
      rw (execute_open s ids (put_value query) live)
        (elim (apply_put_value-Outcome s ids query inv.word) [
          | inl (_, failed) ↦ rw failed (λ h. absurd (cc))
          | inr (fits, issued, stored) ↦ rw stored (λ h.
              let id : horizon ids ≡ r.id = ground arith in
              let datum : query.datum ≡ r.datum = ground arith in
              (
                sym datum,
                omega (arith, issued.nonzero),
                ground (
                  arith,
                  find-emplace (horizon ids) r.id query.datum s.values
                      (find_fresh _ _ inv.values_issued),
                ),
              ))
        ])

  -- A value that an open store accepted is read back under the id of its record, with the datum
  -- that was sent, after whatever the session did next.
  pub put-get :
      (s : SessionStore Obj) (ids : IdentifierSource) (query : PutValue) (r : ValueRecord)
      (operations : List Operation)
      → Inv s ids
      → s.closed ≡ false
      → (execute s ids (put_value query)).2 ≡ value_record r
      → let stored = execute s ids (put_value query) in
        let later = run stored.0 stored.1 operations in
        (r.datum ≡ query.datum)
        × ((execute later.0 later.1 (get_value (record { id = r.id }))).2 ≡ value_record r)
  put-get s ids query r operations inv live put =
      let kept = put_stored s ids query r inv live put in
      let opened = execute-Keeps s ids (put_value query) inv in
      let onward =
        run-Keeps (execute s ids (put_value query)).0 (execute s ids (put_value query)).1 operations
          (execute-Inv s ids (put_value query) inv) in
      (
        kept.0,
        get_value_stored _ _ r (onward.0 ∙ opened.0 ∙ live) kept.1 (onward.1 r.id r.datum kept.2),
      )
