-- ===== src/Store/ObjectReads.antt =====
-- src/domain/domain.cpp, `session_store`: what is stored of objects can be read again.
use stream_labs_test_assingm.Base.{
  ℕ, ◌≡◌, ap, ◌∙◌, true, false, none, some, arith, inl, inr, Option-cases, length, subst, ◌≢◌, ◌⊎◌,
}
use stream_labs_test_assingm.Contracts.{
  ObjectSnapshot, ErrorCode, object_snapshot, released, create_object, get_object, release_object,
  CreateObject,
}
use stream_labs_test_assingm.Validation.{Utf8}
use stream_labs_test_assingm.SortedMap.{find}
use stream_labs_test_assingm.SortedMap.Laws.{
  find_fresh, find-emplace, find-erase, find-AllValues, find_below,
}
use stream_labs_test_assingm.Base.Word.{add64}
use stream_labs_test_assingm.Objects.{ObjectClass, ClassDefinition, record_charge}
use stream_labs_test_assingm.Identifiers.{IdentifierSource, next, horizon}
use stream_labs_test_assingm.Store.State.{
  SessionStore, StoredObject, state_matches, state_charge, refusal,
}
use stream_labs_test_assingm.Store.Objects.{apply_get_object}
use stream_labs_test_assingm.Store.Execute.{apply, execute}
use stream_labs_test_assingm.Store.Outcomes.{
  CreateFits, Issued, after_create, apply_create_object-Created, apply_release_object-Released,
}
use stream_labs_test_assingm.Store.Atomicity.{execute_open}
use stream_labs_test_assingm.Store.Invariant.{Inv, IsWhole, registered_name}

module _ {Obj : Type 0} ⦃o : ObjectClass Obj⦄ ⦃u : Utf8⦄ where
  object-IsWhole :
      (s : SessionStore Obj) (ids : IdentifierSource) (id : ℕ) (entry : StoredObject Obj)
      → Inv s ids
      → find id s.objects ≡ some entry
      → IsWhole entry
  object-IsWhole s ids id entry inv held =
      find-AllValues (λ e. IsWhole e) id s.objects entry inv.objects_whole held

  get_object_stored :
      (s : SessionStore Obj) (ids : IdentifierSource) (id : ℕ) (entry : StoredObject Obj)
      → s.closed ≡ false
      → id ≢ 0
      → find id s.objects ≡ some entry
      → state_matches entry.definition (o.state entry.held) ≡ true
      → (execute s ids (get_object (record { id = id }))).2
        ≡ object_snapshot (record {
          id = id;
          class_name = entry.definition.description.name;
          state = o.state entry.held;
        })
  unfolding apply apply_get_object
  get_object_stored s ids id entry live nonzero held matches =
      rw (execute_open s ids _ live) (ground arith)

  created_read :
      (s : SessionStore Obj) (ids : IdentifierSource) (query : CreateObject)
      (d : ClassDefinition Obj) (made : Obj)
      → Inv s ids
      → s.closed ≡ false
      → CreateFits s query d made
      → Issued ids (next ids).0
      → let out = after_create s ids query d made in
        (execute out.0 out.1 (get_object (record { id = horizon ids }))).2 ≡ out.2
  created_read s ids query d made inv live fits issued =
      get_object_stored (after_create s ids query d made).0 (next ids).0 (horizon ids)
        (record { definition = d; held = made; charge = charge_created }) live
        (omega (arith, issued.nonzero))
        (ground (
          arith,
          find-emplace (horizon ids) (horizon ids)
              (record { definition = d; held = made; charge = charge_created }) s.objects
              (find_fresh _ _ inv.objects_issued),
        ))
        fits.matches
      ∙ ap
          (λ n. object_snapshot (record { id = horizon ids; class_name = n; state = o.state made }))
          (registered_name s.registry query.class_name d fits.known)
    where
      charge_created : ℕ
      charge_created =
          add64 (add64 record_charge (length query.class_name)) (state_charge (o.state made))

  -- Creating an object in an open store answers with the snapshot that reading it back gives.
  pub create-get :
      (s : SessionStore Obj) (ids : IdentifierSource) (query : CreateObject)
      (snapshot : ObjectSnapshot)
      → Inv s ids
      → s.closed ≡ false
      → (execute s ids (create_object query)).2 ≡ object_snapshot snapshot
      → let made = execute s ids (create_object query) in
        (execute made.0 made.1 (get_object (record { id = snapshot.id }))).2
        ≡ object_snapshot snapshot
  unfolding apply
  create-get s ids query snapshot inv live =
      rw (execute_open s ids (create_object query) live)
        (elim (apply_create_object-Created s ids query inv.word) [
          | inl (_, failed) ↦ rw failed (λ h. absurd (cc))
          | inr (d, made, fits, issued, stored) ↦ rw stored (λ h.
              let shown : record {
                id = horizon ids;
                class_name = query.class_name;
                state = o.state made;
              }
                  ≡ snapshot =
                ground arith in
              subst
                (λ (t : ObjectSnapshot).
                  (execute (after_create s ids query d made).0 (next ids).0
                    (get_object (record { id = t.id }))).2
                  ≡ object_snapshot t)
                shown (created_read s ids query d made inv live fits issued))
        ])

  get_object_missing :
      (s : SessionStore Obj) (ids : IdentifierSource) (id : ℕ)
      → s.closed ≡ false
      → id ≢ 0
      → find id s.objects ≡ none
      → (execute s ids (get_object (record { id = id }))).2 ≡ refusal ErrorCode.not_found
  unfolding apply apply_get_object
  get_object_missing s ids id live nonzero missing = rw (execute_open s ids _ live) (ground arith)

  -- An open store that meets the invariant reads each object that it holds, as a snapshot of its
  -- state, and answers that it does not know any other nonzero id: a read is never an internal
  -- failure.
  pub get_object-found :
      (s : SessionStore Obj) (ids : IdentifierSource) (id : ℕ)
      → Inv s ids
      → s.closed ≡ false
      → id ≢ 0
      → ((find id s.objects ≡ none)
          × ((execute s ids (get_object (record { id = id }))).2 ≡ refusal ErrorCode.not_found))
        ⊎ ((entry : StoredObject Obj) × (find id s.objects ≡ some entry)
            × ((execute s ids (get_object (record { id = id }))).2
                ≡ object_snapshot (record {
                  id = id;
                  class_name = entry.definition.description.name;
                  state = o.state entry.held;
                })))
  get_object-found s ids id inv live nonzero = elim (Option-cases (find id s.objects)) [
    | inl missing ↦ inl (missing, get_object_missing s ids id live nonzero missing)
    | inr (entry, held) ↦ inr (
      entry,
      held,
      get_object_stored s ids id entry live nonzero held
          (object-IsWhole s ids id entry inv held).matches,
    )
  ]

  -- After a release the id is unknown, and every other id finds what it found before.
  pub release-get :
      (s : SessionStore Obj) (ids : IdentifierSource) (id : ℕ)
      → Inv s ids
      → s.closed ≡ false
      → (execute s ids (release_object (record { id = id }))).2 ≡ released
      → let after = execute s ids (release_object (record { id = id })) in
        ((execute after.0 after.1 (get_object (record { id = id }))).2
          ≡ refusal ErrorCode.not_found)
        × ((j : ℕ) → j ≢ id → find j after.0.objects ≡ find j s.objects)
  unfolding apply
  release-get s ids id inv live =
      rw (execute_open s ids (release_object (record { id = id })) live)
        (elim (apply_release_object-Released s (record { id = id })) [
          | inl (_, failed) ↦ rw failed (λ h. absurd (cc))
          | inr (entry, held, stored) ↦ rw stored (λ h. (
            get_object_missing _ _ id live
                (λ z. absurd (ground (arith, find_below id 0 s.objects inv.objects_ascending)))
                (ground (arith, find-erase id id 0 s.objects inv.objects_ascending)),
            λ j other. ground (arith, find-erase id j 0 s.objects inv.objects_ascending),
          ))
        ])
