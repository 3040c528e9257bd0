-- ===== src/Store/Accounting.antt =====
-- src/domain/domain.cpp, `session_store`: the accounting of the bytes in use by the operations that
-- change it.
use stream_labs_test_assingm.Base.{ℕ, ◌-◌, ◌≤◌, ◌≡◌, refl, true, none, some, arith}
use stream_labs_test_assingm.Base.Word.{sub64, sub64_exact}
use stream_labs_test_assingm.Contracts.{Value, CreateObject}
use stream_labs_test_assingm.Validation.{Utf8}
use stream_labs_test_assingm.SortedMap.{find, erase}
use stream_labs_test_assingm.SortedMap.Laws.{
  find_fresh, total-emplace, total-erase, total-assign, length-emplace, length-erase, length-assign,
  emplace-Ascending, erase-Ascending, assign-Ascending, KeysBelow-mono, emplace-KeysBelow,
  erase-KeysBelow, assign-KeysBelow, emplace-AllValues, erase-AllValues, assign-AllValues,
}
use stream_labs_test_assingm.Objects.{ObjectClass, ClassDefinition}
use stream_labs_test_assingm.Identifiers.{IdentifierSource, next, horizon}
use stream_labs_test_assingm.Store.State.{SessionStore, StoredObject, state_matches, object_charge}
use stream_labs_test_assingm.Store.Outcomes.{Issued, PutFits, CreateFits, after_put, after_create}
use stream_labs_test_assingm.Store.Invocations.{after_invoke}
use stream_labs_test_assingm.Store.Invariant.{
  Inv, value_charge, charge_of, charge_exact, value_charge_exact, registered_name,
}

module _ {Obj : Type 0} ⦃o : ObjectClass Obj⦄ ⦃u : Utf8⦄ where
  pub put-Inv :
      (s : SessionStore Obj) (ids : IdentifierSource) (v : Value)
      → Inv s ids
      → PutFits s v
      → Issued ids (next ids).0
      → Inv (after_put s ids v).0 (next ids).0
  put-Inv s ids v inv fits issued =
      let fresh : find (horizon ids) s.values ≡ none = find_fresh _ s.values inv.values_issued in
      let exact = charge_exact _ _ _ inv.within inv.ceiling fits.fits in
      let charge = value_charge_exact v fits.valid in
      let onward : horizon ids ≤ horizon (next ids).0 = omega (arith, issued.moved) in
      record {
        word = issued.word;
        accounted = omega (
          arith,
          exact.0,
          charge,
          inv.accounted,
          total-emplace value_charge (horizon ids) v s.values fresh,
        );
        within = omega (arith, exact);
        ceiling = inv.ceiling;
        values_room = omega (arith, length-emplace (horizon ids) v s.values fresh, fits.room);
        objects_room = inv.objects_room;
        values_ascending =
            emplace-Ascending 0 (horizon ids) v s.values issued.nonzero inv.values_ascending;
        objects_ascending = inv.objects_ascending;
        values_issued =
            emplace-KeysBelow _ (horizon ids) v s.values (omega (arith, issued.moved))
              (KeysBelow-mono _ _ s.values onward inv.values_issued);
        objects_issued = KeysBelow-mono _ _ s.objects onward inv.objects_issued;
        values_valid = emplace-AllValues _ (horizon ids) v s.values fits.valid inv.values_valid;
        objects_whole = inv.objects_whole;
      }

  pub create-Inv :
      (s : SessionStore Obj) (ids : IdentifierSource) (query : CreateObject)
      (d : ClassDefinition Obj) (made : Obj)
      → Inv s ids
      → CreateFits s query d made
      → Issued ids (next ids).0
      → Inv (after_create s ids query d made).0 (next ids).0
  create-Inv s ids query d made inv fits issued =
      let fresh : find (horizon ids) s.objects ≡ none = find_fresh _ s.objects inv.objects_issued in
      let exact = charge_exact _ _ _ inv.within inv.ceiling fits.fits in
      let onward : horizon ids ≤ horizon (next ids).0 = omega (arith, issued.moved) in
      let name = registered_name s.registry query.class_name d fits.known in
      record {
        word = issued.word;
        accounted = omega (
          arith,
          exact.0,
          inv.accounted,
          total-emplace charge_of (horizon ids) _ s.objects fresh,
        );
        within = omega (arith, exact);
        ceiling = inv.ceiling;
        values_room = inv.values_room;
        objects_room = omega (arith, length-emplace (horizon ids) _ s.objects fresh, fits.room);
        values_ascending = inv.values_ascending;
        objects_ascending =
            emplace-Ascending 0 (horizon ids) _ s.objects issued.nonzero inv.objects_ascending;
        values_issued = KeysBelow-mono _ _ s.values onward inv.values_issued;
        objects_issued =
            emplace-KeysBelow _ (horizon ids) _ s.objects (omega (arith, issued.moved))
              (KeysBelow-mono _ _ s.objects onward inv.objects_issued);
        values_valid = inv.values_valid;
        objects_whole =
            emplace-AllValues _ (horizon ids) _ s.objects
              (record { matches = fits.matches; charged = rw name }) inv.objects_whole;
      }

  pub release-Inv :
      (s : SessionStore Obj) (ids : IdentifierSource) (id : ℕ) (entry : StoredObject Obj)
      → Inv s ids
      → find id s.objects ≡ some entry
      → Inv (record s { used = sub64 s.used entry.charge; objects = erase id s.objects }) ids
  release-Inv s ids id entry inv held =
      let freed = total-erase charge_of id entry s.objects held in
      let back : sub64 s.used entry.charge ≡ s.used - entry.charge =
        sub64_exact s.used entry.charge (omega (arith, inv.within, inv.ceiling))
          (omega (arith, inv.accounted)) in
      record {
        word = inv.word;
        accounted = omega (arith, back, inv.accounted, freed);
        within = omega (arith, back, inv.within);
        ceiling = inv.ceiling;
        values_room = inv.values_room;
        objects_room = omega (arith, length-erase id s.objects, inv.objects_room);
        values_ascending = inv.values_ascending;
        objects_ascending = erase-Ascending 0 id s.objects inv.objects_ascending;
        values_issued = inv.values_issued;
        objects_issued = erase-KeysBelow _ id s.objects inv.objects_issued;
        values_valid = inv.values_valid;
        objects_whole = erase-AllValues _ id s.objects inv.objects_whole;
      }

  pub invoke-Inv :
      (s : SessionStore Obj) (ids : IdentifierSource) (id : ℕ) (entry : StoredObject Obj)
      (candidate : Obj) (result : Value)
      → Inv s ids
      → find id s.objects ≡ some entry
      → state_matches entry.definition (o.state candidate) ≡ true
      → object_charge entry.definition.description (o.state candidate)
        ≤ sub64 s.limits.bytes (sub64 s.used entry.charge)
      → Inv (after_invoke s id entry candidate result).0 ids
  invoke-Inv s ids id entry candidate result inv held matches fits =
      let charge = object_charge entry.definition.description (o.state candidate) in
      let moved =
        total-assign charge_of id (record entry { held = candidate; charge = charge }) entry
          s.objects held in
      let freed = total-erase charge_of id entry s.objects held in
      let retained : sub64 s.used entry.charge ≡ s.used - entry.charge =
        sub64_exact s.used entry.charge (omega (arith, inv.within, inv.ceiling))
          (omega (arith, inv.accounted)) in
      let exact =
        charge_exact s.limits.bytes (sub64 s.used entry.charge) charge
          (omega (arith, retained, inv.within)) inv.ceiling fits in
      record {
        word = inv.word;
        accounted = omega (arith, exact.0, retained, inv.accounted, freed, moved);
        within = omega (arith, exact);
        ceiling = inv.ceiling;
        values_room = inv.values_room;
        objects_room = omega (arith, length-assign id _ s.objects, inv.objects_room);
        values_ascending = inv.values_ascending;
        objects_ascending = assign-Ascending 0 id _ s.objects inv.objects_ascending;
        values_issued = inv.values_issued;
        objects_issued = assign-KeysBelow _ id _ s.objects inv.objects_issued;
        values_valid = inv.values_valid;
        objects_whole =
            assign-AllValues _ id _ s.objects (record { matches = matches; charged = refl })
              inv.objects_whole;
      }
