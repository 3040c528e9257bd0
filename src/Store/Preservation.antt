-- ===== src/Store/Preservation.antt =====
-- src/domain/domain.cpp, `session_store`: the accounting of the bytes in use, the limits, and the
-- ids of what is stored, under every operation.
use stream_labs_test_assingm.Base.{refl, arith, inl, inr, Bool-cases}
use stream_labs_test_assingm.Contracts.{
  Operation, list_classes, describe_class, put_value, get_value, list_values, create_object,
  get_object, release_object, get_attribute, invoke_method,
}
use stream_labs_test_assingm.Validation.{Utf8}
use stream_labs_test_assingm.SortedMap.{total}
use stream_labs_test_assingm.Objects.{ObjectClass}
use stream_labs_test_assingm.Registry.{ClassRegistry}
use stream_labs_test_assingm.Identifiers.{IdentifierSource, IsWord}
use stream_labs_test_assingm.Store.State.{SessionStore, SessionLimits, new_store, close}
use stream_labs_test_assingm.Store.Execute.{apply, execute}
use stream_labs_test_assingm.Store.Outcomes.{
  apply_put_value-Outcome, apply_create_object-Created, apply_release_object-Released,
}
use stream_labs_test_assingm.Store.Invocations.{apply_invoke_method-Invoked}
use stream_labs_test_assingm.Store.Atomicity.{execute_open, execute_closed}
use stream_labs_test_assingm.Store.Invariant.{Inv}
use stream_labs_test_assingm.Store.Accounting.{put-Inv, create-Inv, release-Inv, invoke-Inv}

module _ {Obj : Type 0} ⦃o : ObjectClass Obj⦄ ⦃u : Utf8⦄ where
  apply-Inv :
      (s : SessionStore Obj) (ids : IdentifierSource) (operation : Operation)
      → Inv s ids
      → Inv (apply s ids operation).0 (apply s ids operation).1
  unfolding apply
  apply-Inv s ids (put_value query) inv = elim (apply_put_value-Outcome s ids query inv.word) [
    | inl (_, failed) ↦ rw failed inv
    | inr (fits, issued, stored) ↦ rw stored (put-Inv s ids query.datum inv fits issued)
  ]
  apply-Inv s ids (create_object query) inv =
      elim (apply_create_object-Created s ids query inv.word) [
        | inl (_, failed) ↦ rw failed inv
        | inr (d, made, fits, issued, stored) ↦
            rw stored (create-Inv s ids query d made inv fits issued)
      ]
  apply-Inv s ids (release_object query) inv = elim (apply_release_object-Released s query) [
    | inl (_, failed) ↦ rw failed inv
    | inr (entry, held, stored) ↦ rw stored (release-Inv s ids query.id entry inv held)
  ]
  apply-Inv s ids (invoke_method query) inv = elim (apply_invoke_method-Invoked s query) [
    | inl (_, failed) ↦ rw failed inv
    | inr (entry, _, _, candidate, result, fits, stored) ↦
        rw stored
          (invoke-Inv s ids query.id entry candidate result inv fits.stored fits.matches fits.fits)
  ]
  apply-Inv s ids (list_classes query) inv = inv
  apply-Inv s ids (describe_class query) inv = inv
  apply-Inv s ids (get_value query) inv = inv
  apply-Inv s ids (list_values query) inv = inv
  apply-Inv s ids (get_object query) inv = inv
  apply-Inv s ids (get_attribute query) inv = inv

  -- Every operation keeps the invariant: the bytes in use are the sum of what is stored, without
  -- wrapping and within the limit, the counts keep to their limits, and each stored id is nonzero
  -- and was issued.
  pub execute-Inv :
      (s : SessionStore Obj) (ids : IdentifierSource) (operation : Operation)
      → Inv s ids
      → Inv (execute s ids operation).0 (execute s ids operation).1
  execute-Inv s ids operation inv = elim (Bool-cases s.closed) [
    | inl shut ↦ rw (execute_closed s ids operation shut) inv
    | inr live ↦ rw (execute_open s ids operation live) (apply-Inv s ids operation inv)
  ]

  pub new_store-Inv :
      (registry : ClassRegistry Obj) (limits : SessionLimits) (ids : IdentifierSource)
      → IsWord ids
      → Inv (new_store registry limits) ids
  unfolding new_store total
  new_store-Inv registry limits ids w = record {
    word = w;
    accounted = refl;
    within = omega arith;
    ceiling = omega arith;
    values_room = omega arith;
    objects_room = omega arith;
    values_ascending = tt;
    objects_ascending = tt;
    values_issued = tt;
    objects_issued = tt;
    values_valid = tt;
    objects_whole = tt;
  }

  pub close-Inv : (s : SessionStore Obj) (ids : IdentifierSource) → Inv s ids → Inv (close s) ids
  unfolding close total
  close-Inv s ids inv = record {
    word = inv.word;
    accounted = refl;
    within = omega arith;
    ceiling = inv.ceiling;
    values_room = omega arith;
    objects_room = omega arith;
    values_ascending = tt;
    objects_ascending = tt;
    values_issued = tt;
    objects_issued = tt;
    values_valid = tt;
    objects_whole = tt;
  }
