-- ===== src/Store/Sharing.antt =====
-- src/domain/domain.cpp, `session_store`: what an operation does to the ids that the sessions share.
use stream_labs_test_assingm.Base.{
  ℕ, ◌≤◌, ◌<◌, ◌≡◌, inl, inr, refl, none, [], ◌∷◌, arith, Bool-cases,
}
use stream_labs_test_assingm.Contracts.{
  Operation, list_classes, describe_class, put_value, get_value, list_values, create_object,
  get_object, release_object, get_attribute, invoke_method,
}
use stream_labs_test_assingm.Validation.{Utf8}
use stream_labs_test_assingm.SortedMap.{SortedMap, find, emplace, erase, assign}
use stream_labs_test_assingm.SortedMap.Laws.{KeysBelow-mono}
use stream_labs_test_assingm.Objects.{ObjectClass}
use stream_labs_test_assingm.Identifiers.{IdentifierSource, IsWord, horizon}
use stream_labs_test_assingm.Store.State.{SessionStore}
use stream_labs_test_assingm.Store.Execute.{apply, execute}
use stream_labs_test_assingm.Store.Outcomes.{
  apply_put_value-Outcome, apply_create_object-Created, apply_release_object-Released,
}
use stream_labs_test_assingm.Store.Invocations.{apply_invoke_method-Invoked}
use stream_labs_test_assingm.Store.Atomicity.{execute_open, execute_closed}
use stream_labs_test_assingm.Store.Invariant.{Inv}

module _ {ℓ} {V : Type ℓ} where
  emplace_lacks :
      (k j : ℕ) (v : V) (m : SortedMap V) → k < j → find k m ≡ none → find k (emplace j v m) ≡ none
  unfolding find emplace
  emplace_lacks k j v [] h e = ground arith
  emplace_lacks k j v ((i, w) ∷ m) h e = ground (arith, emplace_lacks k j v m h)

  erase_lacks : (k j : ℕ) (m : SortedMap V) → find k m ≡ none → find k (erase j m) ≡ none
  unfolding find erase
  erase_lacks k j [] e = refl
  erase_lacks k j ((i, w) ∷ m) e = ground (arith, erase_lacks k j m)

  assign_lacks :
      (k j : ℕ) (v : V) (m : SortedMap V) → find k m ≡ none → find k (assign j v m) ≡ none
  unfolding find assign
  assign_lacks k j v [] e = refl
  assign_lacks k j v ((i, w) ∷ m) e = ground (arith, assign_lacks k j v m)

module _ {Obj : Type 0} ⦃o : ObjectClass Obj⦄ ⦃u : Utf8⦄ where
  -- Nothing of the store has the id.
  abbrev pub Lacks : ℕ → SessionStore Obj → Type 0
  Lacks id s = (find id s.values ≡ none) × (find id s.objects ≡ none)

  -- The invariant holds on when other sessions have issued ids.
  pub Inv-later :
      (s : SessionStore Obj) (ids later : IdentifierSource)
      → Inv s ids
      → IsWord later
      → horizon ids ≤ horizon later
      → Inv s later
  Inv-later s ids later inv w h = record {
    word = w;
    accounted = inv.accounted;
    within = inv.within;
    ceiling = inv.ceiling;
    values_room = inv.values_room;
    objects_room = inv.objects_room;
    values_ascending = inv.values_ascending;
    objects_ascending = inv.objects_ascending;
    values_valid = inv.values_valid;
    objects_whole = inv.objects_whole;
    values_issued = KeysBelow-mono (horizon ids) (horizon later) s.values h inv.values_issued;
    objects_issued = KeysBelow-mono (horizon ids) (horizon later) s.objects h inv.objects_issued;
  }

  abbrev pub Onward :
      ℕ → SessionStore Obj → IdentifierSource → SessionStore Obj × IdentifierSource → Type 0
  Onward id s ids (s', ids') =
      (horizon ids ≤ horizon ids') × (Lacks id s → id < horizon ids → Lacks id s')

  apply-Onward :
      (s : SessionStore Obj) (ids : IdentifierSource) (operation : Operation) (id : ℕ)
      → Inv s ids
      → Onward id s ids ((apply s ids operation).0, (apply s ids operation).1)
  unfolding apply
  apply-Onward s ids (put_value query) id inv =
      elim (apply_put_value-Outcome s ids query inv.word) [
        | inl (_, failed) ↦ rw failed (omega arith, λ l b. l)
        | inr (fits, issued, stored) ↦ rw stored (
          omega (arith, issued.moved),
          λ l b. (emplace_lacks id (horizon ids) query.datum s.values b l.0, l.1),
        )
      ]
  apply-Onward s ids (create_object query) id inv =
      elim (apply_create_object-Created s ids query inv.word) [
        | inl (_, failed) ↦ rw failed (omega arith, λ l b. l)
        | inr (d, made, fits, issued, stored) ↦ rw stored (
          omega (arith, issued.moved),
          λ l b. (l.0, emplace_lacks id (horizon ids) _ s.objects b l.1),
        )
      ]
  apply-Onward s ids (release_object query) id inv = elim (apply_release_object-Released s query) [
    | inl (_, failed) ↦ rw failed (omega arith, λ l b. l)
    | inr (entry, held, stored) ↦
        rw stored (omega arith, λ l b. (l.0, erase_lacks id query.id s.objects l.1))
  ]
  apply-Onward s ids (invoke_method query) id inv = elim (apply_invoke_method-Invoked s query) [
    | inl (_, failed) ↦ rw failed (omega arith, λ l b. l)
    | inr (entry, _, _, candidate, result, fits, stored) ↦
        rw stored (omega arith, λ l b. (l.0, assign_lacks id query.id _ s.objects l.1))
  ]
  apply-Onward s ids (list_classes query) id inv = (omega arith, λ l b. l)
  apply-Onward s ids (describe_class query) id inv = (omega arith, λ l b. l)
  apply-Onward s ids (get_value query) id inv = (omega arith, λ l b. l)
  apply-Onward s ids (list_values query) id inv = (omega arith, λ l b. l)
  apply-Onward s ids (get_object query) id inv = (omega arith, λ l b. l)
  apply-Onward s ids (get_attribute query) id inv = (omega arith, λ l b. l)

  -- An operation issues no id below the horizon, so what has been issued and the session lacks, it
  -- will always lack.
  pub execute-Onward :
      (s : SessionStore Obj) (ids : IdentifierSource) (operation : Operation) (id : ℕ)
      → Inv s ids
      → Onward id s ids ((execute s ids operation).0, (execute s ids operation).1)
  execute-Onward s ids operation id inv = elim (Bool-cases s.closed) [
    | inl shut ↦ rw (execute_closed s ids operation shut) (omega arith, λ l b. l)
    | inr live ↦ rw (execute_open s ids operation live) (apply-Onward s ids operation id inv)
  ]
