-- ===== src/Store/Execute.antt =====
-- src/domain/domain.cpp, `session_store`: the operations by their request. An operation returns the store,
-- the id source that the sessions share, and its outcome.
use stream_labs_test_assingm.Base.{if◌then◌else◌}
use stream_labs_test_assingm.Contracts.{
  ErrorCode, Operation, list_classes, describe_class, put_value, get_value, list_values,
  create_object, get_object, release_object, get_attribute, invoke_method,
}
use stream_labs_test_assingm.Validation.{Utf8}
use stream_labs_test_assingm.Objects.{ObjectClass}
use stream_labs_test_assingm.Identifiers.{IdentifierSource}
use stream_labs_test_assingm.Store.State.{SessionStore, Step, fail}
use stream_labs_test_assingm.Store.Values.{
  apply_list_classes, apply_describe_class, apply_put_value, apply_get_value, apply_list_values,
}
use stream_labs_test_assingm.Store.Objects.{
  apply_create_object, apply_get_object, apply_release_object, apply_get_attribute,
}
use stream_labs_test_assingm.Store.Methods.{apply_invoke_method}

module _ {Obj : Type 0} ⦃o : ObjectClass Obj⦄ ⦃u : Utf8⦄ where
  -- The `std::visit` of `execute`.
  unfoldable pub apply : SessionStore Obj → IdentifierSource → Operation → Step Obj
  apply s ids (list_classes query) = (s, ids, apply_list_classes s query)
  apply s ids (describe_class query) = (s, ids, apply_describe_class s query)
  apply s ids (put_value query) = apply_put_value s ids query
  apply s ids (get_value query) = (s, ids, apply_get_value s query)
  apply s ids (list_values query) = (s, ids, apply_list_values s query)
  apply s ids (create_object query) = apply_create_object s ids query
  apply s ids (get_object query) = (s, ids, apply_get_object s query)
  apply s ids (release_object query) =
      ((apply_release_object s query).0, ids, (apply_release_object s query).1)
  apply s ids (get_attribute query) = (s, ids, apply_get_attribute s query)
  apply s ids (invoke_method query) =
      ((apply_invoke_method s query).0, ids, (apply_invoke_method s query).1)

  unfoldable pub execute : SessionStore Obj → IdentifierSource → Operation → Step Obj
  execute s ids operation =
      if s.closed then fail s ids ErrorCode.access_denied else apply s ids operation
