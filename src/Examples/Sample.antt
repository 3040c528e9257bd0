-- ===== src/Examples/Sample.antt =====
-- A session of src/domain/domain.cpp with the two classes of src/domain/builtins.cpp.
use stream_labs_test_assingm.Base.{◌≡◌, true, [], ◌∷◌, ◌++◌, ltb, arith}
use stream_labs_test_assingm.Base.Int.{pos}
use stream_labs_test_assingm.Base.Text.{Text, codes}
use stream_labs_test_assingm.Base.Result.{all_of}
use stream_labs_test_assingm.Contracts.{Operation, put_value, create_object, int64}
use stream_labs_test_assingm.Validation.{Utf8}
use stream_labs_test_assingm.Registry.{ClassRegistry, add}
use stream_labs_test_assingm.Identifiers.{IdentifierSource}
use stream_labs_test_assingm.Store.State.{SessionLimits, SessionStore, new_store}
use stream_labs_test_assingm.Store.Execute.{execute}
use stream_labs_test_assingm.Store.Invariant.{Inv}
use stream_labs_test_assingm.Store.Preservation.{new_store-Inv, execute-Inv}
use stream_labs_test_assingm.Builtins.{
  Builtin, builtin_class, counter_definition, text_buffer_definition,
}
use stream_labs_test_assingm.Builtins.Registered.{Utf8Joins}

-- The texts of ASCII only.
instance abbrev pub ascii : Utf8
ascii = record { is_structurally_valid = λ t. all_of (λ b. ltb b 128) t }

ascii_join :
    (s t : Text)
    → all_of (λ b. ltb b 128) s ≡ true
    → all_of (λ b. ltb b 128) t ≡ true
    → all_of (λ b. ltb b 128) (s ++ t) ≡ true
ascii_join [] t h k = k
ascii_join (a ∷ s) t h k = ground (arith, ascii_join s t)

pub ascii-Joins : Utf8Joins ascii
ascii-Joins = record { join = ascii_join }

abbrev pub no_classes : ClassRegistry Builtin
no_classes = record { definitions = [] }

abbrev pub two_classes : ClassRegistry Builtin
two_classes = (add (add no_classes text_buffer_definition).0 counter_definition).0

abbrev pub limits : SessionLimits
limits = record { values = 100; objects = 2; bytes = 1000 }

abbrev pub fresh_ids : IdentifierSource
fresh_ids = record { upcoming = 1 }

abbrev pub fresh : SessionStore Builtin
fresh = new_store two_classes limits

pub fresh-Inv : Inv fresh fresh_ids
fresh-Inv = new_store-Inv two_classes limits fresh_ids (omega arith)

abbrev pub put_five : Operation
put_five = put_value (record { datum = int64 (pos 5) })

abbrev pub create_seven : Operation
create_seven = create_object (record {
  class_name = codes "Counter";
  arguments = record { name = codes "initial"; datum = int64 (pos 7) } ∷ [];
})

-- The session once a value is stored under id 1.
abbrev pub stored : SessionStore Builtin
stored = (execute fresh fresh_ids put_five).0

abbrev pub stored_ids : IdentifierSource
stored_ids = (execute fresh fresh_ids put_five).1

pub stored-Inv : Inv stored stored_ids
stored-Inv = execute-Inv fresh fresh_ids put_five fresh-Inv

-- The session once a counter is made under id 2, too.
abbrev pub made : SessionStore Builtin
made = (execute stored stored_ids create_seven).0

abbrev pub made_ids : IdentifierSource
made_ids = (execute stored stored_ids create_seven).1

pub made-Inv : Inv made made_ids
made-Inv = execute-Inv stored stored_ids create_seven stored-Inv
