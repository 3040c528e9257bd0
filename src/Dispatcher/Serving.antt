-- ===== src/Dispatcher/Serving.antt =====
-- src/server/dispatcher.cpp, `process`: what a request leaves of the session, with its answer.
use stream_labs_test_assingm.Base.{◌≡◌, ◌≢◌, refl, true, inl, inr}
use stream_labs_test_assingm.Base.Result.{ok, err}
use stream_labs_test_assingm.Contracts.{
  ErrorCode, Fallible, RemoteError, remote_error, Request, Response, version,
}
use stream_labs_test_assingm.Validation.{Utf8, make_error}
use stream_labs_test_assingm.Objects.{ObjectClass}
use stream_labs_test_assingm.Identifiers.{IdentifierSource}
use stream_labs_test_assingm.Store.State.{SessionStore}
use stream_labs_test_assingm.Store.Execute.{execute}
use stream_labs_test_assingm.Store.Invariant.{Inv}
use stream_labs_test_assingm.Store.Preservation.{execute-Inv}
use stream_labs_test_assingm.Store.Atomicity.{execute-Atomic}
use stream_labs_test_assingm.Dispatcher.{process}
use stream_labs_test_assingm.Dispatcher.Laws.{process-answers}

module _ {Obj : Type 0} ⦃o : ObjectClass Obj⦄ ⦃u : Utf8⦄ where
  -- The session after a request, and the answer.
  abbrev pub Serves :
      SessionStore Obj
      → IdentifierSource
      → Request
      → SessionStore Obj × IdentifierSource × Fallible Response
      → Type 0
  Serves s ids request (s', ids', err e) =
      Inv s' ids' × (request.id ≡ 0) × (e.close_session ≡ true) × (s' ≡ s) × (ids' ≡ ids)
  Serves s ids request (s', ids', ok response) =
      Inv s' ids'
      × (request.id ≢ 0)
      × (response.id ≡ request.id)
      × (response.protocol_version ≡ version)
      × (request.protocol_version ≢ version
          → response.body ≡ remote_error (make_error ErrorCode.unsupported_version))
      × (request.protocol_version ≡ version
          → (s', ids', response.body) ≡ execute s ids request.body)
      × ((e : RemoteError)
          → response.body ≡ remote_error e
          → (s' ≡ s) × (ids' ≡ ids) × (code : ErrorCode) × (e ≡ make_error code))

  -- A request without an id is a fatal failure, and any other is answered, under its id and in the
  -- current version: by its operation's outcome if it speaks that version, and as of an unsupported
  -- version if not. In every case the store keeps its invariant, and a request that gets no answer,
  -- or an error, has left the store and the ids as they were; the error is a standard one, with the
  -- standard message of its code.
  pub process-Serves :
      (s : SessionStore Obj) (ids : IdentifierSource) (request : Request)
      → Inv s ids
      → Serves s ids request (process s ids request)
  process-Serves s ids request inv = elim (process-answers s ids request) [
    | inl (unnamed, p) ↦ rw p (inv, unnamed, refl, refl, refl)
    | inr (inl (named, current, p)) ↦ rw p (
      execute-Inv s ids request.body inv,
      named,
      refl,
      refl,
      λ other. absurd (other current),
      λ same. refl,
      λ e h. execute-Atomic s ids request.body e inv.word h,
    )
    | inr (inr (named, other, p)) ↦ rw p (
      inv,
      named,
      refl,
      refl,
      λ differs. refl,
      λ current. absurd (other current),
      λ e h. (refl, refl, ErrorCode.unsupported_version, cc h),
    )
  ]
