-- ===== src/Dispatcher.antt =====
-- src/server/dispatcher.cpp: one request against one session's store. The log lines and the timing
-- of the diagnostics change no result; they are left out.
pub mod Laws
pub mod Serving
use stream_labs_test_assingm.Base.{
  ℕ, ◌||◌, not, Bool, true, false, Option, none, some, ◌==◌, if◌then◌else◌,
}
use stream_labs_test_assingm.Base.Result.{ok, err}
use stream_labs_test_assingm.Contracts.{
  FailureCode, Failure, Fallible, ErrorCode, Outcome, remote_error, Request, Response, version,
}
use stream_labs_test_assingm.Validation.{Utf8, make_error}
use stream_labs_test_assingm.Objects.{ObjectClass}
use stream_labs_test_assingm.Identifiers.{IdentifierSource}
use stream_labs_test_assingm.Store.State.{SessionStore, Step, refusal}
use stream_labs_test_assingm.Store.Execute.{execute}

-- `p::response{id, outcome}`, with the current version.
abbrev pub reply : ℕ → Outcome → Fallible Response
reply id out = ok (record { id = id; body = out; protocol_version = version })

module _ {Obj : Type 0} ⦃o : ObjectClass Obj⦄ ⦃u : Utf8⦄ where
  -- `process`, which `dispatch` returns with or without diagnostics.
  unfoldable pub process :
      SessionStore Obj
      → IdentifierSource
      → Request
      → SessionStore Obj × IdentifierSource × Fallible Response
  process s ids request =
      if request.id == 0
      then (
        s,
        ids,
        err (record { code = FailureCode.invalid_fields; close_session = true; request_id = none }),
      )
      else let out : Step Obj =
          if request.protocol_version == version
          then execute s ids request.body
          else (s, ids, refusal ErrorCode.unsupported_version) in
        (out.0, out.1, reply request.id out.2)

-- The error code that `reject` sends for a failure.
unfoldable pub rejection_code : FailureCode → ErrorCode
rejection_code FailureCode.unsupported_version = ErrorCode.unsupported_version
rejection_code FailureCode.limit_exceeded = ErrorCode.quota_exceeded
rejection_code _ = ErrorCode.invalid_request

-- `code == malformed || code == truncated`
unfoldable pub breaks_stream : FailureCode → Bool
breaks_stream FailureCode.malformed = true
breaks_stream FailureCode.truncated = true
breaks_stream _ = false

unfoldable pub reject : Failure → Fallible Response
unfolding rejection_code breaks_stream
reject failure =
    let fatal : Fallible Response =
      err (record { code = failure.code; close_session = true; request_id = none }) in
    elim failure.request_id [
      | none ↦ fatal
      | some id ↦
          if failure.close_session || id == 0 || breaks_stream failure.code
          then fatal
          else reply id (remote_error (make_error (rejection_code failure.code)))
    ]
