-- ===== src/Dispatcher/Laws.antt =====
-- src/server/dispatcher.cpp: which requests are answered, and with what.
use stream_labs_test_assingm.Base.{
  ℕ, ◌≡◌, ◌≢◌, refl, true, false, ◌||◌, none, some, ◌==◌, arith, ◌⊎◌, inl, inr, Bool-cases, subst,
  sym, ap, ◌∙◌, Option-cases,
}
use stream_labs_test_assingm.Base.Result.{ok, err}
use stream_labs_test_assingm.Contracts.{
  FailureCode, Failure, Fallible, ErrorCode, Response, remote_error, Request, version,
}
use stream_labs_test_assingm.Validation.{Utf8, make_error}
use stream_labs_test_assingm.Objects.{ObjectClass}
use stream_labs_test_assingm.Identifiers.{IdentifierSource}
use stream_labs_test_assingm.Store.State.{SessionStore, refusal}
use stream_labs_test_assingm.Store.Execute.{execute}
use stream_labs_test_assingm.Dispatcher.{process, reject, reply, rejection_code, breaks_stream}

module _ {Obj : Type 0} ⦃o : ObjectClass Obj⦄ ⦃u : Utf8⦄ where
  -- The three ends of a request.
  abbrev pub Answered : SessionStore Obj → IdentifierSource → Request → Type 0
  Answered s ids request =
      ((request.id ≡ 0)
        × (process s ids request ≡ (
          s,
          ids,
          err (record {
            code = FailureCode.invalid_fields;
            close_session = true;
            request_id = none;
          }),
        )))
      ⊎ ((request.id ≢ 0)
          × (request.protocol_version ≡ version)
          × (process s ids request ≡ (
            (execute s ids request.body).0,
            (execute s ids request.body).1,
            reply request.id (execute s ids request.body).2,
          )))
      ⊎ ((request.id ≢ 0)
          × (request.protocol_version ≢ version)
          × (process s ids request
              ≡ (s, ids, reply request.id (refusal ErrorCode.unsupported_version))))

  -- Every request with an id is answered under that id and in the current version: by the outcome
  -- of its operation if it speaks that version, and otherwise by a refusal that leaves the store
  -- and the ids alone. A request without an id is a fatal failure that leaves them alone too.
  pub process-answers :
      (s : SessionStore Obj) (ids : IdentifierSource) (request : Request) → Answered s ids request
  unfolding process
  process-answers s ids request = elim (Bool-cases (request.id == 0)) [
    | inl zero_id ↦ inl (ground arith, rw (zero_id, process))
    | inr id ↦ elim (Bool-cases (request.protocol_version == version)) [
      | inl current ↦ inr (inl (ground arith, ground arith, rw (id, current, process)))
      | inr other ↦ inr (inr (ground arith, ground arith, rw (id, other, process)))
    ]
  ]

-- A failure that ends the session: it says so, or it has no id to answer under, or the stream is
-- malformed or cut short.
abbrev pub EndsSession : Failure → Type 0
EndsSession failure =
    (failure.close_session ≡ true)
    ⊎ (failure.request_id ≡ none)
    ⊎ (failure.request_id ≡ some 0)
    ⊎ (failure.code ≡ FailureCode.malformed)
    ⊎ (failure.code ≡ FailureCode.truncated)

-- What a client is told of a failure that does not.
abbrev pub Tells : FailureCode → ErrorCode → Type 0
Tells FailureCode.unsupported_version told = told ≡ ErrorCode.unsupported_version
Tells FailureCode.limit_exceeded told = told ≡ ErrorCode.quota_exceeded
Tells FailureCode.invalid_fields told = told ≡ ErrorCode.invalid_request
Tells FailureCode.malformed told = ⊥
Tells FailureCode.truncated told = ⊥

-- The two ends of a failure.
abbrev pub Rejected : Failure → Fallible Response → Type 0
Rejected failure (err e) =
    EndsSession failure × (e.code ≡ failure.code) × (e.close_session ≡ true) × (e.request_id ≡ none)
Rejected failure (ok response) =
    (failure.close_session ≡ false)
    × (failure.request_id ≡ some response.id)
    × (response.id ≢ 0)
    × (response.protocol_version ≡ version)
    × (told : ErrorCode) × (response.body ≡ remote_error (make_error told))
    × Tells failure.code told

abbrev closed_by : Failure → Failure
closed_by failure = record { code = failure.code; close_session = true; request_id = none }

kept_code-Tells :
    (code : FailureCode) → breaks_stream code ≡ false → Tells code (rejection_code code)
unfolding breaks_stream rejection_code
kept_code-Tells FailureCode.malformed h = absurd (cc h)
kept_code-Tells FailureCode.invalid_fields h = refl
kept_code-Tells FailureCode.unsupported_version h = refl
kept_code-Tells FailureCode.limit_exceeded h = refl
kept_code-Tells FailureCode.truncated h = absurd (cc h)

broken_code :
    (code : FailureCode)
    → breaks_stream code ≡ true
    → (code ≡ FailureCode.malformed) ⊎ (code ≡ FailureCode.truncated)
unfolding breaks_stream
broken_code FailureCode.malformed h = inl refl
broken_code FailureCode.invalid_fields h = absurd (cc h)
broken_code FailureCode.unsupported_version h = absurd (cc h)
broken_code FailureCode.limit_exceeded h = absurd (cc h)
broken_code FailureCode.truncated h = inr refl

fatal-EndsSession :
    (failure : Failure) (id : ℕ)
    → failure.request_id ≡ some id
    → (failure.close_session || id == 0 || breaks_stream failure.code) ≡ true
    → EndsSession failure
fatal-EndsSession failure id e h = elim (Bool-cases failure.close_session) [
  | inl closes ↦ inl closes
  | inr stays ↦ elim (Bool-cases (id == 0)) [
    | inl zero_id ↦
        let none_there : id ≡ 0 = ground arith in inr (inr (inl (e ∙ ap some none_there)))
    | inr named ↦ elim (broken_code failure.code (ground arith)) [
      | inl malformed ↦ inr (inr (inr (inl malformed)))
      | inr truncated ↦ inr (inr (inr (inr truncated)))
    ]
  ]
]

-- A failure is fatal, and keeps its code, only if it asks to close the session, has no id to answer
-- under (none, or zero), or tells of a stream that is malformed or cut short. A response is sent
-- only for a failure that is none of these, under its id and in the current version, and its error
-- is the standard one: an unsupported version as such, an exceeded limit as an exceeded quota, and
-- invalid fields as an invalid request.
pub reject-answers : (failure : Failure) → Rejected failure (reject failure)
unfolding reject
reject-answers failure = elim (Option-cases failure.request_id) [
  | inl unnamed ↦
      let closes : reject failure ≡ err (closed_by failure) = rw (unnamed, reject) in
      subst (Rejected failure) (sym closes) (inr (inl unnamed), refl, refl, refl)
  | inr (id, e) ↦
      elim (Bool-cases (failure.close_session || id == 0 || breaks_stream failure.code)) [
        | inl fatal ↦
            let closes : reject failure ≡ err (closed_by failure) = rw (e, fatal, reject) in
            subst (Rejected failure) (sym closes)
              (fatal-EndsSession failure id e fatal, refl, refl, refl)
        | inr kept ↦
            let told = rejection_code failure.code in
            let sends : reject failure ≡ reply id (remote_error (make_error told)) =
              rw (e, kept, reject) in
            subst (Rejected failure) (sym sends) (
              ground arith,
              e,
              ground arith,
              refl,
              told,
              refl,
              kept_code-Tells failure.code (ground arith),
            )
      ]
]
