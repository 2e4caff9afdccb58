-- ===== src/Http/IndexRoutes/Responses.antt =====
-- What POST /indexes answers, and what it leaves in the repository.
use leta.Prelude.{
  ◌≡◌, inl, inr, refl, ap, sym, ◌∙◌, Bool, true, false, Option, none, some, List, [], ◌∷◌,
  if◌then◌else◌, Bytes, equal, Option-cases, arith,
}
use leta.Core.Error.{Result, ok, err, ◌>>=◌, Result-cases, err-ne-ok}
use leta.Core.IndexUid.{parse_decides}
use leta.Core.IndexMetadata.{Timestamp}
use leta.Application.HttpServer.{HttpResponse}
use leta.Application.IndexRepository.{IndexRepository, StoredIndex, new_index}
use leta.Application.IndexService.{
  CreateIndexCommand, created, create_index_free, create_index_taken,
}
use leta.Http.ErrorResponse.{error_response, wire_error}
use leta.Http.IndexRoutes.{
  CreateIndexFields, no_fields, not_json, to_command, read_field, read_fields_from,
  parse_create_index_request, index_json, created_or_error, create_index_response,
}
use leta.Http.IndexRoutes.Fields.{Request}
use leta.Http.IndexRoutes.Accepts.{parse_create_index_request_iff}
use leta.Http.Simdjson.{Simdjson}

-- A failure, if it is one, that is answered with 400.
abbrev pub IsBadRequest {ℓ} : {A : Type ℓ} → Result A → Type 0
IsBadRequest (ok a) = Unit
IsBadRequest (err e) = (wire_error e.code).status ≡ 400

pub IsBadRequest-bind {ℓ κ} :
    {A : Type ℓ} {B : Type κ} (m : Result A) (f : A → Result B)
    → IsBadRequest m
    → ((a : A) → IsBadRequest (f a))
    → IsBadRequest (m >>= f)
IsBadRequest-bind (ok a) f h k = k a
IsBadRequest-bind (err e) f h k = h

to_command-IsBadRequest : (r : CreateIndexFields) → IsBadRequest (to_command r)
unfolding to_command wire_error
to_command-IsBadRequest r = elim (Option-cases r.uid) [
  | inl missing ↦ rw (missing, to_command) refl
  | inr (given, found) ↦
      rw (found, to_command)
        (elim (parse_decides given) [
          | inl (valid, parsed) ↦ rw parsed tt
          | inr (invalid, refused) ↦ rw refused refl
        ])
]

module _ (json : Simdjson) where
  open json use {Field, Document, iterate, document_object, at_end, fields}

  read_field-IsBadRequest : (f : Field) (r : CreateIndexFields) → IsBadRequest (read_field json f r)
  unfolding read_field wire_error
  read_field-IsBadRequest f r = ground arith

  read_fields_from-IsBadRequest :
      (fs : List (Option Field)) (r : CreateIndexFields) → IsBadRequest (read_fields_from json r fs)
  unfolding read_fields_from wire_error
  read_fields_from-IsBadRequest [] r = tt
  read_fields_from-IsBadRequest (none ∷ fs) r = refl
  read_fields_from-IsBadRequest (some f ∷ fs) r =
      IsBadRequest-bind (read_field json f r) _ (read_field-IsBadRequest f r)
        (read_fields_from-IsBadRequest fs)

  end-IsBadRequest :
      (b : Bool) (r : CreateIndexFields) → IsBadRequest (if b then to_command r else not_json)
  unfolding wire_error
  end-IsBadRequest true r = to_command-IsBadRequest r
  end-IsBadRequest false r = refl

  parse-IsBadRequest : (body : Bytes) → IsBadRequest (parse_create_index_request json body)
  unfolding parse_create_index_request wire_error
  parse-IsBadRequest body = elim (Option-cases (iterate body)) [
    | inl no_json ↦ rw (no_json, parse_create_index_request) refl
    | inr (document, parsed) ↦ elim (Option-cases (document_object document)) [
      | inl no_object ↦ rw (parsed, parse_create_index_request) (rw no_object refl)
      | inr (object, is_object) ↦
          rw (parsed, parse_create_index_request)
            (rw is_object (
              IsBadRequest-bind (read_fields_from json no_fields (fields object)) _
                (read_fields_from-IsBadRequest (fields object) no_fields)
                (end-IsBadRequest (at_end document))))
    ]
  ]

module _ (json : Simdjson) (repository : IndexRepository) where
  open repository use {State, contents}

  -- The answer to a POST /indexes body, by what the body and the repository are.
  pub data Answered (body : Bytes) (now : Timestamp) (s : State) (answer : HttpResponse × State)
      : Type 0 where
    -- no request: 400, and the repository is as it was
    refused :
        ((command : CreateIndexCommand) → ¬ Request json body command)
        → answer.0.status ≡ 400
        → answer.1 ≡ s
        → Answered body now s answer
    -- a request for a free uid: 201 with the index, which is stored with no document
    stored :
        (command : CreateIndexCommand)
        → Request json body command
        → contents s command.uid.value ≡ none
        → answer.0 ≡ record { status = 201; body = index_json (created command now) }
        → ((u : Bytes)
            → contents answer.1 u ≡ (
                if equal command.uid.value u
                then some (new_index (created command now))
                else contents s u))
        → Answered body now s answer
    -- a request for a taken uid: 409, and every uid holds what it held
    conflict :
        (command : CreateIndexCommand) (existing : StoredIndex)
        → Request json body command
        → contents s command.uid.value ≡ some existing
        → answer.0.status ≡ 409
        → ((u : Bytes) → contents answer.1 u ≡ contents s u)
        → Answered body now s answer

  -- Every POST /indexes body, in every state of the repository, is answered in one of three ways: 400
  -- and nothing changed if it is no request; 201 with the index, stored under the uid alone, if the
  -- uid is free; 409 and nothing changed if the uid is taken.
  pub create_index_response_lem :
      (body : Bytes) (now : Timestamp) (s : State)
      → Answered body now s (create_index_response json repository body now s)
  unfolding create_index_response error_response wire_error
  create_index_response_lem body now s =
      elim (Result-cases (parse_create_index_request json body)) [
        | inr (e, failed) ↦
            refused
              (λ command q.
                err-ne-ok (sym failed ∙ (parse_create_index_request_iff json body command).1 q))
              (rw (failed, create_index_response) (rw failed at (parse-IsBadRequest json body)))
              (rw (failed, create_index_response))
        | inl (command, parsed) ↦
            let request = (parse_create_index_request_iff json body command).0 parsed in
            elim (Option-cases (contents s command.uid.value)) [
              | inl free ↦
                  let (answer, kept) = create_index_free repository command now s free in
                  stored command request free
                    (rw (parsed, create_index_response) (ap created_or_error answer))
                    (rw (parsed, create_index_response) kept)
              | inr (existing, taken) ↦
                  let (answer, kept) = create_index_taken repository command now s existing taken in
                  conflict command existing request taken
                    (rw (parsed, create_index_response)
                      (ap (λ r. (created_or_error r).status) answer))
                    (rw (parsed, create_index_response) kept)
            ]
      ]
