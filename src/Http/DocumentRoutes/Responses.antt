-- ===== src/Http/DocumentRoutes/Responses.antt =====
-- What POST /indexes/{uid}/documents answers, and what it leaves in the repository.
use leta.Prelude.{
  ℕ, ◌+◌, ◌≡◌, inl, inr, refl, ap, sym, ◌∙◌, some, List, ◌++◌, [], ◌∷◌, if◌then◌else◌, Bytes,
  length, equal, arith, All, not, true, false, take,
}
use leta.Prelude.Text.{is_in, find_last-append_end, take-length-cons}
use leta.Core.Error.{Error, malformed_request, Result-cases, err-ne-ok}
use leta.Core.IndexUid.{IsUid, parse_decides}
use leta.Core.ExactMatchIndex.{Document}
use leta.Core.IndexMetadata.{Timestamp}
use leta.Application.HttpServer.{HttpResponse}
use leta.Application.IndexRepository.{IndexRepository, StoredIndex, existing_or, with_batch}
use leta.Application.IngestService.{AddDocumentsCommand, index_if_missing, ingest_lem}
use leta.Http.DocumentRoutes.Validate.{json_whitespace, without_trailing_whitespace}
use leta.Http.DocumentRoutes.Batch.{
  parse_document_batch, ingest_result_json, ingested_or_error, add_documents_response,
}
use leta.Http.DocumentRoutes.Elements.{Batch}
use leta.Http.DocumentRoutes.Accepts.{parse_document_batch_iff}
use leta.Http.DocumentRoutes.Malformed.{parse-IsMalformed}
use leta.Http.ErrorResponse.{error_response}
use leta.Http.Simdjson.{Simdjson}

malformed_status : (e : Error) → e.code ≡ malformed_request → (error_response e).status ≡ 400
unfolding error_response
malformed_status e h = rw h refl

module _ (json : Simdjson) (repository : IndexRepository) where
  open repository use {State, contents}

  -- The index that a batch for `uid` goes to.
  abbrev pub target : Bytes → Timestamp → State → StoredIndex
  target uid now s = existing_or (contents s uid) (index_if_missing (record { value = uid }) now)

  -- The answer to a request, by what its uid and its body are.
  pub data Answered (uid body : Bytes) (now : Timestamp) (elapsed : ℕ) (s : State)
      (answer : HttpResponse × State) : Type 0 where
    -- no uid: 400, and the repository is as it was, whatever the body
    bad_uid :
        ¬ IsUid uid → answer.0.status ≡ 400 → answer.1 ≡ s → Answered uid body now elapsed s answer
    -- no batch: 400, and the repository is as it was, with none of the documents stored
    bad_batch :
        ((documents : List Document) → ¬ Batch json body documents)
        → answer.0.status ≡ 400
        → answer.1 ≡ s
        → Answered uid body now elapsed s answer
    -- a batch: 200 with the counts and the index's primary key, and the batch stored whole
    ingested :
        (documents : List Document)
        → IsUid uid
        → Batch json body documents
        → answer.0 ≡ record {
          status = 200;
          body =
              ingest_result_json
                (length documents)
                (record {
                  indexed = length documents;
                  primary_key = (target uid now s).metadata.primary_key;
                })
                elapsed;
        }
        → ((u : Bytes)
            → contents answer.1 u ≡ (
                if equal uid u
                then some (with_batch documents (target uid now s))
                else contents s u))
        → Answered uid body now elapsed s answer

  -- Every POST /indexes/{uid}/documents, in every state of the repository, is answered in one of
  -- three ways: 400 and nothing changed if the uid is none; 400 and nothing changed if the body is no
  -- batch; otherwise 200, with every document of the batch appended to the index under the uid, which
  -- is created if it is missing, and no other uid touched.
  pub add_documents_response_lem :
      (uid body : Bytes) (now : Timestamp) (elapsed : ℕ) (s : State)
      → Answered uid body now elapsed s
          (add_documents_response json repository uid body now elapsed s)
  unfolding add_documents_response
  add_documents_response_lem uid body now elapsed s = elim (parse_decides uid) [
    | inr (invalid, refused) ↦
        bad_uid invalid (rw (refused, add_documents_response) (unfold error_response in refl))
          (rw (refused, add_documents_response))
    | inl (valid, accepted) ↦ elim (Result-cases (parse_document_batch json body)) [
      | inr (e, failed) ↦
          bad_batch
            (λ documents q.
              err-ne-ok (sym failed ∙ (parse_document_batch_iff json body documents).1 q))
            (rw (accepted, add_documents_response)
              (rw failed (malformed_status e (rw failed at (parse-IsMalformed json body)))))
            (rw (accepted, add_documents_response) (rw failed))
      | inl (documents, parsed) ↦
          let command : AddDocumentsCommand = record {
            uid = record { value = uid };
            documents = documents;
          } in
          let (answer, kept) = ingest_lem repository command now s in
          ingested documents valid ((parse_document_batch_iff json body documents).0 parsed)
            (rw (accepted, add_documents_response)
              (rw parsed (ap (ingested_or_error (length documents) elapsed) answer)))
            (rw (accepted, add_documents_response) (rw parsed kept))
    ]
  ]

-- A slice that ends in a character that is no JSON whitespace, and then whitespace, loses just the
-- whitespace; so a raw slice that runs on to the next token is cut back to the object's own text.
pub without_trailing_whitespace_lem :
    (text : Bytes) (last : ℕ) (blanks : Bytes)
    → is_in json_whitespace last ≡ false
    → All (λ c. is_in json_whitespace c ≡ true) blanks
    → without_trailing_whitespace (text ++ (last ∷ blanks)) ≡ text ++ last ∷ []
unfolding without_trailing_whitespace
without_trailing_whitespace_lem text last blanks ends blank =
    rw
      (
        find_last-append_end (λ c. not (is_in json_whitespace c)) 0 text last blanks (ap not ends)
            (not_blank blanks blank),
        without_trailing_whitespace,
      )
      (ap (λ (n : ℕ). take n (text ++ (last ∷ blanks))) {y = length text + 1} (omega arith)
        ∙ take-length-cons text last blanks)
  where
    not_blank :
        (xs : Bytes)
        → All (λ c. is_in json_whitespace c ≡ true) xs
        → All (λ c. not (is_in json_whitespace c) ≡ false) xs
    not_blank [] h = tt
    not_blank (c ∷ cs) h = (ap not h.0, not_blank cs h.1)
