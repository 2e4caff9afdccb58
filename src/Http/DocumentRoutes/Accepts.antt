-- ===== src/Http/DocumentRoutes/Accepts.antt =====
-- Exactly which bodies POST /indexes/{uid}/documents accepts, and the documents that it makes of them.
use leta.Prelude.{
  ◌+◌, ◌≤◌, ◌≡◌, ◌↔◌, ap, sym, ◌∙◌, false, Option, none, some, List, [], ◌∷◌, ◌++◌, append-nil,
  append_assoc, arith, ◌==◌, Bytes, length, length-append, Bool-cases, Option-cases, inl, inr,
}
use mathlib.Core.Path.{subst}
use leta.Core.Error.{ok, >>=-eq-ok, err-ne-ok, ok_injective}
use leta.Core.ExactMatchIndex.{Document}
use leta.Http.DocumentRoutes.Batch.{
  read_document, read_documents_from, read_documents, at_least_one, parse_document_batch,
}
use leta.Http.Simdjson.{Simdjson}
use leta.Http.DocumentRoutes.Elements.{
  Batch, BatchOf, no_element, element, read_document-DocumentOf, DocumentOf-read_document,
}

at_least_one-ok :
    (read ds : List Document) → at_least_one read ≡ ok ds → (read ≡ ds) × (1 ≤ length ds)
at_least_one-ok [] ds h = absurd (err-ne-ok h)
at_least_one-ok (d ∷ rest) ds h = let same = ok_injective h in (same, rw (← same) (omega arith))

one_more :
    (docs : List Document) (d : Document)
    → length docs ≤ 10000
    → (length docs == 10000) ≡ false
    → length (docs ++ d ∷ []) ≤ 10000
one_more docs d room below = ground (arith, length-append docs (d ∷ []))

not_full :
    (docs : List Document) (d : Document) (ds : List Document)
    → length docs + length (d ∷ ds) ≤ 10000
    → (length docs == 10000) ≡ false
not_full docs d ds room = ground arith

module _ (json : Simdjson) where
  open json use {
    Value, Object, Field, iterate, document_array, at_end, type, get_object, get_string, raw_json,
    can_reset, fields, unescaped_key, value,
  }

  read_documents_from-BatchOf :
      (vs : List (Option Value)) (docs r : List Document)
      → length docs ≤ 10000
      → read_documents_from json docs vs ≡ ok r
      → (ds : List Document) × BatchOf json vs ds × (r ≡ docs ++ ds) × (length r ≤ 10000)
  unfolding read_documents_from
  read_documents_from-BatchOf [] docs r room h =
      let same = sym (ok_injective h) in
      ([], no_element, same ∙ sym (append-nil docs), rw same room)
  read_documents_from-BatchOf (none ∷ vs) docs r room h = absurd (ground arith)
  read_documents_from-BatchOf (some v ∷ vs) docs r room h =
      elim (Bool-cases (length docs == 10000)) [
        | inl full ↦ absurd (err-ne-ok (rw full at h))
        | inr below ↦
            let (d, first, later) =
              >>=-eq-ok (read_document json v (length docs))
                (λ d. read_documents_from json (docs ++ d ∷ []) vs) (rw below at h) in
            let (ds, rest, same, small) =
              read_documents_from-BatchOf vs (docs ++ d ∷ []) r (one_more docs d room below)
                later in
            (
              d ∷ ds,
              element (read_document-DocumentOf json v (length docs) d first) rest,
              same ∙ append_assoc docs (d ∷ []) ds,
              small,
            )
      ]

  BatchOf-read_documents_from :
      (vs : List (Option Value)) (docs ds : List Document)
      → BatchOf json vs ds
      → length docs + length ds ≤ 10000
      → read_documents_from json docs vs ≡ ok (docs ++ ds)
  unfolding read_documents_from
  BatchOf-read_documents_from [] docs ds no_element room = ap ok (sym (append-nil docs))
  BatchOf-read_documents_from (none ∷ vs) docs ds batch room = elim batch [ ]
  BatchOf-read_documents_from (some v ∷ vs) docs all (element {d = d} {ds = ds} first rest) room =
      rw (not_full docs d ds room, DocumentOf-read_document json v (length docs) d first)
        (BatchOf-read_documents_from vs (docs ++ d ∷ []) ds rest
            (omega (arith, length-append docs (d ∷ [])))
          ∙ ap ok (append_assoc docs (d ∷ []) ds))

  read_documents-BatchOf :
      (vs : List (Option Value)) (ds : List Document)
      → read_documents json vs ≡ ok ds
      → BatchOf json vs ds × (1 ≤ length ds) × (length ds ≤ 10000)
  unfolding read_documents
  read_documents-BatchOf vs ds h =
      let (read, first, later) = >>=-eq-ok (read_documents_from json [] vs) at_least_one h in
      let (all, batch, same, small) = read_documents_from-BatchOf vs [] read (omega arith) first in
      let (this, some_document) = at_least_one-ok read ds later in
      (subst (BatchOf json vs) (sym same ∙ this) batch, some_document, rw this at small)

  BatchOf-read_documents :
      (vs : List (Option Value)) (ds : List Document)
      → BatchOf json vs ds
      → 1 ≤ length ds
      → length ds ≤ 10000
      → read_documents json vs ≡ ok ds
  unfolding read_documents
  BatchOf-read_documents vs [] batch one small = absurd (omega arith)
  BatchOf-read_documents vs (d ∷ ds) batch one small =
      rw (BatchOf-read_documents_from vs [] (d ∷ ds) batch (omega arith))

  parse-Batch :
      (body : Bytes) (documents : List Document)
      → parse_document_batch json body ≡ ok documents
      → Batch json body documents
  unfolding parse_document_batch
  parse-Batch body documents h = elim (Option-cases (iterate body)) [
    | inl no_json ↦ absurd (err-ne-ok (rw (no_json, parse_document_batch) at h))
    | inr (document, parsed) ↦ elim (Option-cases (document_array document)) [
      | inl no_array ↦ absurd (err-ne-ok (rw no_array at (rw (parsed, parse_document_batch) at h)))
      | inr (elements, is_array) ↦
          let (read, first, later) =
            >>=-eq-ok (read_documents json elements) _
              (rw is_array at (rw (parsed, parse_document_batch) at h)) in
          elim (Bool-cases (at_end document)) [
            | inr more ↦ absurd (err-ne-ok (rw more at later))
            | inl ends ↦
                let same = ok_injective (rw ends at later) in
                let (batch, at_least, at_most) =
                  read_documents-BatchOf elements documents (first ∙ ap ok same) in
                record {
                  document = document;
                  elements = elements;
                  parsed = parsed;
                  is_array = is_array;
                  ends = ends;
                  batch = batch;
                  at_least = at_least;
                  at_most = at_most;
                }
          ]
    ]
  ]

  Batch-parse :
      (body : Bytes) (documents : List Document)
      → Batch json body documents
      → parse_document_batch json body ≡ ok documents
  unfolding parse_document_batch
  Batch-parse body documents q =
      rw (q.parsed, parse_document_batch)
        (rw q.is_array
          (rw (BatchOf-read_documents q.elements documents q.batch q.at_least q.at_most, q.ends)))

  -- A batch body is accepted exactly when it is one JSON array of 1 to 10 000 objects, with nothing
  -- behind it, in which every key reads, every top-level string value reads, and every other value
  -- reads throughout and nests at most 128 levels. The documents are the elements in order, each with
  -- its own text as the source and its top-level string values, in order, as the searchable text.
  pub parse_document_batch_iff :
      (body : Bytes) (documents : List Document)
      → (parse_document_batch json body ≡ ok documents) ↔ Batch json body documents
  parse_document_batch_iff body documents = (parse-Batch body documents, Batch-parse body documents)
