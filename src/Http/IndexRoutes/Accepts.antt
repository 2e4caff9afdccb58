-- ===== src/Http/IndexRoutes/Accepts.antt =====
-- Exactly which bodies POST /indexes accepts.
use leta.Prelude.{
  ◌≡◌, ◌↔◌, inl, inr, refl, ap, sym, ◌∙◌, some, if◌then◌else◌, Bytes, Bool-cases, Option-cases,
  arith,
}
use leta.Core.Error.{ok, >>=-eq-ok, ok_injective, err-ne-ok}
use leta.Core.IndexUid
use leta.Core.IndexUid.{IndexUid, IsUid, parse-IsUid, IsUid-of_parse}
use leta.Application.IndexService.{CreateIndexCommand}
use leta.Http.IndexRoutes.{
  CreateIndexFields, no_fields, not_json, to_command, read_fields_from, parse_create_index_request,
}
use leta.Http.Simdjson.{Simdjson}
use leta.Http.IndexRoutes.Fields.{Request, read_fields-Accepted, Accepted-read_fields}

to_command-ok :
    (r : CreateIndexFields) (command : CreateIndexCommand)
    → to_command r ≡ ok command
    → (r.uid ≡ some command.uid.value)
      × IsUid command.uid.value
      × (r.primary_key ≡ command.primary_key)
unfolding to_command
to_command-ok r command h = elim (Option-cases r.uid) [
  | inl missing ↦ absurd (ground arith)
  | inr (given, found) ↦
      let (uid, parsed, built) =
        >>=-eq-ok (IndexUid.parse given)
          (λ uid. ok (record { uid = uid; primary_key = r.primary_key }))
          (rw (found, to_command) at h) in
      let (valid, same) = IsUid-of_parse given parsed in
      let made = ok_injective built in rw (← made) (found ∙ ap some (sym same), valid, refl)
]

to_command-IsUid :
    (r : CreateIndexFields) (command : CreateIndexCommand)
    → r.uid ≡ some command.uid.value
    → r.primary_key ≡ command.primary_key
    → IsUid command.uid.value
    → to_command r ≡ ok command
unfolding to_command
to_command-IsUid r command found key valid = rw (found, to_command) (rw (parse-IsUid _ valid, key))

module _ (json : Simdjson) where
  open json use {Document, iterate, document_object, at_end, fields}

  parse-Request :
      (body : Bytes) (command : CreateIndexCommand)
      → parse_create_index_request json body ≡ ok command
      → Request json body command
  unfolding parse_create_index_request
  parse-Request body command h = elim (Option-cases (iterate body)) [
    | inl no_json ↦ absurd (ground arith)
    | inr (document, parsed) ↦ elim (Option-cases (document_object document)) [
      | inl no_object ↦ absurd (ground arith)
      | inr (object, is_object) ↦
          let (r, read, commanded) =
            >>=-eq-ok (read_fields_from json no_fields (fields object))
              (λ r. if at_end document then to_command r else not_json)
              (rw is_object at (rw (parsed, parse_create_index_request) at h)) in
          elim (Bool-cases (at_end document)) [
            | inl ends ↦
                let (found, valid, key) = to_command-ok r command (rw ends at commanded) in
                record {
                  document = document;
                  object = object;
                  parsed = parsed;
                  is_object = is_object;
                  ends = ends;
                  accepted =
                      rw key at
                        (read_fields-Accepted json command.uid.value r (fields object) read found);
                  valid_uid = valid;
                }
            | inr more ↦ absurd (err-ne-ok (rw more at commanded))
          ]
    ]
  ]

  Request-parse :
      (body : Bytes) (command : CreateIndexCommand)
      → Request json body command
      → parse_create_index_request json body ≡ ok command
  unfolding parse_create_index_request
  Request-parse body command q =
      let (r, read, found, key) = Accepted-read_fields json q.accepted in
      rw (q.parsed, parse_create_index_request)
        (rw q.is_object (rw (read, q.ends) (to_command-IsUid r command found key q.valid_uid)))

  -- A POST /indexes body is accepted exactly when it is one JSON object, with nothing behind it, that
  -- has one `uid` member, a string of 1 to 64 characters of the alphabet of FR-01, and at most one
  -- `primaryKey` member, a string or null, in either order, and no other member; the command holds
  -- that uid and that key.
  pub parse_create_index_request_iff :
      (body : Bytes) (command : CreateIndexCommand)
      → (parse_create_index_request json body ≡ ok command) ↔ Request json body command
  parse_create_index_request_iff body command =
      (parse-Request body command, Request-parse body command)
