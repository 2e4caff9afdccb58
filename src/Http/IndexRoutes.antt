-- ===== src/Http/IndexRoutes.antt =====
-- src/adapters/http/index_routes.hpp and index_routes.cpp: POST /indexes.
pub mod Fields
pub mod Accepts
pub mod Responses
pub mod Reading
use leta.Prelude.{
  inr, ℕ, Bool, true, false, Option, none, some, List, [], ◌∷◌, ◌++◌, if◌then◌else◌, Bytes, codes,
  equal,
}
use leta.Core.Error.{Error, Result, ok, err, failure, malformed_request, unknown_field, ◌>>=◌}
use leta.Core.IndexUid
use leta.Core.IndexUid.{IndexUid}
use leta.Core.IndexMetadata.{IndexMetadata, Timestamp}
use leta.Application.Services.{Services}
use leta.Application.HttpServer.{post, Routing, HttpRequest, HttpResponse}
use leta.Application.IndexRepository.{IndexRepository}
use leta.Application.IndexService.{CreateIndexCommand, create_index}
use leta.Http.ErrorResponse.{error_response}
use leta.Http.JsonString.{append_json_string}
use leta.Http.JsonTimestamp.{append_json_timestamp}
use leta.Http.Simdjson.{Simdjson}

-- UidField, PrimaryKeyField
abbrev pub uid_field : Bytes
uid_field = codes "uid"

abbrev pub primary_key_field : Bytes
primary_key_field = codes "primaryKey"

-- struct CreateIndexFields
pub record CreateIndexFields : Type 0 where
  pub uid : Option Bytes
  pub has_primary_key : Bool
  pub primary_key : Option Bytes

abbrev pub no_fields : CreateIndexFields
no_fields = record { uid = none; has_primary_key = false; primary_key = none }

abbrev pub malformed {ℓ} : {A : Type ℓ} → Bytes → Result A
malformed message = failure malformed_request message

-- malformed(NotJson)
abbrev pub not_json {ℓ} : {A : Type ℓ} → Result A
not_json = malformed (codes "The request body is not valid JSON.")

-- field_must_be
abbrev pub field_must_be {ℓ} : {A : Type ℓ} → Bytes → Bytes → Result A
field_must_be field_name expectation =
    malformed
      (codes "Field `" ++ (field_name ++ (codes "` must be " ++ (expectation ++ codes "."))))

-- appears_more_than_once
abbrev pub appears_more_than_once {ℓ} : {A : Type ℓ} → Bytes → Result A
appears_more_than_once field_name =
    malformed (codes "Field `" ++ (field_name ++ codes "` appears more than once."))

-- unknown_field
abbrev pub unknown_field_error {ℓ} : {A : Type ℓ} → Bytes → Result A
unknown_field_error field_name =
    failure unknown_field (codes "Unknown field `" ++ (field_name ++ codes "`."))

-- to_command
unfoldable pub to_command : CreateIndexFields → Result CreateIndexCommand
to_command fields = elim fields.uid [
  | none ↦ malformed (codes "Field `uid` is required.")
  | some text ↦
      IndexUid.parse text >>= λ uid. ok (record { uid = uid; primary_key = fields.primary_key })
]

-- index_json
unfoldable pub index_json : IndexMetadata → Bytes
unfolding append_json_string append_json_timestamp
index_json index =
    let with_uid =
      append_json_string (codes "{\"uid\":") index.uid.value ++ codes ",\"primaryKey\":" in
    let with_key : Bytes = elim index.primary_key [
      | none ↦ with_uid ++ codes "null"
      | some primary_key ↦ append_json_string with_uid primary_key
    ] in
    let with_created =
      append_json_timestamp (with_key ++ codes ",\"createdAt\":") index.created_at in
    append_json_timestamp (with_created ++ codes ",\"updatedAt\":") index.updated_at ++ b'}' ∷ []

module _ (json : Simdjson) where
  open json use {
    Value, Object, Field, iterate, document_object, at_end, get_string, is_null, fields,
    unescaped_key, value,
  }

  -- read_uid
  unfoldable pub read_uid : Value → CreateIndexFields → Result CreateIndexFields
  read_uid v read = elim read.uid [
    | some _ ↦ appears_more_than_once uid_field
    | none ↦ elim (get_string v) [
      | none ↦ field_must_be uid_field (codes "a string")
      | some uid ↦ ok (record read { uid = some uid })
    ]
  ]

  -- read_primary_key, after the test for a repeated field
  unfoldable pub read_key_value : Value → CreateIndexFields → Result CreateIndexFields
  read_key_value v read = elim (is_null v) [
    | none ↦ field_must_be primary_key_field (codes "a string or null")
    | some true ↦ ok read
    | some false ↦ elim (get_string v) [
      | none ↦ field_must_be primary_key_field (codes "a string or null")
      | some primary_key ↦ ok (record read { primary_key = some primary_key })
    ]
  ]

  -- read_primary_key
  unfoldable pub read_primary_key : Value → CreateIndexFields → Result CreateIndexFields
  unfolding read_key_value
  read_primary_key v read =
      if read.has_primary_key
      then appears_more_than_once primary_key_field
      else read_key_value v (record read { has_primary_key = true })

  -- read_field
  unfoldable pub read_field : Field → CreateIndexFields → Result CreateIndexFields
  unfolding read_uid read_primary_key
  read_field field read = elim (unescaped_key field) [
    | none ↦ not_json
    | some key ↦
        if equal key uid_field
        then read_uid (value field) read
        else if equal key primary_key_field
        then read_primary_key (value field) read
        else unknown_field_error key
  ]

  -- the loop of read_fields
  unfoldable pub read_fields_from :
      CreateIndexFields → List (Option Field) → Result CreateIndexFields
  unfolding read_field
  read_fields_from read [] = ok read
  read_fields_from read (none ∷ rest) = not_json
  read_fields_from read (some field ∷ rest) =
      read_field field read >>= λ read'. read_fields_from read' rest

  -- read_fields
  unfoldable pub read_fields : Object → Result CreateIndexFields
  unfolding read_fields_from
  read_fields object = read_fields_from no_fields (fields object)

  -- parse_create_index_request
  unfoldable pub parse_create_index_request : Bytes → Result CreateIndexCommand
  unfolding read_fields to_command
  parse_create_index_request body = elim (iterate body) [
    | none ↦ not_json
    | some document ↦ elim (document_object document) [
      | none ↦ malformed (codes "The request body must be a JSON object.")
      | some object ↦
          read_fields object >>= λ read. if at_end document then to_command read else not_json
    ]
  ]

abbrev pub created_or_error : Result IndexMetadata → HttpResponse
created_or_error (err e) = error_response e
created_or_error (ok index) = record { status = 201; body = index_json index }

module _ (json : Simdjson) (repository : IndexRepository) where
  open repository use {State}

  -- create_index_response; `now` is the service's reading of the clock
  unfoldable pub create_index_response : Bytes → Timestamp → State → HttpResponse × State
  unfolding create_index
  create_index_response body now s = elim (parse_create_index_request json body) [
    | err e ↦ (error_response e, s)
    | ok command ↦
        let (index, s') = create_index repository command now s in (created_or_error index, s')
  ]

  -- the handler that register_index_routes registers for POST /indexes
  unfoldable pub create_index_handler : HttpRequest → Timestamp → State → HttpResponse × State
  unfolding create_index_response
  create_index_handler request now s = create_index_response request.body now s

  -- register_index_routes
  unfoldable pub register_index_routes :
      (server : Routing (Services repository)) → Routing.Server server → Routing.Server server
  unfolding create_index_handler
  register_index_routes server routes =
      Routing.add_route server post (codes "/indexes")
        (λ readings request s.
          let (response, indexes) = create_index_handler request readings.now s.indexes in
          (inr response, record s { indexes = indexes }))
        routes
