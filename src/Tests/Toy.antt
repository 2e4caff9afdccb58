-- ===== src/Tests/Toy.antt =====
-- Concrete stand-ins for the two libraries: a JSON parser that knows three bodies, and an HTTP
-- library whose responses are records.
use leta.Prelude.{
  ℕ, refl, sym, Bool, true, false, Option, none, some, List, [], ◌∷◌, Bytes, codes, equal,
  equal_refl, equal_iff, if◌then◌else◌, Bool-cases, inl, inr,
}
use leta.Http.Simdjson.{Simdjson, JsonType}
use leta.Http.Httplib.{Httplib}

mutual
  -- A JSON value. An object keeps its own text.
  pub data ToyValue : Type 0 where
    text : Bytes → ToyValue
    numeral : ToyValue
    nothing : ToyValue
    items : ToyValues → ToyValue
    members : Bytes → ToyFields → ToyValue

  pub data ToyValues : Type 0 where
    no_values : ToyValues
    and_value : ToyValue → ToyValues → ToyValues

  pub data ToyFields : Type 0 where
    no_fields : ToyFields
    and_field : Bytes → ToyValue → ToyFields → ToyFields

abbrev pub values_of : ToyValues → List (Option ToyValue)
values_of no_values = []
values_of (and_value v rest) = some v ∷ values_of rest

abbrev pub fields_of : ToyFields → List (Option (Bytes × ToyValue))
fields_of no_fields = []
fields_of (and_field key v rest) = some (key, v) ∷ fields_of rest

abbrev pub type_of : ToyValue → JsonType
type_of (text s) = JsonType.string
type_of numeral = JsonType.number
type_of nothing = JsonType.null
type_of (items vs) = JsonType.array
type_of (members raw fs) = JsonType.object

abbrev pub array_of : ToyValue → Option (List (Option ToyValue))
array_of (items vs) = some (values_of vs)
array_of _ = none

abbrev pub object_of : ToyValue → Option (Bytes × ToyFields)
object_of (members raw fs) = some (raw, fs)
object_of _ = none

abbrev pub string_of : ToyValue → Option Bytes
string_of (text s) = some s
string_of _ = none

abbrev pub is_nothing : ToyValue → Bool
is_nothing nothing = true
is_nothing _ = false

abbrev pub is_numeral : ToyValue → Bool
is_numeral numeral = true
is_numeral _ = false

abbrev pub create_body : Bytes
create_body = codes "{\"uid\":\"books\",\"primaryKey\":\"id\"}"

abbrev pub element_text : Bytes
element_text = codes "{\"t\":\"dune dune\"}"

abbrev pub batch_body : Bytes
batch_body = codes "[{\"t\":\"dune dune\"} ]"

abbrev pub bad_body : Bytes
bad_body = codes "[1]"

abbrev pub parsed : Bytes → Option ToyValue
parsed body =
    if equal body create_body
    then some (
        members create_body (
          and_field (codes "uid") (text (codes "books"))
            (and_field (codes "primaryKey") (text (codes "id")) no_fields)))
    else if equal body batch_body
    then some (
        items (
          and_value
            (members element_text (and_field (codes "t") (text (codes "dune dune")) no_fields))
            no_values))
    else if equal body bad_body
    then some (items (and_value numeral no_values))
    else none

abbrev pub toy_json : Simdjson
toy_json = record {
  Document = ToyValue;
  Value = ToyValue;
  Object = Bytes × ToyFields;
  Field = Bytes × ToyValue;
  iterate = parsed;
  document_array = array_of;
  document_object = object_of;
  at_end = λ d. true;
  type = λ v. some (type_of v);
  get_array = array_of;
  get_object = object_of;
  get_string = string_of;
  is_null = λ v. some (is_nothing v);
  is_double = is_numeral;
  is_bool = λ v. false;
  raw_json = λ o. some o.0;
  can_reset = λ o. true;
  fields = λ o. fields_of o.1;
  unescaped_key = λ f. some f.0;
  value = λ f. f.1;
}

-- A response as the HTTP library keeps it.
pub record ToyResponse : Type 0 where
  pub status : ℕ
  pub body : Bytes
  pub headers : Bytes → Option Bytes

pub record ToyRequest : Type 0 where
  pub path : Bytes
  pub params : List (Bytes × Bytes)
  pub body : Bytes
  pub headers : Bytes → Bytes

abbrev pub with_header : Bytes → Bytes → ToyResponse → ToyResponse
with_header name value r = record r {
  headers = λ other. if equal name other then some value else r.headers other;
}

abbrev pub toy_library : Httplib
toy_library = record {
  Request = ToyRequest;
  Response = ToyResponse;
  path = λ r. r.path;
  request_body = λ r. r.body;
  path_params = λ r. r.params;
  request_header = λ r. r.headers;
  status = λ r. r.status;
  body = λ r. r.body;
  header = λ r. r.headers;
  set_status = λ n r. record r { status = n };
  set_content = λ b t r. with_header (codes "Content-Type") t (record r { body = b });
  set_header = with_header;
  status-set_status = λ n r. refl;
  header-set_status = λ n r name. refl;
  body-set_status = λ n r. refl;
  status-set_content = λ b t r. refl;
  body-set_content = λ b t r. refl;
  header-set_content = λ b t r name other. elim (Bool-cases (equal (codes "Content-Type") name)) [
    | inl same ↦ absurd (other (sym ((equal_iff (codes "Content-Type") name).0 same)))
    | inr differs ↦ rw differs refl
  ];
  header-set_header = λ name value r. rw (equal_refl name) refl;
  body-set_header = λ name value r. refl;
  status-set_header = λ name value r. refl;
}

-- A fresh response, and a POST that says that it brings JSON.
abbrev pub fresh_response : ToyResponse
fresh_response = record { status = 200; body = []; headers = λ name. none }

abbrev pub not_found_response : ToyResponse
not_found_response = record { status = 404; body = []; headers = λ name. none }

abbrev pub post_books : ToyRequest
post_books = record {
  path = codes "/indexes";
  params = [];
  body = create_body;
  headers = λ name. if equal name (codes "Content-Type") then codes "application/json" else [];
}

-- A batch for the uid `books`, and a path that no route has.
abbrev pub post_batch : ToyRequest
post_batch = record post_books { path = codes "/indexes/books/documents"; body = batch_body }

abbrev pub get_nowhere : ToyRequest
get_nowhere = record post_books { path = codes "/nowhere"; body = [] }
