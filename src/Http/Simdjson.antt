-- ===== src/Http/Simdjson.antt =====
-- The JSON parser that the routes use, simdjson's on-demand interface. It is a library outside the
-- repository, so it is a parameter: the types of its values and the calls that the routes make, each
-- `none` where the call does not return SUCCESS. A container is read forward once, so it is given as
-- the list of what the range-for loop meets, in order; a document's end is asked for only after its
-- root has been read to the end.
use leta.Prelude.{Bool, Option, List, Bytes}

-- simdjson::ondemand::json_type
pub data JsonType : Type 0 where
  array object number string boolean null unknown : JsonType

pub record Simdjson : Type 1 where
  pub Document : Type 0
  pub Value : Type 0
  pub Object : Type 0
  pub Field : Type 0
  -- parser.iterate(padded)
  pub iterate : Bytes → Option Document
  -- document.get_array(), with the elements that the loop over it meets
  pub document_array : Document → Option (List (Option Value))
  -- document.get_object()
  pub document_object : Document → Option Object
  -- document.at_end(), after the root has been read
  pub at_end : Document → Bool
  -- value.type(), value.get_array(), value.get_object()
  pub type : Value → Option JsonType
  pub get_array : Value → Option (List (Option Value))
  pub get_object : Value → Option Object
  -- value.get_string() and value.is_null(); whether value.get_double() and value.get_bool() succeed
  pub get_string : Value → Option Bytes
  pub is_null : Value → Option Bool
  pub is_double : Value → Bool
  pub is_bool : Value → Bool
  -- object.raw_json(), whether object.reset() succeeds, and the fields that the loop meets
  pub raw_json : Object → Option Bytes
  pub can_reset : Object → Bool
  pub fields : Object → List (Option Field)
  -- field.unescaped_key() and field.value()
  pub unescaped_key : Field → Option Bytes
  pub value : Field → Value
