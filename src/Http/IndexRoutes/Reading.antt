-- ===== src/Http/IndexRoutes/Reading.antt =====
-- What a client makes of an Index object.
use leta.Prelude.{
  ◌≡◌, refl, ap, ◌∙◌, Option, none, some, [], ◌++◌, append_assoc, if◌then◌else◌, Bytes, codes,
  equal,
}
use leta.Core.IndexMetadata.{Timestamp, IndexMetadata}
use leta.Http.JsonString.{append_json_string}
use leta.Http.JsonString.Reading.{
  read_string, quoted, append_json_string-quoted, read_string-quoted,
}
use leta.Http.JsonObject.{skip, member, member_lem, read_member, read_member-quoted}
use leta.Http.JsonTimestamp.{append_json_timestamp}
use leta.Http.JsonTimestamp.Reading.{
  InYears, read_timestamp, append_json_timestamp-append, read_timestamp-append_json_timestamp,
}
use leta.Http.IndexRoutes.{index_json}

-- A string, or null.
unfoldable pub read_key : Bytes → Option (Option Bytes × Bytes)
read_key input = elim (skip (codes "null") input) [
  | some rest ↦ some (none, rest)
  | none ↦ elim (read_string input) [ none ↦ none | some (key, rest) ↦ some (some key, rest) ]
]

abbrev key_text : Option Bytes → Bytes
key_text none = codes "null"
key_text (some key) = quoted key

read_key-key_text :
    (key : Option Bytes) (rest : Bytes) → read_key (key_text key ++ rest) ≡ some (key, rest)
unfolding read_key skip
read_key-key_text none rest = refl
read_key-key_text (some key) rest = rw (read_string-quoted key rest, read_key) refl

-- The four members, in the order in which they are written, and the end of the object.
unfoldable pub read_index : Bytes → Option IndexMetadata
read_index input = elim (read_member (codes "{\"uid\":") input) [
  | none ↦ none
  | some (uid, after_uid) ↦ elim (member read_key (codes ",\"primaryKey\":") after_uid) [
    | none ↦ none
    | some (key, after_key) ↦ elim (member read_timestamp (codes ",\"createdAt\":") after_key) [
      | none ↦ none
      | some (created, after_created) ↦
          elim (member read_timestamp (codes ",\"updatedAt\":") after_created) [
            | none ↦ none
            | some (updated, end) ↦
                if equal end (codes "}")
                then some (record {
                  uid = record { value = uid };
                  primary_key = key;
                  created_at = created;
                  updated_at = updated;
                })
                else none
          ]
    ]
  ]
]

abbrev stamp : Timestamp → Bytes
stamp t = append_json_timestamp [] t

-- A value written after a text, and the text after it.
stamped :
    {out out' : Bytes} (t : Timestamp) (before : Bytes)
    → out ≡ out'
    → append_json_timestamp (out ++ before) t ≡ (out' ++ before) ++ stamp t
stamped {out} t before e =
    append_json_timestamp-append t (out ++ before) ∙ ap (λ o. (o ++ before) ++ stamp t) e

abbrev with_key : Bytes → Option Bytes → Bytes
with_key out none = out ++ codes "null"
with_key out (some key) = append_json_string out key

with_key-key_text :
    {out out' : Bytes} (key : Option Bytes) → out ≡ out' → with_key out key ≡ out' ++ key_text key
with_key-key_text none e = ap (λ o. o ++ codes "null") e
with_key-key_text {out} (some key) e =
    append_json_string-quoted out key ∙ ap (λ o. o ++ quoted key) e

nested :
    (a b c d e f g h i : Bytes)
    → ((((((((a ++ b) ++ c) ++ d) ++ e) ++ f) ++ g) ++ h) ++ i)
      ≡ a ++ (b ++ (c ++ (d ++ (e ++ (f ++ (g ++ (h ++ i)))))))
nested a b c d e f g h i = simp append_assoc

module _ (index : IndexMetadata) where
  abbrev after_created : Bytes
  after_created = codes ",\"updatedAt\":" ++ (stamp index.updated_at ++ codes "}")

  abbrev after_key : Bytes
  after_key = codes ",\"createdAt\":" ++ (stamp index.created_at ++ after_created)

  abbrev after_uid : Bytes
  after_uid = codes ",\"primaryKey\":" ++ (key_text index.primary_key ++ after_key)

  index_json-laid_out :
      index_json index ≡ codes "{\"uid\":" ++ (quoted index.uid.value ++ after_uid)
  unfolding index_json
  index_json-laid_out =
      ap (λ o. o ++ codes "}")
        (stamped index.updated_at (codes ",\"updatedAt\":") (
          stamped index.created_at (codes ",\"createdAt\":") (
            with_key-key_text index.primary_key (
              ap (λ o. o ++ codes ",\"primaryKey\":")
                (append_json_string-quoted (codes "{\"uid\":") index.uid.value)))))
      ∙ nested (codes "{\"uid\":") (quoted index.uid.value) (codes ",\"primaryKey\":")
          (key_text index.primary_key) (codes ",\"createdAt\":") (stamp index.created_at)
          (codes ",\"updatedAt\":") (stamp index.updated_at) (codes "}")

  -- Every Index object whose two instants lie in the years 0000 to 9999 reads back to the index: the
  -- uid, the primary key or its absence, and both instants.
  pub read_index-index_json :
      InYears index.created_at
      → InYears index.updated_at
      → read_index (index_json index) ≡ some index
  unfolding read_index
  read_index-index_json created updated =
      ap read_index index_json-laid_out
      ∙ rw (read_member-quoted (codes "{\"uid\":") index.uid.value after_uid, read_index)
          (rw
            (member_lem read_key (codes ",\"primaryKey\":") (key_text index.primary_key) after_key _
              (read_key-key_text index.primary_key after_key))
            (rw
              (member_lem read_timestamp (codes ",\"createdAt\":") (stamp index.created_at)
                after_created _
                (read_timestamp-append_json_timestamp index.created_at after_created created))
              (rw
                (member_lem read_timestamp (codes ",\"updatedAt\":") (stamp index.updated_at)
                  (codes "}") _
                  (read_timestamp-append_json_timestamp index.updated_at (codes "}") updated))
                refl)))
