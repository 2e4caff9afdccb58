-- ===== src/Http/DocumentRoutes/Elements.antt =====
-- Which bodies are batches of documents, and read_document on their elements.
use leta.Prelude.{
  ℕ, ◌+◌, ◌≤◌, ◌≡◌, refl, ap, sym, ◌∙◌, true, false, Option, none, some, List, [], ◌∷◌, ◌++◌,
  append-nil, append_assoc, arith, Bytes, length, Bool-cases, Option-cases, inl, inr,
}
use mathlib.Core.Path.{subst}
use leta.Core.Error.{ok, >>=-eq-ok, err-ne-ok, ok_injective}
use leta.Core.ExactMatchIndex.{Document}
use leta.Http.DocumentRoutes.Validate.{succeeds, without_trailing_whitespace, validate_field_value}
use leta.Http.DocumentRoutes.Batch.{
  is_string, read_field_text, read_text_field, read_text_from, read_document,
}
use leta.Http.DocumentRoutes.Level.{Below, Reads}
use leta.Http.DocumentRoutes.Depth.{validate_field_value_iff}
use leta.Http.Simdjson as Json
use leta.Http.Simdjson.{Simdjson, JsonType}

is_string-eq : (t : JsonType) → is_string t ≡ true → t ≡ Json.string
is_string-eq t h = ground arith

module _ (json : Simdjson) where
  open json use {
    Value, Object, Field, iterate, document_array, at_end, type, get_object, get_string, raw_json,
    can_reset, fields, unescaped_key, value,
  }

  -- What one member adds to the searchable text: its value, if that is a string; otherwise nothing,
  -- and the value reads throughout and nests at most 128 levels.
  pub data TextOf (f : Field) : List Bytes → Type 0 where
    searchable :
        {text : Bytes}
        → succeeds (unescaped_key f) ≡ true
        → type (value f) ≡ some Json.string
        → get_string (value f) ≡ some text
        → TextOf f (text ∷ [])
    other :
        {t : JsonType}
        → succeeds (unescaped_key f) ≡ true
        → type (value f) ≡ some t
        → is_string t ≡ false
        → ((n : ℕ) (u : Value) → Below json u n (value f) → (1 + n ≤ 128) × Reads json u)
        → TextOf f []

  pub data TextsOf : List (Option Field) → List Bytes → Type 0 where
    no_member : TextsOf [] []
    member :
        {f : Field} {fs : List (Option Field)} {xs ys zs : List Bytes}
        → TextOf f xs
        → TextsOf fs ys
        → zs ≡ xs ++ ys
        → TextsOf (some f ∷ fs) zs

  -- An object, with its source text and the texts of its members in order.
  pub record DocumentOf (v : Value) (d : Document) : Type 0 where
    pub members : Object
    pub raw : Bytes
    pub is_object : get_object v ≡ some members
    pub raw_is : raw_json members ≡ some raw
    pub resets : can_reset members ≡ true
    pub source_is : d.source ≡ without_trailing_whitespace raw
    pub texts : TextsOf (fields members) d.searchable_text

  -- One document for each element, in order.
  pub data BatchOf : List (Option Value) → List Document → Type 0 where
    no_element : BatchOf [] []
    element :
        {v : Value} {vs : List (Option Value)} {d : Document} {ds : List Document}
        → DocumentOf v d
        → BatchOf vs ds
        → BatchOf (some v ∷ vs) (d ∷ ds)

  -- A body that is one JSON array of 1 to 10 000 such objects, and nothing behind it.
  pub record Batch (body : Bytes) (documents : List Document) : Type 0 where
    pub document : Json.Simdjson.Document json
    pub elements : List (Option Value)
    pub parsed : iterate body ≡ some document
    pub is_array : document_array document ≡ some elements
    pub ends : at_end document ≡ true
    pub batch : BatchOf elements documents
    pub at_least : 1 ≤ length documents
    pub at_most : length documents ≤ 10000

  read_text_field-TextOf :
      (f : Field) (acc r : List Bytes)
      → read_text_field json f acc ≡ ok r
      → (xs : List Bytes) × TextOf f xs × (r ≡ acc ++ xs)
  unfolding read_text_field
  read_text_field-TextOf f acc r h = elim (Bool-cases (succeeds (unescaped_key f))) [
    | inr no_key ↦ absurd (err-ne-ok (rw no_key at h))
    | inl key ↦ elim (Option-cases (type (value f))) [
      | inl no_type ↦ absurd (err-ne-ok (rw no_type at (rw key at h)))
      | inr (t, typed) ↦ by_type t key typed (rw typed at (rw key at h))
    ]
  ]
    where
      by_type :
          (t : JsonType)
          → succeeds (unescaped_key f) ≡ true
          → type (value f) ≡ some t
          → read_field_text json (value f) t acc ≡ ok r
          → (xs : List Bytes) × TextOf f xs × (r ≡ acc ++ xs)
      by_type t key typed e = elim (Bool-cases (is_string t)) [
        | inr other_type ↦
            let (_, valid, same) =
              >>=-eq-ok (validate_field_value json (value f)) (λ _. ok acc) (rw other_type at e) in
            (
              [],
              other key typed other_type ((validate_field_value_iff json (value f)).0 valid),
              sym (ok_injective same) ∙ sym (append-nil acc),
            )
        | inl text_type ↦ elim (Option-cases (get_string (value f))) [
          | inl no_text ↦ absurd (err-ne-ok (rw no_text at (rw text_type at e)))
          | inr (text, got) ↦ (
            text ∷ [],
            searchable key (typed ∙ ap some (is_string-eq t text_type)) got,
            sym (ok_injective (rw got at (rw text_type at e))),
          )
        ]
      ]

  TextOf-read_text_field :
      (f : Field) (acc xs : List Bytes) → TextOf f xs → read_text_field json f acc ≡ ok (acc ++ xs)
  unfolding read_text_field
  TextOf-read_text_field f acc xs (searchable key typed got) = rw (key, typed) (rw got)
  TextOf-read_text_field f acc xs (other key typed other_type all) =
      rw (key, typed)
        (rw (other_type, (validate_field_value_iff json (value f)).1 all)
          (ap ok (sym (append-nil acc))))

  read_text_from-TextsOf :
      (fs : List (Option Field)) (acc r : List Bytes)
      → read_text_from json acc fs ≡ ok r
      → (ys : List Bytes) × TextsOf fs ys × (r ≡ acc ++ ys)
  unfolding read_text_from
  read_text_from-TextsOf [] acc r h = ([], no_member, sym (ok_injective h) ∙ sym (append-nil acc))
  read_text_from-TextsOf (none ∷ fs) acc r h = absurd (err-ne-ok h)
  read_text_from-TextsOf (some f ∷ fs) acc r h =
      let (more, first, later) =
        >>=-eq-ok (read_text_field json f acc) (λ m. read_text_from json m fs) h in
      let (xs, text, made) = read_text_field-TextOf f acc more first in
      let (ys, texts, rest) = read_text_from-TextsOf fs more r later in
      (xs ++ ys, member text texts refl, rest ∙ ap (λ m. m ++ ys) made ∙ append_assoc acc xs ys)

  TextsOf-read_text_from :
      (fs : List (Option Field)) (acc ys : List Bytes)
      → TextsOf fs ys
      → read_text_from json acc fs ≡ ok (acc ++ ys)
  unfolding read_text_from
  TextsOf-read_text_from [] acc ys no_member = ap ok (sym (append-nil acc))
  TextsOf-read_text_from (none ∷ fs) acc zs texts = elim texts [ ]
  TextsOf-read_text_from (some f ∷ fs) acc zs (member {xs = xs} {ys = ys} text texts all) =
      rw (TextOf-read_text_field f acc xs text) (
        TextsOf-read_text_from fs (acc ++ xs) ys texts
        ∙ ap ok (append_assoc acc xs ys ∙ ap (◌++◌ acc) (sym all)))

  pub read_document-DocumentOf :
      (v : Value) (index : ℕ) (d : Document) → read_document json v index ≡ ok d → DocumentOf v d
  unfolding read_document
  read_document-DocumentOf v index d h = elim (Option-cases (get_object v)) [
    | inl no_object ↦ absurd (err-ne-ok (rw (no_object, read_document) at h))
    | inr (o, is_object) ↦ elim (Option-cases (raw_json o)) [
      | inl no_raw ↦ absurd (err-ne-ok (rw no_raw at (rw (is_object, read_document) at h)))
      | inr (raw, raw_is) ↦ elim (Bool-cases (can_reset o)) [
        | inr stuck ↦
            absurd (err-ne-ok (rw stuck at (rw raw_is at (rw (is_object, read_document) at h))))
        | inl resets ↦
            let (texts, read, built) =
              >>=-eq-ok (read_text_from json [] (fields o)) _
                (rw resets at (rw raw_is at (rw (is_object, read_document) at h))) in
            let (ys, of_members, same) = read_text_from-TextsOf (fields o) [] texts read in
            let made = ok_injective built in
            record {
              members = o;
              raw = raw;
              is_object = is_object;
              raw_is = raw_is;
              resets = resets;
              source_is = ap (λ (x : Document). x.source) (sym made);
              texts =
                  subst (TextsOf (fields o))
                    (sym same ∙ ap (λ (x : Document). x.searchable_text) made) of_members;
            }
      ]
    ]
  ]

  pub DocumentOf-read_document :
      (v : Value) (index : ℕ) (d : Document) → DocumentOf v d → read_document json v index ≡ ok d
  unfolding read_document
  DocumentOf-read_document v index d q =
      rw (q.is_object, read_document)
        (rw q.raw_is (
          rw (
            q.resets,
            TextsOf-read_text_from (fields q.members) [] d.searchable_text q.texts,
            sym q.source_is,
          )))
