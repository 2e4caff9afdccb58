-- ===== src/Http/IndexRoutes/Fields.antt =====
-- Which members the object of a POST /indexes body may have, and read_fields on them.
use leta.Prelude.{
  ◌≡◌, inl, inr, refl, ap, sym, ◌∙◌, true, false, Option, none, some, List, [], ◌∷◌, Bytes, equal,
  equal_iff, Bool-cases, Option-cases, arith,
}
use leta.Core.Error.{ok, >>=-eq-ok, ok_injective}
use leta.Core.IndexUid.{IsUid}
use leta.Application.IndexService.{CreateIndexCommand}
use leta.Http.IndexRoutes.{
  uid_field, primary_key_field, CreateIndexFields, no_fields, read_uid, read_key_value, read_field,
  read_fields_from,
}
use leta.Http.Simdjson.{Simdjson}

module _ (json : Simdjson) where
  open json use {
    Document, Value, Object, Field, iterate, document_object, at_end, get_string, is_null, fields,
    unescaped_key, value,
  }

  abbrev pub UidField : Field → Bytes → Type 0
  UidField f uid = (unescaped_key f ≡ some uid_field) × (get_string (value f) ≡ some uid)

  -- null, or a string
  pub data KeyValue (v : Value) : Option Bytes → Type 0 where
    null : is_null v ≡ some true → KeyValue v none
    text : {key : Bytes} → is_null v ≡ some false → get_string v ≡ some key → KeyValue v (some key)

  abbrev pub KeyField : Field → Option Bytes → Type 0
  KeyField f key = (unescaped_key f ≡ some primary_key_field) × KeyValue (value f) key

  -- One `uid`, a string, and at most one `primaryKey`, a string or null, in either order, and nothing
  -- else.
  pub data Accepted : List (Option Field) → Bytes → Option Bytes → Type 0 where
    only_uid : {f : Field} {uid : Bytes} → UidField f uid → Accepted (some f ∷ []) uid none
    uid_first :
        {f g : Field} {uid : Bytes} {key : Option Bytes}
        → UidField f uid
        → KeyField g key
        → Accepted (some f ∷ some g ∷ []) uid key
    key_first :
        {f g : Field} {uid : Bytes} {key : Option Bytes}
        → KeyField f key
        → UidField g uid
        → Accepted (some f ∷ some g ∷ []) uid key

  -- A body that is one JSON object with those fields, and nothing behind it.
  pub record Request (body : Bytes) (command : CreateIndexCommand) : Type 0 where
    pub document : Document
    pub object : Object
    pub parsed : iterate body ≡ some document
    pub is_object : document_object document ≡ some object
    pub ends : at_end document ≡ true
    pub accepted : Accepted (fields object) command.uid.value command.primary_key
    pub valid_uid : IsUid command.uid.value

  -- What a field that is read without an error has set.
  data Sets (f : Field) (r r' : CreateIndexFields) : Type 0 where
    sets_uid :
        (uid : Bytes)
        → UidField f uid
        → r.uid ≡ none
        → r' ≡ record r { uid = some uid }
        → Sets f r r'
    sets_key :
        (key : Option Bytes)
        → KeyField f key
        → r.has_primary_key ≡ false
        → r' ≡ record r { has_primary_key = true; primary_key = key }
        → Sets f r r'

  read-UidField :
      (f : Field) (r : CreateIndexFields) (uid : Bytes)
      → UidField f uid
      → r.uid ≡ none
      → read_field json f r ≡ ok (record r { uid = some uid })
  unfolding read_field
  read-UidField f r uid (k, s) free = rw (k, read_field) (rw (free, read_uid) (rw s))

  read-KeyField :
      (f : Field) (r : CreateIndexFields) (key : Option Bytes)
      → KeyField f key
      → r.has_primary_key ≡ false
      → r.primary_key ≡ none
      → read_field json f r ≡ ok (record r { has_primary_key = true; primary_key = key })
  unfolding read_field
  read-KeyField f r none (k, null n) free empty =
      rw (k, read_field)
        (rw (free, n, read_key_value)
          (ap (λ p. ok (record r { has_primary_key = true; primary_key = p })) empty))
  read-KeyField f r (some key) (k, text n s) free empty =
      rw (k, read_field) (rw (free, n, read_key_value) (rw s))

  -- Inversion of a field that is read.
  read_key_value-Sets :
      (v : Value) (r r' : CreateIndexFields)
      → r.primary_key ≡ none
      → read_key_value json v r ≡ ok r'
      → (key : Option Bytes) × KeyValue v key × (r' ≡ record r { primary_key = key })
  unfolding read_key_value
  read_key_value-Sets v r r' empty h = elim (Option-cases (is_null v)) [
    | inl none_null ↦ absurd (ground arith)
    | inr (true, n) ↦ (none, null n, ground arith)
    | inr (false, n) ↦ elim (Option-cases (get_string v)) [
      | inl no_text ↦ absurd (ground arith)
      | inr (key, s) ↦ (some key, text n s, ground arith)
    ]
  ]

  read_field-Sets :
      (f : Field) (r r' : CreateIndexFields)
      → (r.has_primary_key ≡ false → r.primary_key ≡ none)
      → read_field json f r ≡ ok r'
      → Sets f r r'
  unfolding read_field
  read_field-Sets f r r' inv h = elim (Option-cases (unescaped_key f)) [
    | inl no_key ↦ absurd (ground arith)
    | inr (key, k) ↦ elim (Bool-cases (equal key uid_field)) [
      | inl is_uid ↦ elim (Option-cases (get_string (value f))) [
        | inl no_text ↦ absurd (ground arith)
        | inr (uid, s) ↦
            sets_uid uid (k ∙ ap some ((equal_iff key uid_field).0 is_uid), s) (ground arith)
              (ground arith)
      ]
      | inr not_uid ↦ elim (Bool-cases (equal key primary_key_field)) [
        | inr unknown ↦ absurd (ground arith)
        | inl is_key ↦ elim (Bool-cases r.has_primary_key) [
          | inl repeated ↦ absurd (ground arith)
          | inr first ↦
              let e : read_key_value json (value f) (record r { has_primary_key = true }) ≡ ok r' =
                ground arith in
              let (pk, kv, set) = read_key_value-Sets (value f) _ r' (inv first) e in
              sets_key pk (k ∙ ap some ((equal_iff key primary_key_field).0 is_key), kv) first set
        ]
      ]
    ]
  ]

  -- From each state that the loop can be in, what the rest of a body that is accepted looks like.
  from_both :
      (uid : Bytes) (key : Option Bytes) (r r' : CreateIndexFields) (fs : List (Option Field))
      → r ≡ record { uid = some uid; has_primary_key = true; primary_key = key }
      → read_fields_from json r fs ≡ ok r'
      → (fs ≡ []) × (r' ≡ r)
  unfolding read_fields_from
  from_both uid key r r' [] e h = (refl, sym (ok_injective h))
  from_both uid key r r' (none ∷ fs) e h = absurd (ground arith)
  from_both uid key r r' (some f ∷ fs) e h =
      let (r1, read, _) = >>=-eq-ok (read_field json f r) _ h in
      elim (read_field-Sets f r r1 (λ x. absurd (ground arith)) read) [
        | sets_uid _ _ free _ ↦ absurd (ground arith)
        | sets_key _ _ free _ ↦ absurd (ground arith)
      ]

  from_uid :
      (f : Field) (uid : Bytes) (r r' : CreateIndexFields) (fs : List (Option Field))
      → UidField f uid
      → r ≡ record { uid = some uid; has_primary_key = false; primary_key = none }
      → read_fields_from json r fs ≡ ok r'
      → Accepted (some f ∷ fs) uid r'.primary_key × (r'.uid ≡ some uid)
  unfolding read_fields_from
  from_uid f uid r r' [] u e h =
      let done : r' ≡ r = sym (ok_injective h) in rw done (rw e (only_uid u, refl))
  from_uid f uid r r' (none ∷ fs) u e h = absurd (ground arith)
  from_uid f uid r r' (some g ∷ fs) u e h =
      let (r1, read, later) = >>=-eq-ok (read_field json g r) _ h in
      elim (read_field-Sets g r r1 (λ _. ap (λ (x : CreateIndexFields). x.primary_key) e) read) [
        | sets_uid _ _ free _ ↦ absurd (ground arith)
        | sets_key key k _ set ↦
            let (nil, same) = from_both uid key r1 r' fs (ground arith) later in
            rw same (rw (nil, set, e) (uid_first u k, refl))
      ]

  from_key :
      (f : Field) (key : Option Bytes) (uid : Bytes) (r r' : CreateIndexFields)
      (fs : List (Option Field))
      → KeyField f key
      → r ≡ record { uid = none; has_primary_key = true; primary_key = key }
      → read_fields_from json r fs ≡ ok r'
      → r'.uid ≡ some uid
      → Accepted (some f ∷ fs) uid r'.primary_key
  unfolding read_fields_from
  from_key f key uid r r' [] k e h found = absurd (ground arith)
  from_key f key uid r r' (none ∷ fs) k e h found = absurd (ground arith)
  from_key f key uid r r' (some g ∷ fs) k e h found =
      let (r1, read, later) = >>=-eq-ok (read_field json g r) _ h in
      elim (read_field-Sets g r r1 (λ x. absurd (ground arith)) read) [
        | sets_key _ _ free _ ↦ absurd (ground arith)
        | sets_uid uid' u _ set ↦
            let (nil, same) = from_both uid' key r1 r' fs (ground arith) later in
            let this : uid' ≡ uid = ground arith in
            let key_is : r'.primary_key ≡ key = ground arith in
            rw (nil, key_is) (key_first k (u.0, u.1 ∙ ap some this))
      ]

  pub read_fields-Accepted :
      (uid : Bytes) (r' : CreateIndexFields) (fs : List (Option Field))
      → read_fields_from json no_fields fs ≡ ok r'
      → r'.uid ≡ some uid
      → Accepted fs uid r'.primary_key
  unfolding read_fields_from
  read_fields-Accepted uid r' [] h found = absurd (ground arith)
  read_fields-Accepted uid r' (none ∷ fs) h found = absurd (ground arith)
  read_fields-Accepted uid r' (some f ∷ fs) h found =
      let (r1, read, later) = >>=-eq-ok (read_field json f no_fields) _ h in
      elim (read_field-Sets f no_fields r1 (λ _. refl) read) [
        | sets_key key k _ set ↦ from_key f key uid r1 r' fs k set later found
        | sets_uid uid' u _ set ↦
            let (accepted, same) = from_uid f uid' r1 r' fs u set later in
            let this : uid' ≡ uid = ground arith in rw this at accepted
      ]

  pub Accepted-read_fields :
      {fs : List (Option Field)} {uid : Bytes} {key : Option Bytes}
      → Accepted fs uid key
      → (r : CreateIndexFields) × (read_fields_from json no_fields fs ≡ ok r)
        × (r.uid ≡ some uid)
        × (r.primary_key ≡ key)
  unfolding read_fields_from
  Accepted-read_fields (only_uid {f} {uid} u) =
      (record no_fields { uid = some uid }, rw (read-UidField f no_fields uid u refl), refl, refl)
  Accepted-read_fields (uid_first {f} {g} {uid} {key} u k) =
      let first = record no_fields { uid = some uid } in
      (
        record first { has_primary_key = true; primary_key = key },
        rw (read-UidField f no_fields uid u refl) (rw (read-KeyField g first key k refl refl)),
        refl,
        refl,
      )
  Accepted-read_fields (key_first {f} {g} {uid} {key} k u) =
      let first = record no_fields { has_primary_key = true; primary_key = key } in
      (
        record first { uid = some uid },
        rw (read-KeyField f no_fields key k refl refl) (rw (read-UidField g first uid u refl)),
        refl,
        refl,
      )
