-- ===== src/Http/DocumentRoutes/Level.antt =====
-- What validate_value asks of one level of a value, and what lies directly below it.
use leta.Prelude.{
  ℕ, zero, suc, ◌≡◌, ◌≢◌, refl, true, Option, none, some, List, [], ◌∷◌, arith, All, Bool-cases,
  Option-cases, inl, inr,
}
use mathlib.Core.Path.{subst}
use leta.Core.Error.{Result, ok, >>=-eq-ok, err-ne-ok}
use leta.Http.DocumentRoutes.Validate.{
  succeeds, reads_as_scalar, validate_elements, validate_array, validate_fields, validate_object,
  validate_typed,
}
use leta.Http.Simdjson.{Simdjson, JsonType, array, object, number, string, boolean, null, unknown}

pub data In {ℓ} {A : Type ℓ} (a : A) : List A → Type ℓ where
  head : {x : A} {xs : List A} → x ≡ a → In a (x ∷ xs)
  tail : {x : A} {xs : List A} → In a xs → In a (x ∷ xs)

module _ (json : Simdjson) where
  open json use {Value, Object, Field, type, get_array, get_object, fields, unescaped_key, value}

  -- `w` is an element or a member's value of `v`.
  pub data Child (v w : Value) : Type 0 where
    element :
        (xs : List (Option Value))
        → type v ≡ some array
        → get_array v ≡ some xs
        → In (some w) xs
        → Child v w
    member :
        (o : Object) (f : Field)
        → type v ≡ some object
        → get_object v ≡ some o
        → In (some f) (fields o)
        → value f ≡ w
        → Child v w

  -- `u` lies n levels below a value.
  pub data Below (u : Value) : ℕ → Value → Type 0 where
    itself : {v : Value} → v ≡ u → Below u zero v
    under : {n : ℕ} {v w : Value} → Child v w → Below u n w → Below u (suc n) v

  abbrev KeyReads : Option Field → Type 0
  KeyReads none = ⊥
  KeyReads (some f) = succeeds (unescaped_key f) ≡ true

  -- The value itself reads: a scalar by its type, an array with each element, an object with each
  -- member and its key.
  pub data Reads (v : Value) : Type 0 where
    scalar : (t : JsonType) → type v ≡ some t → reads_as_scalar json v t ≡ true → Reads v
    elements :
        (xs : List (Option Value))
        → type v ≡ some array
        → get_array v ≡ some xs
        → All (λ x. succeeds x ≡ true) xs
        → Reads v
    members :
        (o : Object)
        → type v ≡ some object
        → get_object v ≡ some o
        → All KeyReads (fields o)
        → Reads v

  module _ (validate : Value → Result (Unit {0})) where
    validate_elements-ok :
        (xs : List (Option Value))
        → validate_elements json validate xs ≡ ok tt
        → All (λ x. succeeds x ≡ true) xs × ((w : Value) → In (some w) xs → validate w ≡ ok tt)
    unfolding validate_elements
    validate_elements-ok [] h = (tt, λ w i. elim i [ ])
    validate_elements-ok (none ∷ xs) h = absurd (err-ne-ok h)
    validate_elements-ok (some x ∷ xs) h =
        let (_, first, later) =
          >>=-eq-ok (validate x) (λ _. validate_elements json validate xs) h in
        let (all, each) = validate_elements-ok xs later in ((refl, all), from x xs first each)
      where
        from :
            (x : Value) (xs : List (Option Value))
            → {u : Unit {0}} → validate x ≡ ok u
            → ((w : Value) → In (some w) xs → validate w ≡ ok tt)
            → (w : Value) → In (some w) (some x ∷ xs)
            → validate w ≡ ok tt
        from x xs first each w (head e) = subst (λ z. validate z ≡ ok tt) (cc) first
        from x xs first each w (tail i) = each w i

    ok-validate_elements :
        (xs : List (Option Value))
        → All (λ x. succeeds x ≡ true) xs
        → ((w : Value) → In (some w) xs → validate w ≡ ok tt)
        → validate_elements json validate xs ≡ ok tt
    unfolding validate_elements
    ok-validate_elements [] all each = refl
    ok-validate_elements (none ∷ xs) all each = absurd (ground (arith, all.0))
    ok-validate_elements (some x ∷ xs) all each =
        rw (each x (head refl)) (ok-validate_elements xs all.1 (λ w i. each w (tail i)))

    ok-validate_fields :
        (fs : List (Option Field))
        → All KeyReads fs
        → ((f : Field) → In (some f) fs → validate (value f) ≡ ok tt)
        → validate_fields json validate fs ≡ ok tt
    unfolding validate_fields
    ok-validate_fields [] all each = refl
    ok-validate_fields (none ∷ fs) all each = absurd all.0
    ok-validate_fields (some f ∷ fs) all each =
        rw (all.0, each f (head refl)) (ok-validate_fields fs all.1 (λ g i. each g (tail i)))

    validate_fields-ok :
        (fs : List (Option Field))
        → validate_fields json validate fs ≡ ok tt
        → All KeyReads fs × ((f : Field) → In (some f) fs → validate (value f) ≡ ok tt)
    unfolding validate_fields
    validate_fields-ok [] h = (tt, λ f i. elim i [ ])
    validate_fields-ok (none ∷ fs) h = absurd (err-ne-ok h)
    validate_fields-ok (some f ∷ fs) h = elim (Bool-cases (succeeds (unescaped_key f))) [
      | inr unread ↦ absurd (err-ne-ok (rw unread at h))
      | inl reads ↦
          let (_, first, later) =
            >>=-eq-ok (validate (value f)) (λ _. validate_fields json validate fs)
              (rw reads at h) in
          let (all, each) = validate_fields-ok fs later in ((reads, all), from f fs first each)
    ]
      where
        from :
            (f : Field) (fs : List (Option Field))
            → {u : Unit {0}} → validate (value f) ≡ ok u
            → ((g : Field) → In (some g) fs → validate (value g) ≡ ok tt)
            → (g : Field) → In (some g) (some f ∷ fs)
            → validate (value g) ≡ ok tt
        from f fs first each g (head e) = subst (λ z. validate (value z) ≡ ok tt) (cc) first
        from f fs first each g (tail i) = each g i

    no_children :
        (v : Value) (t : JsonType)
        → type v ≡ some t
        → t ≢ array
        → t ≢ object
        → (w : Value) → Child v w
        → validate w ≡ ok tt
    no_children v t e a o w (element _ e' _ _) = absurd (a (cc))
    no_children v t e a o w (member _ _ e' _ _ _) = absurd (o (cc))

    -- One level: a value of a known type passes when it reads and its children pass.
    pub validate_typed-ok :
        (v : Value) (t : JsonType)
        → type v ≡ some t
        → validate_typed json validate v t ≡ ok tt
        → Reads v × ((w : Value) → Child v w → validate w ≡ ok tt)
    unfolding validate_typed reads_as_scalar
    validate_typed-ok v array e h = elim (Option-cases (get_array v)) [
      | inl no_array ↦ absurd (ground arith)
      | inr (xs, got) ↦
          let (all, each) = validate_elements-ok xs (rw (got, validate_array) at h) in
          (elements xs e got all, children xs got each)
    ]
      where
        children :
            (xs : List (Option Value))
            → get_array v ≡ some xs
            → ((w : Value) → In (some w) xs → validate w ≡ ok tt)
            → (w : Value) → Child v w
            → validate w ≡ ok tt
        children xs got each w (element ys _ got' i) = each w (subst (λ zs. In (some w) zs) (cc) i)
        children xs got each w (member o f e' _ _ _) = cc
    validate_typed-ok v object e h = elim (Option-cases (get_object v)) [
      | inl no_object ↦ absurd (ground arith)
      | inr (o, got) ↦
          let (all, each) = validate_fields-ok (fields o) (rw (got, validate_object) at h) in
          (members o e got all, children o got each)
    ]
      where
        children :
            (o : Object)
            → get_object v ≡ some o
            → ((f : Field) → In (some f) (fields o) → validate (value f) ≡ ok tt)
            → (w : Value) → Child v w
            → validate w ≡ ok tt
        children o got each w (element ys e' got' i) = cc
        children o got each w (member o' f _ got' i same) =
            subst (λ z. validate z ≡ ok tt) same
              (each f (subst (λ p. In (some f) (fields p)) (cc) i))
    validate_typed-ok v number e h =
        (scalar number e (ground arith), no_children v number e (λ c. cc) (λ c. cc))
    validate_typed-ok v string e h =
        (scalar string e (ground arith), no_children v string e (λ c. cc) (λ c. cc))
    validate_typed-ok v boolean e h =
        (scalar boolean e (ground arith), no_children v boolean e (λ c. cc) (λ c. cc))
    validate_typed-ok v null e h =
        (scalar null e (ground arith), no_children v null e (λ c. cc) (λ c. cc))
    validate_typed-ok v unknown e h = absurd (ground arith)

    pub ok-validate_typed :
        (v : Value)
        → Reads v
        → ((w : Value) → Child v w → validate w ≡ ok tt)
        → (t : JsonType) × (type v ≡ some t) × (validate_typed json validate v t ≡ ok tt)
    unfolding validate_typed reads_as_scalar
    ok-validate_typed v (scalar t e reads) each = (t, e, ground arith)
    ok-validate_typed v (elements xs e got all) each = (
      array,
      e,
      rw (got, validate_array) (ok-validate_elements xs all (λ w i. each w (element xs e got i))),
    )
    ok-validate_typed v (members o e got all) each = (
      object,
      e,
      rw (got, validate_object)
          (ok-validate_fields (fields o) all (λ f i. each (value f) (member o f e got i refl))),
    )
