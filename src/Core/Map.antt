-- ===== src/Core/Map.antt =====
-- std::map<std::string, V> as an association list, by its laws. The sources never iterate over a
-- map, so its order is not modelled. The representation is private.
use leta.Prelude.{
  ◌≡◌, Option, none, some, List, [], ◌∷◌, arith, if◌then◌else◌, Bytes, equal, equal_iff, equal_refl,
  refl, Bool-cases, inl, inr,
}

pub record Map {ℓ} (V : Type ℓ) : Type ℓ where
  entries : List (Bytes × V)

module _ {ℓ} {V : Type ℓ} where
  lookup_in : Bytes → List (Bytes × V) → Option V
  lookup_in k [] = none
  lookup_in k ((j, v) ∷ rest) = if equal j k then some v else lookup_in k rest

  put_in : Bytes → V → List (Bytes × V) → List (Bytes × V)
  put_in k v [] = (k, v) ∷ []
  put_in k v ((j, w) ∷ rest) = if equal j k then (k, v) ∷ rest else (j, w) ∷ put_in k v rest

  lookup_in-put_in :
      (k j : Bytes) (v : V) (m : List (Bytes × V))
      → lookup_in j (put_in k v m) ≡ (if equal k j then some v else lookup_in j m)
  unfolding lookup_in put_in
  lookup_in-put_in k j v [] = ground arith
  lookup_in-put_in k j v ((i, w) ∷ m) =
      ground (arith, equal_iff k j, equal_iff i k, equal_iff i j, lookup_in-put_in k j v m)

  unfoldable pub empty : Map V
  empty = record { entries = [] }

  -- find(key)
  unfoldable pub find : Map V → Bytes → Option V
  unfolding lookup_in
  find m k = lookup_in k m.entries

  -- an insertion or an assignment through a reference to the mapped value
  unfoldable pub put : Map V → Bytes → V → Map V
  unfolding put_in
  put m k v = record { entries = put_in k v m.entries }

  pub find-put :
      (m : Map V) (k j : Bytes) (v : V)
      → find (put m k v) j ≡ (if equal k j then some v else find m j)
  unfolding find put
  find-put m k j v = lookup_in-put_in k j v m.entries

  pub find-put_self : (m : Map V) (k : Bytes) (v : V) → find (put m k v) k ≡ some v
  find-put_self m k v = rw (find-put m k k v, equal_refl k)

pub find-put_twice {ℓ} :
    {V : Type ℓ} (m : Map V) (k j : Bytes) (v w : V)
    → find (put (put m k v) k w) j ≡ (if equal k j then some w else find m j)
find-put_twice m k j v w = elim (Bool-cases (equal k j)) [
  | inl same ↦ rw (find-put (put m k v) k j w, same)
  | inr other ↦ rw (find-put (put m k v) k j w, other, find-put m k j v, other)
]

pub find-empty {ℓ} : {V : Type ℓ} (k : Bytes) → find (empty {V = V}) k ≡ none
unfolding find empty
find-empty k = refl
