-- ===== src/Http/DocumentRoutes/Depth.antt =====
-- What the validation of a value accepts: which values nest how deeply, and how its
-- recursion ends.
use leta.Prelude.{
  ℕ, zero, suc, ◌+◌, ◌≤◌, ◌<◌, ◌≡◌, ◌↔◌, refl, ap, false, none, some, arith, ltb, lt→ltb,
  if◌then◌else◌, Bool-cases, Option-cases, inl, inr,
}
use mathlib.Core.Path.{subst, fun_ext}
use leta.Core.Error.{Result, ok, err-ne-ok}
use leta.Http.DocumentRoutes.Validate.{
  nested_too_deeply, not_json, validate_typed, validate_value, validate_field_value,
}
use leta.Http.Simdjson.{Simdjson}
use leta.Http.DocumentRoutes.Level.{
  Child, Below, itself, under, Reads, validate_typed-ok, ok-validate_typed,
}

not_deep : (depth : ℕ) → depth ≤ 128 → ltb 128 depth ≡ false
not_deep depth h = ground arith

module _ (json : Simdjson) where
  open json use {Value, Object, Field, type, get_array, get_object, fields, unescaped_key, value}

  abbrev inner : ℕ → ℕ → Value → Result (Unit {0})
  inner fuel depth w = validate_value json fuel w (depth + 1)

  validate_value-ok :
      (fuel : ℕ) (v : Value) (depth : ℕ)
      → validate_value json (suc fuel) v depth ≡ ok tt
      → (depth ≤ 128) × Reads json v × ((w : Value) → Child json v w → inner fuel depth w ≡ ok tt)
  unfolding validate_value
  validate_value-ok fuel v depth h = elim (Bool-cases (ltb 128 depth)) [
    | inl deep ↦ absurd (err-ne-ok (rw deep at h))
    | inr shallow ↦ elim (Option-cases (type v)) [
      | inl no_type ↦ absurd (err-ne-ok (rw no_type at (rw shallow at h)))
      | inr (t, e) ↦
          let (reads, each) =
            validate_typed-ok json (inner fuel depth) v t e (rw e at (rw shallow at h)) in
          (ground arith, reads, each)
    ]
  ]

  ok-validate_value :
      (fuel : ℕ) (v : Value) (depth : ℕ)
      → depth ≤ 128
      → Reads json v
      → ((w : Value) → Child json v w → inner fuel depth w ≡ ok tt)
      → validate_value json (suc fuel) v depth ≡ ok tt
  unfolding validate_value
  ok-validate_value fuel v depth shallow reads each =
      let (t, e, typed) = ok-validate_typed json (inner fuel depth) v reads each in
      rw (not_deep depth shallow, e) typed

  -- Fuel above 128 - depth is never used up: one more changes no result, of whatever kind.
  pub validate_value_fuel :
      (fuel : ℕ) (v : Value) (depth : ℕ)
      → 128 < fuel + depth
      → validate_value json (suc fuel) v depth ≡ validate_value json fuel v depth
  unfolding validate_value
  validate_value_fuel zero v depth enough = rw (lt→ltb 128 depth (omega arith))
  validate_value_fuel (suc fuel) v depth enough =
      ap
        (λ validate.
          if ltb 128 depth
          then nested_too_deeply
          else elim (type v) [ none ↦ not_json | some t ↦ validate_typed json validate v t ])
        (fun_ext λ w. validate_value_fuel fuel w (depth + 1) (omega arith))

  no_fuel : (v : Value) (depth : ℕ) → validate_value json zero v depth ≡ ok tt → ⊥
  unfolding validate_value
  no_fuel v depth h = err-ne-ok h

  all-Below_ok :
      (fuel : ℕ) (v : Value) (depth : ℕ) (n : ℕ) (u : Value)
      → validate_value json fuel v depth ≡ ok tt
      → Below json u n v
      → (depth + n ≤ 128) × Reads json u
  all-Below_ok zero v depth n u h b = absurd (no_fuel v depth h)
  all-Below_ok (suc fuel) v depth n u h (itself same) =
      let (shallow, reads, _) = validate_value-ok fuel v depth h in
      (omega arith, subst (Reads json) same reads)
  all-Below_ok (suc fuel) v depth n u h (under {n = k} {w = w} c b) =
      let (_, _, each) = validate_value-ok fuel v depth h in
      let (shallow, reads) = all-Below_ok fuel w (depth + 1) k u (each w c) b in
      (omega arith, reads)

  ok_of_all-Below :
      (fuel : ℕ) (v : Value) (depth : ℕ)
      → 128 < fuel + depth
      → ((n : ℕ) (u : Value) → Below json u n v → (depth + n ≤ 128) × Reads json u)
      → validate_value json fuel v depth ≡ ok tt
  ok_of_all-Below zero v depth enough all = absurd (omega (arith, (all 0 v (itself refl)).0))
  ok_of_all-Below (suc fuel) v depth enough all =
      let (shallow, reads) = all 0 v (itself refl) in
      ok-validate_value fuel v depth (omega arith) reads λ w c.
        ok_of_all-Below fuel w (depth + 1) (omega arith)
          λ n u b. let (deeper, read) = all (suc n) u (under c b) in (omega arith, read)

  -- With fuel above 128 - depth, which the recursion never exhausts, `validate_value` accepts a value
  -- exactly when every value n levels below it, itself included, reads and lies at a depth
  -- `depth + n` of at most 128.
  pub validate_value_lem :
      (fuel : ℕ) (v : Value) (depth : ℕ)
      → 128 < fuel + depth
      → (validate_value json fuel v depth ≡ ok tt)
        ↔ ((n : ℕ) (u : Value) → Below json u n v → (depth + n ≤ 128) × Reads json u)
  validate_value_lem fuel v depth enough =
      (λ h n u b. all-Below_ok fuel v depth n u h b, ok_of_all-Below fuel v depth enough)

  -- A field value is accepted exactly when each value n levels below it reads, with n at most 127.
  pub validate_field_value_iff :
      (v : Value)
      → (validate_field_value json v ≡ ok tt)
        ↔ ((n : ℕ) (u : Value) → Below json u n v → (1 + n ≤ 128) × Reads json u)
  unfolding validate_field_value
  validate_field_value_iff v = validate_value_lem 128 v 1 (omega arith)
