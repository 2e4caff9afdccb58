-- ===== src/Core/Error.antt =====
-- src/core/error.hpp, error.cpp and result.hpp: failures as values.
use leta.Prelude.{◌≡◌, ◌⊎◌, inl, inr, refl, Bytes}

-- enum class ErrorCode
pub data ErrorCode : Type 0 where
  malformed_request payload_too_large invalid_index_uid unknown_field : ErrorCode
  index_already_exists route_not_found internal : ErrorCode

-- enum class ErrorType; the fault classes carry their own names, since `internal` is a code too.
pub data ErrorType : Type 0 where
  invalid_request auth not_found internal : ErrorType

-- struct Error
pub record Error : Type 0 where
  pub code : ErrorCode
  pub message : Bytes

-- error_type
unfoldable pub error_type : ErrorCode → ErrorType
error_type malformed_request = invalid_request
error_type payload_too_large = invalid_request
error_type invalid_index_uid = invalid_request
error_type unknown_field = invalid_request
error_type index_already_exists = invalid_request
error_type route_not_found = not_found
error_type ErrorCode.internal = ErrorType.internal

-- Result<T>: tl::expected<T, Error>
pub data Result {ℓ} (T : Type ℓ) : Type ℓ where
  err : Error → Result T
  ok : T → Result T

-- failure(code, message)
abbrev pub failure {ℓ} : {T : Type ℓ} → ErrorCode → Bytes → Result T
failure code message = err (record { code = code; message = message })

-- `if (!r) return core::failure(r.error());` before the rest of a function, which reads the value.
infixl 5 ◌>>=◌
abbrev pub ◌>>=◌ {ℓ κ} : {T : Type ℓ} {U : Type κ} → Result T → (T → Result U) → Result U
err error >>= rest = err error
ok value >>= rest = rest value

-- The same, where the rest does not read the value.
infixl 5 ◌>>◌
abbrev pub ◌>>◌ {ℓ κ} : {T : Type ℓ} {U : Type κ} → Result T → Result U → Result U
checked >> rest = checked >>= λ unread. rest

pub >>=-eq-ok {ℓ κ} :
    {T : Type ℓ} {U : Type κ} (checked : Result T) (rest : T → Result U) {u : U}
    → (checked >>= rest) ≡ ok u
    → (t : T) × (checked ≡ ok t) × (rest t ≡ ok u)
>>=-eq-ok (err error) rest through = cc
>>=-eq-ok (ok value) rest through = (value, refl, through)

pub ok-ne-err {ℓ} : {A : Type ℓ} {r : Result A} {a : A} {e : Error} → r ≡ ok a → r ≡ err e → ⊥
ok-ne-err p q = cc

pub ok_injective {ℓ} : {A : Type ℓ} {a b : A} → ok a ≡ ok b → a ≡ b
ok_injective p = cc

pub err-ne-ok {ℓ} : {A : Type ℓ} {e : Error} {a : A} → err e ≡ ok a → ⊥
err-ne-ok p = cc

-- To split on a result and keep the equation.
pub Result-cases {ℓ} :
    {A : Type ℓ} (r : Result A) → ((a : A) × (r ≡ ok a)) ⊎ ((e : Error) × (r ≡ err e))
Result-cases (ok a) = inl (a, refl)
Result-cases (err e) = inr (e, refl)
