-- ===== src/Prelude/Padded.antt =====
-- Decimal numbers of a fixed width, with zeros in front.
use leta.Prelude.{
  ℕ, zero, suc, ◌+◌, ◌-◌, ◌*◌, ◌/◌, ◌%◌, ◌≤◌, ◌<◌, ◌≡◌, refl, ap, ◌∙◌, ◌&&◌, Option, none, some, [],
  ◌∷◌, ◌++◌, append_assoc, arith, ltb, leb, if◌then◌else◌, Bytes, length, length-append, replicate,
  Bool-cases, inl, inr,
}
use leta.Prelude.Text.{suc-add}
use leta.Prelude.Decimal.{digits_of, to_string, read_digits, read_digits-to_string}

abbrev pub ten_to : ℕ → ℕ
ten_to zero = 1
ten_to (suc w) = 10 * ten_to w

-- A number with zeros in front of it, up to the width.
abbrev pub padded : ℕ → ℕ → Bytes
padded width value = replicate (width - length (to_string value)) b'0' ++ to_string value

length-digits_of : (fuel n w : ℕ) → n < ten_to (suc w) → length (digits_of fuel n) ≤ suc w
unfolding digits_of
length-digits_of zero n w h = omega arith
length-digits_of (suc fuel) n zero h = elim (Bool-cases (ltb n 10)) [
  | inl small ↦ rw small (omega arith)
  | inr large ↦ absurd (ground arith)
]
length-digits_of (suc fuel) n (suc w) h = elim (Bool-cases (ltb n 10)) [
  | inl small ↦ rw small (omega arith)
  | inr large ↦ rw large (
      omega (
        arith,
        length-append (digits_of fuel (n / 10)) ((48 + n % 10) ∷ []),
        length-digits_of fuel (n / 10) w (omega arith),
      ))
]

length-to_string : (n w : ℕ) → n < ten_to (suc w) → length (to_string n) ≤ suc w
unfolding to_string
length-to_string n w h = length-digits_of (suc n) n w h

length-replicate : (n c : ℕ) → length (replicate n c) ≡ n
length-replicate zero c = refl
length-replicate (suc n) c = ap suc (length-replicate n c)

pub length-padded : (w n : ℕ) → n < ten_to (suc w) → length (padded (suc w) n) ≡ suc w
length-padded w n h =
    length-append (replicate (suc w - length (to_string n)) b'0') (to_string n)
    ∙ omega (arith, length-replicate (suc w - length (to_string n)) b'0', length-to_string n w h)

-- Exactly so many digits, after those that give `acc`.
unfoldable pub read_fixed : ℕ → ℕ → Bytes → Option (ℕ × Bytes)
read_fixed zero acc input = some (acc, input)
read_fixed (suc width) acc [] = none
read_fixed (suc width) acc (c ∷ cs) =
    let rest = read_fixed width (acc * 10 + (c - b'0')) cs in
    if leb b'0' c && leb c b'9' then rest else none

read_fixed-digits :
    (xs : Bytes) (acc n : ℕ) (rest : Bytes)
    → read_digits acc xs ≡ some n
    → read_fixed (length xs) acc (xs ++ rest) ≡ some (n, rest)
unfolding read_fixed read_digits
read_fixed-digits [] acc n rest h = ap (λ (a : ℕ). some (a, rest)) (cc)
read_fixed-digits (c ∷ cs) acc n rest h =
    ground (arith, read_fixed-digits cs (acc * 10 + (c - b'0')) n rest)

read_fixed-zeros :
    (zeros width : ℕ) (input : Bytes)
    → read_fixed (zeros + width) 0 (replicate zeros b'0' ++ input) ≡ read_fixed width 0 input
unfolding read_fixed
read_fixed-zeros zero width input = ap (λ (w : ℕ). read_fixed w 0 input) (omega arith)
read_fixed-zeros (suc zeros) width input =
    rw (suc-add zeros width) (read_fixed-zeros zeros width input)

pub read_fixed-padded :
    (w n : ℕ) (rest : Bytes)
    → n < ten_to (suc w)
    → read_fixed (suc w) 0 (padded (suc w) n ++ rest) ≡ some (n, rest)
read_fixed-padded w n rest h =
    let digits = to_string n in
    let zeros : ℕ = suc w - length digits in
    ap (λ (k : ℕ). read_fixed k 0 (padded (suc w) n ++ rest)) {y = zeros + length digits}
      (omega (arith, length-to_string n w h))
    ∙ ap (read_fixed (zeros + length digits) 0) (append_assoc (replicate zeros b'0') digits rest)
    ∙ read_fixed-zeros zeros (length digits) (digits ++ rest)
    ∙ read_fixed-digits digits 0 n rest (read_digits-to_string n)
