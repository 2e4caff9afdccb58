-- ===== src/Prelude/Decimal.antt =====
-- std::to_string of an unsigned number, and its inverse.
use leta.Prelude.{
  ℕ, zero, suc, ◌+◌, ◌-◌, ◌*◌, ◌/◌, ◌%◌, ◌<◌, ◌≡◌, ap, ◌∙◌, false, ◌&&◌, Option, none, some, [],
  ◌∷◌, ◌++◌, arith, ltb, leb, ltb→lt, le→leb, if◌then◌else◌, Bytes, Bool-cases, inl, inr,
}

abbrev pub digit_of : ℕ → ℕ
digit_of n = b'0' + n

-- One digit a round; the fuel is above the number.
unfoldable pub digits_of : ℕ → ℕ → Bytes
digits_of zero n = []
digits_of (suc fuel) n =
    let front = digits_of fuel (n / 10) in
    if ltb n 10 then digit_of n ∷ [] else front ++ digit_of (n % 10) ∷ []

unfoldable pub to_string : ℕ → Bytes
unfolding digits_of
to_string n = digits_of (suc n) n

-- The number that decimal digits stand for, after those that give `acc`.
unfoldable pub read_digits : ℕ → Bytes → Option ℕ
read_digits acc [] = some acc
read_digits acc (c ∷ cs) =
    let rest = read_digits (acc * 10 + (c - b'0')) cs in
    if leb b'0' c && leb c b'9' then rest else none

read_digits-digit :
    (acc d : ℕ) (cs : Bytes)
    → d < 10
    → read_digits acc (digit_of d ∷ cs) ≡ read_digits (acc * 10 + d) cs
unfolding read_digits
read_digits-digit acc d cs h =
    rw (le→leb 48 (48 + d) (omega arith), le→leb (48 + d) 57 (omega arith), back)
  where
    back : 48 + d - 48 ≡ d
    back = omega arith

read_digits-append :
    (xs : Bytes) (acc n : ℕ) (ys : Bytes)
    → read_digits acc xs ≡ some n
    → read_digits acc (xs ++ ys) ≡ read_digits n ys
unfolding read_digits
read_digits-append [] acc n ys h = ap (λ (a : ℕ). read_digits a ys) (cc)
read_digits-append (c ∷ cs) acc n ys h =
    ground (arith, read_digits-append cs (acc * 10 + (c - b'0')) n ys)

read_digits-whole : (n : ℕ) → read_digits (n / 10 * 10 + n % 10) [] ≡ some n
unfolding read_digits
read_digits-whole n = ap some (omega arith)

read_digits-nil : (n : ℕ) → read_digits (0 * 10 + n) [] ≡ some n
unfolding read_digits
read_digits-nil n = ap some (omega arith)

read_digits-digits_of : (fuel n : ℕ) → n < fuel → read_digits 0 (digits_of fuel n) ≡ some n
unfolding digits_of
read_digits-digits_of zero n h = absurd (omega arith)
read_digits-digits_of (suc fuel) n h = elim (Bool-cases (ltb n 10)) [
  | inl small ↦ rw small (read_digits-digit 0 n [] (ltb→lt n 10 small) ∙ read_digits-nil n)
  | inr large ↦ rw large (
      read_digits-append (digits_of fuel (n / 10)) 0 (n / 10) _
        (read_digits-digits_of fuel (n / 10) (shorter large))
      ∙ read_digits-digit (n / 10) (n % 10) [] (omega arith)
      ∙ read_digits-whole n)
]
  where
    shorter : ltb n 10 ≡ false → n / 10 < fuel
    shorter e = ground arith

-- The decimal text of a number reads back as the number.
pub read_digits-to_string : (n : ℕ) → read_digits 0 (to_string n) ≡ some n
unfolding to_string
read_digits-to_string n = read_digits-digits_of (suc n) n (omega arith)

-- The digits at the start of a text, after those that give `acc`, and what follows them.
unfoldable pub read_number : ℕ → Bytes → ℕ × Bytes
read_number acc [] = (acc, [])
read_number acc (c ∷ cs) =
    let longer = read_number (acc * 10 + (c - b'0')) cs in
    if leb b'0' c && leb c b'9' then longer else (acc, c ∷ cs)

pub read_number-digits :
    (xs : Bytes) (acc n c : ℕ) (rest : Bytes)
    → read_digits acc xs ≡ some n
    → (leb b'0' c && leb c b'9') ≡ false
    → read_number acc (xs ++ (c ∷ rest)) ≡ (n, c ∷ rest)
unfolding read_number read_digits
read_number-digits [] acc n c rest h other = rw other (ap (λ (a : ℕ). (a, c ∷ rest)) cc)
read_number-digits (x ∷ xs) acc n c rest h other =
    ground (arith, read_number-digits xs (acc * 10 + (x - b'0')) n c rest)
