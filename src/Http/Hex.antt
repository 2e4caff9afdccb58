-- ===== src/Http/Hex.antt =====
-- HexDigits of src/adapters/http/json_string.cpp and request_id.cpp, and its inverse.
use leta.Prelude.{
  ℕ, ◌+◌, ◌-◌, ◌≤◌, ◌<◌, ◌≡◌, refl, Bool, true, false, ◌&&◌, ◌||◌, Option, none, some, arith, leb,
  ◌==◌, if◌then◌else◌, codes, get_or, all_below, all_below_sound,
}

-- HexDigits[value]; every call has value < 16
unfoldable pub hex_digit : ℕ → ℕ
hex_digit value = get_or (codes "0123456789abcdef") value 0

-- What a hexadecimal digit, of either case, stands for.
unfoldable pub hex_value : ℕ → Option ℕ
hex_value c =
    if leb b'0' c && leb c b'9'
    then some (c - b'0')
    else if leb b'a' c && leb c b'f'
    then some (c - b'a' + 10)
    else if leb b'A' c && leb c b'F'
    then some (c - b'A' + 10)
    else none

abbrev pub is_value : ℕ → Option ℕ → Bool
is_value i none = false
is_value i (some v) = v == i

is_value-eq : (i : ℕ) (o : Option ℕ) → is_value i o ≡ true → o ≡ some i
is_value-eq i none h = cc
is_value-eq i (some v) h = ground arith

pub hex_value-hex_digit : (i : ℕ) → i < 16 → hex_value (hex_digit i) ≡ some i
unfolding hex_value hex_digit all_below
hex_value-hex_digit i h =
    is_value-eq i _ (all_below_sound 16 (λ i. is_value i (hex_value (hex_digit i))) i refl h)

-- A digit that the program writes is one of 0-9 and a-f.
abbrev pub is_lower_hex : ℕ → Bool
is_lower_hex c = (leb b'0' c && leb c b'9') || (leb b'a' c && leb c b'f')

pub hex_digit-is_lower_hex : (i : ℕ) → i < 16 → is_lower_hex (hex_digit i) ≡ true
unfolding hex_digit all_below
hex_digit-is_lower_hex i h = all_below_sound 16 (λ i. is_lower_hex (hex_digit i)) i refl h

pub hex_digit_printable : (i : ℕ) → i < 16 → 32 ≤ hex_digit i
hex_digit_printable i h = printable _ (hex_digit-is_lower_hex i h)
  where
    printable : (c : ℕ) → is_lower_hex c ≡ true → 32 ≤ c
    printable c e = ground arith
