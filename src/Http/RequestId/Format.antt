-- ===== src/Http/RequestId/Format.antt =====
-- The text of a fresh request id.
use native.Mathlib.Nat.{add-mul-mod_self_right, mod-eq_of_lt, div-add-mod}
use leta.Prelude.{
  ℕ, zero, suc, ◌+◌, ◌-◌, ◌*◌, ◌/◌, ◌%◌, ◌^◌, ◌<◌, ◌≡◌, refl, ap, sym, ◌∙◌, true, Option, none,
  some, [], ◌∷◌, ◌++◌, append-nil, append_assoc, arith, Bytes, length, length-append, all_of,
  all_of-append, le→leb,
}
use leta.Http.Hex.{hex_digit, hex_value, hex_value-hex_digit, is_lower_hex, hex_digit-is_lower_hex}
use leta.Http.RequestId.{
  append_hex_from, format_request_id, is_acceptable_request_id, is_request_id_character,
}

-- The digits that the loop writes, with no accumulator.
abbrev hexes : ℕ → ℕ → ℕ → Bytes
hexes zero position word = []
hexes (suc rounds) position word =
    hex_digit (word / 2 ^ ((16 - 1 - position) * 4) % 16) ∷ hexes rounds (position + 1) word

append_hex_from-hexes :
    (rounds position : ℕ) (out : Bytes) (word : ℕ)
    → append_hex_from rounds position out word ≡ out ++ hexes rounds position word
unfolding append_hex_from
append_hex_from-hexes zero position out word = sym (append-nil out)
append_hex_from-hexes (suc rounds) position out word =
    append_hex_from-hexes rounds (position + 1) _ word ∙ append_assoc out (_ ∷ []) _

-- The number that hexadecimal digits stand for, after those that give `acc`.
unfoldable pub hex_number : ℕ → Bytes → Option ℕ
unfolding hex_value
hex_number acc [] = some acc
hex_number acc (c ∷ cs) = elim (hex_value c) [ none ↦ none | some v ↦ hex_number (acc * 16 + v) cs ]

exponent-step : (r : ℕ) → suc r * 4 ≡ suc (suc (suc (suc (r * 4))))
exponent-step r = omega arith

pow-step : (r : ℕ) → 2 ^ (suc r * 4) ≡ 16 * 2 ^ (r * 4)
pow-step r = rw (exponent-step r) (omega arith)

mod_unique : (k d r : ℕ) → r < d → (r + k * d) % d ≡ r
mod_unique k d r h = add-mul-mod_self_right r k d ∙ mod-eq_of_lt h

low_digit-lt : (q m s : ℕ) → q < 16 → s < m → q * m + s < 16 * m
low_digit-lt q m s h k = grind arith

regroup :
    (w m low high q : ℕ)
    → q ≡ 16 * high + low
    → m * q + w % m ≡ w
    → w ≡ (low * m + w % m) + high * (16 * m)
regroup w m low high q e whole = omega (arith, ap (λ (t : ℕ). t * m) e)

mod-step : (w m : ℕ) → 0 < m → w % (16 * m) ≡ (w / m % 16) * m + w % m
mod-step w m pos =
    let q = w / m in
    ap (λ (x : ℕ). x % (16 * m)) {y = (q % 16 * m + w % m) + q / 16 * (16 * m)}
      (regroup w m (q % 16) (q / 16) q (omega arith) (div-add-mod w m))
    ∙ mod_unique (q / 16) (16 * m) _ (low_digit-lt (q % 16) m (w % m) (omega arith) (omega arith))

place_pos : (r : ℕ) → 0 < 2 ^ (r * 4)
place_pos zero = omega arith
place_pos (suc r) = omega (arith, pow-step r, place_pos r)

hex_number-nil : (acc : ℕ) → hex_number acc [] ≡ some acc
unfolding hex_number
hex_number-nil acc = refl

hex_number-digit :
    (acc d : ℕ) (cs : Bytes)
    → d < 16
    → hex_number acc (hex_digit d ∷ cs) ≡ hex_number (acc * 16 + d) cs
unfolding hex_number
hex_number-digit acc d cs h = rw (hex_value-hex_digit d h, hex_number)

-- Putting one more digit in front adds its place value.
place-step :
    (acc word r : ℕ)
    → (acc * 16 + word / 2 ^ (r * 4) % 16) * 2 ^ (r * 4) + word % 2 ^ (r * 4)
      ≡ acc * 2 ^ (suc r * 4) + word % 2 ^ (suc r * 4)
place-step acc word r = rw (pow-step r) (omega (arith, mod-step word (2 ^ (r * 4)) (place_pos r)))

hex_number-hexes :
    (rounds position acc word : ℕ) (rest : Bytes)
    → rounds + position ≡ 16
    → hex_number acc (hexes rounds position word ++ rest)
      ≡ hex_number (acc * 2 ^ (rounds * 4) + word % 2 ^ (rounds * 4)) rest
hex_number-hexes zero position acc word rest e = ap (λ (n : ℕ). hex_number n rest) (omega arith)
hex_number-hexes (suc rounds) position acc word rest e = rw shift (
    hex_number-digit acc (word / 2 ^ (rounds * 4) % 16) _ (omega arith)
    ∙ hex_number-hexes rounds (position + 1) _ word rest (omega arith)
    ∙ ap (λ (n : ℕ). hex_number n rest) (place-step acc word rounds))
  where
    shift : (16 - 1 - position) * 4 ≡ rounds * 4
    shift = omega arith

length-hexes : (rounds position word : ℕ) → length (hexes rounds position word) ≡ rounds
length-hexes zero position word = refl
length-hexes (suc rounds) position word = ap suc (length-hexes rounds (position + 1) word)

all_of-hexes : (rounds position word : ℕ) → all_of is_lower_hex (hexes rounds position word) ≡ true
all_of-hexes zero position word = refl
all_of-hexes (suc rounds) position word =
    rw (hex_digit-is_lower_hex (word / 2 ^ ((16 - 1 - position) * 4) % 16) (omega arith))
      (all_of-hexes rounds (position + 1) word)

format-hexes : (high low : ℕ) → format_request_id high low ≡ hexes 16 0 high ++ hexes 16 0 low
unfolding format_request_id
format-hexes high low =
    append_hex_from-hexes 16 0 (append_hex_from 16 0 [] high) low
    ∙ ap (λ text. text ++ hexes 16 0 low) (append_hex_from-hexes 16 0 [] high)

is_request_id_character_of_hex :
    (cs : Bytes) → all_of is_lower_hex cs ≡ true → all_of is_request_id_character cs ≡ true
unfolding is_request_id_character
is_request_id_character_of_hex [] h = refl
is_request_id_character_of_hex (c ∷ cs) h = ground (arith, is_request_id_character_of_hex cs)

acceptable_of :
    (text : Bytes)
    → length text ≡ 32
    → all_of is_request_id_character text ≡ true
    → is_acceptable_request_id text ≡ true
unfolding is_acceptable_request_id
acceptable_of [] size chars = absurd (omega arith)
acceptable_of (c ∷ cs) size chars = rw (chars, le→leb (length (c ∷ cs)) 128 (omega arith))

-- A fresh id made of two 64-bit words is 32 lowercase hexadecimal digits, is one that the server
-- itself would accept from a client, and reads back as the two words, `high` first.
pub format_request_id_lem :
    (high low : ℕ)
    → high < 2 ^ 64
    → low < 2 ^ 64
    → (length (format_request_id high low) ≡ 32)
      × (all_of is_lower_hex (format_request_id high low) ≡ true)
      × (is_acceptable_request_id (format_request_id high low) ≡ true)
      × (hex_number 0 (format_request_id high low) ≡ some (high * 2 ^ 64 + low))
format_request_id_lem high low h l = rw (format-hexes high low) (
    let text = hexes 16 0 high ++ hexes 16 0 low in
    let size : length text ≡ 32 =
      length-append (hexes 16 0 high) (hexes 16 0 low)
      ∙ omega (arith, length-hexes 16 0 high, length-hexes 16 0 low) in
    let digits : all_of is_lower_hex text ≡ true =
      all_of-append is_lower_hex (hexes 16 0 high) (hexes 16 0 low) (all_of-hexes 16 0 high)
        (all_of-hexes 16 0 low) in
    (size, digits, acceptable_of text size (is_request_id_character_of_hex text digits), number))
  where
    number : hex_number 0 (hexes 16 0 high ++ hexes 16 0 low) ≡ some (high * 2 ^ 64 + low)
    number =
        hex_number-hexes 16 0 0 high (hexes 16 0 low) refl
        ∙ ap (hex_number _) (sym (append-nil (hexes 16 0 low)))
        ∙ hex_number-hexes 16 0 _ low [] refl
        ∙ hex_number-nil _
        ∙ ap some (omega arith)
