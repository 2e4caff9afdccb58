-- ===== src/Http/RequestId.antt =====
-- src/adapters/http/request_id.hpp and request_id.cpp: which inbound ids are echoed, and the text of
-- a fresh one. The two words of `generate_request_id` come from a random engine: an argument.
pub mod Format
use leta.Prelude.{
  ℕ, zero, suc, ◌+◌, ◌-◌, ◌*◌, ◌/◌, ◌%◌, ◌^◌, Bool, not, ◌&&◌, ◌||◌, List, [], ◌∷◌, ◌++◌, leb, ◌==◌,
  Bytes, length, all_of,
}
use leta.Core.IndexUid.{empty}
use leta.Http.Hex.{hex_digit}

-- MaxRequestIdLength
abbrev pub max_request_id_length : ℕ
max_request_id_length = 128

-- is_request_id_character
unfoldable pub is_request_id_character : ℕ → Bool
is_request_id_character character =
    let is_lower = leb b'a' character && leb character b'z' in
    let is_upper = leb b'A' character && leb character b'Z' in
    let is_digit = leb b'0' character && leb character b'9' in
    is_lower || is_upper || is_digit || character == b'-' || character == b'_' || character == b'.'

-- is_acceptable_request_id
unfoldable pub is_acceptable_request_id : Bytes → Bool
is_acceptable_request_id candidate =
    not (empty candidate)
    && leb (length candidate) max_request_id_length
    && all_of is_request_id_character candidate

-- HexDigitsPerWord, BitsPerHexDigit
abbrev pub hex_digits_per_word : ℕ
hex_digits_per_word = 16

abbrev pub bits_per_hex_digit : ℕ
bits_per_hex_digit = 4

-- the loop of append_hex_word from `position`, with the rounds that are left
unfoldable pub append_hex_from : ℕ → ℕ → Bytes → ℕ → Bytes
append_hex_from zero position out word = out
append_hex_from (suc rounds) position out word =
    let shift = (hex_digits_per_word - 1 - position) * bits_per_hex_digit in
    append_hex_from rounds (position + 1) (out ++ hex_digit (word / 2 ^ shift % 16) ∷ []) word

unfoldable pub append_hex_word : Bytes → ℕ → Bytes
unfolding append_hex_from hex_digit
append_hex_word out word = append_hex_from hex_digits_per_word 0 out word

-- format_request_id
unfoldable pub format_request_id : ℕ → ℕ → Bytes
unfolding append_hex_word
format_request_id high low = append_hex_word (append_hex_word [] high) low

-- generate_request_id, on the two words that the engine gives next
abbrev pub generate_request_id : ℕ × ℕ → Bytes
generate_request_id words = format_request_id words.0 words.1
