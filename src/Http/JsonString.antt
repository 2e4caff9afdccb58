-- ===== src/Http/JsonString.antt =====
-- src/adapters/http/json_string.hpp and json_string.cpp: quoted JSON strings.
pub mod Reading
use leta.Prelude.{ℕ, ◌/◌, ◌%◌, Bool, List, [], ◌∷◌, ◌++◌, ltb, ◌==◌, if◌then◌else◌, Bytes, codes}
use leta.Http.Hex.{hex_digit}

-- what append_unicode_escape appends: value >> 4 and value & 0x0F select the digits
unfoldable pub unicode_escape : ℕ → Bytes
unicode_escape byte =
    b'\\' ∷ b'u' ∷ b'0' ∷ b'0' ∷ hex_digit (byte / 16) ∷ hex_digit (byte % 16) ∷ []

-- FirstUnescapedByte
abbrev pub first_unescaped_byte : ℕ
first_unescaped_byte = 0x20

abbrev backslashed : ℕ → Bytes
backslashed c = b'\\' ∷ c ∷ []

-- what append_escaped appends
unfoldable pub escaped : ℕ → Bytes
escaped character =
    if character == b'"'
    then backslashed b'"'
    else if character == b'\\'
    then backslashed b'\\'
    else if character == 8
    then backslashed b'b'
    else if character == 12
    then backslashed b'f'
    else if character == 10
    then backslashed b'n'
    else if character == 13
    then backslashed b'r'
    else if character == 9
    then backslashed b't'
    else if ltb character first_unescaped_byte
    then unicode_escape character
    else character ∷ []

-- for (const char character : value) append_escaped(out, character);
unfoldable pub append_escaped_all : Bytes → Bytes → Bytes
append_escaped_all out [] = out
append_escaped_all out (character ∷ value) = append_escaped_all (out ++ escaped character) value

unfoldable pub append_json_string : Bytes → Bytes → Bytes
unfolding append_escaped_all escaped unicode_escape hex_digit
append_json_string out value = append_escaped_all (out ++ b'"' ∷ []) value ++ b'"' ∷ []
