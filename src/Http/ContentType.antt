-- ===== src/Http/ContentType.antt =====
-- src/adapters/http/content_type.hpp and content_type.cpp: whether a Content-Type header names JSON.
pub mod Trim
pub mod Accepts
use leta.Prelude.{
  ℕ, ◌+◌, ◌-◌, Bool, true, false, not, ◌&&◌, Option, none, some, [], ◌∷◌, ◌==◌, leb, if◌then◌else◌,
  Bytes, codes, take, drop,
}
use leta.Prelude.Text.{is_in, find_from, find_last_from}

-- JsonMediaType
abbrev pub json_media_type : Bytes
json_media_type = codes "application/json"

-- Whitespace of trim_whitespace, " \t"
abbrev pub optional_whitespace : Bytes
optional_whitespace = 32 ∷ 9 ∷ []

-- text.substr(first, last - first + 1); `last` is found whenever `first` is
abbrev slice_to : Bytes → ℕ → Option ℕ → Bytes
slice_to text first none = []
slice_to text first (some last) = take (last - first + 1) (drop first text)

-- trim_whitespace
unfoldable pub trim_whitespace : Bytes → Bytes
unfolding find_from find_last_from
trim_whitespace text = elim (find_from (λ c. not (is_in optional_whitespace c)) 0 text) [
  | none ↦ []
  | some first ↦
      slice_to text first (find_last_from (λ c. not (is_in optional_whitespace c)) 0 text)
]

-- to_ascii_lower
unfoldable pub to_ascii_lower : ℕ → ℕ
to_ascii_lower character =
    if leb b'A' character && leb character b'Z' then character - b'A' + b'a' else character

-- equals_ignoring_ascii_case
unfoldable pub equals_ignoring_ascii_case : Bytes → Bytes → Bool
unfolding to_ascii_lower
equals_ignoring_ascii_case [] [] = true
equals_ignoring_ascii_case (l ∷ left) (r ∷ right) =
    to_ascii_lower l == to_ascii_lower r && equals_ignoring_ascii_case left right
equals_ignoring_ascii_case _ _ = false

-- text.substr(0, end), where `npos` takes the whole text
abbrev pub prefix_to : Bytes → Option ℕ → Bytes
prefix_to text none = text
prefix_to text (some end) = take end text

-- is_json_content_type
unfoldable pub is_json_content_type : Bytes → Bool
unfolding trim_whitespace equals_ignoring_ascii_case find_from
is_json_content_type header =
    let media_type = trim_whitespace (prefix_to header (find_from (λ c. c == b';') 0 header)) in
    equals_ignoring_ascii_case media_type json_media_type
