-- ===== src/Core/WhitespaceTokenizer.antt =====
-- src/core/whitespace_tokenizer.hpp and whitespace_tokenizer.cpp: `split_on_whitespace`. A
-- `std::string_view` is its bytes, a position is a number, and `npos` is `none`.
pub mod Words
pub mod Laws
use leta.Prelude.{
  ℕ, zero, suc, ◌+◌, ◌-◌, Bool, true, false, not, ◌||◌, Option, none, some, List, [], ◌∷◌, ◌++◌,
  ◌==◌, if◌then◌else◌, Bytes, length, take, drop,
}
use leta.Prelude.Text.{is_in, find_from}

-- AsciiWhitespace, " \t\n\v\f\r"
abbrev pub ascii_whitespace : Bytes
ascii_whitespace = 32 ∷ 9 ∷ 10 ∷ 11 ∷ 12 ∷ 13 ∷ []

pub is_whitespace : ℕ → Bool
is_whitespace c = is_in ascii_whitespace c

-- text.find_first_of(AsciiWhitespace, position)
unfoldable pub find_first_of : Bytes → Option ℕ → Option ℕ
find_first_of text none = none
find_first_of text (some position) = find_from is_whitespace position (drop position text)

-- text.find_first_not_of(AsciiWhitespace, position)
unfoldable pub find_first_not_of : Bytes → Option ℕ → Option ℕ
find_first_not_of text none = none
find_first_not_of text (some position) =
    find_from (λ c. not (is_whitespace c)) position (drop position text)

-- text.substr(start, end - start); at `npos` the count is clamped to the rest of the text
unfoldable pub substr : Bytes → ℕ → Option ℕ → Bytes
substr text start none = drop start text
substr text start (some end) = take (end - start) (drop start text)

-- The `while` loop, with the words pushed so far. Each round but the last passes one word.
unfoldable pub split_loop : ℕ → Bytes → Option ℕ → List Bytes → List Bytes
split_loop zero text start words = words
split_loop (suc fuel) text none words = words
split_loop (suc fuel) text (some start) words =
    let end = find_first_of text (some start) in
    split_loop fuel text (find_first_not_of text end) (words ++ substr text start end ∷ [])

unfoldable pub split_on_whitespace : Bytes → List Bytes
unfolding split_loop find_first_not_of find_first_of find_from substr is_whitespace
split_on_whitespace text = split_loop (suc (length text)) text (find_first_not_of text (some 0)) []
