-- ===== src/Http/JsonString/Reading.antt =====
-- A reader of JSON strings (RFC 8259 §7, with `\u` escapes of ASCII characters), and what it makes of
-- the strings that the program writes.
use leta.Prelude.{
  ℕ, zero, suc, ◌+◌, ◌*◌, ◌/◌, ◌%◌, ◌≤◌, ◌<◌, ◌≡◌, refl, ap, sym, ◌∙◌, Option, none, some, [], ◌∷◌,
  ◌++◌, append-nil, append_assoc, arith, ltb, lt→ltb, ◌==◌, if◌then◌else◌, Bytes, All, All-append,
}
use leta.Http.Hex.{hex_digit, hex_value, hex_value-hex_digit, hex_digit_printable}
use leta.Http.JsonString.{unicode_escape, escaped, append_escaped_all, append_json_string}

-- `unicode k n`: of a `\u` escape, the digits read so far give n, and k more follow this one.
pub data Mode : Type 0 where
  plain escape : Mode
  unicode : ℕ → ℕ → Mode

pub data Action : Type 0 where
  stop reject : Action
  emit : ℕ → Action
  go_on : Mode → Action

abbrev emit_ascii : ℕ → Action
emit_ascii n = if ltb n 128 then emit n else reject

abbrev digit : ℕ → ℕ → Option ℕ → Action
digit k n none = reject
digit zero n (some v) = emit_ascii (n * 16 + v)
digit (suc k) n (some v) = go_on (unicode k (n * 16 + v))

unfoldable pub action : Mode → ℕ → Action
action plain c =
    if c == b'"'
    then stop
    else if c == b'\\'
    then go_on escape
    else if ltb c 32
    then reject
    else emit c
action escape c =
    if c == b'u'
    then go_on (unicode 3 0)
    else if c == b'b'
    then emit 8
    else if c == b'f'
    then emit 12
    else if c == b'n'
    then emit 10
    else if c == b'r'
    then emit 13
    else if c == b't'
    then emit 9
    else if c == b'"'
    then emit c
    else if c == b'\\'
    then emit c
    else if c == b'/'
    then emit c
    else reject
action (unicode k n) c = digit k n (hex_value c)

abbrev pub push : ℕ → Option (Bytes × Bytes) → Option (Bytes × Bytes)
push c none = none
push c (some (text, rest)) = some (c ∷ text, rest)

-- The text up to the closing quote, and what follows that.
unfoldable pub read_from : Mode → Bytes → Option (Bytes × Bytes)
read_from mode [] = none
read_from mode (c ∷ cs) = elim (action mode c) [
  | stop ↦ some ([], cs)
  | reject ↦ none
  | emit d ↦ push d (read_from plain cs)
  | go_on next ↦ read_from next cs
]

-- A quoted string at the start of the input, and what follows it.
unfoldable pub read_string : Bytes → Option (Bytes × Bytes)
unfolding read_from action hex_value
read_string [] = none
read_string (c ∷ cs) = if c == b'"' then read_from plain cs else none

module _ (n i : ℕ) (cs : Bytes) (small : i < 16) where
  read-digit :
      (k : ℕ)
      → read_from (unicode (suc k) n) (hex_digit i ∷ cs) ≡ read_from (unicode k (n * 16 + i)) cs
  unfolding read_from action
  read-digit k = rw (hex_value-hex_digit i small, read_from)

  read-last_digit :
      n * 16 + i < 128
      → read_from (unicode zero n) (hex_digit i ∷ cs) ≡ push (n * 16 + i) (read_from plain cs)
  unfolding read_from action
  read-last_digit ascii = rw (hex_value-hex_digit i small, lt→ltb _ _ ascii, read_from)

read-unicode_escape :
    (c : ℕ) (rest : Bytes)
    → c < 32
    → read_from plain (unicode_escape c ++ rest) ≡ push c (read_from plain rest)
unfolding read_from action unicode_escape hex_value
read-unicode_escape c rest h =
    read-digit 0 (c / 16) _ (omega arith) 0
    ∙ read-last_digit _ (c % 16) rest (omega arith) (omega arith)
    ∙ ap (λ (d : ℕ). push d (read_from plain rest)) (omega arith)

read-escaped :
    (c : ℕ) (rest : Bytes) → read_from plain (escaped c ++ rest) ≡ push c (read_from plain rest)
unfolding read_from action escaped
read-escaped c rest = ground (arith, read-unicode_escape c rest)

-- The escaped text with no accumulator.
abbrev pub escaped_all : Bytes → Bytes
escaped_all [] = []
escaped_all (c ∷ cs) = escaped c ++ escaped_all cs

append_escaped_all-escaped_all :
    (out value : Bytes) → append_escaped_all out value ≡ out ++ escaped_all value
unfolding append_escaped_all
append_escaped_all-escaped_all out [] = sym (append-nil out)
append_escaped_all-escaped_all out (c ∷ cs) =
    append_escaped_all-escaped_all (out ++ escaped c) cs ∙ append_assoc out (escaped c) _

-- The quoted text that the program appends.
abbrev pub quoted : Bytes → Bytes
quoted value = b'"' ∷ (escaped_all value ++ b'"' ∷ [])

pub append_json_string-quoted :
    (out value : Bytes) → append_json_string out value ≡ out ++ quoted value
unfolding append_json_string
append_json_string-quoted out value =
    ap (λ text. text ++ b'"' ∷ []) (append_escaped_all-escaped_all (out ++ b'"' ∷ []) value)
    ∙ simp append_assoc

read-escaped_all :
    (value rest : Bytes) → read_from plain (escaped_all value ++ b'"' ∷ rest) ≡ some (value, rest)
unfolding read_from action
read-escaped_all [] rest = refl
read-escaped_all (c ∷ cs) rest =
    ap (read_from plain) (append_assoc (escaped c) (escaped_all cs) _)
    ∙ read-escaped c _
    ∙ ap (push c) (read-escaped_all cs rest)

pub read_string-quoted :
    (value rest : Bytes) → read_string (quoted value ++ rest) ≡ some (value, rest)
unfolding read_string
read_string-quoted value rest =
    ap (read_from plain) (append_assoc (escaped_all value) (b'"' ∷ []) rest)
    ∙ read-escaped_all value rest

-- `append_json_string` only appends, and what it appends is a JSON string that a reader takes back
-- to the value, whatever bytes the value holds and whatever follows.
pub read_string-append_json_string :
    (out value rest : Bytes)
    → (append_json_string out value ≡ out ++ append_json_string [] value)
      × (read_string (append_json_string [] value ++ rest) ≡ some (value, rest))
read_string-append_json_string out value rest = (
  append_json_string-quoted out value ∙ ap (◌++◌ out) (sym (append_json_string-quoted [] value)),
  ap (λ text. read_string (text ++ rest)) (append_json_string-quoted [] value)
      ∙ read_string-quoted value rest,
)

abbrev IsPrintable : ℕ → Type 0
IsPrintable c = 32 ≤ c

escaped-IsPrintable : (c : ℕ) → All IsPrintable (escaped c)
unfolding escaped unicode_escape
escaped-IsPrintable c = ground (arith, hex_digit_printable (c / 16), hex_digit_printable (c % 16))

escaped_all-IsPrintable : (value : Bytes) → All IsPrintable (escaped_all value)
escaped_all-IsPrintable [] = tt
escaped_all-IsPrintable (c ∷ cs) =
    All-append IsPrintable (escaped c) _ (escaped-IsPrintable c) (escaped_all-IsPrintable cs)

-- No control byte of the value reaches the output: every byte appended is at least 0x20.
pub append_json_string-IsPrintable :
    (value : Bytes) → All (λ c. 32 ≤ c) (append_json_string [] value)
append_json_string-IsPrintable value = rw (append_json_string-quoted [] value) (
  omega arith,
  All-append IsPrintable (escaped_all value) _ (escaped_all-IsPrintable value) (omega arith, tt),
)
