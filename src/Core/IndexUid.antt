-- ===== src/Core/IndexUid.antt =====
-- src/core/index_uid.hpp and index_uid.cpp: the name of an index, valid by construction.
use leta.Prelude.{
  ℕ, ◌≤◌, ◌≡◌, ◌↔◌, ◌⊎◌, inl, inr, Bool, true, false, not, ◌&&◌, ◌||◌, List, [], ◌∷◌, arith, leb,
  ◌==◌, if◌then◌else◌, Bool-cases, Bytes, codes, length, all_of, All, all_of_iff, ap, sym, ◌∙◌,
  refl, leb→le, le→leb,
}
use leta.Core.Error.{Result, ok, err, failure, Error, invalid_index_uid, ok-ne-err, ok_injective}

-- class IndexUid; `parse` is the program's only way to make one
pub record IndexUid : Type 0 where
  pub value : Bytes

abbrev max_uid_length : ℕ
max_uid_length = 64

unfoldable pub is_uid_character : ℕ → Bool
is_uid_character c =
    (leb b'a' c && leb c b'z')
    || (leb b'A' c && leb c b'Z')
    || (leb b'0' c && leb c b'9')
    || c == b'_'
    || c == b'-'

abbrev pub uid_message : Bytes
uid_message = codes "An index uid is 1 to 64 characters, each an ASCII letter, digit, `_` or `-`."

abbrev pub uid_error : Error
uid_error = record { code = invalid_index_uid; message = uid_message }

-- text.empty()
abbrev pub empty {ℓ} : {A : Type ℓ} → List A → Bool
empty [] = true
empty (x ∷ xs) = false

-- IndexUid::parse
unfoldable pub parse : Bytes → Result IndexUid
parse text =
    let has_valid_length = not (empty text) && leb (length text) max_uid_length in
    if not has_valid_length || not (all_of is_uid_character text)
    then failure invalid_index_uid uid_message
    else ok (record { value = text })

-- What FR-01 says of one character, as ranges of numbers.
abbrev pub IsUidCharacter : ℕ → Type 0
IsUidCharacter c =
    ((b'a' ≤ c) × (c ≤ b'z'))
    ⊎ ((b'A' ≤ c) × (c ≤ b'Z'))
    ⊎ ((b'0' ≤ c) × (c ≤ b'9'))
    ⊎ (c ≡ b'_')
    ⊎ (c ≡ b'-')

-- FR-01: 1 to 64 characters of [a-zA-Z0-9_-].
pub record IsUid (text : Bytes) : Type 0 where
  pub at_least : 1 ≤ length text
  pub at_most : length text ≤ 64
  pub characters : All IsUidCharacter text

is_uid_character_iff : (c : ℕ) → (is_uid_character c ≡ true) ↔ IsUidCharacter c
unfolding is_uid_character
is_uid_character_iff c = ground arith

all_of-is_uid_character_iff :
    (text : Bytes) → (all_of is_uid_character text ≡ true) ↔ All IsUidCharacter text
all_of-is_uid_character_iff = all_of_iff IsUidCharacter is_uid_character is_uid_character_iff

pub parse-IsUid : (text : Bytes) → IsUid text → parse text ≡ ok (record { value = text })
unfolding parse
parse-IsUid [] u = absurd (omega (arith, u.at_least))
parse-IsUid (c ∷ cs) u =
    rw
      ((all_of-is_uid_character_iff (c ∷ cs)).1 u.characters, le→leb (length (c ∷ cs)) 64 u.at_most)

IsUid-parse :
    (text : Bytes)
    → (IsUid text × (parse text ≡ ok (record { value = text }))) ⊎ (parse text ≡ err uid_error)
unfolding parse
IsUid-parse [] = inr refl
IsUid-parse (c ∷ cs) = elim (Bool-cases (all_of is_uid_character (c ∷ cs))) [
  | inl good ↦ elim (Bool-cases (leb (length (c ∷ cs)) 64)) [
    | inl short ↦
        let u : IsUid (c ∷ cs) = record {
          at_least = omega arith;
          at_most = leb→le (length (c ∷ cs)) 64 short;
          characters = (all_of-is_uid_character_iff (c ∷ cs)).0 good;
        } in
        inl (u, parse-IsUid (c ∷ cs) u)
    | inr long ↦ inr (rw long)
  ]
  | inr bad ↦ elim (Bool-cases (leb (length (c ∷ cs)) 64)) [
    | inl short ↦ inr (rw (short, bad))
    | inr long ↦ inr (rw long)
  ]
]

-- `parse` decides FR-01: a text of 1 to 64 characters of the alphabet is accepted and kept as it
-- is, and every other text is refused with the one error `invalid_index_uid`.
pub parse_decides :
    (text : Bytes)
    → (IsUid text × (parse text ≡ ok (record { value = text })))
      ⊎ ((¬ IsUid text) × (parse text ≡ err uid_error))
parse_decides text = elim (IsUid-parse text) [
  | inl accepted ↦ inl accepted
  | inr refused ↦ inr (λ u. ok-ne-err (parse-IsUid text u) refused, refused)
]

-- The one way to an `IndexUid`: what `parse` returns satisfies FR-01.
pub IsUid-of_parse :
    (text : Bytes) {u : IndexUid} → parse text ≡ ok u → IsUid u.value × (u.value ≡ text)
IsUid-of_parse text h = elim (IsUid-parse text) [
  | inl (i, e) ↦
      (let same = ok_injective (sym e ∙ h) in (rw (← same) i, ap (λ u. u.value) (sym same)))
  | inr refused ↦ absurd (ok-ne-err h refused)
]
