-- ===== src/Core/WhitespaceTokenizer/Words.antt =====
-- The reference for `split_on_whitespace`: one pass over the text that keeps the word under way,
-- with the facts about it that the tokenizer's laws rest on.
use leta.Prelude.{
  ℕ, ◌≡◌, ◌≢◌, refl, ap, sym, ◌∙◌, true, false, List, [], ◌∷◌, ◌++◌, append-nil, append_assoc,
  Bytes, map, All, All-append, Bool-cases, if◌then◌else◌, inl, inr,
}
use leta.Core.WhitespaceTokenizer.{is_whitespace}

-- A word that is under way is emitted when it is not empty.
abbrev pub flush : Bytes → List Bytes → List Bytes
flush [] rest = rest
flush (c ∷ cs) rest = (c ∷ cs) ∷ rest

unfoldable pub words_from : Bytes → Bytes → List Bytes
words_from word [] = flush word []
words_from word (c ∷ cs) = elim (is_whitespace c) [
  | true ↦ flush word (words_from [] cs)
  | false ↦ words_from (word ++ c ∷ []) cs
]

-- The maximal runs of characters that are not ASCII whitespace, from left to right.
unfoldable pub words : Bytes → List Bytes
words = words_from []

abbrev pub IsBlank : ℕ → Type 0
IsBlank c = is_whitespace c ≡ true

abbrev pub IsSolid : ℕ → Type 0
IsSolid c = is_whitespace c ≡ false

-- A word: not empty, and no ASCII whitespace in it.
abbrev pub IsWord : Bytes → Type 0
IsWord w = (w ≢ []) × All IsSolid w

module _ (word : Bytes) (c : ℕ) (cs : Bytes) where
  step_blank : IsBlank c → words_from word (c ∷ cs) ≡ flush word (words_from [] cs)
  unfolding words_from
  step_blank h = rw (h, words_from)

  step_solid : IsSolid c → words_from word (c ∷ cs) ≡ words_from (word ++ c ∷ []) cs
  unfolding words_from
  step_solid h = rw (h, words_from)

pub words_from-solid :
    (word pre rest : Bytes)
    → All IsSolid pre
    → words_from word (pre ++ rest) ≡ words_from (word ++ pre) rest
unfolding words_from
words_from-solid word [] rest h = rw append-nil
words_from-solid word (c ∷ pre) rest h =
    step_solid word c (pre ++ rest) h.0
    ∙ words_from-solid (word ++ c ∷ []) pre rest h.1
    ∙ rw append_assoc

pub words_from-blank :
    (pre rest : Bytes) → All IsBlank pre → words_from [] (pre ++ rest) ≡ words_from [] rest
unfolding words_from
words_from-blank [] rest h = refl
words_from-blank (c ∷ pre) rest h =
    step_blank [] c (pre ++ rest) h.0 ∙ words_from-blank pre rest h.1

pub words_from-All_blank : (xs : Bytes) → All IsBlank xs → words_from [] xs ≡ []
unfolding words_from
words_from-All_blank xs blank =
    ap (words_from []) (sym (append-nil xs)) ∙ words_from-blank xs [] blank

-- A whole text of word characters is one word, and whitespace behind a word ends it.
pub words_from-solid_end :
    (c : ℕ) (cs : Bytes) → All IsSolid (c ∷ cs) → words_from [] (c ∷ cs) ≡ (c ∷ cs) ∷ []
unfolding words_from
words_from-solid_end c cs h =
    ap (words_from []) (sym (append-nil (c ∷ cs))) ∙ words_from-solid [] (c ∷ cs) [] h

pub words_from-solid-blank :
    (c : ℕ) (cs : Bytes) (b : ℕ) (rest : Bytes)
    → All IsSolid (c ∷ cs)
    → IsBlank b
    → words_from [] (c ∷ (cs ++ (b ∷ rest))) ≡ (c ∷ cs) ∷ words_from [] rest
unfolding words_from
words_from-solid-blank c cs b rest h k =
    words_from-solid [] (c ∷ cs) (b ∷ rest) h ∙ step_blank (c ∷ cs) b rest k

-- The characters of a text that are not whitespace.
pub without_whitespace : Bytes → Bytes
without_whitespace [] = []
without_whitespace (c ∷ cs) =
    if is_whitespace c then without_whitespace cs else c ∷ without_whitespace cs

abbrev pub concat : List Bytes → Bytes
concat [] = []
concat (w ∷ ws) = w ++ concat ws

concat-flush : (word : Bytes) (ws : List Bytes) → concat (flush word ws) ≡ word ++ concat ws
concat-flush [] ws = refl
concat-flush (c ∷ cs) ws = refl

pub concat-words_from :
    (word text : Bytes) → concat (words_from word text) ≡ word ++ without_whitespace text
unfolding words_from without_whitespace
concat-words_from word [] = concat-flush word []
concat-words_from word (c ∷ cs) = elim (Bool-cases (is_whitespace c)) [
  | inl blank ↦
      rw (step_blank word c cs blank, blank)
        (concat-flush word (words_from [] cs) ∙ ap (◌++◌ word) (concat-words_from [] cs))
  | inr solid ↦
      rw (step_solid word c cs solid, solid)
        (concat-words_from (word ++ c ∷ []) cs ∙ append_assoc word (c ∷ []) _)
]

All-flush :
    (word : Bytes) (ws : List Bytes) → All IsSolid word → All IsWord ws → All IsWord (flush word ws)
All-flush [] ws h k = k
All-flush (c ∷ cs) ws h k = (((λ e. cc), h), k)

pub All-words_from : (word text : Bytes) → All IsSolid word → All IsWord (words_from word text)
unfolding words_from
All-words_from word [] h = All-flush word [] h tt
All-words_from word (c ∷ cs) h = elim (Bool-cases (is_whitespace c)) [
  | inl blank ↦ rw (step_blank word c cs blank) (All-flush word _ h (All-words_from [] cs tt))
  | inr solid ↦
      rw (step_solid word c cs solid)
        (All-words_from (word ++ c ∷ []) cs (All-append IsSolid word (c ∷ []) h (solid, tt)))
]

-- A text written as words, each with the whitespace behind it.
abbrev pub gapped : List (Bytes × Bytes) → Bytes
gapped [] = []
gapped ((word, gap) ∷ rest) = word ++ (gap ++ gapped rest)

abbrev pub IsGapped : List (Bytes × Bytes) → Type 0
IsGapped = All (λ p. IsWord p.0 × (p.1 ≢ []) × All IsBlank p.1)

pub words_from-gapped :
    (body : List (Bytes × Bytes)) (last : Bytes)
    → IsGapped body
    → All IsSolid last
    → words_from [] (gapped body ++ last) ≡ map (λ p. p.0) body ++ flush last []
unfolding words_from
words_from-gapped [] last h solid =
    ap (words_from []) (sym (append-nil last)) ∙ words_from-solid [] last [] solid
words_from-gapped (([], gap) ∷ body) last h solid = absurd (h.0.0.0 refl)
words_from-gapped ((c ∷ cs, []) ∷ body) last h solid = absurd (h.0.1 refl)
words_from-gapped ((c ∷ cs, b ∷ gap) ∷ body) last h solid =
    ap (words_from []) {x = gapped ((c ∷ cs, b ∷ gap) ∷ body) ++ last}
      {y = c ∷ (cs ++ (b ∷ (gap ++ (gapped body ++ last))))} (simp append_assoc)
    ∙ words_from-solid-blank c cs b (gap ++ (gapped body ++ last)) h.0.0.1 h.0.2.0
    ∙ ap (◌∷◌ (c ∷ cs))
        (words_from-blank gap (gapped body ++ last) h.0.2.1 ∙ words_from-gapped body last h.1 solid)
