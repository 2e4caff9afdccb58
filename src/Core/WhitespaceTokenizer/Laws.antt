-- ===== src/Core/WhitespaceTokenizer/Laws.antt =====
-- `split_on_whitespace` against the one-pass reference, and what its words are.
use leta.Prelude.{
  ℕ, zero, suc, ◌+◌, ◌-◌, ◌<◌, ◌≡◌, refl, ap, sym, ◌∙◌, true, false, not, none, some, List, [], ◌∷◌,
  ◌++◌, append-nil, append_assoc, arith, Bytes, All, length, take, drop, length-append, map,
}
use leta.Prelude.Text.{
  nowhere, at, find_from-Found, take-length-append, drop_split, not-false, not-true,
}
use leta.Core.WhitespaceTokenizer.{
  is_whitespace, find_first_of, find_first_not_of, substr, split_loop, split_on_whitespace,
}
use leta.Core.WhitespaceTokenizer.Words.{
  words_from, words, IsBlank, IsSolid, IsWord, words_from-blank, words_from-solid_end,
  words_from-solid-blank, words_from-All_blank, gapped, IsGapped, words_from-gapped, flush,
  without_whitespace, concat, concat-words_from, All-words_from,
}

-- What a search for a word's start has passed over is blank.
All-IsBlank : (xs : Bytes) → All (λ c. not (is_whitespace c) ≡ false) xs → All IsBlank xs
All-IsBlank [] h = tt
All-IsBlank (c ∷ cs) h = (not-false _ h.0, All-IsBlank cs h.1)

split_loop-none : (fuel : ℕ) (text : Bytes) (acc : List Bytes) → split_loop fuel text none acc ≡ acc
unfolding split_loop
split_loop-none zero text acc = refl
split_loop-none (suc fuel) text acc = refl

-- One round, from the start `j` of a word: the text there is a word up to its end, or to a blank.
module _ (text : Bytes) (j : ℕ) (acc : List Bytes) where
  round_last :
      (fuel : ℕ)
      → find_first_of text (some j) ≡ none
      → split_loop (suc fuel) text (some j) acc ≡ acc ++ drop j text ∷ []
  unfolding split_loop substr find_first_not_of
  round_last fuel e = rw (e, split_loop) (split_loop-none fuel text _)

  round_next :
      (fuel e : ℕ)
      → find_first_of text (some j) ≡ some e
      → split_loop (suc fuel) text (some j) acc
        ≡ split_loop fuel text
            (find_first_not_of text (some e))
            (acc ++ take (e - j) (drop j text) ∷ [])
  unfolding split_loop substr
  round_next fuel e h = rw (h, split_loop)

-- From the start of a word, given that the loop is right on the text behind it.
split_loop-word :
    (fuel : ℕ) (text : Bytes) (j : ℕ) (acc : List Bytes) (c : ℕ) (post : Bytes)
    → drop j text ≡ c ∷ post
    → IsSolid c
    → length (c ∷ post) < suc fuel
    → ((e : ℕ) (more : List Bytes)
        → length (drop e text) < fuel
        → split_loop fuel text (find_first_not_of text (some e)) more
          ≡ more ++ words_from [] (drop e text))
    → split_loop (suc fuel) text (some j) acc ≡ acc ++ words_from [] (c ∷ post)
unfolding find_first_of
split_loop-word fuel text j acc c post here solid short ih =
    elim (find_from-Found is_whitespace j (drop j text)) [
      | nowhere e all ↦
          round_last text j acc fuel e
          ∙ rw here (ap (◌++◌ acc) (sym (words_from-solid_end c post (rw here at all))))
      | at [] b rest e split pre blank ↦ absurd (clash (sym here ∙ split) solid blank)
      | at (a ∷ pre) b rest e split word blank ↦
          let whole : c ∷ post ≡ (a ∷ pre) ++ (b ∷ rest) = sym here ∙ split in
          let behind : drop (j + length (a ∷ pre)) text ≡ b ∷ rest =
            drop_split j (a ∷ pre) (b ∷ rest) text split in
          let sizes : length (c ∷ post) ≡ length (a ∷ pre) + length (b ∷ rest) =
            ap length whole ∙ length-append (a ∷ pre) (b ∷ rest) in
          round_next text j acc fuel _ e
          ∙ ih _ _ (rw behind (omega arith))
          ∙ (rw (behind, split, add-sub_left, take-length-append (a ∷ pre) (b ∷ rest), whole)
              (append_assoc acc _ _ ∙ ap (◌++◌ acc) (sym (word_then a pre b rest word blank))))
    ]
  where
    clash :
        {b : ℕ} {rest : Bytes}
        → c ∷ post ≡ b ∷ rest
        → is_whitespace c ≡ false
        → is_whitespace b ≡ true
        → ⊥
    clash p q r = cc

    add-sub_left : {n : ℕ} → j + n - j ≡ n
    add-sub_left = omega arith

    word_then :
        (a : ℕ) (pre : Bytes) (b : ℕ) (rest : Bytes)
        → All IsSolid (a ∷ pre)
        → IsBlank b
        → words_from [] (a ∷ (pre ++ (b ∷ rest))) ≡ (a ∷ pre) ∷ words_from [] (b ∷ rest)
    word_then a pre b rest w k =
        words_from-solid-blank a pre b rest w k
        ∙ ap (◌∷◌ (a ∷ pre)) (sym (words_from-blank (b ∷ []) rest (k, tt)))

-- The loop from position `s` pushes the words of the rest of the text.
split_loop-words :
    (fuel : ℕ) (text : Bytes) (s : ℕ) (acc : List Bytes)
    → length (drop s text) < fuel
    → split_loop fuel text (find_first_not_of text (some s)) acc
      ≡ acc ++ words_from [] (drop s text)
unfolding find_first_not_of
split_loop-words zero text s acc h = absurd (omega arith)
split_loop-words (suc fuel) text s acc h =
    elim (find_from-Found (λ c. not (is_whitespace c)) s (drop s text)) [
      | nowhere e all ↦
          rw e
            (split_loop-none (suc fuel) text acc ∙ sym (no_words (drop s text) (All-IsBlank _ all)))
      | at pre c post e split blank hit ↦
          rw (e, split)
            (split_loop-word fuel text (s + length pre) acc c post
                (drop_split s pre (c ∷ post) text split) (not-true _ hit)
                (omega (arith, ap length split, length-append pre (c ∷ post)))
                (split_loop-words fuel text)
              ∙ ap (◌++◌ acc) (sym (words_from-blank pre (c ∷ post) (All-IsBlank pre blank))))
    ]
  where
    no_words : (xs : Bytes) → All IsBlank xs → acc ++ words_from [] xs ≡ acc
    no_words xs blank = rw (words_from-All_blank xs blank) (append-nil acc)

-- On every text the loop of `split_on_whitespace`, with its positions and `substr` calls, returns
-- what the one-pass reference returns; the fuel never runs out.
pub split-eq-words : (text : Bytes) → split_on_whitespace text ≡ words text
unfolding split_on_whitespace words
split-eq-words text = split_loop-words (suc (length text)) text 0 [] (omega arith)

-- The words of a text are not empty and hold no ASCII whitespace, and put together they are the
-- text without its whitespace: no character is lost, added or moved.
pub split_partitions :
    (text : Bytes)
    → All IsWord (split_on_whitespace text)
      × (concat (split_on_whitespace text) ≡ without_whitespace text)
unfolding words
split_partitions text = (
  rw (split-eq-words text) (All-words_from [] text tt),
  rw (split-eq-words text) (concat-words_from [] text),
)

-- Words written with any whitespace before, between and behind them are read back: leading
-- whitespace, then words each with a gap, then a last word or nothing.
pub split-gapped :
    (lead : Bytes) (body : List (Bytes × Bytes)) (last : Bytes)
    → All IsBlank lead
    → IsGapped body
    → All IsSolid last
    → split_on_whitespace (lead ++ (gapped body ++ last)) ≡ map (λ p. p.0) body ++ flush last []
unfolding words
split-gapped lead body last blank h solid =
    split-eq-words _ ∙ words_from-blank lead _ blank ∙ words_from-gapped body last h solid
