-- ===== src/Prelude/Text.antt =====
-- Searching a text for a character, as `std::string_view` does: a position is a number, and `npos` is
-- `none`.
use native.Mathlib.Numerals.{add-one}
use mathlib.Core.Bool.{false≢true}
use leta.Prelude.{
  ℕ, zero, suc, ◌+◌, ◌≡◌, refl, ap, sym, ◌∙◌, Bool, true, false, not, Option, none, some, [], ◌∷◌,
  ◌++◌, arith, if◌then◌else◌, ◌==◌, ◌||◌, Bytes, All, length, take, drop, Bool-cases, inl, inr, ◌⊎◌,
}

-- The position, counted from `i`, of the first character that passes the test.
unfoldable pub find_from : (ℕ → Bool) → ℕ → Bytes → Option ℕ
find_from p i [] = none
find_from p i (c ∷ cs) = if p c then some i else find_from p (i + 1) cs

-- The position, counted from `i`, of the last character that passes the test.
unfoldable pub find_last_from : (ℕ → Bool) → ℕ → Bytes → Option ℕ
find_last_from p i [] = none
find_last_from p i (c ∷ cs) = elim (find_last_from p (i + 1) cs) [
  | none ↦ if p c then some i else none
  | some j ↦ some j
]

-- A character set given as a string.
abbrev pub is_in : Bytes → ℕ → Bool
is_in [] c = false
is_in (x ∷ xs) c = x == c || is_in xs c

-- Where a search from `i` in `xs` stops: at the end, or at the first character that passes.
pub data Found (p : ℕ → Bool) (i : ℕ) (xs : Bytes) : Type 0 where
  nowhere : find_from p i xs ≡ none → All (λ c. p c ≡ false) xs → Found p i xs
  at :
      (pre : Bytes) (c : ℕ) (post : Bytes)
      → find_from p i xs ≡ some (i + length pre)
      → xs ≡ pre ++ (c ∷ post)
      → All (λ x. p x ≡ false) pre
      → p c ≡ true
      → Found p i xs

pub find_from-Found : (p : ℕ → Bool) (i : ℕ) (xs : Bytes) → Found p i xs
unfolding find_from
find_from-Found p i [] = nowhere refl tt
find_from-Found p i (c ∷ cs) = elim (Bool-cases (p c)) [
  | inl hit ↦ at [] c cs (rw hit (ap some (omega arith))) refl tt hit
  | inr miss ↦ elim (find_from-Found p (i + 1) cs) [
    | nowhere e all ↦ nowhere (rw miss e) (miss, all)
    | at pre d post e split all hit ↦
        at (c ∷ pre) d post (rw miss (e ∙ ap some (omega arith))) (ap (◌∷◌ c) split) (miss, all) hit
  ]
]

pub take-length-append : (pre rest : Bytes) → take (length pre) (pre ++ rest) ≡ pre
take-length-append [] rest = refl
take-length-append (c ∷ pre) rest = ap (◌∷◌ c) (take-length-append pre rest)

pub drop-length-append : (pre rest : Bytes) → drop (length pre) (pre ++ rest) ≡ rest
drop-length-append [] rest = refl
drop-length-append (c ∷ pre) rest = drop-length-append pre rest

drop-nil : (n : ℕ) → drop {A = ℕ} n [] ≡ []
drop-nil zero = refl
drop-nil (suc n) = refl

pub suc-add : (n k : ℕ) → suc n + k ≡ suc (n + k)
suc-add n k = omega arith

pub drop_add : (n k : ℕ) (text : Bytes) → drop (n + k) text ≡ drop k (drop n text)
drop_add zero k text = ap (λ (j : ℕ). drop j text) (omega arith)
drop_add (suc n) k [] = drop-nil (suc n + k) ∙ sym (drop-nil k)
drop_add (suc n) k (c ∷ cs) = ap (λ (j : ℕ). drop j (c ∷ cs)) (suc-add n k) ∙ drop_add n k cs

pub drop_split :
    (n : ℕ) (pre rest text : Bytes) → drop n text ≡ pre ++ rest → drop (n + length pre) text ≡ rest
drop_split n pre rest text h =
    drop_add n (length pre) text ∙ ap (drop (length pre)) h ∙ drop-length-append pre rest

pub not-false : (b : Bool) → not b ≡ false → b ≡ true
not-false b h = ground arith

pub not-true : (b : Bool) → not b ≡ true → b ≡ false
not-true b h = ground arith

-- Past the end of a run of characters that fail the test there is nothing to find.
pub find_last-none :
    (p : ℕ → Bool) (i : ℕ) (xs : Bytes) → All (λ c. p c ≡ false) xs → find_last_from p i xs ≡ none
unfolding find_last_from
find_last-none p i [] h = refl
find_last-none p i (c ∷ cs) h = rw (find_last-none p (i + 1) cs h.1, h.0)

-- The last character that passes, when only failing ones follow it.
pub find_last-append_end :
    (p : ℕ → Bool) (i : ℕ) (xs : Bytes) (c : ℕ) (rest : Bytes)
    → p c ≡ true
    → All (λ x. p x ≡ false) rest
    → find_last_from p i (xs ++ (c ∷ rest)) ≡ some (i + length xs)
unfolding find_last_from
find_last-append_end p i [] c rest hit h =
    rw (find_last-none p (i + 1) rest h, hit) (ap some (omega arith))
find_last-append_end p i (x ∷ xs) c rest hit h =
    rw (find_last-append_end p (i + 1) xs c rest hit h) (ap some (omega arith))

pub take-length-cons :
    (xs : Bytes) (c : ℕ) (rest : Bytes) → take (length xs + 1) (xs ++ (c ∷ rest)) ≡ xs ++ c ∷ []
take-length-cons xs c rest = rw add-one (go xs)
  where
    go : (ys : Bytes) → take (suc (length ys)) (ys ++ (c ∷ rest)) ≡ ys ++ c ∷ []
    go [] = refl
    go (y ∷ ys) = ap (◌∷◌ y) (go ys)

-- The first character that passes, when only failing ones stand before it; or none.
pub find_from-append :
    (p : ℕ → Bool) (i : ℕ) (pre : Bytes) (c : ℕ) (rest : Bytes)
    → All (λ x. p x ≡ false) pre
    → p c ≡ true
    → find_from p i (pre ++ (c ∷ rest)) ≡ some (i + length pre)
unfolding find_from
find_from-append p i [] c rest h hit = rw hit (ap some (omega arith))
find_from-append p i (x ∷ xs) c rest h hit =
    rw h.0 (find_from-append p (i + 1) xs c rest h.1 hit ∙ ap some (omega arith))

pub find_from-none :
    (p : ℕ → Bool) (i : ℕ) (xs : Bytes) → All (λ x. p x ≡ false) xs → find_from p i xs ≡ none
unfolding find_from
find_from-none p i [] h = refl
find_from-none p i (x ∷ xs) h = rw h.0 (find_from-none p (i + 1) xs h.1)

-- A text with a character that passes ends in one, with only failing ones behind it.
pub record Last (p : ℕ → Bool) (xs : Bytes) : Type 0 where
  pub before : Bytes
  pub hit : ℕ
  pub after : Bytes
  pub splits : xs ≡ before ++ (hit ∷ after)
  pub passes : p hit ≡ true
  pub fails : All (λ x. p x ≡ false) after

Last-cases : (p : ℕ → Bool) (xs : Bytes) → All (λ x. p x ≡ false) xs ⊎ Last p xs
Last-cases p [] = inl tt
Last-cases p (x ∷ xs) = elim (Last-cases p xs) [
  | inr l ↦ inr (record {
    before = x ∷ l.before;
    hit = l.hit;
    after = l.after;
    splits = ap (◌∷◌ x) l.splits;
    passes = l.passes;
    fails = l.fails;
  })
  | inl none_after ↦ elim (Bool-cases (p x)) [
    | inl hit ↦ inr (record {
      before = [];
      hit = x;
      after = xs;
      splits = refl;
      passes = hit;
      fails = none_after;
    })
    | inr miss ↦ inl (miss, none_after)
  ]
]

pub Last-of : (p : ℕ → Bool) (x : ℕ) (xs : Bytes) → p x ≡ true → Last p (x ∷ xs)
Last-of p x xs hit = elim (Last-cases p (x ∷ xs)) [
  | inl all_fail ↦ absurd (false≢true (sym all_fail.0 ∙ hit))
  | inr l ↦ l
]
