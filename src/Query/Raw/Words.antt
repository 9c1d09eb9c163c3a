-- ===== src/Query/Raw/Words.antt =====
-- The parts of a query are its words, and printing words with blanks between them loses none.
use mathlib.Core.Path.{subst}
use opencode_optimised_tooli.Prelude.{
  All, Bool, Bool-cases, List, Text, [], ap, append_assoc, arith, cons_first, false, inl, inr,
  is_empty, is_space, join_on, keep, not, refl, sym, true, ℕ, ◌&&◌, ◌++◌, ◌∙◌, ◌∷◌, ◌≡◌, list_eq,
  nat_eq, pair_eq, string_eq,
}
use opencode_optimised_tooli.Query.Raw.{cons_blank, split_spaces, is_blank_part, words}

-- How the parts of a text begin.
data Head : Text → List Text → Type 0 where
  nothing : Head [] ([] ∷ [])
  blank_first :
      {d : ℕ} {more separator : Text} {parts : List Text}
      → is_space d ≡ true
      → is_blank_part separator ≡ true
      → Head (d ∷ more) ([] ∷ separator ∷ parts)
  word_first :
      {d : ℕ} {more word : Text} {parts : List Text}
      → is_space d ≡ false
      → Head (d ∷ more) ((d ∷ word) ∷ parts)

cons_blank-Head :
    {s : Text} {parts : List Text} (c : ℕ)
    → is_space c ≡ true
    → Head s parts
    → Head (c ∷ s) (cons_blank c parts)
unfolding is_blank_part
cons_blank-Head c h nothing = blank_first h (ground arith)
cons_blank-Head c h (blank_first d b) = blank_first h (ground arith)
cons_blank-Head c h (word_first d) = blank_first h (ground arith)

cons_first-Head :
    {s : Text} {parts : List Text} (c : ℕ)
    → is_space c ≡ false
    → Head s parts
    → Head (c ∷ s) (cons_first c parts)
cons_first-Head c h nothing = word_first h
cons_first-Head c h (blank_first d b) = word_first h
cons_first-Head c h (word_first d) = word_first h

split_spaces-Head : (s : Text) → Head s (split_spaces s)
unfolding split_spaces
split_spaces-Head [] = nothing
split_spaces-Head (c ∷ s) = elim (Bool-cases (is_space c)) [
  | inl e ↦ rw e (cons_blank-Head c e (split_spaces-Head s))
  | inr e ↦ rw e (cons_first-Head c e (split_spaces-Head s))
]

abbrev pub real_parts : List Text → List Text
real_parts parts = keep (λ p. not (is_blank_part p)) parts

real_parts-cons_blank :
    {s : Text} {parts : List Text} (c : ℕ)
    → is_space c ≡ true
    → Head s parts
    → real_parts (cons_blank c parts) ≡ real_parts parts
unfolding keep is_blank_part
real_parts-cons_blank c h nothing = ground arith
real_parts-cons_blank c h (blank_first d b) = ground arith
real_parts-cons_blank c h (word_first d) = ground arith

real_parts-cons_first :
    {s : Text} {parts : List Text} (c : ℕ)
    → is_space c ≡ false
    → Head s parts
    → real_parts parts ≡ words s
    → real_parts (cons_first c parts) ≡ words (c ∷ s)
unfolding keep is_blank_part words
real_parts-cons_first c h nothing p = ground arith
real_parts-cons_first c h (blank_first d b) p = ground arith
real_parts-cons_first c h (word_first d) p = ground arith

split_spaces-blank :
    (c : ℕ) (s : Text) → is_space c ≡ true → split_spaces (c ∷ s) ≡ cons_blank c (split_spaces s)
unfolding split_spaces
split_spaces-blank c s h = rw h refl

split_spaces-word :
    (c : ℕ) (s : Text) → is_space c ≡ false → split_spaces (c ∷ s) ≡ cons_first c (split_spaces s)
unfolding split_spaces
split_spaces-word c s h = rw h refl

pub words-blank : (c : ℕ) (s : Text) → is_space c ≡ true → words (c ∷ s) ≡ words s
unfolding words
words-blank c s h = rw h refl

real_parts-nothing : real_parts (split_spaces []) ≡ words []
unfolding split_spaces keep is_blank_part words
real_parts-nothing = refl

-- The parts that are no separators are the words.
pub real_parts-split_spaces : (s : Text) → real_parts (split_spaces s) ≡ words s
real_parts-split_spaces [] = real_parts-nothing
real_parts-split_spaces (c ∷ s) = elim (Bool-cases (is_space c)) [
  | inl e ↦
      ap real_parts (split_spaces-blank c s e)
      ∙ real_parts-cons_blank c e (split_spaces-Head s)
      ∙ real_parts-split_spaces s
      ∙ sym (words-blank c s e)
  | inr e ↦
      ap real_parts (split_spaces-word c s e)
      ∙ real_parts-cons_first c e (split_spaces-Head s) (real_parts-split_spaces s)
]

-- A word is not empty and has no blank in it.
abbrev pub no_blank : Text → Bool
no_blank [] = true
no_blank (c ∷ s) = not (is_space c) && no_blank s

abbrev pub IsWord : Text → Type 0
IsWord p = (is_empty p ≡ false) × (no_blank p ≡ true)

cons_first-IsWord :
    (c : ℕ) (ps : List Text) → is_space c ≡ false → All IsWord ps → All IsWord (cons_first c ps)
cons_first-IsWord c [] h all = ((refl, ground arith), tt)
cons_first-IsWord c (p ∷ ps) h ((_, solid), all) = ((refl, ground arith), all)

pub words-last :
    (c d : ℕ) (s : Text)
    → is_space c ≡ false
    → is_space d ≡ true
    → words (c ∷ d ∷ s) ≡ (c ∷ []) ∷ words (d ∷ s)
unfolding words
words-last c d s h k = rw (h, k) refl

words-inner :
    (c d : ℕ) (s : Text)
    → is_space c ≡ false
    → is_space d ≡ false
    → words (c ∷ d ∷ s) ≡ cons_first c (words (d ∷ s))
unfolding words
words-inner c d s h k = rw (h, k) refl

pub words-end : (c : ℕ) → is_space c ≡ false → words (c ∷ []) ≡ (c ∷ []) ∷ []
unfolding words
words-end c h = rw h refl

pub words_nothing : words [] ≡ []
unfolding words
words_nothing = refl

pub words-IsWord : (s : Text) → All IsWord (words s)
words-IsWord [] = rw words_nothing tt
words-IsWord (c ∷ []) = elim (Bool-cases (is_space c)) [
  | inl e ↦ subst (All IsWord) (sym (words-blank c [] e)) (words-IsWord [])
  | inr e ↦ subst (All IsWord) (sym (words-end c e)) ((refl, ground arith), tt)
]
words-IsWord (c ∷ d ∷ s) = elim (Bool-cases (is_space c)) [
  | inl e ↦ subst (All IsWord) (sym (words-blank c (d ∷ s) e)) (words-IsWord (d ∷ s))
  | inr e ↦ elim (Bool-cases (is_space d)) [
    | inl e2 ↦
        subst (All IsWord) (sym (words-last c d s e e2))
          ((refl, ground arith), words-IsWord (d ∷ s))
    | inr e2 ↦
        subst (All IsWord) (sym (words-inner c d s e e2))
          (cons_first-IsWord c (words (d ∷ s)) e (words-IsWord (d ∷ s)))
  ]
]

-- A word before a blank is the first word.
words-append : (p s : Text) → IsWord p → words (p ++ b' ' ∷ s) ≡ p ∷ words s
unfolding words
words-append [] s (h, _) = absurd (ground arith)
words-append (c ∷ []) s h = ground arith
words-append (c ∷ d ∷ p) s (_, h) = ground (arith, words-append (d ∷ p) s (refl, ground arith))

words_single : (p : Text) → IsWord p → words p ≡ p ∷ []
unfolding words
words_single [] (h, _) = absurd (ground arith)
words_single (c ∷ []) h = ground arith
words_single (c ∷ d ∷ p) (_, h) = ground (arith, words_single (d ∷ p) (refl, ground arith))

-- Words that are joined by blanks come back from the split.
pub words-join_on : (ps : List Text) → All IsWord ps → words (join_on b' ' ps) ≡ ps
unfolding join_on
words-join_on [] h = words_nothing
words-join_on (p ∷ []) (h, _) = words_single p h
words-join_on (p ∷ q ∷ ps) (h, k) =
    words-append p (join_on b' ' (q ∷ ps)) h ∙ ap (◌∷◌ p) (words-join_on (q ∷ ps) k)

pub words-join_on_two :
    (ps : List Text) (s : Text)
    → All IsWord ps
    → words (join_on b' ' ps ++ b' ' ∷ s) ≡ ps ++ words s
unfolding join_on
words-join_on_two [] s h = words-blank b' ' s refl
words-join_on_two (p ∷ []) s (h, _) = words-append p s h
words-join_on_two (p ∷ q ∷ ps) s (h, k) =
    ap words (append_assoc p (b' ' ∷ join_on b' ' (q ∷ ps)) (b' ' ∷ s))
    ∙ words-append p (join_on b' ' (q ∷ ps) ++ b' ' ∷ s) h
    ∙ ap (◌∷◌ p) (words-join_on_two (q ∷ ps) s k)
