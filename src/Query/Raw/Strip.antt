-- ===== src/Query/Raw/Strip.antt =====
-- query.py: blanks at either end of a query, which `strip` takes away, are no words.
use mathlib.Core.List.{reverse, reverse-append, reverse-reverse, reverse-cons}
use opencode_optimised_tooli.Prelude.{
  Bool-cases, Text, [], ap, arith, drop_spaces, inl, inr, is_space, refl, strip, sym, true, ℕ, ◌&&◌,
  ◌++◌, ◌∙◌, ◌∷◌, ◌≡◌, list_eq, nat_eq, pair_eq, string_eq,
}
use opencode_optimised_tooli.Query.Raw.{is_blank_part, words}
use opencode_optimised_tooli.Query.Raw.Words.{words-blank, words-last, words-end, words_nothing}

-- Blanks at either end make no difference to the words.
is_blank_part-append : (a b : Text) → is_blank_part (a ++ b) ≡ (is_blank_part a && is_blank_part b)
unfolding is_blank_part
is_blank_part-append [] b = refl
is_blank_part-append (c ∷ a) b = ground (arith, is_blank_part-append a b)

is_blank_part-reverse : (a : Text) → is_blank_part (reverse a) ≡ is_blank_part a
unfolding is_blank_part
is_blank_part-reverse [] = refl
is_blank_part-reverse (c ∷ a) =
    ap is_blank_part (reverse-cons c a)
    ∙ is_blank_part-append (reverse a) (c ∷ [])
    ∙ ground (arith, is_blank_part-reverse a)

words-blank_part : (b : Text) → is_blank_part b ≡ true → words b ≡ []
unfolding words is_blank_part
words-blank_part [] h = refl
words-blank_part (c ∷ b) h = ground (arith, words-blank_part b)

is_blank_part-head : (d : ℕ) (b : Text) → is_blank_part (d ∷ b) ≡ true → is_space d ≡ true
unfolding is_blank_part
is_blank_part-head d b h = ground arith

words-append_blank : (s b : Text) → is_blank_part b ≡ true → words (s ++ b) ≡ words s
unfolding words
words-append_blank [] b h = words-blank_part b h
words-append_blank (c ∷ []) [] h = refl
words-append_blank (c ∷ []) (d ∷ b) h = elim (Bool-cases (is_space c)) [
  | inl e ↦
      words-blank c (d ∷ b) e
      ∙ words-blank_part (d ∷ b) h
      ∙ sym (words-blank c [] e ∙ words_nothing)
  | inr e ↦
      words-last c d b e (is_blank_part-head d b h)
      ∙ ap (◌∷◌ (c ∷ [])) (words-blank_part (d ∷ b) h)
      ∙ sym (words-end c e)
]
words-append_blank (c ∷ d ∷ s) b h = ground (arith, words-append_blank (d ∷ s) b h)

drop_spaces-words : (s : Text) → words (drop_spaces s) ≡ words s
unfolding words drop_spaces
drop_spaces-words [] = refl
drop_spaces-words (c ∷ s) = ground (arith, drop_spaces-words s)

-- What `drop_spaces` takes away is blank.
record Dropped (s : Text) : Type 0 where
  blanks : Text
  blank : is_blank_part blanks ≡ true
  split : s ≡ blanks ++ drop_spaces s

drop_spaces-Dropped : (s : Text) → Dropped s
unfolding drop_spaces is_blank_part
drop_spaces-Dropped [] = record { blanks = []; blank = refl; split = refl }
drop_spaces-Dropped (c ∷ s) = elim (Bool-cases (is_space c)) [
  | inl e ↦
      let rest = drop_spaces-Dropped s in
      record {
        blanks = c ∷ rest.blanks;
        blank = ground (arith, rest.blank);
        split = rw e (ap (◌∷◌ c) rest.split);
      }
  | inr e ↦ record { blanks = []; blank = refl; split = rw e refl }
]

pub words-strip : (s : Text) → words (strip s) ≡ words s
unfolding strip
words-strip s =
    let back = reverse (drop_spaces s) in
    let d = drop_spaces-Dropped back in
    let turned : drop_spaces s ≡ reverse (drop_spaces back) ++ reverse d.blanks =
      sym (reverse-reverse (drop_spaces s))
      ∙ ap reverse d.split
      ∙ reverse-append d.blanks (drop_spaces back) in
    sym (
      words-append_blank (reverse (drop_spaces back)) (reverse d.blanks)
        (is_blank_part-reverse d.blanks ∙ d.blank))
    ∙ sym (ap words turned)
    ∙ drop_spaces-words s
