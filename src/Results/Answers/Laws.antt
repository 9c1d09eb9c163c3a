-- ===== src/Results/Answers/Laws.antt =====
-- The set holds one answer for each hash.
use opencode_optimised_tooli.Prelude.{
  Bool-cases, List, [], arith, false, inl, inr, refl, snoc, ◌==◌, ◌||◌, ◌∷◌, ◌≡◌, list_eq, nat_eq,
  pair_eq, string_eq,
}
use opencode_optimised_tooli.Results.Answers.{Answer, has_answer, add}

-- No two answers of the list have the same hash.
abbrev pub Distinct : List Answer → Type 0
Distinct [] = Unit
Distinct (a ∷ rest) = (has_answer a rest ≡ false) × Distinct rest

has_answer-snoc :
    (a b : Answer) (l : List Answer)
    → has_answer b (snoc l a) ≡ (has_answer b l || (a.hash == b.hash))
unfolding has_answer
has_answer-snoc a b [] = ground arith
has_answer-snoc a b (i ∷ rest) = ground (arith, has_answer-snoc a b rest)

has_answer_congr :
    (a b : Answer) (l : List Answer) → a.hash ≡ b.hash → has_answer a l ≡ has_answer b l
unfolding has_answer
has_answer_congr a b [] h = refl
has_answer_congr a b (i ∷ rest) h = ground (arith, has_answer_congr a b rest h)

-- After an addition the set has an answer exactly if it had it, or if it equals the new one.
pub has_answer-add :
    (a b : Answer) (l : List Answer)
    → has_answer b (add a l) ≡ (has_answer b l || (a.hash == b.hash))
unfolding add
has_answer-add a b l = elim (Bool-cases (has_answer a l)) [
  | inl e ↦ ground (arith, has_answer_congr a b l)
  | inr e ↦ rw e (has_answer-snoc a b l)
]

Distinct-snoc :
    (a : Answer) (l : List Answer) → Distinct l → has_answer a l ≡ false → Distinct (snoc l a)
unfolding has_answer
Distinct-snoc a [] d h = (refl, tt)
Distinct-snoc a (i ∷ rest) (p, d) h =
    (ground (arith, has_answer-snoc a i rest), Distinct-snoc a rest d (ground arith))

-- Additions keep the answers' hashes apart.
pub add-Distinct : (a : Answer) (l : List Answer) → Distinct l → Distinct (add a l)
unfolding add
add-Distinct a l d = elim (Bool-cases (has_answer a l)) [
  | inl e ↦ rw e d
  | inr e ↦ rw e (Distinct-snoc a l d e)
]
