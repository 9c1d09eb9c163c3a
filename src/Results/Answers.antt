-- ===== src/Results/Answers.antt =====
-- result_types/answer.py: the set of answers, which keeps the first of equal ones.
pub mod Laws
use opencode_optimised_tooli.Prelude.{
  Bool, List, String, [], false, if◌then◌else◌, snoc, ℕ, ◌==◌, ◌||◌, ◌∷◌, list_eq, nat_eq, pair_eq,
  string_eq,
}

-- A `BaseAnswer`; `hash` is the value of its `__hash__`.
pub record Answer : Type 0 where
  pub hash : ℕ
  pub template : String
  pub engine : String
  pub answer : String

-- `AnswerSet.__contains__`
unfoldable pub has_answer : Answer → List Answer → Bool
has_answer a [] = false
has_answer a (i ∷ rest) = (i.hash == a.hash) || has_answer a rest

-- `AnswerSet.add`
unfoldable pub add : Answer → List Answer → List Answer
unfolding has_answer
add a answers = if has_answer a answers then answers else snoc answers a

-- The stable insertion of `list.sort(key=lambda answer: answer.template)`; `before` is `<` on texts.
unfoldable pub insert_sorted : (String → String → Bool) → Answer → List Answer → List Answer
insert_sorted before a [] = a ∷ []
insert_sorted before a (i ∷ rest) =
    let later = i ∷ insert_sorted before a rest in
    if before i.template a.template || (i.template == a.template) then later else a ∷ i ∷ rest

unfoldable pub sort_from : (String → String → Bool) → List Answer → List Answer → List Answer
unfolding insert_sorted
sort_from before sorted [] = sorted
sort_from before sorted (a ∷ rest) = sort_from before (insert_sorted before a sorted) rest

-- `AnswerSet.__iter__`
unfoldable pub iter : (String → String → Bool) → List Answer → List Answer
unfolding sort_from
iter before answers = sort_from before [] answers
