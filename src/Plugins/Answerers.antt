-- ===== src/Plugins/Answerers.antt =====
-- answerers/_core.py: `AnswerStorage`.
pub mod Laws
use opencode_optimised_tooli.Prelude.{
  Bool, Dict, List, Option, String, [], concat, false, if◌then◌else◌, insert, lookup, map, none,
  snoc, some, ℕ, ◌++◌, ◌==◌, ◌||◌, ◌∷◌, list_eq, nat_eq, pair_eq, string_eq,
}
use opencode_optimised_tooli.Results.Answers.{Answer}
use opencode_optimised_tooli.Plugins.Storage.{split, first_word}

-- An answerer: its address, its keywords, and the answers that it yields for a query.
pub record Answerer : Type 0 where
  pub address : ℕ
  pub keywords : List String
  pub answer : String → List Answer

-- The set of the answerers, and the dictionary that the storage is.
pub record AnswerStorage : Type 0 where
  pub answerer_list : List Answerer
  pub by_keyword : Dict String (List Answerer)

abbrev pub new_storage : AnswerStorage
new_storage = record { answerer_list = []; by_keyword = [] }

unfoldable pub is_held : Answerer → List Answerer → Bool
is_held answerer [] = false
is_held answerer (a ∷ answerer_list) =
    (a.address == answerer.address) || is_held answerer answerer_list

-- `self.get(keyword, [])`
abbrev pub or_nothing : Option (List Answerer) → List Answerer
or_nothing none = []
or_nothing (some l) = l

unfoldable pub append_by :
    Answerer → List String → Dict String (List Answerer) → Dict String (List Answerer)
append_by answerer [] d = d
append_by answerer (keyword ∷ keywords) d =
    append_by answerer keywords (insert keyword (snoc (or_nothing (lookup keyword d)) answerer) d)

unfoldable pub register : Answerer → AnswerStorage → AnswerStorage
register answerer storage = record {
  answerer_list =
      if is_held answerer storage.answerer_list
      then storage.answerer_list
      else snoc storage.answerer_list answerer;
  by_keyword = append_by answerer answerer.keywords storage.by_keyword;
}

abbrev pub mark : String → Answer → Answer
mark keyword answer = record answer { engine = concat ("answerer: " ∷ keyword ∷ []) }

unfoldable pub ask_all : String → String → List Answerer → List Answer
ask_all keyword query [] = []
ask_all keyword query (answerer ∷ answerers) =
    map (mark keyword) (answerer.answer query) ++ ask_all keyword query answerers

abbrev pub ask_keyword : Option String → String → AnswerStorage → List Answer
ask_keyword none query storage = []
ask_keyword (some keyword) query storage =
    ask_all keyword query (or_nothing (lookup keyword storage.by_keyword))

unfoldable pub ask : String → AnswerStorage → List Answer
ask query storage = ask_keyword (first_word (split query)) query storage
