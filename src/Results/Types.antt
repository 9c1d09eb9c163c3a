-- ===== src/Results/Types.antt =====
-- result_types/_base.py: the fields of a main result that the container reads and writes, and the
-- hash by which results are duplicates.

use opencode_optimised_tooli.Prelude.{
  Bool, Dict, List, Option, String, Text, [], concat, if◌then◌else◌, none, some, ℕ, ◌&&◌, ◌==◌, ◌∷◌,
  list_eq, nat_eq, pair_eq, string_eq,
}

pub record ParsedUrl : Type 0 where
  pub scheme : Text
  pub netloc : String
  pub path : String
  pub params : String
  pub query : String
  pub fragment : String

pub data Priority : Type 0 where
  normal high low : Priority

-- Floating point numbers, as far as scores use them. `below` is Python's `<`.
pub record Float : Type 1 where
  pub F : Type 0
  pub zero : F
  pub of_ℕ : ℕ → F
  pub add : F → F → F
  pub mul : F → F → F
  pub div : F → F → F
  pub below : F → F → Bool

-- `MainResult` and, with `is_legacy`, `LegacyResult` of an ordinary result; `extra` holds the keys
-- of the dictionary that are no field of `MainResult`. Sets are lists without repetitions.
pub record MainResult (F : Type 0) : Type 0 where
  pub is_legacy : Bool
  pub url : Option String
  pub engine : String
  pub parsed_url : Option ParsedUrl
  pub template : String
  pub title : Text
  pub content : Text
  pub img_src : String
  pub thumbnail : String
  pub priority : Priority
  pub engines : List String
  pub positions : List ℕ
  pub score : F
  pub category : String
  pub extra : Dict String String

-- The text that `MainResult.__hash__` and `LegacyResult.__hash__` hash: `none` where they raise a
-- ValueError, since `parsed_url` is missing. Image results of legacy engines go by their URL.
unfoldable pub hash_text : {F : Type 0} → MainResult F → Option String
hash_text r =
    if r.is_legacy && (r.template == "images.html")
    then some (
        concat
          (r.template ∷ "|" ∷ elim r.url [ none ↦ "None" | some u ↦ u ] ∷ "|" ∷ r.img_src ∷ []))
    else elim r.parsed_url [
      | none ↦ none
      | some u ↦ some (
          concat (
            r.template ∷ "|" ∷ u.netloc ∷ "|" ∷ u.path ∷ "|" ∷ u.params ∷ "|" ∷ u.query ∷ "|"
            ∷ u.fragment ∷ "|" ∷ r.img_src ∷ []))
    ]
