-- ===== src/Query/Types.antt =====
-- query.py: the state of `RawTextQuery`, and what its parsers read.
use opencode_optimised_tooli.Prelude.{
  length, ltb, Bool, Dict, List, Option, Text, [], add_new, false, if◌then◌else◌, is_empty, leb,
  none, not, some, true, ℕ, ◌&&◌, ◌*◌, ◌+◌, ◌==◌, ◌||◌, ◌∷◌, list_eq, nat_eq, pair_eq, string_eq,
}

-- An `EngineRef`: the names of an engine and of a category.
abbrev pub EngineRef : Type 0
EngineRef = Text × Text

-- An entry of `sxng_locales`.
pub record Locale : Type 0 where
  pub lang_id : Text
  pub lang_name : Text
  pub country : Text
  pub english_name : Text

-- Python's Unicode tables: `str.lower` and `str.upper`, the characters of `str.isdigit`, and those
-- that `int` reads, with their values.
pub record Unicode : Type 0 where
  pub lower : Text → Text
  pub upper : Text → Text
  pub is_digit_char : ℕ → Bool
  pub decimal : ℕ → Option ℕ

-- The loaded engines and settings. `engines` has the categories of an engine, `categories` the
-- names of the engines of a category; `languages` is `settings['search']['languages']`.
-- `has_bang` and `bang_completions` are the two results of `get_bang_definition_and_autocomplete`.
pub record Setup : Type 0 where
  pub unicode : Unicode
  pub locales : List Locale
  pub languages : List Text
  pub engine_shortcuts : Dict Text Text
  pub engines : Dict Text (List Text)
  pub categories : Dict Text (List Text)
  pub has_bang : Text → Bool
  pub bang_completions : Text → List Text

-- The timeout is counted in milliseconds. `autocomplete_location` is a list (`query_parts`, if
-- the flag is true) and an index.
pub record RawTextQuery : Type 0 where
  pub query : Text
  pub disabled_engines : List EngineRef
  pub enginerefs : List EngineRef
  pub languages : List Text
  pub timeout_limit : Option ℕ
  pub external_bang : Option Text
  pub specific : Bool
  pub autocomplete_list : List Text
  pub query_parts : List Text
  pub user_query_parts : List Text
  pub autocomplete_location : Option (Bool × ℕ)
  pub redirect_to_first_result : Bool

abbrev pub new_query : Text → List EngineRef → RawTextQuery
new_query query disabled_engines = record {
  query = query;
  disabled_engines = disabled_engines;
  enginerefs = [];
  languages = [];
  timeout_limit = none;
  external_bang = none;
  specific = false;
  autocomplete_list = [];
  query_parts = [];
  user_query_parts = [];
  autocomplete_location = none;
  redirect_to_first_result = false;
}

-- `_add_autocomplete`
unfoldable pub add_autocomplete : Text → RawTextQuery → RawTextQuery
add_autocomplete value q = record q { autocomplete_list = add_new value q.autocomplete_list }

unfoldable pub add_autocompletes : List Text → RawTextQuery → RawTextQuery
add_autocompletes [] q = q
add_autocompletes (value ∷ rest) q = add_autocompletes rest (add_autocomplete value q)

-- `s.replace(a, b)` for characters
unfoldable pub replace_char : ℕ → ℕ → Text → Text
replace_char a b [] = []
replace_char a b (c ∷ s) = (if c == a then b else c) ∷ replace_char a b s

-- `VALID_LANGUAGE_CODE`: `^[a-z]{2,3}(-[a-zA-Z]{2})?$`, where `$` allows a last newline.
abbrev pub is_az : ℕ → Bool
is_az c = leb b'a' c && leb c b'z'

abbrev pub is_letter : ℕ → Bool
is_letter c = is_az c || (leb b'A' c && leb c b'Z')

abbrev pub at_end : Text → Bool
at_end [] = true
at_end (c ∷ []) = c == 10
at_end (c ∷ d ∷ s) = false

abbrev pub after_language : Text → Bool
after_language (d ∷ a ∷ b ∷ s) = ((d == b'-') && (is_letter a && is_letter b)) && at_end s
after_language s = at_end s

abbrev pub third_letter : Text → Bool
third_letter [] = false
third_letter (c ∷ s) = is_az c && after_language s

unfoldable pub valid_language_code : Text → Bool
valid_language_code (a ∷ b ∷ s) = (is_az a && is_az b) && (after_language s || third_letter s)
valid_language_code s = false

module _ (unicode : Unicode) where
  -- `s.isdigit()`
  unfoldable pub all_digits : Text → Bool
  all_digits [] = true
  all_digits (c ∷ s) = unicode.is_digit_char c && all_digits s

  abbrev pub is_digits : Text → Bool
  is_digits s = not (is_empty s) && all_digits s

  -- The value of a text of decimal digits.
  unfoldable pub int_from : ℕ → Text → Option ℕ
  int_from n [] = some n
  int_from n (c ∷ s) = elim (unicode.decimal c) [ none ↦ none | some d ↦ int_from (10 * n + d) s ]

  -- `int(s)` of a text of digits: `none` is a ValueError, also of more than 4300 digits, which
  -- Python refuses unless it is set up otherwise.
  abbrev pub int_of : Text → Option ℕ
  int_of s = if ltb 4300 (length s) then none else int_from 0 s
