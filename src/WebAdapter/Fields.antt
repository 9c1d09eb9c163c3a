-- ===== src/WebAdapter/Fields.antt =====
-- webadapter.py: the parsers of single fields of the form.
pub mod Laws
pub mod Bounds
use opencode_optimised_tooli.Prelude.{
  List, Option, Text, [], codes, contains, if◌then◌else◌, is_empty, lookup, ltb, none, not, some, ℕ,
  ◌==◌, ◌||◌, ◌∷◌, list_eq, nat_eq, pair_eq, string_eq,
}
use opencode_optimised_tooli.Query.Types.{
  Setup, RawTextQuery, valid_language_code, is_digits, int_of,
}
use opencode_optimised_tooli.WebAdapter.Types.{
  Fault, parameter_error, value_error, Result, ok, fault, Seconds, Form, Preferences,
}

-- The last of `raw_text_query.languages`, or else the field, or else the preference.
unfoldable pub last_language : List Text → Option Text → Text → Text
last_language [] none preferred = preferred
last_language [] (some language) preferred = language
last_language (l ∷ []) field preferred = l
last_language (l ∷ m ∷ ls) field preferred = last_language (m ∷ ls) field preferred

unfoldable pub check_lang : Text → Result Text
check_lang query_lang =
    if valid_language_code query_lang || (query_lang == codes "auto")
    then ok query_lang
    else fault (parameter_error (codes "language") query_lang)

unfoldable pub parse_lang : Preferences → Form → RawTextQuery → Result Text
parse_lang preferences form raw_text_query =
    if contains (codes "language") preferences.lock
    then ok preferences.language
    else check_lang (
        last_language raw_text_query.languages (lookup (codes "language") form)
          preferences.language)

abbrev pub time_ranges : List Text
time_ranges = codes "day" ∷ codes "week" ∷ codes "month" ∷ codes "year" ∷ []

unfoldable pub check_time_range : Option Text → Result (Option Text)
check_time_range none = ok none
check_time_range (some t) =
    if is_empty t || (t == codes "None")
    then ok none
    else if contains t time_ranges
    then ok (some t)
    else fault (parameter_error (codes "time_range") t)

unfoldable pub parse_time_range : Form → Result (Option Text)
parse_time_range form = check_time_range (lookup (codes "time_range") form)

module _ (seconds : Seconds) where
  -- What `float` makes of a text.
  unfoldable pub check_timeout : Text → Option seconds.T → Result (Option seconds.T)
  check_timeout t none = fault (parameter_error (codes "timeout_limit") t)
  check_timeout t (some limit) = ok (some limit)

  -- The timeout of the query, or else the field.
  unfoldable pub choose_timeout : Option ℕ → Option Text → Result (Option seconds.T)
  choose_timeout (some limit) field = ok (some (seconds.of_milliseconds limit))
  choose_timeout none none = ok none
  choose_timeout none (some t) =
      if (t == codes "None") || is_empty t then ok none else check_timeout t (seconds.parse t)

  unfoldable pub parse_timeout : Form → RawTextQuery → Result (Option seconds.T)
  parse_timeout form raw_text_query =
      choose_timeout raw_text_query.timeout_limit (lookup (codes "timeout_limit") form)

abbrev pub or_one : Option Text → Text
or_one none = codes "1"
or_one (some p) = p

module _ (setup : Setup) where
  -- `isdigit` holds of characters that `int` refuses with a ValueError, such as superscripts.
  unfoldable pub parse_pageno : Form → Result ℕ
  parse_pageno form =
      let pageno_param = or_one (lookup (codes "pageno") form) in
      if not (is_digits setup.unicode pageno_param)
      then fault (parameter_error (codes "pageno") pageno_param)
      else elim (int_of setup.unicode pageno_param) [
        | none ↦ fault value_error
        | some n ↦ if ltb n 1 then fault (parameter_error (codes "pageno") pageno_param) else ok n
      ]

  -- The second check of safesearch. The exception has the number itself; here it has the text
  -- that the number was read from.
  unfoldable pub check_safesearch : Text → ℕ → Result ℕ
  check_safesearch shown n =
      if ltb 2 n then fault (parameter_error (codes "safesearch") shown) else ok n

  abbrev pub check_number : Text → Option ℕ → Result ℕ
  check_number s none = fault value_error
  check_number s (some n) = check_safesearch s n

  -- The field, or else the preference.
  unfoldable pub choose_safesearch : ℕ → Option Text → Result ℕ
  choose_safesearch preferred none = check_safesearch [] preferred
  choose_safesearch preferred (some s) =
      if not (is_digits setup.unicode s)
      then fault (parameter_error (codes "safesearch") s)
      else check_number s (int_of setup.unicode s)

  unfoldable pub parse_safesearch : Preferences → Form → Result ℕ
  parse_safesearch preferences form =
      if contains (codes "safesearch") preferences.lock
      then ok preferences.safesearch
      else choose_safesearch preferences.safesearch (lookup (codes "safesearch") form)
