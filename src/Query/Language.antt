-- ===== src/Query/Language.antt =====
-- query.py: `LanguageParser`.
use opencode_optimised_tooli.Prelude.{
  Bool, List, Text, [], codes, contains, false, has_prefix, if◌then◌else◌, is_empty, leb, length,
  ltb, not, snoc, split_on, true, ◌&&◌, ◌++◌, ◌==◌, ◌||◌, ◌∷◌, list_eq, nat_eq, pair_eq, string_eq,
}
use opencode_optimised_tooli.Query.Types.{
  Locale, Setup, RawTextQuery, add_autocompletes, replace_char, valid_language_code,
}

-- `value.replace('-', ' ')`
abbrev pub spaced : Text → Text
spaced value = replace_char b'-' b' ' value

module _ (setup : Setup) where
  abbrev lower : Text → Text
  lower = setup.unicode.lower

  abbrev upper : Text → Text
  upper = setup.unicode.upper

  unfoldable pub names_locale : Text → Locale → Bool
  names_locale value lc =
      (value == lower lc.lang_id)
      || ((value == lower lc.lang_name)
          || ((value == lower lc.english_name) || (spaced value == lower lc.country)))

  -- "de-at" is written "de-AT".
  abbrev pub cased : List Text → Text → Text
  cased (language ∷ region ∷ []) lang_id = language ++ b'-' ∷ upper region
  cased parts lang_id = lang_id

  unfoldable pub append_language : Text → RawTextQuery → RawTextQuery
  append_language language q = record q { languages = snoc q.languages language }

  -- The loop over the locales, with the flag `found`.
  unfoldable pub match_locales : Text → List Locale → Bool → RawTextQuery → RawTextQuery × Bool
  match_locales value [] found q = (q, found)
  match_locales value (lc ∷ rest) found q =
      let lang_id = lower lc.lang_id in
      let q' = append_language (cased (split_on b'-' lang_id) lang_id) q in
      let skipped = match_locales value rest found q in
      let went_on = match_locales value rest true q' in
      if names_locale value lc && not (contains value q.languages)
      then (if value == lang_id then (q', true) else went_on)
      else skipped

  -- The code of a valid, yet not selectable language.
  abbrev pub code_of : List Text → Text → Text
  code_of (language ∷ region ∷ rest) value = lower language ++ b'-' ∷ upper region
  code_of parts value = value

  unfoldable pub match_code : Text → RawTextQuery × Bool → RawTextQuery × Bool
  match_code value (q, found) =
      let code = code_of (split_on b'-' value) value in
      if (valid_language_code value || (value == codes "auto")) && not (contains code q.languages)
      then (append_language code q, true)
      else (q, found)

  unfoldable pub parse_language : Text → RawTextQuery → RawTextQuery × Bool
  parse_language value q = match_code value (match_locales value setup.locales false q)

  abbrev pub first_part : List Text → Text
  first_part [] = []
  first_part (p ∷ ps) = p

  -- What one locale of the settings adds to the completions.
  unfoldable pub locale_completions : Text → Locale → List Text
  locale_completions value lc =
      let lang_id = lower lc.lang_id in
      let short = if leb (length value) 2 then first_part (split_on b'-' lang_id) else lang_id in
      let by_id = if has_prefix value lang_id then (b':' ∷ short) ∷ [] else [] in
      let by_name =
        if has_prefix value (lower lc.lang_name) || has_prefix value (lower lc.english_name)
        then (b':' ∷ lower lc.lang_name) ∷ []
        else [] in
      let by_country =
        if has_prefix (spaced value) (lower lc.country)
        then (b':' ∷ replace_char b' ' b'_' (lower lc.country)) ∷ []
        else [] in
      by_id ++ by_name ++ by_country

  unfoldable pub complete_locales : Text → List Locale → RawTextQuery → RawTextQuery
  complete_locales value [] q = q
  complete_locales value (lc ∷ rest) q = complete_locales value rest (
      if contains lc.lang_id setup.languages
      then add_autocompletes (locale_completions value lc) q
      else q)

  -- `:` before every language
  unfoldable pub coloned : List Text → List Text
  coloned [] = []
  coloned (lang ∷ rest) = (b':' ∷ lang) ∷ coloned rest

  abbrev pub example_languages : List Text
  example_languages = codes ":en" ∷ codes ":en_us" ∷ codes ":english" ∷ codes ":united_kingdom" ∷ []

  unfoldable pub complete_language : Text → RawTextQuery → RawTextQuery
  complete_language value q =
      if is_empty value
      then record q {
        autocomplete_list =
            q.autocomplete_list
            ++ (if ltb (length setup.languages) 10
                then coloned setup.languages
                else example_languages);
      }
      else complete_locales value setup.locales q

  -- `LanguageParser.__call__`, of the part behind the colon.
  unfoldable pub call_language : Bool → Text → RawTextQuery → RawTextQuery × Bool
  call_language enable_autocomplete raw q =
      let value = replace_char b'_' b'-' (lower raw) in
      let (q', found) : RawTextQuery × Bool =
        if is_empty value then (q, false) else parse_language value q in
      (if enable_autocomplete && not found then complete_language value q' else q', found)
