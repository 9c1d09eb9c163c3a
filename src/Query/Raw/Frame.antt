-- ===== src/Query/Raw/Frame.antt =====
-- No parser touches the lists of words of a query.

use opencode_optimised_tooli.Prelude.{
  Bool, Bool-cases, List, Text, [], arith, codes, contains, false, if◌then◌else◌, inl, inr,
  is_empty, keys, not, refl, some, split_on, true, ◌&&◌, ◌++◌, ◌∙◌, ◌∷◌, ◌≡◌, list_eq, nat_eq,
  pair_eq, string_eq,
}
use opencode_optimised_tooli.Query.Types.{
  Locale, Setup, RawTextQuery, add_autocomplete, add_autocompletes, replace_char,
}
use opencode_optimised_tooli.Query.Language.{
  match_locales, match_code, parse_language, complete_locales, complete_language, call_language,
  append_language, cased, locale_completions,
}
use opencode_optimised_tooli.Query.Commands.{
  parse_timeout, call_timeout, call_external_bang, parse_bang, complete_bang, completions_of,
  prefixed, or_examples, call_bang, call_parser,
}

-- The two lists of words of a query.
abbrev pub parts_of : RawTextQuery → List Text × List Text
parts_of q = (q.query_parts, q.user_query_parts)

parts_of-add_autocompletes :
    (l : List Text) (q : RawTextQuery) → parts_of (add_autocompletes l q) ≡ parts_of q
unfolding add_autocompletes add_autocomplete
parts_of-add_autocompletes [] q = refl
parts_of-add_autocompletes (v ∷ l) q = parts_of-add_autocompletes l (add_autocomplete v q)

-- Both branches of a conditional leave the words of `q`.
parts_of-if :
    (b : Bool) (x y q : RawTextQuery)
    → parts_of x ≡ parts_of q
    → parts_of y ≡ parts_of q
    → parts_of (if b then x else y) ≡ parts_of q
parts_of-if true x y q h k = h
parts_of-if false x y q h k = k

parts_of-if_pair :
    (b : Bool) (x y : RawTextQuery × Bool) (q : RawTextQuery)
    → parts_of x.0 ≡ parts_of q
    → parts_of y.0 ≡ parts_of q
    → parts_of (if b then x else y).0 ≡ parts_of q
parts_of-if_pair true x y q h k = h
parts_of-if_pair false x y q h k = k

module _ (setup : Setup) where
  parts_of-match_locales :
      (value : Text) (lcs : List Locale) (found : Bool) (q : RawTextQuery)
      → parts_of (match_locales setup value lcs found q).0 ≡ parts_of q
  unfolding match_locales append_language
  parts_of-match_locales value [] found q = refl
  parts_of-match_locales value (lc ∷ lcs) found q =
      let lang_id = setup.unicode.lower lc.lang_id in
      let language = cased setup (split_on b'-' lang_id) lang_id in
      ground (
        arith,
        parts_of-match_locales value lcs found q,
        parts_of-match_locales value lcs true (append_language setup language q),
      )

  parts_of-match_code :
      (value : Text) (q : RawTextQuery) (found : Bool)
      → parts_of (match_code setup value (q, found)).0 ≡ parts_of q
  unfolding match_code append_language
  parts_of-match_code value q found = ground arith

  parts_of-parse_language :
      (value : Text) (q : RawTextQuery) → parts_of (parse_language setup value q).0 ≡ parts_of q
  unfolding parse_language
  parts_of-parse_language value q =
      let m = match_locales setup value setup.locales false q in
      parts_of-match_code value m.0 m.1 ∙ parts_of-match_locales value setup.locales false q

  parts_of-complete_locales :
      (value : Text) (lcs : List Locale) (q : RawTextQuery)
      → parts_of (complete_locales setup value lcs q) ≡ parts_of q
  unfolding complete_locales
  parts_of-complete_locales value [] q = refl
  parts_of-complete_locales value (lc ∷ lcs) q =
      let more = add_autocompletes (locale_completions setup value lc) q in
      let known = contains lc.lang_id setup.languages in
      parts_of-complete_locales value lcs (if known then more else q)
      ∙ parts_of-if known more q q
          (parts_of-add_autocompletes (locale_completions setup value lc) q) refl

  parts_of-complete_language :
      (value : Text) (q : RawTextQuery) → parts_of (complete_language setup value q) ≡ parts_of q
  unfolding complete_language
  parts_of-complete_language value q = elim (Bool-cases (is_empty value)) [
    | inl e ↦ rw e refl
    | inr e ↦ rw e (parts_of-complete_locales value setup.locales q)
  ]

  parts_of-call_language :
      (last : Bool) (raw : Text) (q : RawTextQuery)
      → parts_of (call_language setup last raw q).0 ≡ parts_of q
  unfolding call_language
  parts_of-call_language last raw q =
      let value = replace_char b'_' b'-' (setup.unicode.lower raw) in
      let parsed : RawTextQuery × Bool =
        if is_empty value then (q, false) else parse_language setup value q in
      let same : parts_of parsed.0 ≡ parts_of q =
        parts_of-if_pair (is_empty value) (q, false) (parse_language setup value q) q refl
          (parts_of-parse_language value q) in
      parts_of-if (last && not parsed.1) (complete_language setup value parsed.0) parsed.0 q
        (parts_of-complete_language value parsed.0 ∙ same) same

  parts_of-call_timeout :
      (last : Bool) (value : Text) (q q' : RawTextQuery) (found : Bool)
      → call_timeout setup last value q ≡ some (q', found)
      → parts_of q' ≡ parts_of q
  unfolding call_timeout parse_timeout
  parts_of-call_timeout last value q q' found h =
      ground (arith, parts_of-add_autocompletes (codes "<3" ∷ codes "<850" ∷ []) q)

  parts_of-call_external_bang :
      (last : Bool) (raw : Text) (q : RawTextQuery)
      → parts_of (call_external_bang setup last raw q).0 ≡ parts_of q
  unfolding call_external_bang
  parts_of-call_external_bang last raw q =
      let value = setup.unicode.lower raw in
      let found = not (is_empty value) && setup.has_bang value in
      let completions = if is_empty value then [] else setup.bang_completions value in
      let shown = prefixed (codes "!!") (or_examples completions) in
      let q' = if found then record q { external_bang = some value } else q in
      let same : parts_of q' ≡ parts_of q =
        parts_of-if found (record q { external_bang = some value }) q q refl refl in
      parts_of-if last (add_autocompletes shown q') q' q
        (parts_of-add_autocompletes shown q' ∙ same) same

  parts_of-parse_bang :
      (value : Text) (q : RawTextQuery) → parts_of (parse_bang setup value q).0 ≡ parts_of q
  unfolding parse_bang
  parts_of-parse_bang value q = ground arith

  parts_of-complete_bang :
      (value : Text) (q : RawTextQuery) → parts_of (complete_bang setup value q) ≡ parts_of q
  unfolding complete_bang
  parts_of-complete_bang value q =
      parts_of-if (is_empty value) (add_autocompletes example_bangs q)
        (add_autocompletes (all_completions value) q) q (parts_of-add_autocompletes example_bangs q)
        (parts_of-add_autocompletes (all_completions value) q)
    where
      example_bangs : List Text
      example_bangs = codes "!images" ∷ codes "!wikipedia" ∷ codes "!osm" ∷ []

      all_completions : Text → List Text
      all_completions value =
          completions_of (replace_char b' ' b'_') value (keys setup.categories)
          ++ completions_of (replace_char b' ' b'_') value (keys setup.engines)
          ++ completions_of (λ s. s) value (keys setup.engine_shortcuts)

  parts_of-call_bang :
      (last : Bool) (raw : Text) (q : RawTextQuery)
      → parts_of (call_bang setup last raw q).0 ≡ parts_of q
  unfolding call_bang
  parts_of-call_bang last raw q =
      let value = setup.unicode.lower (replace_char b'_' b' ' (replace_char b'-' b' ' raw)) in
      let parsed : RawTextQuery × Bool =
        if is_empty value then (q, false) else parse_bang setup value q in
      let same : parts_of parsed.0 ≡ parts_of q =
        parts_of-if_pair (is_empty value) (q, false) (parse_bang setup value q) q refl
          (parts_of-parse_bang value q) in
      let noted = if parsed.1 then record parsed.0 { specific = true } else parsed.0 in
      let same' : parts_of noted ≡ parts_of q =
        parts_of-if parsed.1 (record parsed.0 { specific = true }) parsed.0 q same same in
      parts_of-if last (complete_bang setup value noted) noted q
        (parts_of-complete_bang value noted ∙ same') same'

  -- No parser touches the lists of words.
  pub parts_of-call_parser :
      (last : Bool) (part : Text) (q q' : RawTextQuery) (found : Bool)
      → call_parser setup last part q ≡ some (q', found)
      → parts_of q' ≡ parts_of q
  unfolding call_parser
  parts_of-call_parser last [] q q' found h = ground arith
  parts_of-call_parser last (c ∷ []) q q' found h = ground (
    arith,
    parts_of-call_timeout last [] q q' found,
    parts_of-call_language last [] q,
    parts_of-call_bang last [] q,
  )
  parts_of-call_parser last (c ∷ d ∷ more) q q' found h = ground (
    arith,
    parts_of-call_timeout last (d ∷ more) q q' found,
    parts_of-call_language last (d ∷ more) q,
    parts_of-call_external_bang last more q,
    parts_of-call_bang last (d ∷ more) q,
  )
