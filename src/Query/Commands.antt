-- ===== src/Query/Commands.antt =====
-- query.py: the parsers of timeouts, external bangs, bangs and "feeling lucky", and the choice
-- between the parsers.
use opencode_optimised_tooli.Prelude.{
  Bool, List, Option, Text, [], codes, contains, false, has_key, has_prefix, if◌then◌else◌,
  is_empty, keys, lookup, ltb, none, not, snoc, some, true, ◌&&◌, ◌*◌, ◌^◌, ◌-◌, leb, ℕ, ◌++◌, ◌==◌,
  ◌∷◌, list_eq, nat_eq, pair_eq, string_eq,
}
use opencode_optimised_tooli.Query.Types.{
  EngineRef, Setup, RawTextQuery, add_autocompletes, replace_char, is_digits, int_of,
}
use opencode_optimised_tooli.Query.Language.{call_language}

abbrev pub or_examples : List Text → List Text
or_examples [] = codes "g" ∷ codes "ddg" ∷ codes "bing" ∷ []
or_examples (b ∷ bs) = b ∷ bs

-- The texts with a prefix before each.
unfoldable pub prefixed : Text → List Text → List Text
prefixed p [] = []
prefixed p (t ∷ ts) = (p ++ t) ∷ prefixed p ts

-- The engines of a category that are not disabled, as references.
unfoldable pub category_refs : List EngineRef → Text → List Text → List EngineRef
category_refs disabled category [] = []
category_refs disabled category (name ∷ rest) =
    let later = category_refs disabled category rest in
    if contains (name, category) disabled then later else (name, category) ∷ later

abbrev pub or_same : Text → Option Text → Text
or_same value none = value
or_same value (some name) = name

-- The names that start with a text, with `!` before and `_` for the blanks.
unfoldable pub completions_of : (Text → Text) → Text → List Text → List Text
completions_of shown value [] = []
completions_of shown value (name ∷ rest) =
    let later = completions_of shown value rest in
    if has_prefix value name then (b'!' ∷ shown name) ∷ later else later

-- The first integer that is too large for a float.
unfoldable pub float_limit : ℕ
float_limit = 2 ^ 1024 - 2 ^ 970

module _ (setup : Setup) where
  abbrev lower : Text → Text
  lower = setup.unicode.lower

  -- `TimeoutParser`: below 100 the unit is the second; `none` is a ValueError of `int`, or the
  -- OverflowError of a division by `1000.0`.
  unfoldable pub parse_timeout : Text → RawTextQuery → Option (RawTextQuery × Bool)
  parse_timeout value q =
      if is_digits setup.unicode value
      then elim (int_of setup.unicode value) [
        | none ↦ none
        | some raw ↦
            if ltb raw 100
            then some (record q { timeout_limit = some (raw * 1000) }, true)
            else if leb float_limit raw
            then none
            else some (record q { timeout_limit = some raw }, true)
      ]
      else some (q, false)

  unfoldable pub call_timeout : Bool → Text → RawTextQuery → Option (RawTextQuery × Bool)
  call_timeout enable_autocomplete value q =
      if is_empty value
      then some (
        (if enable_autocomplete then add_autocompletes (codes "<3" ∷ codes "<850" ∷ []) q else q),
        false,
      )
      else parse_timeout value q

  -- `ExternalBangParser`, of the part behind the two exclamation marks.
  unfoldable pub call_external_bang : Bool → Text → RawTextQuery → RawTextQuery × Bool
  call_external_bang enable_autocomplete raw q =
      let value = lower raw in
      let found = not (is_empty value) && setup.has_bang value in
      let completions = if is_empty value then [] else setup.bang_completions value in
      let q' = if found then record q { external_bang = some value } else q in
      (
        if enable_autocomplete
            then add_autocompletes (prefixed (codes "!!") (or_examples completions)) q'
            else q',
        found,
      )

  -- `BangParser._parse`
  unfoldable pub parse_bang : Text → RawTextQuery → RawTextQuery × Bool
  parse_bang shortcut q =
      let value = or_same shortcut (lookup shortcut setup.engine_shortcuts) in
      if has_key value setup.engines
      then (record q { enginerefs = snoc q.enginerefs (value, codes "none") }, true)
      else elim (lookup value setup.categories) [
        | none ↦ (q, false)
        | some names ↦ (
          record q { enginerefs = q.enginerefs ++ category_refs q.disabled_engines value names },
          true,
        )
      ]

  -- The three example suggestions are names, and `disabled_engines` holds pairs: none of them is
  -- ever in it.
  unfoldable pub complete_bang : Text → RawTextQuery → RawTextQuery
  complete_bang value q =
      if is_empty value
      then add_autocompletes (codes "!images" ∷ codes "!wikipedia" ∷ codes "!osm" ∷ []) q
      else (let underscored = replace_char b' ' b'_' in
          add_autocompletes
            (completions_of underscored value (keys setup.categories)
              ++ completions_of underscored value (keys setup.engines)
              ++ completions_of (λ s. s) value (keys setup.engine_shortcuts))
            q)

  -- `BangParser.__call__`, of the part behind the exclamation mark.
  unfoldable pub call_bang : Bool → Text → RawTextQuery → RawTextQuery × Bool
  call_bang enable_autocomplete raw q =
      let value = lower (replace_char b'_' b' ' (replace_char b'-' b' ' raw)) in
      let (q', found) : RawTextQuery × Bool =
        if is_empty value then (q, false) else parse_bang value q in
      let q'' = if found then record q' { specific = true } else q' in
      (if enable_autocomplete then complete_bang value q'' else q'', found)

  -- The loop over `PARSER_CLASSES`: the first parser whose `check` holds is called.
  unfoldable pub call_parser : Bool → Text → RawTextQuery → Option (RawTextQuery × Bool)
  call_parser last [] q = some (q, false)
  call_parser last (c ∷ rest) q =
      if c == b'<'
      then call_timeout last rest q
      else if c == b':'
      then some (call_language setup last rest q)
      else if c == b'!'
      then elim rest [
        | [] ↦ some (call_bang last [] q)
        | d ∷ more ↦
            if d == b'!'
            then (if is_empty more
                then some (record q { redirect_to_first_result = true }, true)
                else some (call_external_bang last more q))
            else some (call_bang last (d ∷ more) q)
      ]
      else some (q, false)
