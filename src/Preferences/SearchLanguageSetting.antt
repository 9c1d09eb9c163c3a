-- ===== src/Preferences/SearchLanguageSetting.antt =====
-- preferences.py: `SearchLanguageSetting`.
-- `valid_code` is the match of `VALID_LANGUAGE_CODE`.
use opencode_optimised_tooli.Prelude.{
  Bool, Option, Text, [], codes, contains, if◌then◌else◌, is_empty, none, some, ◌==◌, ◌||◌, ◌∷◌,
  list_eq, nat_eq, pair_eq, string_eq,
}
use opencode_optimised_tooli.Preferences.Setting.{Setting}

-- `data.replace('_', '-')`
unfoldable pub dashes : Text → Text
dashes [] = []
dashes (c ∷ s) = (if c == b'_' then b'-' else c) ∷ dashes s

-- `data.split('-', maxsplit=1)[0]`
unfoldable pub before_dash : Text → Text
before_dash [] = []
before_dash (c ∷ s) = let rest = before_dash s in if c == b'-' then [] else c ∷ rest

unfoldable pub choose : Text → Setting Text → Text
choose data' s =
    if contains data' s.choices || (data' == s.value)
    then data'
    else if contains (dashes data') s.choices
    then dashes data'
    else if contains (before_dash (dashes data')) s.choices
    then before_dash (dashes data')
    else s.value

module _ (valid_code : Text → Bool) where
  abbrev pub is_valid : Text → Bool
  is_valid selection = is_empty selection || ((selection == codes "auto") || valid_code selection)

  unfoldable pub parse : Text → Setting Text → Option (Setting Text)
  parse data' s =
      if is_valid (choose data' s) then some (record s { value = choose data' s }) else none
