-- ===== src/Preferences/MultipleChoiceSetting.antt =====
-- preferences.py: `MultipleChoiceSetting`.
use opencode_optimised_tooli.Prelude.{
  Bool, List, Option, Text, [], add_new, contains, if◌then◌else◌, is_empty, join_on, none, some,
  split_on, true, ◌&&◌, ◌∷◌, list_eq, nat_eq, pair_eq, string_eq,
}
use opencode_optimised_tooli.Preferences.Setting.{Setting}

unfoldable pub validate_selections : List Text → List Text → Bool
validate_selections choices [] = true
validate_selections choices (item ∷ rest) =
    contains item choices && validate_selections choices rest

unfoldable pub parse : Text → Setting (List Text) → Option (Setting (List Text))
parse data' s =
    if is_empty data'
    then some (record s { value = [] })
    else if validate_selections s.choices (split_on b',' data')
    then some (record s { value = split_on b',' data' })
    else none

unfoldable pub select : List Text → List Text → List Text → List Text
select choices value [] = value
select choices value (choice ∷ rest) =
    select choices (if contains choice choices then add_new choice value else value) rest

unfoldable pub parse_form : List Text → Setting (List Text) → Setting (List Text)
parse_form data' s = if s.locked then s else record s { value = select s.choices [] data' }

-- The value of the cookie.
unfoldable pub save : Setting (List Text) → Text
save s = join_on b',' s.value
