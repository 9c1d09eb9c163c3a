-- ===== src/Preferences/BooleanChoices.antt =====
-- preferences.py: `BooleanChoices`, the engines and plugins that a user switched on or off.
pub mod Cookies
use opencode_optimised_tooli.Prelude.{
  Bool, Dict, List, Option, Text, [], contains, false, has_key, if◌then◌else◌, insert, join_on,
  keep, lookup, none, not, some, split_on, true, ◌∷◌, list_eq, nat_eq, pair_eq, string_eq,
}
use opencode_optimised_tooli.Preferences.BooleanSetting.{same}

-- BooleanChoices
pub record BooleanChoices : Type 0 where
  pub choices : Dict Text Bool
  pub locked : Bool
  pub default_choices : Dict Text Bool

-- `for name in names: if name in choices: choices[name] = v`
unfoldable pub set_known : Bool → List Text → Dict Text Bool → Dict Text Bool
set_known v [] d = d
set_known v (name ∷ rest) d = set_known v rest (if has_key name d then insert name v d else d)

unfoldable pub parse_cookie : Text → Text → BooleanChoices → BooleanChoices
parse_cookie data_disabled data_enabled s = record s {
  choices =
      set_known true (split_on b',' data_enabled)
        (set_known false (split_on b',' data_disabled) s.choices);
}

-- `self.choices[setting] = setting not in disabled`
unfoldable pub set_from_form : List Text → Dict Text Bool → Dict Text Bool
set_from_form disabled [] = []
set_from_form disabled ((setting, v) ∷ rest) =
    (setting, not (contains setting disabled)) ∷ set_from_form disabled rest

-- `transform` is `transform_form_items` of the subclass.
unfoldable pub parse_form : (List Text → List Text) → List Text → BooleanChoices → BooleanChoices
parse_form transform items s =
    if s.locked then s else record s { choices = set_from_form (transform items) s.choices }

-- The keys whose value is `v`: `enabled` and `disabled`.
unfoldable pub with_value : Bool → Dict Text Bool → List Text
with_value v [] = []
with_value v ((k, w) ∷ rest) =
    let later = with_value v rest in if same v w then k ∷ later else later

abbrev pub was : Bool → Option Bool → Bool
was v none = false
was v (some w) = same v w

-- `disabled_changed` (false) and `enabled_changed` (true)
unfoldable pub changed : Bool → BooleanChoices → List Text
changed v s = keep (λ k. was (not v) (lookup k s.default_choices)) (with_value v s.choices)

-- The values of the two cookies.
unfoldable pub save : BooleanChoices → Text × Text
save s = (join_on b',' (changed false s), join_on b',' (changed true s))
