-- ===== src/Preferences/EnumStringSetting.antt =====
-- preferences.py: `EnumStringSetting`.
use opencode_optimised_tooli.Prelude.{
  Option, Text, contains, if◌then◌else◌, none, some, list_eq, nat_eq, pair_eq, string_eq,
}
use opencode_optimised_tooli.Preferences.Setting.{Setting}

unfoldable pub parse : Text → Setting Text → Option (Setting Text)
parse data' s = if contains data' s.choices then some (record s { value = data' }) else none
