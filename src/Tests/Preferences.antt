-- ===== src/Tests/Preferences.antt =====
-- Examples of the theorems on settings.
use opencode_optimised_tooli.Preferences.BooleanSetting.{parse}
use opencode_optimised_tooli.Preferences.Whole.{
  complete, boolean, multiple_choice, Entry, string, Preferences, left_by, parse_dict, put_setting,
  parse_value,
}
use opencode_optimised_tooli.Preferences.Form.{
  parse_form, read_form, add_unsent, read_field, collect, put_categories, put_category,
}
use opencode_optimised_tooli.Preferences.Form.Unsent.{switched_off, parse_form-unsent}
use opencode_optimised_tooli.Preferences.Whole.Locks.{Holds, parse_dict-Holds}
use opencode_optimised_tooli.Prelude.{
  Dict, List, Text, [], codes, contains, false, has_key, has_prefix, insert, lookup, none, refl,
  some, true, ◌∷◌, ◌≡◌, list_eq, nat_eq, pair_eq, string_eq,
}
use opencode_optimised_tooli.Preferences.Setting.{Setting}
use opencode_optimised_tooli.Preferences.SetSetting
use opencode_optimised_tooli.Preferences.BooleanChoices.{BooleanChoices, parse_cookie, save}
use opencode_optimised_tooli.Preferences.BooleanChoices.Cookies.{parse_cookie-save}

abbrev categories : Setting (List Text)
categories = record {
  value = codes "general" ∷ codes "images" ∷ [];
  locked = false;
  choices = codes "general" ∷ codes "images" ∷ codes "music" ∷ [];
}

abbrev language : Setting Text
language = record {
  value = codes "all";
  locked = false;
  choices = codes "all" ∷ codes "de" ∷ codes "pt-BR" ∷ [];
}

abbrev fresh_plugins : BooleanChoices
fresh_plugins = record {
  choices = (codes "calculator", true) ∷ (codes "tor_check", false) ∷ [];
  locked = false;
  default_choices = (codes "calculator", true) ∷ (codes "tor_check", false) ∷ [];
}

abbrev plugins : BooleanChoices
plugins = record fresh_plugins {
  choices = (codes "calculator", false) ∷ (codes "tor_check", true) ∷ [];
}

parse_cookie-save_example :
    lookup
      (codes "tor_check")
      (parse_cookie (save plugins).0 (save plugins).1 fresh_plugins).choices
    ≡ lookup (codes "tor_check") plugins.choices
unfolding has_key contains
parse_cookie-save_example =
    parse_cookie-save plugins fresh_plugins refl (λ k. refl) (refl, (refl, tt)) (refl, (refl, tt))
      (codes "tor_check") refl

abbrev tokens : SetSetting.State
tokens = record { values = codes "a1" ∷ codes "b2" ∷ []; locked = false }

abbrev theme : Entry
theme = record { locked = true; setting = string (codes "simple") }

abbrev nothing_chosen : BooleanChoices
nothing_chosen = record { choices = []; locked = false; default_choices = [] }

abbrev user_preferences : Preferences
user_preferences = record {
  key_value_settings =
      (codes "theme", theme)
      ∷ (codes "method", record { locked = false; setting = string (codes "GET") })
      ∷ [];
  engines = nothing_chosen;
  plugins = nothing_chosen;
  tokens = record { values = []; locked = false };
}

abbrev cookies : Dict Text Text
cookies = (codes "theme", codes "dark") ∷ (codes "method", codes "POST") ∷ []

parse_dict-Holds_example :
    Holds (codes "theme") theme (left_by (parse_dict cookies user_preferences))
unfolding lookup
parse_dict-Holds_example = parse_dict-Holds cookies (codes "theme") theme user_preferences refl refl

abbrev center_alignment : Entry
center_alignment = record { locked = true; setting = boolean (record { value = true; key = none }) }

abbrev with_boolean : Preferences
with_boolean = record user_preferences {
  key_value_settings =
      (codes "categories", record { locked = false; setting = multiple_choice categories })
      ∷ (codes "center_alignment", center_alignment)
      ∷ [];
}

abbrev music_form : Dict Text Text
music_form = (codes "category_music", codes "on") ∷ []

abbrev after_form : Preferences
after_form = left_by (parse_form music_form with_boolean)

music_form_parsed : parse_form music_form with_boolean ≡ complete after_form
unfolding parse_form read_form add_unsent has_key insert read_field lookup collect has_prefix
    put_setting parse_value parse put_categories put_category
music_form_parsed = refl

parse_form-unsent_example :
    lookup (codes "center_alignment") after_form.key_value_settings
    ≡ some (switched_off center_alignment)
unfolding has_key lookup
parse_form-unsent_example =
    parse_form-unsent (codes "center_alignment") center_alignment music_form with_boolean after_form
      refl refl (refl, tt) refl refl music_form_parsed
