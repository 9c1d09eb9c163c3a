-- ===== src/Preferences/Whole.antt =====
-- preferences.py: `Preferences`, which hands a request to the settings.
pub mod Locks
use opencode_optimised_tooli.Prelude.{
  Bool, Dict, List, Option, Text, [], codes, if◌then◌else◌, insert, lookup, none, some, ℕ, ◌==◌,
  ◌∷◌, list_eq, nat_eq, pair_eq, string_eq,
}
use opencode_optimised_tooli.Query.Types.{valid_language_code}
use opencode_optimised_tooli.Preferences.Setting.{Setting}
use opencode_optimised_tooli.Preferences.EnumStringSetting
use opencode_optimised_tooli.Preferences.MultipleChoiceSetting
use opencode_optimised_tooli.Preferences.SearchLanguageSetting
use opencode_optimised_tooli.Preferences.MapSetting
use opencode_optimised_tooli.Preferences.BooleanSetting
use opencode_optimised_tooli.Preferences.SetSetting
use opencode_optimised_tooli.Preferences.BooleanChoices.{BooleanChoices, parse_cookie}
use opencode_optimised_tooli.Preferences.BooleanChoices

-- A setting of `key_value_settings`, by its class.
pub data KeyValue : Type 0 where
  string : Text → KeyValue
  enum_string : Setting Text → KeyValue
  multiple_choice : Setting (List Text) → KeyValue
  search_language : Setting Text → KeyValue
  map_setting : MapSetting.State ℕ → KeyValue
  boolean : BooleanSetting.State → KeyValue

pub record Entry : Type 0 where
  pub locked : Bool
  pub setting : KeyValue

-- `setting.parse(data)`; `none` stands for the exceptions.
abbrev pub wrap {ℓ} : {A : Type ℓ} → (A → KeyValue) → Option A → Option KeyValue
wrap f none = none
wrap f (some a) = some (f a)

unfoldable pub parse_value : Text → KeyValue → Option KeyValue
parse_value data' (string value) = some (string data')
parse_value data' (enum_string s) = wrap enum_string (EnumStringSetting.parse data' s)
parse_value data' (multiple_choice s) = wrap multiple_choice (MultipleChoiceSetting.parse data' s)
parse_value data' (search_language s) =
    wrap search_language (SearchLanguageSetting.parse valid_language_code data' s)
parse_value data' (map_setting s) = wrap map_setting (MapSetting.parse data' s)
parse_value data' (boolean s) = wrap boolean (BooleanSetting.parse data' s)

pub record Preferences : Type 0 where
  pub key_value_settings : Dict Text Entry
  pub engines : BooleanChoices
  pub plugins : BooleanChoices
  pub tokens : SetSetting.State

-- What an operation leaves, whether it comes to its end or raises an exception.
pub data Parsed : Type 0 where
  complete refused : Preferences → Parsed

abbrev pub left_by : Parsed → Preferences
left_by (complete p) = p
left_by (refused p) = p

unfoldable pub put_setting : Text → Entry → Option KeyValue → Preferences → Parsed
put_setting name entry none p = refused p
put_setting name entry (some v) p = complete (record p {
  key_value_settings = insert name (record entry { setting = v }) p.key_value_settings;
})

-- `input_data.get(name, '')`
abbrev pub or_empty : Option Text → Text
or_empty none = []
or_empty (some t) = t

abbrev pub field : Text → Dict Text Text → Text
field name input_data = or_empty (lookup name input_data)

unfoldable pub parse_other : Dict Text Text → Text → Text → Preferences → Preferences
parse_other input_data name user_setting p =
    if name == codes "disabled_engines"
    then record p {
      engines =
          parse_cookie (field (codes "disabled_engines") input_data)
            (field (codes "enabled_engines") input_data) p.engines;
    }
    else if name == codes "disabled_plugins"
    then record p {
      plugins =
          parse_cookie (field (codes "disabled_plugins") input_data)
            (field (codes "enabled_plugins") input_data) p.plugins;
    }
    else if name == codes "tokens"
    then record p { tokens = SetSetting.parse user_setting p.tokens }
    else p

-- One round of the loop of `parse_dict`.
unfoldable pub parse_entry : Dict Text Text → Text → Text → Preferences → Parsed
parse_entry input_data name user_setting p = elim (lookup name p.key_value_settings) [
  | none ↦ complete (parse_other input_data name user_setting p)
  | some entry ↦
      if entry.locked
      then complete p
      else put_setting name entry (parse_value user_setting entry.setting) p
]

unfoldable pub parse_entries : Dict Text Text → Dict Text Text → Preferences → Parsed
parse_entries input_data [] p = complete p
parse_entries input_data ((name, user_setting) ∷ rest) p =
    elim (parse_entry input_data name user_setting p) [
      | refused p' ↦ refused p'
      | complete p' ↦ parse_entries input_data rest p'
    ]

unfoldable pub parse_dict : Dict Text Text → Preferences → Parsed
parse_dict input_data p = parse_entries input_data input_data p
