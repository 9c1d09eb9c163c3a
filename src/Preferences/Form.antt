-- ===== src/Preferences/Form.antt =====
-- preferences.py: `Preferences.parse_form`, the form of the preferences page.
pub mod Loop
pub mod Sent
pub mod Unsent
use opencode_optimised_tooli.Prelude.{
  Bool, Dict, List, Text, [], codes, false, has_key, has_prefix, if◌then◌else◌, insert, lookup,
  none, not, snoc, some, true, ◌&&◌, ◌==◌, ◌∷◌, list_eq, nat_eq, pair_eq, string_eq,
}
use opencode_optimised_tooli.WebAdapter.Engines.{drop}
use opencode_optimised_tooli.Preferences.MultipleChoiceSetting
use opencode_optimised_tooli.Preferences.SetSetting
use opencode_optimised_tooli.Preferences.BooleanChoices
use opencode_optimised_tooli.Preferences.Whole.{
  Entry, KeyValue, string, enum_string, multiple_choice, search_language, map_setting, boolean,
  parse_value, Preferences, Parsed, complete, refused, put_setting,
}

-- `s.replace('_', ' ').replace('  ', '__')`
unfoldable pub blanks : Text → Text
blanks [] = []
blanks (c ∷ s) = (if c == b'_' then b' ' else c) ∷ blanks s

unfoldable pub double_blanks : Text → Text
double_blanks [] = []
double_blanks (c ∷ []) = c ∷ []
double_blanks (c ∷ d ∷ s) =
    let both = double_blanks s in
    let first = double_blanks (d ∷ s) in
    if (c == b' ') && (d == b' ') then b'_' ∷ b'_' ∷ both else c ∷ first

-- `EnginesSetting.transform_form_items` and `PluginsSetting.transform_form_items`
unfoldable pub engine_items : List Text → List Text
engine_items [] = []
engine_items (item ∷ rest) = double_blanks (blanks (drop 7 item)) ∷ engine_items rest

unfoldable pub plugin_items : List Text → List Text
plugin_items [] = []
plugin_items (item ∷ rest) = drop 7 item ∷ plugin_items rest

abbrev pub is_boolean : KeyValue → Bool
is_boolean (boolean s) = true
is_boolean _ = false

-- Boolean settings that are not sent are put at the end of the form as false.
unfoldable pub add_unsent : Dict Text Entry → Dict Text Text → Dict Text Text
add_unsent [] form = form
add_unsent ((key, entry) ∷ rest) form = add_unsent rest (
    if not (has_key key form) && is_boolean entry.setting
    then insert key (codes "False") form
    else form)

-- The variables of the loop.
pub record Collected : Type 0 where
  pub preferences : Preferences
  pub disabled_engines : List Text
  pub enabled_categories : List Text
  pub disabled_plugins : List Text

-- What the loop leaves: `stopped` at an exception.
pub data Reading : Type 0 where
  reads : Collected → Reading
  stopped : Preferences → Reading

abbrev pub with_preferences : Collected → Parsed → Reading
with_preferences s (complete p) = reads (record s { preferences = p })
with_preferences s (refused p) = stopped p

unfoldable pub collect : Text → Text → Collected → Collected
collect name user_setting s =
    if has_prefix (codes "engine_") name
    then record s { disabled_engines = snoc s.disabled_engines name }
    else if has_prefix (codes "category_") name
    then record s { enabled_categories = snoc s.enabled_categories (drop 9 name) }
    else if has_prefix (codes "plugin_") name
    then record s { disabled_plugins = snoc s.disabled_plugins name }
    else if name == codes "tokens"
    then record s {
      preferences = record s.preferences {
        tokens = SetSetting.parse_form user_setting s.preferences.tokens;
      };
    }
    else s

-- A setting is parsed whether it is locked or not.
unfoldable pub read_field : Text → Text → Collected → Reading
read_field name user_setting s = elim (lookup name s.preferences.key_value_settings) [
  | none ↦ reads (collect name user_setting s)
  | some entry ↦
      with_preferences s
        (put_setting name entry (parse_value user_setting entry.setting) s.preferences)
]

unfoldable pub read_form : Dict Text Text → Collected → Reading
read_form [] s = reads s
read_form ((name, user_setting) ∷ rest) s = elim (read_field name user_setting s) [
  | stopped p ↦ stopped p
  | reads s' ↦ read_form rest s'
]

-- `key_value_settings['categories'].parse_form(enabled_categories)`; another class has no such
-- method.
unfoldable pub put_category : List Text → Entry → KeyValue → Preferences → Parsed
put_category enabled_categories entry (multiple_choice s) p =
    put_setting (codes "categories") entry
      (some (multiple_choice (MultipleChoiceSetting.parse_form enabled_categories s))) p
put_category enabled_categories entry _ p = refused p

unfoldable pub put_categories : List Text → Preferences → Parsed
put_categories enabled_categories p = elim (lookup (codes "categories") p.key_value_settings) [
  | none ↦ refused p
  | some entry ↦ put_category enabled_categories entry entry.setting p
]

abbrev pub put_choices : Collected → Parsed → Parsed
put_choices s (refused p) = refused p
put_choices s (complete p) = complete (record p {
  engines = BooleanChoices.parse_form engine_items s.disabled_engines p.engines;
  plugins = BooleanChoices.parse_form plugin_items s.disabled_plugins p.plugins;
})

abbrev pub finish : Reading → Parsed
finish (stopped p) = refused p
finish (reads s) = put_choices s (put_categories s.enabled_categories s.preferences)

unfoldable pub parse_form : Dict Text Text → Preferences → Parsed
parse_form form p =
    let start : Collected = record {
      preferences = p;
      disabled_engines = [];
      enabled_categories = [];
      disabled_plugins = [];
    } in
    finish (read_form (add_unsent p.key_value_settings form) start)
