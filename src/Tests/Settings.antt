-- ===== src/Tests/Settings.antt =====
-- Examples of the theorems on the settings loader.
use opencode_optimised_tooli.Prelude.{
  Bool, List, String, Text, [], codes, false, none, refl, some, true, ◌==◌, ◌∷◌, ◌≡◌, list_eq,
  nat_eq, pair_eq, string_eq,
}
use opencode_optimised_tooli.Tree.{
  put, Tree, Trees, Fields, scalar, dict, items, nil, item, entry, string, get, append_trees,
}
use opencode_optimised_tooli.Tree.Laws.{AreDistinct}
use opencode_optimised_tooli.Settings.Merge.{update_dict, merged_value}
use opencode_optimised_tooli.Settings.Merge.Paths.{at_path, AllDistinct, at_path-update_dict}
use opencode_optimised_tooli.Settings.Engines.{
  is_true, add_engines, add_engine, hashable, has_name, update_engine, filter_by, elements,
  filter_engines, contained_in, in_list, merge_engines,
}
use opencode_optimised_tooli.Settings.Engines.Laws.{engines_after, new_engines}
use opencode_optimised_tooli.Settings.Engines.Merged.{add_engines_lem}
use opencode_optimised_tooli.Settings.Load.{
  setting_value, merge_settings, update_engines, store_engines, set_plugins, set_tabs, tabs_key,
  plugins_key, engines_key, given, engine_lists, update_settings,
}
use opencode_optimised_tooli.Settings.Load.Merged.{is_plain, Merges, get-update_settings}
use opencode_optimised_tooli.Settings.Load.Removed.{Leaves, update_settings-Leaves}

abbrev text : String → Tree
text s = scalar (string (codes s))

-- `==` on texts, which is all that the examples compare.
abbrev is_equal : Tree → Tree → Bool
is_equal (scalar (string s)) (scalar (string t)) = s == t
is_equal _ _ = false

abbrev server : String → Fields → Fields
server port rest = entry (codes "port") (text port) rest

abbrev default_server : Fields
default_server = entry (codes "server") (dict (server "8888" (server "" Fields.empty))) Fields.empty

abbrev user_server : Fields
user_server = entry (codes "server") (dict (server "80" Fields.empty)) Fields.empty

abbrev merged_server : Fields
merged_server = entry (codes "server") (dict (server "80" (server "" Fields.empty))) Fields.empty

at_path-update_dict_example :
    at_path (codes "server" ∷ codes "port" ∷ []) merged_server ≡ some (text "80")
unfolding AllDistinct update_dict at_path get put
at_path-update_dict_example =
    at_path-update_dict (codes "server" ∷ codes "port" ∷ []) user_server default_server
      merged_server (text "80") (refl, (refl, tt, tt), tt) refl refl refl

abbrev engine : String → String → Fields
engine name shortcut =
    entry (codes "name") (text name) (entry (codes "shortcut") (text shortcut) Fields.empty)

-- Two definitions of one name, and one of another.
abbrev default_engines : List (Tree × Fields)
default_engines =
    (text "ddg", engine "ddg" "d")
    ∷ (text "ddg", engine "ddg" "dd")
    ∷ (text "bing", engine "bing" "b")
    ∷ []

abbrev merged_engines : List (Tree × Fields)
merged_engines =
    (text "ddg", engine "ddg" "d")
    ∷ (text "ddg", engine "ddg" "x")
    ∷ (text "bing", engine "bing" "b")
    ∷ []

abbrev user_engines : Trees
user_engines = item (dict (engine "ddg" "x")) (item (dict (engine "wiki" "w")) nil)

add_engines_lem_example :
    (engines_after is_equal user_engines default_engines ≡ some merged_engines)
    × (new : Trees) × (new_engines is_equal default_engines user_engines ≡ some new)
    × (item (dict (engine "wiki" "w")) nil ≡ append_trees nil new)
unfolding add_engines update_dict get add_engine hashable has_name update_engine put append_trees
add_engines_lem_example =
    add_engines_lem is_equal user_engines default_engines merged_engines nil
      (item (dict (engine "wiki" "w")) nil) refl

abbrev default_settings : Fields
default_settings =
    entry (codes "engines")
      (items (item (dict (engine "ddg" "d")) (item (dict (engine "bing" "b")) nil)))
      (entry (codes "plugins") (dict (entry (codes "a") (text "on") Fields.empty)) Fields.empty)

-- What the user gives below `use_default_settings`, at `engines`.
abbrev removals : Fields
removals = entry (codes "remove") (items (item (text "bing") nil)) Fields.empty

abbrev user_settings : Fields
user_settings =
    entry (codes "use_default_settings")
      (dict (entry (codes "engines") (dict removals) Fields.empty))
      (entry (codes "plugins") (dict (entry (codes "b") (text "on") Fields.empty)) Fields.empty)

abbrev merged_settings : Fields
merged_settings =
    entry (codes "engines") (items (item (dict (engine "ddg" "d")) nil))
      (entry (codes "plugins") (dict (entry (codes "b") (text "on") Fields.empty)) Fields.empty)

merged_as_shown : update_settings is_equal default_settings user_settings ≡ some merged_settings
unfolding update_settings merge_settings setting_value get merged_value engine_lists update_engines
    given store_engines set_plugins put set_tabs filter_by elements filter_engines contained_in
    in_list merge_engines
merged_as_shown = refl

get-update_settings_example :
    ((key : Text)
      → is_plain key ≡ true
      → (get key user_settings ≡ none → get key merged_settings ≡ get key default_settings)
        × ((v : Tree)
            → get key user_settings ≡ some v
            → Merges (get key default_settings) v (get key merged_settings)))
    × ((v : Tree)
        → get tabs_key user_settings ≡ some v
        → is_true v ≡ true
        → get tabs_key merged_settings ≡ some v)
    × ((v : Tree)
        → given (get plugins_key user_settings) ≡ some v
        → get plugins_key merged_settings ≡ some v)
unfolding AreDistinct get
get-update_settings_example =
    get-update_settings is_equal default_settings user_settings merged_settings (refl, (refl, tt))
      merged_as_shown

update_settings-Leaves_example :
    (kept : Trees) × (get engines_key merged_settings ≡ some (items kept))
    × Leaves is_equal
        (given (get (codes "remove") removals), given (get (codes "keep_only") removals))
        (item (dict (engine "ddg" "d")) (item (dict (engine "bing" "b")) nil))
        kept
unfolding get
update_settings-Leaves_example =
    update_settings-Leaves is_equal default_settings user_settings merged_settings
      (entry (codes "engines") (dict removals) Fields.empty) removals
      (item (dict (engine "ddg" "d")) (item (dict (engine "bing" "b")) nil)) refl refl refl refl
      merged_as_shown
