-- ===== src/Settings/Load.antt =====
-- settings_loader.py: `update_settings`, `is_use_default_settings` and `load_settings`.
pub mod Laws
pub mod Removed
pub mod Merged
use opencode_optimised_tooli.Prelude.{
  Bool, Option, Text, codes, false, if◌then◌else◌, none, some, true, ◌==◌, ◌||◌, list_eq, nat_eq,
  pair_eq, string_eq,
}
use opencode_optimised_tooli.Tree.Partial.{◌>>=◌}
use opencode_optimised_tooli.Tree.{
  then_put, Tree, Trees, Fields, Scalar, scalar, items, dict, nil, item, string, null, truth, entry,
  get, put, append_trees,
}
use opencode_optimised_tooli.Settings.Merge.{update_dict, merged_value}
use opencode_optimised_tooli.Settings.Engines.{
  opposite, contained_in, filter_by, is_true, merge_engines,
}

abbrev pub use_default_settings_key : Text
use_default_settings_key = codes "use_default_settings"

abbrev pub engines_key : Text
engines_key = codes "engines"

abbrev pub tabs_key : Text
tabs_key = codes "categories_as_tabs"

abbrev pub plugins_key : Text
plugins_key = codes "plugins"

-- The value of a key other than the two that the first loop passes over: a mapping is merged only
-- into a value that is there.
unfoldable pub setting_value : Option Tree → Tree → Option Tree
setting_value none v = some v
setting_value (some held) v = merged_value (some held) v

-- The first loop of `update_settings`.
unfoldable pub merge_settings : Fields → Fields → Option Fields
merge_settings default_settings Fields.empty = some default_settings
merge_settings default_settings (entry k v rest) =
    if use_default_settings_key == k || engines_key == k
    then merge_settings default_settings rest
    else then_put k (setting_value (get k default_settings) v) (λ d. merge_settings d rest)
        default_settings

unfoldable pub set_tabs : Option Tree → Fields → Fields
set_tabs none d = d
set_tabs (some t) d = if is_true t then put tabs_key t d else d

-- `x is not None`
unfoldable pub given : Option Tree → Option Tree
given none = none
given (some (scalar null)) = none
given (some t) = some t

unfoldable pub set_plugins : Option Tree → Fields → Fields
set_plugins none d = d
set_plugins (some t) d = put plugins_key t d

-- `use_default_settings.get('engines', {}).get(key)`; `none` is an AttributeError.
abbrev pub engines_part : Option Tree → Option Fields
engines_part none = some Fields.empty
engines_part (some (dict d)) = some d
engines_part (some t) = none

-- `remove_engines` and `keep_only_engines`, if they are not None
unfoldable pub engine_lists : Option Tree → Option (Option Tree × Option Tree)
engine_lists (some (dict use_default_settings)) = do
  part ← engines_part (get engines_key use_default_settings)
  some (given (get (codes "remove") part), given (get (codes "keep_only") part))
engine_lists held = some (none, none)

-- `k in d`
abbrev pub is_present : Option Tree → Bool
is_present none = false
is_present (some t) = true

module _ (is_equal : Tree → Tree → Bool) where
  -- The two filters, the user's engines, and the list that is stored.
  unfoldable pub store_engines : Option Tree → Option Tree → Option Tree → Fields → Option Fields
  store_engines remove_engines keep_only_engines user_engines default_settings = do
    engines ← get engines_key default_settings
    left ←
        filter_by (λ name names. opposite (contained_in is_equal name names)) remove_engines engines
    kept ← filter_by (contained_in is_equal) keep_only_engines left
    merged ← merge_engines is_equal user_engines kept
    some (put engines_key merged default_settings)

  unfoldable pub update_engines : Option Tree × Option Tree → Option Tree → Fields → Option Fields
  update_engines (remove_engines, keep_only_engines) user_engines default_settings =
      if is_present user_engines || is_present remove_engines || is_present keep_only_engines
      then store_engines remove_engines keep_only_engines user_engines default_settings
      else some default_settings

  -- `none` is an exception.
  unfoldable pub update_settings : Fields → Fields → Option Fields
  update_settings default_settings user_settings = do
    merged ← merge_settings default_settings user_settings
    let tabbed = set_tabs (get tabs_key user_settings) merged
    let plugged = set_plugins (given (get plugins_key user_settings)) tabbed
    lists ← engine_lists (get use_default_settings_key user_settings)
    update_engines lists (get engines_key user_settings) plugged

-- `none` is a ValueError.
unfoldable pub is_use_default_settings : Option Tree → Option Bool
is_use_default_settings (some (scalar (truth b))) = some b
is_use_default_settings (some (dict d)) = some true
is_use_default_settings none = some false
is_use_default_settings (some (scalar null)) = some false
is_use_default_settings (some t) = none

-- Which settings `load_settings` returns: the default ones, both merged, or the user's alone.
pub data Source : Type 0 where
  default_file merged_files user_file : Source

pub data Settings : Type 0 where
  settings : Source → Fields → Settings
  invalid_use_default_settings merge_failed : Settings

abbrev pub merged_settings : Option Fields → Settings
merged_settings none = merge_failed
merged_settings (some cfg) = settings merged_files cfg

-- `user_cfg` is the user's file, if there is one to read.
unfoldable pub load_settings : (Tree → Tree → Bool) → Fields → Option Fields → Settings
load_settings is_equal cfg none = settings default_file cfg
load_settings is_equal cfg (some user_cfg) =
    elim (is_use_default_settings (get use_default_settings_key user_cfg)) [
      | none ↦ invalid_use_default_settings
      | some true ↦ merged_settings (update_settings is_equal cfg user_cfg)
      | some false ↦ settings user_file user_cfg
    ]
