-- ===== src/Settings/Merge.antt =====
-- settings_loader.py: `update_dict`.
pub mod Laws
pub mod Paths
use opencode_optimised_tooli.Prelude.{Option, none, some, list_eq, nat_eq, pair_eq, string_eq}
use opencode_optimised_tooli.Tree.Partial.{◌>>=◌}
use opencode_optimised_tooli.Tree.{
  Tree, Trees, Fields, Scalar, scalar, items, dict, entry, get, put, then_put, dict_of,
}

-- `none` is the exception of a value that is no mapping and is given an item.
unfoldable mutual
  pub update_dict : Fields → Fields → Option Fields
  update_dict default_dict Fields.empty = some default_dict
  update_dict default_dict (entry k v rest) =
      then_put k (merged_value (get k default_dict) v) (λ d. update_dict d rest) default_dict

  -- The value of a key, by the default one: a mapping is merged, anything else replaces. Without
  -- items to set, `update_dict` returns what it was given.
  pub merged_value : Option Tree → Tree → Option Tree
  merged_value held (scalar s) = some (scalar s)
  merged_value held (items l) = some (items l)
  merged_value none (dict v) = dict_of (update_dict Fields.empty v)
  merged_value (some (dict b)) (dict v) = dict_of (update_dict b v)
  merged_value (some (scalar s)) (dict Fields.empty) = some (scalar s)
  merged_value (some (scalar s)) (dict (entry k v rest)) = none
  merged_value (some (items l)) (dict Fields.empty) = some (items l)
  merged_value (some (items l)) (dict (entry k v rest)) = none
