-- ===== src/Settings/Engines.antt =====
-- settings_loader.py: the list of engines in `update_settings`.
pub mod Laws
pub mod Filter
pub mod Merged
use opencode_optimised_tooli.Prelude.{
  Bool, List, Option, Text, [], codes, false, has_prefix, if◌then◌else◌, is_empty, none, not, some,
  true, ◌&&◌, ◌==◌, ◌||◌, ◌∷◌, list_eq, nat_eq, pair_eq, string_eq,
}
use opencode_optimised_tooli.Tree.Partial.{◌>>=◌}
use opencode_optimised_tooli.Tree.{
  real, integer, truth, moment, Tree, Trees, Fields, Scalar, scalar, items, dict, nil, item, string,
  null, entry, get, put, append_trees,
}
use opencode_optimised_tooli.Settings.Merge.{update_dict}

-- `pattern in s` for two texts
unfoldable pub has_substring : Text → Text → Bool
has_substring pattern [] = is_empty pattern
has_substring pattern (c ∷ s) = has_prefix pattern (c ∷ s) || has_substring pattern s

-- `list(l)`: the elements of a list, the keys of a dictionary, the characters of a text.
unfoldable pub keys_of : Fields → Trees
keys_of Fields.empty = nil
keys_of (entry key t rest) = item (scalar (string key)) (keys_of rest)

unfoldable pub characters : Text → Trees
characters [] = nil
characters (c ∷ s) = item (scalar (string (c ∷ []))) (characters s)

unfoldable pub elements : Tree → Option Trees
elements (items l) = some l
elements (dict d) = some (keys_of d)
elements (scalar (string s)) = some (characters s)
elements (scalar s) = none

-- `is_equal` is Python's `==` on two values.
module _ (is_equal : Tree → Tree → Bool) where
  unfoldable pub in_list : Tree → Trees → Bool
  in_list t nil = false
  in_list t (item u l) = is_equal t u || in_list t l

  -- `t in container`; `none` is a TypeError.
  unfoldable pub contained_in : Tree → Tree → Option Bool
  contained_in t (items l) = some (in_list t l)
  contained_in (scalar s) (dict d) = some (in_list (scalar s) (keys_of d))
  contained_in (items l) (dict d) = none
  contained_in (dict e) (dict d) = none
  contained_in (scalar (string p)) (scalar (string s)) = some (has_substring p s)
  contained_in t (scalar s) = none

-- `engine.get('name')`
abbrev pub name_or_none : Option Tree → Tree
name_or_none none = scalar null
name_or_none (some t) = t

abbrev pub engine_name : Tree → Option Tree
engine_name (dict d) = some (name_or_none (get (codes "name") d))
engine_name _ = none

-- `filter`
unfoldable pub filter_engines : (Tree → Option Bool) → Trees → Option Trees
filter_engines test nil = some nil
filter_engines test (item engine l) = do
  name ← engine_name engine
  wanted ← test name
  kept ← filter_engines test l
  some (if wanted then item engine kept else kept)

-- The test of `filterfalse`
abbrev pub opposite : Option Bool → Option Bool
opposite found = found >>= λ b. some (not b)

-- One of the two filters of `update_settings`, by a list of names that may not be given.
unfoldable pub filter_by : (Tree → Tree → Option Bool) → Option Tree → Tree → Option Tree
filter_by test none engines = some engines
filter_by test (some names) engines = do
  l ← elements engines
  kept ← filter_engines (λ name. test name names) l
  some (items kept)

-- `bool(t)`: of the floats, the two zeros are false.
unfoldable pub is_true : Tree → Bool
is_true (scalar null) = false
is_true (scalar (truth b)) = b
is_true (scalar (integer negative n)) = not (n == 0)
is_true (scalar (real bits)) = not (bits == 0 || bits == 9223372036854775808)
is_true (scalar (string s)) = not (is_empty s)
is_true (scalar (moment bits)) = true
is_true (items nil) = false
is_true (items (item t l)) = true
is_true (dict Fields.empty) = false
is_true (dict (entry key t rest)) = true

-- A key of a dictionary; a list or a dictionary raises a TypeError.
unfoldable pub hashable : Tree → Option Tree
hashable (scalar s) = some (scalar s)
hashable (items l) = none
hashable (dict d) = none

-- `engine['name']` as a key; `none` is a KeyError or a TypeError.
abbrev pub name_key : Fields → Option Tree
name_key engine = get (codes "name") engine >>= hashable

-- The definitions with their keys in `engines_dict`, in the order of the list. The dictionary holds
-- the last definition of each name.
unfoldable pub named : Trees → Option (List (Tree × Fields))
named nil = some []
named (item (dict definition) l) = do
  key ← name_key definition
  rest ← named l
  some ((key, definition) ∷ rest)
named (item t l) = none

unfoldable pub definitions : List (Tree × Fields) → Trees
definitions [] = nil
definitions ((key, definition) ∷ rest) = item (dict definition) (definitions rest)

module _ (is_equal : Tree → Tree → Bool) where
  unfoldable pub has_name : Tree → List (Tree × Fields) → Bool
  has_name name [] = false
  has_name name ((key, definition) ∷ rest) = is_equal key name || has_name name rest

  -- `update_dict(engines_dict[name], user_engine)`
  unfoldable pub update_engine :
      Tree → Fields → List (Tree × Fields) → Option (List (Tree × Fields))
  update_engine name user_engine [] = some []
  update_engine name user_engine ((key, definition) ∷ rest) =
      let later = update_engine name user_engine rest in
      if is_equal key name && not (has_name name rest)
      then (update_dict definition user_engine >>= λ d. some ((key, d) ∷ rest))
      else (later >>= λ l. some ((key, definition) ∷ l))

  -- One round of the loop over the user's engines, on the definitions and on what is appended.
  unfoldable pub add_engine :
      Tree → List (Tree × Fields) × Trees → Option (List (Tree × Fields) × Trees)
  add_engine (dict user_engine) (engines, added) = do
    name ← name_key user_engine
    if has_name name engines
        then (update_engine name user_engine engines >>= λ updated. some (updated, added))
        else some (engines, append_trees added (item (dict user_engine) nil))
  add_engine t s = none

  unfoldable pub add_engines :
      Trees → List (Tree × Fields) × Trees → Option (List (Tree × Fields) × Trees)
  add_engines nil s = some s
  add_engines (item t l) s = add_engine t s >>= λ after. add_engines l after

  -- What `engines` becomes by the user's; an empty or missing list of the user changes nothing.
  unfoldable pub merge_list : Trees → Tree → Option Tree
  merge_list user_engines (items l) = do
    engines ← named l
    (updated, added) ← add_engines user_engines (engines, nil)
    some (items (append_trees (definitions updated) added))
  merge_list user_engines t = none

  unfoldable pub merge_engines : Option Tree → Tree → Option Tree
  merge_engines none engines = some engines
  merge_engines (some t) engines =
      if is_true t then (elements t >>= λ l. merge_list l engines) else some engines
