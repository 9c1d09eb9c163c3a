-- ===== src/Settings/Schema/Typed.antt =====
-- settings_defaults.py: what the settings are after `apply_schema`.
use opencode_optimised_tooli.Prelude.{
  Bool, Dict, List, Option, Text, [], false, none, some, true, ◌==◌, ◌||◌, ◌∷◌, ◌≡◌, ◌⊎◌, list_eq,
  nat_eq, pair_eq, string_eq,
}
use opencode_optimised_tooli.Tree.{Tree, Trees, Fields, scalar, items, dict, nil, item, get}
use opencode_optimised_tooli.Settings.Engines.{in_list}
use opencode_optimised_tooli.Settings.Schema.{
  Element, kind, value, Check, plain, directory, sublist, Schema, struct, setting, section, other,
  Keys, end, key, is_instance, or_default, or_empty, call,
}

-- The value of a key, if the settings are a dictionary that has it.
unfoldable pub tree_get : Text → Tree → Option Tree
tree_get k (dict d) = get k d
tree_get k (scalar s) = none
tree_get k (items l) = none

unfoldable pub IsDict : Tree → Type 0
IsDict (dict d) = Unit
IsDict (scalar s) = ⊥
IsDict (items l) = ⊥

-- A schema has a key.
unfoldable pub has : Text → Keys → Bool
has k end = false
has k (key k' s rest) = (k == k') || has k rest

-- No key is there twice, in the sections neither.
unfoldable mutual
  pub HasDistinctKeys : Keys → Type 0
  HasDistinctKeys end = Unit
  HasDistinctKeys (key k s rest) = (has k rest ≡ false) × IsDistinctBelow s × HasDistinctKeys rest

  pub IsDistinctBelow : Schema → Type 0
  IsDistinctBelow (struct name) = Unit
  IsDistinctBelow (setting s) = Unit
  IsDistinctBelow (section keys) = HasDistinctKeys keys
  IsDistinctBelow (other t) = Unit

module _ (is_equal : Tree → Tree → Bool) (environ : Dict Text Text) (is_dir : Tree → Bool)
    (convert : Text → Tree → Option Tree) where
  -- A value has one of the types, or is one of the values, of a type definition.
  unfoldable pub IsOneOf : List Element → Tree → Type 0
  IsOneOf [] t = ⊥
  IsOneOf (kind k ∷ rest) t = (is_instance k t ≡ true) ⊎ IsOneOf rest t
  IsOneOf (value v ∷ rest) t = (is_equal t v ≡ true) ⊎ IsOneOf rest t

  unfoldable pub AreAllowed : Trees → Trees → Type 0
  AreAllowed nil allowed = Unit
  AreAllowed (item t l) allowed = (in_list is_equal t allowed ≡ true) × AreAllowed l allowed

  -- A value is of the kind that a setting asks for.
  unfoldable pub HasType : Check → List Element → Tree → Type 0
  HasType plain definition t = IsOneOf definition t
  HasType directory definition t = IsOneOf definition t × (is_dir t ≡ true)
  HasType (sublist allowed) definition t = (l : Trees) × (t ≡ items l) × AreAllowed l allowed

  unfoldable mutual
    -- The settings after the run, by those before, which are a dictionary unless the schema is
    -- empty: each key of the schema has a value.
    pub Applied : Keys → Tree → Tree → Type 0
    Applied end before after = Unit
    Applied (key k s rest) before after =
        IsDict before
        × ((t : Tree) × (tree_get k after ≡ some t) × Becomes s (tree_get k before) t)
        × Applied rest before after

    -- The value after the run, by the one before.
    pub Becomes : Schema → Option Tree → Tree → Type 0
    Becomes (struct name) held t = convert name (or_empty held) ≡ some t
    Becomes (setting s) held t =
        (call is_equal environ is_dir convert s held ≡ some t) × HasType s.check s.type_definition t
    Becomes (section keys) held t = Applied keys (or_default (dict Fields.empty) held) t
    Becomes (other u) held t = t ≡ or_default u held
