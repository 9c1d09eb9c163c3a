-- ===== src/Botdetection/Config.antt =====
-- botdetection/config.py: the configuration of the limiter, a tree that is checked against a schema.
pub mod Update
pub mod Plain
pub mod Validate
pub mod Load
pub mod Access
use opencode_optimised_tooli.Prelude.{
  Bool, Dict, List, Option, Text, [], false, if◌then◌else◌, is_empty, join_on, lookup, none, not,
  snoc, some, split_on, true, ℕ, ◌&&◌, ◌++◌, ◌==◌, ◌∷◌, list_eq, nat_eq, pair_eq, string_eq,
}
use opencode_optimised_tooli.Tree.{
  Tree, Trees, Fields, Scalar, scalar, items, dict, empty, entry, string, get, put, as_dict,
  append_trees, type_of, then_put, dict_of,
}

-- `isinstance`, `get` and `break` in the loop of `value`: what is no dictionary stays as it is,
-- whatever parts of the name follow. UNSET is `none`.
unfoldable pub value_at : List Text → Tree → Option Tree
value_at [] t = some t
value_at (part ∷ rest) (scalar s) = value_at rest (scalar s)
value_at (part ∷ rest) (items l) = value_at rest (items l)
value_at (part ∷ rest) (dict d) = elim (get part d) [ none ↦ none | some t ↦ value_at rest t ]

unfoldable pub value : Text → Fields → Option Tree
value name data_dict = value_at (split_on b'.' name) (dict data_dict)

-- A `SchemaIssue`: a deprecated name with its message, a name that the schema has not, a name with
-- the expected type and its type.
pub data Issue : Type 0 where
  deprecated_name : Text → Text → Issue
  unknown_name : Text → Issue
  type_mismatch : Text → ℕ → ℕ → Issue

abbrev pub warning : Text → Option Text → List Issue
warning name none = []
warning name (some []) = []
warning name (some (c ∷ msg)) = deprecated_name name (c ∷ msg) ∷ []

module _ (schema_dict : Fields) (deprecated : Dict Text Text) where
  -- A key that the schema has not is valid if it is deprecated.
  abbrev pub unknown : Text → List Issue → Bool × List Issue
  unknown name [] = (false, unknown_name name ∷ [])
  unknown name warnings = (true, warnings)

  -- One round of the loop, for the names down to the key and the result for the dictionary below.
  unfoldable pub check_entry : List Text → Tree → Bool × List Issue → Bool × List Issue
  check_entry names data_value (valid_below, below) =
      let name = join_on b'.' names in
      let warnings = warning name (lookup name deprecated) in
      elim (value name schema_dict) [
        | none ↦ unknown name warnings
        | some schema_value ↦
            if not (type_of schema_value == type_of data_value)
            then (
              false,
              snoc warnings (type_mismatch name (type_of schema_value) (type_of data_value)),
            )
            else (valid_below, warnings ++ below)
      ]

  unfoldable mutual
    -- `_validate`: `names` are the keys above `data_dict`.
    pub validate_fields : List Text → Fields → Bool × List Issue
    validate_fields names empty = (true, [])
    validate_fields names (entry key data_value rest) =
        let (valid_here, issues) =
          check_entry (snoc names key) data_value (validate_below (snoc names key) data_value) in
        let (valid_rest, later) = validate_fields names rest in
        (valid_here && valid_rest, issues ++ later)

    pub validate_below : List Text → Tree → Bool × List Issue
    validate_below names (dict d) = validate_fields names d
    validate_below names (items l) = (true, [])
    validate_below names (scalar s) = (true, [])

unfoldable mutual
  -- `none` is a TypeError. The branch for sets is left out: a TOML file has none.
  pub dict_deepupdate : Fields → Fields → Option Fields
  dict_deepupdate base_dict empty = some base_dict
  dict_deepupdate base_dict (entry upd_key upd_val rest) =
      then_put upd_key (updated_value (get upd_key base_dict) upd_val) (λ b. dict_deepupdate b rest)
        base_dict

  -- The value that a key gets, by the value that it has.
  pub updated_value : Option Tree → Tree → Option Tree
  updated_value none (dict d) = some (dict d)
  updated_value (some (dict b)) (dict d) = dict_of (dict_deepupdate b d)
  updated_value (some (items l)) (dict d) = none
  updated_value (some (scalar s)) (dict d) = none
  updated_value none (items m) = some (items m)
  updated_value (some (items l)) (items m) = some (items (append_trees l m))
  updated_value (some (dict b)) (items m) = none
  updated_value (some (scalar s)) (items m) = none
  updated_value held (scalar s) = some (scalar s)

pub record Config : Type 0 where
  pub cfg_schema : Fields
  pub deprecated : Dict Text Text
  pub cfg : Fields

abbrev pub new_config : Fields → Dict Text Text → Config
new_config cfg_schema deprecated = record {
  cfg_schema = cfg_schema;
  deprecated = deprecated;
  cfg = cfg_schema;
}

unfoldable pub validate : Fields → Config → Bool × List Issue
validate cfg config = validate_fields config.cfg_schema config.deprecated [] cfg

unfoldable pub update : Fields → Config → Option Config
update upd_cfg config = elim (dict_deepupdate config.cfg upd_cfg) [
  | none ↦ none
  | some cfg ↦ some (record config { cfg = cfg })
]

unfoldable pub default : Text → Config → Option Tree
default name config = value name config.cfg_schema

-- What becomes of the file: its TypeErrors are those of an invalid file and of the update.
pub data Loaded : Type 0 where
  loaded : Config → Loaded
  invalid_file : List Issue → Loaded
  update_failed : Loaded

abbrev pub after_update : Option Config → Loaded
after_update none = update_failed
after_update (some config) = loaded config

-- `from_toml`, of the two files as the library parses them; `none` is a missing `cfg_file`.
unfoldable pub from_toml : Fields → Option Fields → Dict Text Text → Loaded
from_toml schema none deprecated = loaded (new_config schema deprecated)
from_toml schema (some upd_cfg) deprecated =
    let config = new_config schema deprecated in
    let (is_valid, issue_list) = validate upd_cfg config in
    if not is_valid then invalid_file issue_list else after_update (update upd_cfg config)

-- `name.split('.')` without its last part, and the last part
unfoldable pub all_but_last : List Text → List Text
all_but_last [] = []
all_but_last (t ∷ []) = []
all_but_last (t ∷ u ∷ ts) = t ∷ all_but_last (u ∷ ts)

unfoldable pub last_part : List Text → Text
last_part [] = []
last_part (t ∷ []) = t
last_part (t ∷ u ∷ ts) = last_part (u ∷ ts)

abbrev pub parent_name : Text → Text
parent_name name = join_on b'.' (all_but_last (split_on b'.' name))

-- `_get_parent_dict`; `none` is a KeyError.
unfoldable pub get_parent_dict : Text → Config → Option Fields
get_parent_dict name config =
    if is_empty (parent_name name)
    then some config.cfg
    else as_dict (value (parent_name name) config.cfg)

-- `replaced` is the formatting of a text, `val % self`, which may raise an exception (`none`).
abbrev pub replace_text : (Text → Option Tree) → Tree → Option Tree
replace_text replaced (scalar (string s)) = replaced s
replace_text replaced t = some t

abbrev pub or_default : Option Tree → Option Tree → Option Tree
or_default none fallback = fallback
or_default (some t) fallback = some t

-- `get`, with `replace=True`; `none` is a KeyError or an exception of `%`, and a `default` of UNSET.
-- `replaced` is `%`, which reads the configuration for the names in a text.
unfoldable pub get_value : (Config → Text → Option Tree) → Text → Option Tree → Config → Option Tree
get_value replaced name fallback config = elim (get_parent_dict name config) [
  | none ↦ none
  | some parent ↦ elim (or_default (get (last_part (split_on b'.' name)) parent) fallback) [
    | none ↦ none
    | some t ↦ replace_text (replaced config) t
  ]
]

-- `parent[key] = val` for the parent at the end of a path of keys
unfoldable pub put_below : List Text → Text → Tree → Fields → Option Fields
put_below [] key t d = some (put key t d)
put_below (part ∷ path) key t d = elim (as_dict (get part d)) [
  | none ↦ none
  | some child ↦ elim (put_below path key t child) [
    | none ↦ none
    | some child' ↦ some (put part (dict child') d)
  ]
]

abbrev pub parent_path : Text → List Text
parent_path name = if is_empty name then [] else split_on b'.' name

-- `set`; `none` is a KeyError.
unfoldable pub set_value : Text → Tree → Config → Option Config
set_value name t config =
    elim (put_below (parent_path (parent_name name)) (last_part (split_on b'.' name)) t
      config.cfg) [ none ↦ none | some cfg ↦ some (record config { cfg = cfg }) ]
