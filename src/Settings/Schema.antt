-- ===== src/Settings/Schema.antt =====
-- settings_defaults.py: SettingsValue with its subclasses, and `apply_schema`.
pub mod Run
pub mod Typed
pub mod Laws
pub mod Outcomes
use opencode_optimised_tooli.Prelude.{
  Bool, Dict, List, Option, Text, [], any, codes, false, if◌then◌else◌, lookup, map, none, some,
  to_lower, true, ◌&&◌, ◌==◌, ◌||◌, ◌∷◌, list_eq, nat_eq, pair_eq, string_eq,
}
use opencode_optimised_tooli.Tree.Partial.{◌>>=◌}
use opencode_optimised_tooli.Tree.{
  Tree, Trees, Fields, Scalar, scalar, items, dict, nil, item, null, truth, integer, real, string,
  moment, entry, get, put,
}
use opencode_optimised_tooli.Settings.Engines.{in_list}

-- The Python types that a type definition names; `number` is `numbers.Real`.
pub data Kind : Type 0 where
  text truth_value whole number mapping sequence : Kind

-- An element of a type definition: a type, or a value that is allowed.
pub data Element : Type 0 where
  kind : Kind → Element
  value : Tree → Element

-- The classes that the schema uses: SettingsValue, SettingsDirectoryValue, and SettingSublistValue
-- with the list that its type definition holds.
pub data Check : Type 0 where
  plain directory : Check
  sublist : Trees → Check

pub record SettingsValue : Type 0 where
  pub check : Check
  pub type_definition : List Element
  pub default : Tree
  pub environ_name : Option Text

mutual
  -- A struct is given by its name, another value by itself.
  pub data Schema : Type 0 where
    struct : Text → Schema
    setting : SettingsValue → Schema
    section : Keys → Schema
    other : Tree → Schema

  pub data Keys : Type 0 where
    end : Keys
    key : Text → Schema → Keys → Keys

-- `isinstance(t, kind)`: a bool is an int, too.
unfoldable pub is_instance : Kind → Tree → Bool
is_instance text (scalar (string s)) = true
is_instance truth_value (scalar (truth b)) = true
is_instance whole (scalar (truth b)) = true
is_instance whole (scalar (integer negative n)) = true
is_instance number (scalar (truth b)) = true
is_instance number (scalar (integer negative n)) = true
is_instance number (scalar (real bits)) = true
is_instance mapping (dict d) = true
is_instance sequence (items l) = true
is_instance k t = false

-- `STR_TO_BOOL`
abbrev pub str_to_bool : Dict Text Bool
str_to_bool =
    (codes "0", false)
    ∷ (codes "false", false)
    ∷ (codes "off", false)
    ∷ (codes "1", true)
    ∷ (codes "true", true)
    ∷ (codes "on", true)
    ∷ []

-- `self.type_definition == (bool,)`
abbrev pub is_truth_only : List Element → Bool
is_truth_only (kind truth_value ∷ []) = true
is_truth_only _ = false

-- What a variable of the environment stands for; `none` is a KeyError.
unfoldable pub read_environ : List Element → Text → Option Tree
read_environ definition s =
    if is_truth_only definition
    then (do b ← lookup (map to_lower s) str_to_bool; some (scalar (truth b)))
    else some (scalar (string s))

-- The environment overrides the value that is there.
unfoldable pub overridden : Dict Text Text → SettingsValue → Tree → Option Tree
overridden environ s t = elim s.environ_name [
  | none ↦ some t
  | some name ↦ elim (lookup name environ) [
    | none ↦ some t
    | some found ↦ read_environ s.type_definition found
  ]
]

abbrev pub or_default : Tree → Option Tree → Tree
or_default default none = default
or_default default (some t) = t

-- `value == ''`
abbrev pub is_empty_text : Option Tree → Bool
is_empty_text (some (scalar (string []))) = true
is_empty_text _ = false

-- The value before the environment is looked at: the default for a key that is missing, and for an
-- empty path of a directory.
unfoldable pub given_or_default : SettingsValue → Option Tree → Tree
given_or_default s held = elim s.check [
  | directory ↦ if is_empty_text held then s.default else or_default s.default held
  | _ ↦ or_default s.default held
]

-- `settings.get(key)` of a struct, with `{}` for None
abbrev pub or_empty : Option Tree → Tree
or_empty none = dict Fields.empty
or_empty (some (scalar null)) = dict Fields.empty
or_empty (some t) = t

-- `is_equal` is Python's `==`, `environ` is `os.environ`, `is_dir` is `os.path.isdir` (false where
-- it raises), `convert` is the JSON encoding and decoding by the library msgspec for the struct of a
-- name, which stands for itself as a dictionary; `none` is a ValidationError.
module _ (is_equal : Tree → Tree → Bool) (environ : Dict Text Text) (is_dir : Tree → Bool)
    (convert : Text → Tree → Option Tree) where
  unfoldable pub fits : Tree → Element → Bool
  fits t (kind k) = is_instance k t
  fits t (value v) = is_equal t v

  -- `item in self.type_definition[0]` for all items
  unfoldable pub all_in : Trees → Trees → Bool
  all_in nil allowed = true
  all_in (item t l) allowed = in_list is_equal t allowed && all_in l allowed

  -- `check_type_definition` of the three classes raises no exception.
  unfoldable pub accepts : Check → List Element → Tree → Bool
  accepts plain definition t = any (fits t) definition
  accepts directory definition t = any (fits t) definition && is_dir t
  accepts (sublist allowed) definition (items l) = all_in l allowed
  accepts (sublist allowed) definition t = false

  -- `__call__`, for the value of a key that may be missing; `none` is an exception.
  unfoldable pub call : SettingsValue → Option Tree → Option Tree
  call s held = do
    t ← overridden environ s (given_or_default s held)
    if accepts s.check s.type_definition t then some t else none

  -- Sets a key to what was made of its value; without it, an error is noted.
  abbrev pub store : Text → Fields → Bool → Option Tree → Tree × Bool
  store k d error none = (dict d, true)
  store k d error (some t) = (dict (put k t d), error)

  -- The loop of `apply_schema` over settings, with the flag for errors, and its body. `none` is an
  -- exception that is not caught: an AttributeError of settings that are no dictionary. A section is
  -- passed over after an error.
  unfoldable mutual
    pub run : Keys → Tree → Bool → Option (Tree × Bool)
    run end settings error = some (settings, error)
    run (key k s rest) settings error = elim (step k s settings error) [
      | none ↦ none
      | some (settings', error') ↦ run rest settings' error'
    ]

    pub step : Text → Schema → Tree → Bool → Option (Tree × Bool)
    step k (struct name) (dict d) error = some (store k d error (convert name (or_empty (get k d))))
    step k (struct name) settings error = none
    step k (setting s) (dict d) error = some (store k d error (call s (get k d)))
    step k (setting s) settings error = some (settings, true)
    step k (section keys) settings true = some (settings, true)
    step k (section keys) (dict d) false =
        elim (run keys (or_default (dict Fields.empty) (get k d)) false) [
          | none ↦ none
          | some (settings', error') ↦ some (dict (put k settings' d), error')
        ]
    step k (section keys) settings false = none
    step k (other t) (dict d) error = some (dict (put k (or_default t (get k d)) d), error)
    step k (other t) settings error = none

  -- `apply_schema` at the root: `none` is also the ValueError after an error.
  unfoldable pub apply_schema : Tree → Keys → Option Tree
  apply_schema settings schema = do
    (settings', error) ← run schema settings false
    if error then none else some settings'
