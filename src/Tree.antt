-- ===== src/Tree.antt =====
-- The data of YAML, TOML and JSON files: what Python's parsers return.
pub mod Laws
pub mod Partial
use opencode_optimised_tooli.Prelude.{
  Bool, Option, Text, if◌then◌else◌, none, some, ℕ, ◌==◌, list_eq, nat_eq, pair_eq, string_eq,
}

-- An integer is its sign and its magnitude, a float and a date the bits of their representation.
pub data Scalar : Type 0 where
  null : Scalar
  truth : Bool → Scalar
  integer : Bool → ℕ → Scalar
  real : ℕ → Scalar
  string : Text → Scalar
  moment : ℕ → Scalar

mutual
  pub data Tree : Type 0 where
    scalar : Scalar → Tree
    items : Trees → Tree
    dict : Fields → Tree

  pub data Trees : Type 0 where
    nil : Trees
    item : Tree → Trees → Trees

  -- A dictionary in insertion order.
  pub data Fields : Type 0 where
    empty : Fields
    entry : Text → Tree → Fields → Fields

-- `l + m`
unfoldable pub append_trees : Trees → Trees → Trees
append_trees nil m = m
append_trees (item t l) m = item t (append_trees l m)

-- `d.get(key)`
unfoldable pub get : Text → Fields → Option Tree
get key empty = none
get key (entry k t rest) = if k == key then some t else get key rest

-- `d[key] = t`
unfoldable pub put : Text → Tree → Fields → Fields
put key t empty = entry key t empty
put key t (entry k held rest) =
    let later = put key t rest in if k == key then entry k t rest else entry k held later

-- `type(t)`, numbered
unfoldable pub scalar_type : Scalar → ℕ
scalar_type null = 0
scalar_type (truth b) = 1
scalar_type (integer negative n) = 2
scalar_type (real bits) = 3
scalar_type (string s) = 4
scalar_type (moment bits) = 5

unfoldable pub type_of : Tree → ℕ
type_of (scalar s) = scalar_type s
type_of (items l) = 6
type_of (dict d) = 7

-- `isinstance(t, dict)`
abbrev pub as_dict : Option Tree → Option Fields
as_dict (some (dict d)) = some d
as_dict _ = none

-- Sets a key to the value of an expression and goes on; `none` is an exception.
abbrev pub then_put : Text → Option Tree → (Fields → Option Fields) → Fields → Option Fields
then_put key none later d = none
then_put key (some t) later d = later (put key t d)

abbrev pub dict_of : Option Fields → Option Tree
dict_of none = none
dict_of (some d) = some (dict d)

-- A loop over the items of `new` that sets each key of `base` by `step` from the value there and
-- the new one; `none` is an exception.
unfoldable pub fold_fields : (Option Tree → Tree → Option Tree) → Fields → Fields → Option Fields
fold_fields step empty base = some base
fold_fields step (entry key t rest) base = elim (step (get key base) t) [
  | none ↦ none
  | some v ↦ fold_fields step rest (put key v base)
]
