-- ===== src/Preferences/BooleanSetting.antt =====
-- preferences.py: `BooleanSetting`.
use opencode_optimised_tooli.Prelude.{
  Bool, Dict, Option, Text, [], codes, false, if◌then◌else◌, lookup, none, not, some, true, ◌∷◌,
  list_eq, nat_eq, pair_eq, string_eq,
}

pub record State : Type 0 where
  pub value : Bool
  pub key : Option Text

abbrev pub map_str2bool : Dict Text Bool
map_str2bool =
    (codes "0", false)
    ∷ (codes "1", true)
    ∷ (codes "on", true)
    ∷ (codes "off", false)
    ∷ (codes "True", true)
    ∷ (codes "False", false)
    ∷ (codes "none", false)
    ∷ []

abbrev pub same : Bool → Bool → Bool
same true b = b
same false b = not b

unfoldable pub first_of : Bool → Dict Text Bool → Option Text
first_of val [] = none
first_of val ((v_str, v_obj) ∷ rest) = if same val v_obj then some v_str else first_of val rest

unfoldable pub normalized_str : Bool → Option Text
normalized_str val = first_of val map_str2bool

-- `none` is a KeyError.
unfoldable pub parse : Text → State → Option State
parse data' s = elim (lookup data' map_str2bool) [
  | none ↦ none
  | some v ↦ some (record { value = v; key = normalized_str v })
]
