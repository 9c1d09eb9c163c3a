-- ===== src/Preferences/MapSetting.antt =====
-- preferences.py: `MapSetting`.
-- `key` is `none` as long as nothing was parsed.
use opencode_optimised_tooli.Prelude.{
  Dict, Option, Text, lookup, none, some, list_eq, nat_eq, pair_eq, string_eq,
}

pub record State (V : Type 0) : Type 0 where
  pub value : V
  pub key : Option Text
  pub map_of : Dict Text V

unfoldable pub parse : {V : Type 0} → Text → State V → Option (State V)
parse data' s = elim (lookup data' s.map_of) [
  | none ↦ none
  | some v ↦ some (record s { value = v; key = some data' })
]
