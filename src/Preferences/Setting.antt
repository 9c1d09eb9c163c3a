-- ===== src/Preferences/Setting.antt =====
-- preferences.py: what the classes of settings share.
use opencode_optimised_tooli.Prelude.{Bool, List, Text, list_eq, nat_eq, pair_eq, string_eq}

-- `Setting`, with the choices of the classes that have them. The methods of the classes follow,
-- those that raise a `ValidationException` answer `none`, and the setting keeps its value.
pub record Setting (V : Type 0) : Type 0 where
  pub value : V
  pub locked : Bool
  pub choices : List Text
