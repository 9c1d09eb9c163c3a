-- ===== src/Preferences/SetSetting.antt =====
-- preferences.py: `SetSetting`. A set is a list without repetitions, in the order of its iteration.
pub mod Laws
use opencode_optimised_tooli.Prelude.{
  Bool, List, Text, [], add_new, if◌then◌else◌, is_empty, join_on, split_on, values, ◌∷◌, list_eq,
  nat_eq, pair_eq, string_eq,
}

pub record State : Type 0 where
  pub values : List Text
  pub locked : Bool

-- `for element in elements: values.add(element)`
unfoldable pub add_all : List Text → List Text → List Text
add_all values [] = values
add_all values (element ∷ rest) = add_all (add_new element values) rest

-- A cookie adds its elements to the set, but for the empty one, which clears it.
unfoldable pub parse : Text → State → State
parse data' s =
    if is_empty data'
    then record s { values = [] }
    else record s { values = add_all s.values (split_on b',' data') }

unfoldable pub parse_form : Text → State → State
parse_form data' s = if s.locked then s else record s { values = add_all [] (split_on b',' data') }

-- The value of the cookie, and `get_value`.
unfoldable pub save : State → Text
save s = join_on b',' s.values
