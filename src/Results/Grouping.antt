-- ===== src/Results/Grouping.antt =====
-- results.py, `get_ordered_results`, pass 2: results of one category and template are put together.
pub mod Laws
pub mod Anchored
pub mod Adjacent
use opencode_optimised_tooli.Prelude.{
  Bool, Dict, List, String, [], if◌then◌else◌, insert, insert_at, leb, length, lookup, ltb, none,
  snoc, some, ℕ, ◌&&◌, ◌+◌, ◌-◌, ◌==◌, ◌∷◌, list_eq, nat_eq, pair_eq, string_eq,
}

-- An entry of `categoryPositions`: the place after the group's last result, and how many results
-- the group can still take.
pub record Group : Type 0 where
  pub index : ℕ
  pub count : ℕ

abbrev pub max_count : ℕ
max_count = 8

abbrev pub max_distance : ℕ
max_distance = 20

-- `if v >= index: item["index"] = v + 1`
abbrev pub shift : ℕ → Group → Group
shift index g = if leb index g.index then record g { index = g.index + 1 } else g

abbrev pub take_one : Group → Group
take_one g = record g { count = g.count - 1 }

-- The loop over `categoryPositions.values()`.
unfoldable pub shift_all : ℕ → Dict String Group → Dict String Group
shift_all index [] = []
shift_all index ((k, g) ∷ rest) = (k, shift index g) ∷ shift_all index rest

unfoldable pub adjust_group : String → Dict String Group → Dict String Group
adjust_group category [] = []
adjust_group category ((k, g) ∷ rest) =
    if k == category then (k, take_one g) ∷ rest else (k, g) ∷ adjust_group category rest

module _ {A : Type 0} (category_of : A → String) where
  pub record State : Type 0 where
    pub gresults : List A
    pub positions : Dict String Group

  -- The `else` branch: a new group at the end.
  unfoldable pub append_group : State → A → State
  append_group s res = record {
    gresults = snoc s.gresults res;
    positions =
        insert (category_of res) (record { index = length s.gresults + 1; count = max_count })
          s.positions;
  }

  -- The `if` branch: behind the group's last result.
  unfoldable pub join_group : State → A → Group → State
  join_group s res grp = record {
    gresults = insert_at s.gresults grp.index res;
    positions = adjust_group (category_of res) (shift_all grp.index s.positions);
  }

  -- `(grp["count"] > 0) and (len(gresults) - grp["index"] < max_distance)`
  abbrev pub accepts : State → Group → Bool
  accepts s grp = ltb 0 grp.count && ltb (length s.gresults) (grp.index + max_distance)

  -- One round of the loop over the results.
  unfoldable pub place : State → A → State
  place s res = elim (lookup (category_of res) s.positions) [
    | none ↦ append_group s res
    | some grp ↦ if accepts s grp then join_group s res grp else append_group s res
  ]

  unfoldable pub place_all : State → List A → State
  place_all s [] = s
  place_all s (res ∷ rest) = place_all (place s res) rest

  unfoldable pub group_results : List A → List A
  unfolding place_all
  group_results results = (place_all (record { gresults = []; positions = [] }) results).gresults
