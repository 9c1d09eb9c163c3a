-- ===== src/Results/Ordered.antt =====
-- results.py: scores, `close`, the operations that a closed container refuses, and
-- `get_ordered_results`.
pub mod Laws
pub mod Stable
use opencode_optimised_tooli.Prelude.{
  Bool, Dict, List, String, [], concat, false, if◌then◌else◌, is_empty, length, lookup, map, none,
  not, snoc, some, true, values, zero, ℕ, ◌&&◌, ◌==◌, ◌∷◌, list_eq, nat_eq, pair_eq, string_eq,
}
use opencode_optimised_tooli.Results.Types.{MainResult, Float, Priority, normal, high, low}
use opencode_optimised_tooli.Results.Container.{
  Engine, Timing, UnresponsiveEngine, Env, ResultContainer, Outcome, done, raised,
}
use opencode_optimised_tooli.Results.Grouping.{group_results}

abbrev pub same_flag : Bool → Bool → Bool
same_flag true b = b
same_flag false b = not b

-- `set.add` of a named tuple
unfoldable pub add_unresponsive :
    UnresponsiveEngine → List UnresponsiveEngine → List UnresponsiveEngine
add_unresponsive entry [] = entry ∷ []
add_unresponsive entry (i ∷ rest) =
    let same =
      (i.engine == entry.engine)
      && ((i.error_type == entry.error_type) && same_flag i.suspended entry.suspended) in
    let later = i ∷ add_unresponsive entry rest in if same then i ∷ rest else later

-- A change of every value of a dictionary.
unfoldable pub map_values {ℓ κ} : {K : Type ℓ} {V : Type κ} → (V → V) → Dict K V → Dict K V
map_values f [] = []
map_values f ((k, v) ∷ rest) = (k, f v) ∷ map_values f rest

module _ (env : Env) where
  abbrev pub floats : Float
  floats = env.floats

  abbrev pub F : Type 0
  F = env.floats.F

  -- The loop over `result['engines']`.
  unfoldable pub weigh : F → List String → F
  weigh weight [] = weight
  weigh weight (result_engine ∷ rest) =
      weigh
        (elim (lookup result_engine env.engines) [
          | none ↦ weight
          | some e ↦ elim e.weight [ none ↦ weight | some w ↦ floats.mul weight w ]
        ])
        rest

  -- The loop over `result['positions']`.
  unfoldable pub sum_positions : Priority → F → F → List ℕ → F
  sum_positions priority weight score [] = score
  sum_positions priority weight score (position ∷ rest) =
      sum_positions priority weight
        (elim priority [
          | low ↦ score
          | high ↦ floats.add score weight
          | normal ↦ floats.add score (floats.div weight (floats.of_ℕ position))
        ])
        rest

  unfoldable pub calculate_score : MainResult F → Priority → F
  unfolding weigh sum_positions
  calculate_score result priority =
      let weight =
        floats.mul (weigh (floats.of_ℕ 1) result.engines) (floats.of_ℕ (length result.positions)) in
      sum_positions priority weight floats.zero result.positions

  abbrev pub with_score : MainResult F → MainResult F
  with_score r = record r { score = calculate_score r r.priority }

  unfoldable pub close : ResultContainer F → ResultContainer F
  unfolding map_values
  close c = record c { closed = true; main_results_map = map_values with_score c.main_results_map }

  -- The stable insertion of `sorted(.., key=score, reverse=True)`.
  unfoldable pub insert_by_score : MainResult F → List (MainResult F) → List (MainResult F)
  insert_by_score r [] = r ∷ []
  insert_by_score r (i ∷ rest) =
      let later = i ∷ insert_by_score r rest in
      if floats.below i.score r.score then r ∷ i ∷ rest else later

  unfoldable pub sort_by_score : List (MainResult F) → List (MainResult F) → List (MainResult F)
  unfolding insert_by_score
  sort_by_score sorted [] = sorted
  sort_by_score sorted (r ∷ rest) = sort_by_score (insert_by_score r sorted) rest

  -- `res.category = engine.categories[0] if len(engine.categories) > 0 else ""`
  abbrev pub first_or_empty : List String → String
  first_or_empty [] = ""
  first_or_empty (c ∷ rest) = c

  unfoldable pub with_category : MainResult F → MainResult F
  with_category r = elim (lookup r.engine env.engines) [
    | none ↦ r
    | some engine ↦ record r { category = first_or_empty engine.categories }
  ]

  -- `f"{res.category}:{res.template}:{'img_src' if .. else ''}"`
  unfoldable pub group_key : MainResult F → String
  group_key r = concat (
      r.category
      ∷ ":"
      ∷ r.template
      ∷ ":"
      ∷ (if (r.thumbnail == "") && (r.img_src == "") then "" else "img_src")
      ∷ [])

  -- Pass 1 and pass 2 on the values of the map.
  unfoldable pub order : List (MainResult F) → List (MainResult F)
  unfolding sort_by_score with_category
  order results = group_results group_key (map with_category (sort_by_score [] results))

  -- The results are shared with the map, whose values get their categories, too.
  unfoldable pub order_closed : ResultContainer F → ResultContainer F × List (MainResult F)
  order_closed c =
      if is_empty c.main_results_sorted
      then (
        record c {
          main_results_map = map_values with_category c.main_results_map;
          main_results_sorted = order (values c.main_results_map);
        },
        order (values c.main_results_map),
      )
      else (c, c.main_results_sorted)

  unfoldable pub ensure_closed : ResultContainer F → ResultContainer F
  ensure_closed c = if c.closed then c else close c

  unfoldable pub get_ordered_results : ResultContainer F → ResultContainer F × List (MainResult F)
  get_ordered_results c = order_closed (ensure_closed c)

  unfoldable pub add_unresponsive_engine :
      String → String → Bool → ResultContainer F → Outcome (ResultContainer F)
  add_unresponsive_engine engine_name error_type suspended c =
      if c.closed then done c else elim (lookup engine_name env.engines) [
        | none ↦ raised c
        | some engine ↦
            let entry : UnresponsiveEngine = record {
              engine = engine_name;
              error_type = error_type;
              suspended = suspended;
            } in
            done (
              if engine.display_error_messages
              then record c { unresponsive_engines = add_unresponsive entry c.unresponsive_engines }
              else c)
      ]

  unfoldable pub add_timing : String → F → F → ResultContainer F → ResultContainer F
  add_timing engine_name engine_time page_load_time c =
      if c.closed
      then c
      else (let timing : Timing F = record {
        engine = engine_name;
        total = engine_time;
        load = page_load_time;
      } in
          record c { timings = snoc c.timings timing })

  unfoldable pub get_timings : ResultContainer F → List (Timing F)
  get_timings c = if c.closed then c.timings else []
