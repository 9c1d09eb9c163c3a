-- ===== src/Metrics.antt =====
-- searx/metrics/models.py: histograms and counters, over values that are natural numbers.
pub mod Laws
use opencode_optimised_tooli.Prelude.{
  Dict, List, Option, String, [], if◌then◌else◌, insert, leb, lookup, ltb, none, some, suc, zero, ℕ,
  ◌*◌, ◌+◌, ◌-◌, ◌/◌, ◌∷◌, list_eq, nat_eq, pair_eq, string_eq,
}

-- `_width`, `_size`, `_quartiles`, `_count` and `_sum`
pub record Histogram : Type 0 where
  pub width : ℕ
  pub size : ℕ
  pub quartiles : List ℕ
  pub count : ℕ
  pub sum : ℕ

-- `[0] * size`
unfoldable pub zeros : ℕ → List ℕ
zeros zero = []
zeros (suc n) = 0 ∷ zeros n

abbrev pub new_histogram : ℕ → ℕ → Histogram
new_histogram width size = record {
  width = width;
  size = size;
  quartiles = zeros size;
  count = 0;
  sum = 0;
}

-- `self._quartiles[q] += 1`; a list index out of range is left out, since `observe` never has one.
unfoldable pub bump : ℕ → List ℕ → List ℕ
bump q [] = []
bump zero (y ∷ ys) = (y + 1) ∷ ys
bump (suc q) (y ∷ ys) = y ∷ bump q ys

-- A value above the maximum is replaced by the maximum.
abbrev pub slot : Histogram → ℕ → ℕ
slot h value = if leb h.size (value / h.width) then h.size - 1 else value / h.width

unfoldable pub observe : ℕ → Histogram → Histogram
observe value h = record h {
  quartiles = bump (slot h value) h.quartiles;
  count = h.count + 1;
  sum = h.sum + value;
}

-- The loop over the quartiles, with both sides of its test times 100.
unfoldable pub find_stop : ℕ → ℕ → ℕ → ℕ → List ℕ → Option ℕ
find_stop stop width x sum_value [] = none
find_stop stop width x sum_value (y ∷ rest) =
    let later = find_stop stop width (x + width) (sum_value + y) rest in
    if leb stop (100 * (sum_value + y)) then some x else later

unfoldable pub percentage : ℕ → Histogram → Option ℕ
percentage p h = if ltb 0 h.count then find_stop (h.count * p) h.width 0 0 h.quartiles else none

-- `CounterStorage`: a counter that is not configured raises a KeyError (`none`).
abbrev pub Counters : Type 0
Counters = Dict (List String) ℕ

unfoldable pub configure : List String → Counters → Counters
configure args counters = insert args 0 counters

unfoldable pub add : ℕ → List String → Counters → Option Counters
add value args counters = elim (lookup args counters) [
  | none ↦ none
  | some n ↦ some (insert args (n + value) counters)
]
