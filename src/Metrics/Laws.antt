-- ===== src/Metrics/Laws.antt =====
-- What histograms and counters count.
use native.Mathlib.Nat.{mul-le-mul_left}
use opencode_optimised_tooli.Prelude.{
  Bool-cases, List, Option-cases, String, [], ap, arith, if◌then◌else◌, inl, inr, leb, length,
  lookup, lookup-insert, refl, some, suc, zero, ℕ, ◌*◌, ◌+◌, ◌<◌, ◌==◌, ◌∙◌, ◌∷◌, ◌≡◌, ◌≤◌, list_eq,
  nat_eq, pair_eq, string_eq,
}
use mathlib.Core.Option
use opencode_optimised_tooli.Metrics
use opencode_optimised_tooli.Metrics.{
  Histogram, zeros, new_histogram, bump, slot, observe, find_stop, percentage, Counters, configure,
}

abbrev pub total : List ℕ → ℕ
total [] = 0
total (y ∷ ys) = y + total ys

-- The quartiles add up to the count, and there is at least one.
pub record IsCounted (h : Histogram) : Type 0 where
  pub some_slot : 0 < h.size
  pub slots : length h.quartiles ≡ h.size
  pub counted : total h.quartiles ≡ h.count

length-bump : (q : ℕ) (l : List ℕ) → length (bump q l) ≡ length l
unfolding bump
length-bump q [] = refl
length-bump zero (y ∷ l) = refl
length-bump (suc q) (y ∷ l) = ground (arith, length-bump q l)

total-bump : (q : ℕ) (l : List ℕ) → q < length l → total (bump q l) ≡ total l + 1
unfolding bump
total-bump q [] h = absurd (ground arith)
total-bump zero (y ∷ l) h = omega arith
total-bump (suc q) (y ∷ l) h = ground (arith, total-bump q l)

slot-lt : (h : Histogram) (value : ℕ) → 0 < h.size → slot h value < h.size
slot-lt h value pos = ground arith

-- Every observed value is counted in one slot, also one above the maximum.
observe-IsCounted : (value : ℕ) (h : Histogram) → IsCounted h → IsCounted (observe value h)
unfolding observe
observe-IsCounted value h c =
    let inside : slot h value < length h.quartiles =
      ground (arith, slot-lt h value c.some_slot, c.slots) in
    record {
      some_slot = c.some_slot;
      slots = length-bump (slot h value) h.quartiles ∙ c.slots;
      counted = total-bump (slot h value) h.quartiles inside ∙ ap (λ n. n + 1) c.counted;
    }

find_stop_answers :
    (stop width x s y : ℕ) (l : List ℕ)
    → stop ≤ 100 * (s + total (y ∷ l))
    → (v : ℕ) × (find_stop stop width x s (y ∷ l) ≡ some v)
unfolding find_stop
find_stop_answers stop width x s y [] h = (x, ground arith)
find_stop_answers stop width x s y (z ∷ l) h = elim (Bool-cases (leb stop (100 * (s + y)))) [
  | inl e ↦ (x, rw e refl)
  | inr e ↦
      let (v, p) = find_stop_answers stop width (x + width) (s + y) z l (omega arith) in (v, rw e p)
]

find_stop_nonempty :
    (stop width : ℕ) (l : List ℕ)
    → 0 < length l
    → stop ≤ 100 * total l
    → (v : ℕ) × (find_stop stop width 0 0 l ≡ some v)
find_stop_nonempty stop width [] pos h = absurd (ground arith)
find_stop_nonempty stop width (y ∷ l) pos h = find_stop_answers stop width 0 0 y l (omega arith)

-- A histogram that has counted something answers every percentage up to 100.
pub percentage_answers :
    (p : ℕ) (h : Histogram)
    → IsCounted h
    → 0 < h.count
    → p ≤ 100
    → (v : ℕ) × (percentage p h ≡ some v)
unfolding percentage
percentage_answers p h c pos small =
    let below_count : h.count * p ≤ h.count * 100 = mul-le-mul_left h.count small in
    let pos_slots : 0 < length h.quartiles = ground (arith, c.slots, c.some_slot) in
    let below_total : h.count * p ≤ 100 * total h.quartiles =
      ground (arith, c.counted, below_count) in
    let (v, found) = find_stop_nonempty (h.count * p) h.width h.quartiles pos_slots below_total in
    (v, ground arith)

-- Counting changes one counter, by the value, and no other.
pub lookup-add :
    (value : ℕ) (args other : List String) (c c' : Counters)
    → Metrics.add value args c ≡ some c'
    → lookup other c'
      ≡ (if args == other then Option.map (λ n. n + value) (lookup args c) else lookup other c)
unfolding Metrics.add
lookup-add value args other c c' h = elim (Option-cases (lookup args c)) [
  | inl e ↦ absurd (ground arith)
  | inr (n, e) ↦ ground (arith, lookup-insert args other (n + value) c)
]
