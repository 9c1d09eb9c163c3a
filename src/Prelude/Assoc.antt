-- ===== src/Prelude/Assoc.antt =====
-- Python's `dict`: an association list in insertion order. Assignment keeps a key's place.
use mathlib.Core.Path.{◌≡◌, refl, sym, subst}
use mathlib.Core.Logic.{inl, inr}
use mathlib.Core.Bool.{Bool, false, ◌||◌}
use mathlib.Core.List.{List, [], ◌∷◌, map}
use mathlib.Core.Option.{Option, none, some}
use native.Mathlib.Omega.{arith}
use opencode_optimised_tooli.Prelude.Lists.{All}
use opencode_optimised_tooli.Prelude.Tests.{Eq, Bool-cases, ◌==◌, ==_self, if◌then◌else◌}

abbrev pub Dict {ℓ κ} : Type ℓ → Type κ → Type (ℓ ⊔ κ)
Dict K V = List (K × V)

module _ {ℓ κ} {K : Type ℓ} {V : Type κ} where
  abbrev pub keys : Dict K V → List K
  keys = map (λ e. e.0)

  abbrev pub values : Dict K V → List V
  values = map (λ e. e.1)

module _ {ℓ κ} {K : Type ℓ} {V : Type κ} ⦃e : Eq K⦄ where
  -- `d.get(k)`
  unfoldable pub lookup : K → Dict K V → Option V
  lookup key [] = none
  lookup key ((other, val) ∷ dict) = if other == key then some val else lookup key dict

  -- `d[k] = v`
  unfoldable pub insert : K → V → Dict K V → Dict K V
  insert key val [] = (key, val) ∷ []
  insert key val ((other, held) ∷ dict) =
      if other == key then (other, val) ∷ dict else (other, held) ∷ insert key val dict

  -- `d.pop(k, None)`
  unfoldable pub erase : K → Dict K V → Dict K V
  erase key [] = []
  erase key ((other, val) ∷ dict) =
      let rest = erase key dict in if other == key then rest else (other, val) ∷ rest

  -- `k in d`
  unfoldable pub has_key : K → Dict K V → Bool
  has_key key [] = false
  has_key key ((other, val) ∷ dict) = (other == key) || has_key key dict

  pub lookup-insert :
      (key other : K) (val : V) (dict : Dict K V)
      → lookup other (insert key val dict) ≡ (if key == other then some val else lookup other dict)
  unfolding lookup insert
  lookup-insert key other val [] = refl
  lookup-insert key other val ((first, held) ∷ dict) = ground (
    arith,
    e.eqb_iff key other,
    e.eqb_iff first key,
    e.eqb_iff first other,
    lookup-insert key other val dict,
  )

  pub lookup-erase :
      (key other : K) (dict : Dict K V)
      → lookup other (erase key dict) ≡ (if key == other then none else lookup other dict)
  unfolding lookup erase
  lookup-erase key other [] = ground arith
  lookup-erase key other ((first, held) ∷ dict) = ground (
    arith,
    e.eqb_iff key other,
    e.eqb_iff first key,
    e.eqb_iff first other,
    lookup-erase key other dict,
  )

  pub lookup-insert_self :
      (key : K) (val : V) (dict : Dict K V) → lookup key (insert key val dict) ≡ some val
  lookup-insert_self key val dict = simp (lookup-insert, ==_self)

  pub has_key-insert :
      (key other : K) (val : V) (dict : Dict K V)
      → has_key other (insert key val dict) ≡ ((key == other) || has_key other dict)
  unfolding has_key insert
  has_key-insert key other val [] = refl
  has_key-insert key other val ((first, held) ∷ dict) = ground (
    arith,
    e.eqb_iff key other,
    e.eqb_iff first key,
    e.eqb_iff first other,
    has_key-insert key other val dict,
  )

  -- No key is there twice.
  abbrev pub DistinctKeys : Dict K V → Type 0
  DistinctKeys [] = Unit
  DistinctKeys ((key, val) ∷ dict) = (has_key key dict ≡ false) × DistinctKeys dict

  pub DistinctKeys-insert :
      (key : K) (val : V) (dict : Dict K V) → DistinctKeys dict → DistinctKeys (insert key val dict)
  unfolding insert has_key
  DistinctKeys-insert key val [] h = (refl, tt)
  DistinctKeys-insert key val ((first, held) ∷ dict) (fresh, h) = elim (Bool-cases (first == key)) [
    | inl same ↦ rw same (fresh, h)
    | inr other ↦ rw other (
      ground (
        arith,
        has_key-insert key first val dict,
        e.eqb_iff key first,
        e.eqb_iff first key,
        fresh,
      ),
      DistinctKeys-insert key val dict h,
    )
  ]

  -- What holds of the new entry and of the old ones holds of all.
  pub All-insert {μ} :
      (P : K × V → Type μ) (key : K) (val : V) (dict : Dict K V)
      → P (key, val)
      → All P dict
      → All P (insert key val dict)
  unfolding insert
  All-insert P key val [] new all = (new, tt)
  All-insert P key val ((first, held) ∷ dict) new (old, all) = elim (Bool-cases (first == key)) [
    | inl same ↦ rw same (subst (λ k. P (k, val)) (sym ((e.eqb_iff first key).0 same)) new, all)
    | inr other ↦ rw other (old, All-insert P key val dict new all)
  ]
