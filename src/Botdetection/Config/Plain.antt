-- ===== src/Botdetection/Config/Plain.antt =====
-- botdetection/config.py: what `value` reads at a name, in a dictionary whose keys have no dot.
use mathlib.Core.Option.{some_inj}
use opencode_optimised_tooli.Prelude.{
  All, List, Option-cases, Text, [], ap, arith, contains, false, inl, inr, join_on, none, refl,
  snoc, some, split_on-join_on, sym, ◌∙◌, ◌∷◌, ◌≡◌, list_eq, nat_eq, pair_eq, string_eq,
}
use opencode_optimised_tooli.Tree.{Tree, Fields, scalar, items, dict, entry, get}
use opencode_optimised_tooli.Tree.Laws.{AreDistinct}
use opencode_optimised_tooli.Botdetection.Config.{value_at, value}

-- The keys of a dictionary are distinct and have no dot, those of the dictionaries below too.
unfoldable mutual
  pub IsPlain : Fields → Type 0
  IsPlain Fields.empty = Unit
  IsPlain (entry key t rest) =
      (contains b'.' key ≡ false) × (get key rest ≡ none) × IsPlainTree t × IsPlain rest

  pub IsPlainTree : Tree → Type 0
  IsPlainTree (scalar s) = Unit
  IsPlainTree (items l) = Unit
  IsPlainTree (dict d) = IsPlain d

pub AreDistinct-plain : (d : Fields) → IsPlain d → AreDistinct d
unfolding IsPlain AreDistinct
AreDistinct-plain Fields.empty plain = tt
AreDistinct-plain (entry key t rest) (free, fresh, below, plain) =
    (fresh, AreDistinct-plain rest plain)

pub value_at-found :
    (name : Text) (names : List Text) (d : Fields) (v : Tree)
    → get name d ≡ some v
    → value_at (name ∷ names) (dict d) ≡ value_at names v
unfolding value_at
value_at-found name names d v there = rw (there, value_at) refl

value_at-absent :
    (name : Text) (names : List Text) (d : Fields)
    → get name d ≡ none
    → value_at (name ∷ names) (dict d) ≡ none
unfolding value_at
value_at-absent name names d absent = rw (absent, value_at) refl

value_at-key : (key : Text) (d : Fields) → value_at (key ∷ []) (dict d) ≡ get key d
unfolding value_at
value_at-key key d = elim (Option-cases (get key d)) [
  | inl absent ↦ value_at-absent key [] d absent ∙ sym absent
  | inr (v, there) ↦ value_at-found key [] d v there ∙ sym there
]

-- The path with one more key, from where the path ends.
pub value_at-snoc :
    (names : List Text) (key : Text) (t : Tree) (d : Fields)
    → value_at names t ≡ some (dict d)
    → value_at (snoc names key) t ≡ get key d
unfolding value_at
value_at-snoc [] key t d h = ap (value_at (key ∷ [])) (some_inj.0 h) ∙ value_at-key key d
value_at-snoc (name ∷ names) key (scalar s) d h = value_at-snoc names key (scalar s) d h
value_at-snoc (name ∷ names) key (items l) d h = value_at-snoc names key (items l) d h
value_at-snoc (name ∷ names) key (dict e) d h = elim (Option-cases (get name e)) [
  | inl absent ↦ absurd (ground (arith, sym (value_at-absent name names e absent) ∙ h))
  | inr (v, there) ↦
      value_at-found name (snoc names key) e v there
      ∙ value_at-snoc names key v d (sym (value_at-found name names e v there) ∙ h)
]

-- The value at a name, for keys without dots.
value-join_on :
    (name : Text) (names : List Text) (d : Fields)
    → All (λ key. contains b'.' key ≡ false) (name ∷ names)
    → value (join_on b'.' (name ∷ names)) d ≡ value_at (name ∷ names) (dict d)
unfolding value
value-join_on name names d free =
    ap (λ path. value_at path (dict d)) (split_on-join_on b'.' name names free)

pub value_at_name :
    (names : List Text) (key : Text) (d : Fields)
    → All (λ key. contains b'.' key ≡ false) (snoc names key)
    → value (join_on b'.' (snoc names key)) d ≡ value_at (snoc names key) (dict d)
value_at_name [] key d free = value-join_on key [] d free
value_at_name (name ∷ names) key d free = value-join_on name (snoc names key) d free
