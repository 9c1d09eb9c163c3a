-- ===== src/JsonEngine/Positions.antt =====
-- engines/json_engine.py: which values of a document `do_query` picks.
use opencode_optimised_tooli.Prelude.{
  Bool, Bool-cases, List, Option, Text, [], ap, arith, false, if◌then◌else◌, inl, inr, is_empty,
  keep, map, none, not, refl, some, suc, sym, true, ℕ, ◌&&◌, ◌++◌, ◌==◌, ◌∙◌, ◌∷◌, ◌≡◌, list_eq,
  nat_eq, pair_eq, string_eq,
}
use mathlib.Core.Path.{fun_ext}
use opencode_optimised_tooli.Tree.{
  Tree, Trees, Fields, scalar, string, dict, items, item, entry, nil, append_trees,
}
use opencode_optimised_tooli.JsonEngine.{pick}

abbrev pub to_list : Trees → List Tree
to_list nil = []
to_list (item t l) = t ∷ to_list l

-- A value, and the keys and indices on the way to it.
abbrev pub Position : Type 0
Position = List Text × Tree

abbrev pub under : Text → Position → Position
under key (path, value) = (key ∷ path, value)

-- All the values of a document, each before what stands in it.
module _ (str : ℕ → Text) where
  unfoldable mutual
    pub positions_below : Tree → List Position
    positions_below (scalar s) = []
    positions_below (items l) = positions_items l 0
    positions_below (dict d) = positions_fields d

    pub positions_items : Trees → ℕ → List Position
    positions_items nil index = []
    positions_items (item value rest) index =
        ((str index ∷ [], value) ∷ map (under (str index)) (positions_below value))
        ++ positions_items rest (suc index)

    pub positions_fields : Fields → List Position
    positions_fields Fields.empty = []
    positions_fields (entry key value rest) =
        ((key ∷ [], value) ∷ map (under key) (positions_below value)) ++ positions_fields rest

  unfoldable pub positions_characters : Text → ℕ → List Position
  positions_characters [] index = []
  positions_characters (c ∷ s) index =
      (str index ∷ [], scalar (string (c ∷ []))) ∷ positions_characters s (suc index)

  -- A text is gone through only where it is the whole document; other scalars have no positions.
  unfoldable pub positions : Tree → Option (List Position)
  positions (items l) = some (positions_items l 0)
  positions (dict d) = some (positions_fields d)
  positions (scalar (string s)) = some (positions_characters s 0)
  positions (scalar s) = none

-- The keys of a query come in a path, in their order.
unfoldable pub is_subsequence : List Text → List Text → Bool
is_subsequence [] path = true
is_subsequence (k ∷ q) [] = false
is_subsequence (k ∷ q) (c ∷ path) = is_subsequence (if c == k then q else k ∷ q) path

-- All of a path but its last key.
unfoldable pub parent : List Text → List Text
parent [] = []
parent (c ∷ []) = []
parent (c ∷ d ∷ path) = c ∷ parent (d ∷ path)

-- A path has the keys of a query, and its parent has not yet all of them.
unfoldable pub completes : List Text → Position → Bool
completes q (path, value) = is_subsequence q path && not (is_subsequence q (parent path))

-- The same, as the loops see it: a key that comes is crossed off.
matches : List Text → List Text → Bool
matches [] q = is_empty q
matches (c ∷ path) [] = false
matches (c ∷ path) (k ∷ q) = matches path (if c == k then q else k ∷ q)

matches-completes :
    (path : List Text) (k : Text) (q : List Text) (value : Tree)
    → matches path (k ∷ q) ≡ completes (k ∷ q) (path, value)
unfolding matches completes is_subsequence parent
matches-completes [] k q value = refl
matches-completes (c ∷ []) k [] value = ground arith
matches-completes (c ∷ []) k (r ∷ q) value = ground arith
matches-completes (c ∷ d ∷ path) k [] value =
    ground (arith, matches-completes (d ∷ path) k [] value)
matches-completes (c ∷ d ∷ path) k (r ∷ q) value =
    ground
      (arith, matches-completes (d ∷ path) r q value, matches-completes (d ∷ path) k (r ∷ q) value)

-- The values at the positions that a test takes.
abbrev pub values_at : (Position → Bool) → List Position → List Tree
values_at test l = map (λ p. p.1) (keep test l)

pub crossed : List Text → Position → Bool
unfolding matches
crossed q (path, value) = matches path q

pub values_at-append :
    (test : Position → Bool) (l m : List Position)
    → values_at test (l ++ m) ≡ values_at test l ++ values_at test m
unfolding keep
values_at-append test [] m = refl
values_at-append test (p ∷ l) m = elim (Bool-cases (test p)) [
  | inl e ↦ rw e (ap (◌∷◌ p.1) (values_at-append test l m))
  | inr e ↦ rw e (values_at-append test l m)
]

pub to_list-append_trees : (l m : Trees) → to_list (append_trees l m) ≡ to_list l ++ to_list m
unfolding append_trees
to_list-append_trees nil m = refl
to_list-append_trees (item t l) m = ap (◌∷◌ t) (to_list-append_trees l m)

-- Below a key the query goes on without it, if it was the next one.
values_at-under :
    (key k : Text) (q : List Text) (l : List Position)
    → values_at (crossed (k ∷ q)) (map (under key) l)
      ≡ values_at (crossed (if key == k then q else k ∷ q)) l
unfolding crossed keep
values_at-under key k q [] = refl
values_at-under key k q ((path, value) ∷ l) =
    elim (Bool-cases (matches path (if key == k then q else k ∷ q))) [
      | inl e ↦ rw e (ap (◌∷◌ value) (values_at-under key k q l))
      | inr e ↦ rw e (values_at-under key k q l)
    ]

values_at-under_nil :
    (key : Text) (l : List Position) → values_at (crossed []) (map (under key) l) ≡ []
unfolding crossed keep matches
values_at-under_nil key [] = refl
values_at-under_nil key ((path, value) ∷ l) = values_at-under_nil key l

-- Where all keys are crossed off, nothing is picked: every path has a key.
pub values_at-crossed_nil :
    (key : Text) (value : Tree) (l m : List Position)
    → values_at (crossed []) (((key ∷ [], value) ∷ map (under key) l) ++ m)
      ≡ values_at (crossed []) m
unfolding crossed keep matches
values_at-crossed_nil key value l m =
    values_at-append (crossed []) (map (under key) l) m ∙ rw values_at-under_nil refl

-- What the body of the loop picks, by what is picked below the value.
pub pick-values_at :
    (key : Text) (value : Tree) (below : List Text → Trees) (l : List Position)
    → ((k : Text) (q : List Text) → to_list (below (k ∷ q)) ≡ values_at (crossed (k ∷ q)) l)
    → values_at (crossed []) l ≡ []
    → (k : Text) (q : List Text)
    → to_list (pick key value below (k ∷ q))
      ≡ values_at (crossed (k ∷ q)) ((key ∷ [], value) ∷ map (under key) l)
unfolding pick crossed keep matches
pick-values_at key value below l ih rest k [] = elim (Bool-cases (key == k)) [
  | inl e ↦ rw e (ap (◌∷◌ value) (sym (values_at-under key k [] l ∙ rw e rest)))
  | inr e ↦ rw e (ih k [] ∙ sym (values_at-under key k [] l ∙ rw e refl))
]
pick-values_at key value below l ih rest k (r ∷ q) = elim (Bool-cases (key == k)) [
  | inl e ↦ rw e (ih r q ∙ sym (values_at-under key k (r ∷ q) l ∙ rw e refl))
  | inr e ↦ rw e (ih k (r ∷ q) ∙ sym (values_at-under key k (r ∷ q) l ∙ rw e refl))
]

pub crossed-completes : (k : Text) (q : List Text) → crossed (k ∷ q) ≡ completes (k ∷ q)
unfolding crossed
crossed-completes k q = fun_ext λ (path, value). matches-completes path k q value
