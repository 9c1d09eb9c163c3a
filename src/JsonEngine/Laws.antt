-- ===== src/JsonEngine/Laws.antt =====
-- engines/json_engine.py: `do_query` picks the values at the positions that complete the query.
use opencode_optimised_tooli.Prelude.{
  List, Text, [], ap, keep, map, refl, some, suc, sym, ℕ, ◌++◌, ◌∙◌, ◌∷◌, ◌≡◌,
}
use mathlib.Core.Option
use opencode_optimised_tooli.Tree.{
  Tree, Trees, Fields, null, truth, integer, real, moment, scalar, string, dict, items, item, entry,
  nil, append_trees,
}
use opencode_optimised_tooli.JsonEngine.{
  pick, query_fields, query_items, query_below, query_characters, do_query,
}
use opencode_optimised_tooli.JsonEngine.Positions.{
  to_list, Position, under, positions, positions_below, positions_items, positions_fields,
  positions_characters, completes, crossed, crossed-completes, values_at, to_list-append_trees,
  values_at-append, values_at-crossed_nil, pick-values_at,
}

module _ (str : ℕ → Text) where
  none_left_items : (l : Trees) (i : ℕ) → values_at (crossed []) (positions_items str l i) ≡ []
  unfolding positions_items keep
  none_left_items nil i = refl
  none_left_items (item value rest) i =
      values_at-crossed_nil (str i) value (positions_below str value) _
      ∙ none_left_items rest (suc i)

  none_left_fields : (d : Fields) → values_at (crossed []) (positions_fields str d) ≡ []
  unfolding positions_fields keep
  none_left_fields Fields.empty = refl
  none_left_fields (entry key value rest) =
      values_at-crossed_nil key value (positions_below str value) _ ∙ none_left_fields rest

  none_left : (t : Tree) → values_at (crossed []) (positions_below str t) ≡ []
  unfolding positions_below keep
  none_left (scalar s) = refl
  none_left (items l) = none_left_items l 0
  none_left (dict d) = none_left_fields d

  -- One round of a loop, and the later ones.
  round-values_at :
      (key : Text) (value : Tree) (l m : List Position) (below : List Text → Trees) (later : Trees)
      → ((k : Text) (q : List Text) → to_list (below (k ∷ q)) ≡ values_at (crossed (k ∷ q)) l)
      → values_at (crossed []) l ≡ []
      → (k : Text) (q : List Text) → to_list later ≡ values_at (crossed (k ∷ q)) m
      → to_list (append_trees (pick key value below (k ∷ q)) later)
        ≡ values_at (crossed (k ∷ q)) (((key ∷ [], value) ∷ map (under key) l) ++ m)
  round-values_at key value l m below later picked done k q rest =
      to_list-append_trees (pick key value below (k ∷ q)) later
      ∙ rw (pick-values_at key value below l picked done k q, rest)
          (sym (values_at-append (crossed (k ∷ q)) ((key ∷ [], value) ∷ map (under key) l) m))

  mutual
    unfolding query_below query_items query_fields positions_below positions_items positions_fields
        keep

    below-values_at :
        (t : Tree) (k : Text) (q : List Text)
        → to_list (query_below str t (k ∷ q)) ≡ values_at (crossed (k ∷ q)) (positions_below str t)
    below-values_at (scalar s) k q = refl
    below-values_at (items l) k q = items-values_at l 0 k q
    below-values_at (dict d) k q = fields-values_at d k q

    items-values_at :
        (l : Trees) (i : ℕ) (k : Text) (q : List Text)
        → to_list (query_items str l i (k ∷ q))
          ≡ values_at (crossed (k ∷ q)) (positions_items str l i)
    items-values_at nil i k q = refl
    items-values_at (item value rest) i k q =
        round-values_at (str i) value (positions_below str value) (positions_items str rest (suc i))
          (query_below str value) (query_items str rest (suc i) (k ∷ q)) (below-values_at value)
          (none_left value) k q (items-values_at rest (suc i) k q)

    fields-values_at :
        (d : Fields) (k : Text) (q : List Text)
        → to_list (query_fields str d (k ∷ q))
          ≡ values_at (crossed (k ∷ q)) (positions_fields str d)
    fields-values_at Fields.empty k q = refl
    fields-values_at (entry key value rest) k q =
        round-values_at key value (positions_below str value) (positions_fields str rest)
          (query_below str value) (query_fields str rest (k ∷ q)) (below-values_at value)
          (none_left value) k q (fields-values_at rest k q)

  characters-values_at :
      (s : Text) (i : ℕ) (k : Text) (q : List Text)
      → to_list (query_characters str s i (k ∷ q))
        ≡ values_at (crossed (k ∷ q)) (positions_characters str s i)
  unfolding query_characters positions_characters keep
  characters-values_at [] i k q = refl
  characters-values_at (c ∷ s) i k q =
      round-values_at (str i) (scalar (string (c ∷ []))) [] (positions_characters str s (suc i))
        (λ _. nil) (query_characters str s (suc i) (k ∷ q)) (λ _ _. refl) refl k q
        (characters-values_at s (suc i) k q)

  -- With a key to look for, `do_query` picks, in the order of the document, the values at just those
  -- paths that have the keys of the query in their order while the path before the last key has
  -- not. It raises a TypeError exactly for a document that has no positions: a scalar other than a
  -- text.
  pub do_query-completes :
      (document : Tree) (k : Text) (q : List Text)
      → Option.map to_list (do_query str document (k ∷ q))
        ≡ Option.map (values_at (completes (k ∷ q))) (positions str document)
  unfolding do_query positions
  do_query-completes document k q = rw (← crossed-completes k q) (picked document)
    where
      picked :
          (t : Tree)
          → Option.map to_list (do_query str t (k ∷ q))
            ≡ Option.map (values_at (crossed (k ∷ q))) (positions str t)
      picked (items l) = ap some (items-values_at l 0 k q)
      picked (dict d) = ap some (fields-values_at d k q)
      picked (scalar (string s)) = ap some (characters-values_at s 0 k q)
      picked (scalar null) = refl
      picked (scalar (truth b)) = refl
      picked (scalar (integer b n)) = refl
      picked (scalar (real n)) = refl
      picked (scalar (moment n)) = refl
