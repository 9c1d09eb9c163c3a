-- ===== src/JsonEngine.antt =====
-- engines/json_engine.py: `query`, which picks values out of a JSON document by a path of keys.
pub mod Positions
pub mod Laws
use opencode_optimised_tooli.Prelude.{
  List, Option, Text, [], if◌then◌else◌, is_empty, keep, none, not, some, split_on, suc, ℕ, ◌==◌,
  ◌∷◌, list_eq, nat_eq, pair_eq, string_eq,
}
use opencode_optimised_tooli.Tree.{
  Tree, Trees, Fields, scalar, string, dict, items, item, entry, nil, append_trees,
}

-- `parse`: the parts of a query string that are not empty
unfoldable pub parse : Text → List Text
parse query = keep (λ part. not (is_empty part)) (split_on b'/' query)

-- The body of the loop, for a key and its value; `below` is the call for the value, which picks
-- nothing if the value is no dictionary and no list.
unfoldable pub pick : Text → Tree → (List Text → Trees) → List Text → Trees
pick key value below [] = nil
pick key value below (qkey ∷ []) = if key == qkey then item value nil else below (qkey ∷ [])
pick key value below (qkey ∷ r ∷ q) = if key == qkey then below (r ∷ q) else below (qkey ∷ r ∷ q)

-- `str` is Python's, of an index.
module _ (str : ℕ → Text) where
  -- `do_query` for a value in a document: the loops over a dictionary and over a list, from an
  -- index on. A text is not gone through.
  unfoldable mutual
    pub query_fields : Fields → List Text → Trees
    query_fields Fields.empty q = nil
    query_fields (entry key value rest) q =
        append_trees (pick key value (query_below value) q) (query_fields rest q)

    pub query_items : Trees → ℕ → List Text → Trees
    query_items nil index q = nil
    query_items (item value rest) index q =
        append_trees (pick (str index) value (query_below value) q) (query_items rest (suc index) q)

    pub query_below : Tree → List Text → Trees
    query_below (scalar s) q = nil
    query_below (items l) q = query_items l 0 q
    query_below (dict d) q = query_fields d q

  -- `do_query` for a document that is a text: the loop over its characters.
  unfoldable pub query_characters : Text → ℕ → List Text → Trees
  query_characters [] index q = nil
  query_characters (c ∷ s) index q =
      append_trees (pick (str index) (scalar (string (c ∷ []))) (λ _. nil) q)
        (query_characters s (suc index) q)

  -- `do_query` for a document; `none` is the TypeError of one that cannot be iterated.
  unfoldable pub do_query : Tree → List Text → Option Trees
  do_query t [] = some nil
  do_query (items l) (k ∷ q) = some (query_items l 0 (k ∷ q))
  do_query (dict d) (k ∷ q) = some (query_fields d (k ∷ q))
  do_query (scalar (string s)) (k ∷ q) = some (query_characters s 0 (k ∷ q))
  do_query (scalar s) (k ∷ q) = none

  unfoldable pub query : Tree → Text → Option Trees
  query document query_string = do_query document (parse query_string)
