-- ===== src/ExternalBang.antt =====
-- external_bang.py: the search of a bang in the trie, and the address that it redirects to.
pub mod Laws
pub mod Redirect
pub mod Completions
use opencode_optimised_tooli.Prelude.{
  List, Option, Text, [], codes, has_prefix, if◌then◌else◌, is_empty, keep, map, none, not, snoc,
  some, split_on, ℕ, ◌++◌, ◌==◌, ◌∷◌, list_eq, nat_eq, pair_eq, string_eq,
}
use opencode_optimised_tooli.WebAdapter.Types.{
  Fault, value_error, Result, ok, fault, ◌>>=◌, SearchQuery,
}

-- `external_bangs_db['trie']`: a definition, or a dictionary from a bang's next letters.
mutual
  pub data Node : Type 0 where
    leaf : Text → Node
    branch : Children → Node

  pub data Children : Type 0 where
    nil : Children
    child : Text → Node → Children → Children

-- `LEAF_KEY = chr(16)`
abbrev pub leaf_key : Text
leaf_key = 16 ∷ []

-- `node.get(key)`
unfoldable pub get : Children → Text → Option Node
get nil key = none
get (child k n rest) key = if k == key then some n else get rest key

-- `after in node and isinstance(node, dict)`, with `node[after]`
unfoldable pub step : Node → Text → Option Node
step (leaf d) after = none
step (branch children) after = get children after

-- The loop of `get_node`: what is left of the bang, the node, `before` and `after`.
pub record Place : Type 0 where
  pub node : Node
  pub before : Text
  pub after : Text

unfoldable pub walk : Text → Node → Text → Text → Place
walk [] node before after = record { node = node; before = before; after = after }
walk (bang_letter ∷ bang) node before after = elim (step node (snoc after bang_letter)) [
  | none ↦ walk bang node before (snoc after bang_letter)
  | some next ↦ walk bang next (before ++ snoc after bang_letter) []
]

unfoldable pub get_node : Node → Text → Place
get_node trie bang = walk bang trie [] []

-- `for k in node`: the keys of a dictionary, the characters of a string.
unfoldable pub children_keys : Children → List Text
children_keys nil = []
children_keys (child k n rest) = k ∷ children_keys rest

unfoldable pub iterate : Node → List Text
iterate (leaf d) = map (λ c. c ∷ []) d
iterate (branch children) = children_keys children

-- `[before + k for k in l]`
unfoldable pub put_before : Text → List Text → List Text
put_before before = map (λ k. before ++ k)

-- What is found if `after` is empty: the definition and the continuations.
unfoldable pub found : Node → Text → Option Node × List Text
found (leaf d) before = (some (leaf d), [])
found (branch children) before = (
  get children leaf_key,
  put_before before (keep (λ k. not (k == leaf_key)) (children_keys children)),
)

unfoldable pub get_bang_definition_and_ac : Node → Text → Option Node × List Text
get_bang_definition_and_ac trie bang =
    let place = get_node trie bang in
    if not (is_empty place.after)
    then (none, put_before place.before (keep (has_prefix place.after) (iterate place.node)))
    else found place.node place.before

-- The library's functions: `quote_plus`, the scheme and the host of `urlparse`, and `int` on a
-- text; the last two may raise a ValueError.
pub record Urls : Type 0 where
  pub quote_plus : Text → Text
  pub urlparse : Text → Option (Text × Text)
  pub int : Text → Option ℕ

-- `url.replace(chr(2), value)`
unfoldable pub replace_mark : Text → Text → Text
replace_mark val [] = []
replace_mark val (c ∷ url) =
    let rest = replace_mark val url in if c == 2 then val ++ rest else c ∷ rest

abbrev pub add_scheme : Text → Text
add_scheme url = if has_prefix (codes "//") url then codes "https:" ++ url else url

module _ (urls : Urls) where
  -- The main page of the site.
  abbrev pub main_page : Text → Result Text
  main_page url = elim (urls.urlparse url) [
    | none ↦ fault value_error
    | some (scheme, netloc) ↦ ok (scheme ++ codes "://" ++ netloc)
  ]

  abbrev pub fill : Text → Text → Result Text
  fill url query =
      if not (is_empty query) then ok (replace_mark (urls.quote_plus query) url) else main_page url

  abbrev pub rank_of : Text → Result ℕ
  rank_of rank =
      if is_empty rank
      then ok 0
      else elim (urls.int rank) [ none ↦ fault value_error | some n ↦ ok n ]

  -- Another number of parts than two is a ValueError.
  unfoldable pub resolve_parts : List Text → Text → Result (Text × ℕ)
  resolve_parts (url ∷ rank ∷ []) query = do
    filled ← fill (add_scheme url) query
    order ← rank_of rank
    ok (filled, order)
  resolve_parts parts query = fault value_error

  unfoldable pub resolve_bang_definition : Text → Text → Result (Text × ℕ)
  resolve_bang_definition bang_definition query = resolve_parts (split_on 1 bang_definition) query

  -- `if bang_definition and isinstance(bang_definition, str)`
  unfoldable pub redirect : Option Node → Text → Result (Option Text)
  redirect none query = ok none
  redirect (some (branch children)) query = ok none
  redirect (some (leaf [])) query = ok none
  redirect (some (leaf (c ∷ d))) query = do
    resolved ← resolve_bang_definition (c ∷ d) query
    ok (some resolved.0)

  -- `get_bang_url` reads two fields of the query: `external_bang` and `query`.
  unfoldable pub url_from : Option Text → Text → Node → Result (Option Text)
  url_from none query trie = ok none
  url_from (some bang) query trie =
      if is_empty bang then ok none else redirect (get_bang_definition_and_ac trie bang).0 query

  unfoldable pub get_bang_url : {T : Type 0} → SearchQuery T → Node → Result (Option Text)
  get_bang_url search_query trie = url_from search_query.external_bang search_query.query trie
