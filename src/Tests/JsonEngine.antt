-- ===== src/Tests/JsonEngine.antt =====
-- Examples of the theorem on JSON queries.
use opencode_optimised_tooli.Prelude.{
  String, Text, [], codes, refl, some, ℕ, ◌+◌, ◌∷◌, ◌≡◌, list_eq, nat_eq, pair_eq, string_eq, keep,
  split_on,
}
use mathlib.Core.Option
use opencode_optimised_tooli.Tree.{
  Tree, Fields, scalar, dict, items, item, nil, entry, string, append_trees,
}
use opencode_optimised_tooli.JsonEngine.{
  do_query, query, parse, pick, query_fields, query_items, query_below,
}
use opencode_optimised_tooli.JsonEngine.Positions.{to_list, values_at, completes, positions}
use opencode_optimised_tooli.JsonEngine.Laws.{do_query-completes}

-- Python's `str` on numbers of one digit.
abbrev digit : ℕ → Text
digit n = (n + 48) ∷ []

abbrev text : String → Tree
text s = scalar (string (codes s))

abbrev hit : String → Tree
hit url = dict (entry (codes "url") (text url) Fields.empty)

abbrev document : Tree
document = dict (
    entry (codes "url") (text "top")
      (entry (codes "hits") (items (item (hit "a") (item (hit "b") nil))) Fields.empty))

query_all : query digit document (codes "/hits/url") ≡ some (item (text "a") (item (text "b") nil))
unfolding query do_query parse pick query_fields query_items query_below append_trees keep split_on
query_all = refl

query_second : query digit document (codes "hits/1/url") ≡ some (item (text "b") nil)
unfolding query do_query parse pick query_fields query_items query_below append_trees keep split_on
query_second = refl

do_query-completes_example :
    Option.map to_list (do_query digit document (codes "hits" ∷ codes "url" ∷ []))
    ≡ Option.map
        (values_at (completes (codes "hits" ∷ codes "url" ∷ [])))
        (positions digit document)
do_query-completes_example = do_query-completes digit document (codes "hits") (codes "url" ∷ [])
