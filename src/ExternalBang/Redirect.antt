-- ===== src/ExternalBang/Redirect.antt =====
-- The redirection of a search with a bang.
use opencode_optimised_tooli.Prelude.{
  Option, Text, [], ap, arith, none, refl, some, ℕ, ◌∙◌, ◌∷◌, ◌≡◌, list_eq, nat_eq, pair_eq,
  string_eq,
}
use opencode_optimised_tooli.WebAdapter.Types.{Result, ok, fault, ◌>>=◌, SearchQuery}
use opencode_optimised_tooli.ExternalBang.{
  Node, leaf, branch, get_bang_definition_and_ac, Urls, resolve_bang_definition, redirect, url_from,
  get_bang_url,
}
use opencode_optimised_tooli.ExternalBang.Laws.{Spells, IsTrie, get_bang_definition_and_ac-Spells}

module _ (urls : Urls) where
  -- The definition gives the address.
  abbrev pub Resolves : Text → Text → Text → Type 0
  Resolves d query url = (rank : ℕ) × (resolve_bang_definition urls d query ≡ ok (url, rank))

  resolved-Resolves :
      (d query url : Text) (r : Result (Text × ℕ))
      → resolve_bang_definition urls d query ≡ r
      → (r >>= λ resolved. ok (some resolved.0)) ≡ ok (some url)
      → Resolves d query url
  resolved-Resolves d query url (fault f) e h = absurd (ground arith)
  resolved-Resolves d query url (ok (address, rank)) e h =
      (rank, e ∙ ap (λ u. ok (u, rank)) (ground arith))

  redirect-Resolves :
      (n : Option Node) (query url : Text)
      → redirect urls n query ≡ ok (some url)
      → (d : Text) × (n ≡ some (leaf d)) × Resolves d query url
  unfolding redirect
  redirect-Resolves none query url h = absurd (ground arith)
  redirect-Resolves (some (branch children)) query url h = absurd (ground arith)
  redirect-Resolves (some (leaf [])) query url h = absurd (ground arith)
  redirect-Resolves (some (leaf (c ∷ d))) query url h = (
    c ∷ d,
    refl,
    resolved-Resolves (c ∷ d) query url (resolve_bang_definition urls (c ∷ d) query) refl h,
  )

  url_from-Spells :
      (external_bang : Option Text) (query : Text) (trie : Node) (url : Text)
      → IsTrie trie
      → url_from urls external_bang query trie ≡ ok (some url)
      → (bang : Text) × (d : Text) × (external_bang ≡ some bang)
        × Spells trie bang d
        × Resolves d query url
  unfolding url_from
  url_from-Spells none query trie url trusted h = absurd (ground arith)
  url_from-Spells (some []) query trie url trusted h = absurd (ground arith)
  url_from-Spells (some (c ∷ bang)) query trie url trusted h =
      let (d, e, resolves) =
        redirect-Resolves (get_bang_definition_and_ac trie (c ∷ bang)).0 query url h in
      (
        c ∷ bang,
        d,
        refl,
        (get_bang_definition_and_ac-Spells trie (c ∷ bang) d trusted).0 e,
        resolves,
      )

  -- A search is redirected only for a bang that the trie has, to the address that the bang's
  -- definition gives for the query.
  pub get_bang_url-Spells :
      {T : Type 0} (search_query : SearchQuery T) (trie : Node) (url : Text)
      → IsTrie trie
      → get_bang_url urls search_query trie ≡ ok (some url)
      → (bang : Text) × (d : Text) × (search_query.external_bang ≡ some bang)
        × Spells trie bang d
        × Resolves d search_query.query url
  unfolding get_bang_url
  get_bang_url-Spells search_query trie url trusted h =
      url_from-Spells search_query.external_bang search_query.query trie url trusted h
