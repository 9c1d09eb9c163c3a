-- ===== src/Search/Whole/Redirected.antt =====
-- search/__init__.py: the end of a search with a bang, by the trie of external_bang.py.
use opencode_optimised_tooli.Prelude.{
  Bool, Text, [], ap, arith, codes, false, is_empty, refl, some, split_on, sym, true, ℕ, ◌∙◌, ◌∷◌,
  ◌≡◌, list_eq, nat_eq, pair_eq, string_eq,
}
use opencode_optimised_tooli.Results.Container.{Env, Outcome, done, raised}
use opencode_optimised_tooli.WebAdapter.Types.{value_error, Result, ok, fault, ◌>>=◌}
use opencode_optimised_tooli.ExternalBang.{
  Node, leaf, Urls, resolve_bang_definition, resolve_parts, redirect, url_from,
}
use opencode_optimised_tooli.ExternalBang.Laws.{Spells, IsTrie, get_bang_definition_and_ac-Spells}
use opencode_optimised_tooli.ExternalBang.Redirect.{Resolves}
use opencode_optimised_tooli.Search.Suspended.{BanTimes}
use opencode_optimised_tooli.Search.Processor.{SearchQuery, Container}
use opencode_optimised_tooli.Search.Whole.{
  Site, search_external_bang, Searches, by_bang, by_value_error, answers_raise, by_answerers,
  by_engines,
}

is_fault : Result (Text × ℕ) → Bool
is_fault (ok r) = false
is_fault (fault f) = true

empty-refused :
    (urls : Urls) (query : Text) → resolve_bang_definition urls [] query ≡ fault value_error
unfolding resolve_bang_definition resolve_parts split_on
empty-refused urls query = refl

-- A definition that gives an address is not empty, and is what the search is redirected by.
redirect-leaf :
    (urls : Urls) (d query url : Text)
    → Resolves urls d query url
    → redirect urls (some (leaf d)) query ≡ ok (some url)
unfolding redirect is_fault
redirect-leaf urls [] query url (rank, e) =
    absurd (ground (arith, ap is_fault (sym (empty-refused urls query) ∙ e)))
redirect-leaf urls (c ∷ d) query url (rank, e) = ap (λ r. r >>= λ resolved. ok (some resolved.0)) e

url_from-Spelled :
    (urls : Urls) (trie : Node) (bang d query url : Text)
    → IsTrie trie
    → is_empty bang ≡ false
    → Spells trie bang d
    → Resolves urls d query url
    → url_from urls (some bang) query trie ≡ ok (some url)
unfolding url_from
url_from-Spelled urls trie bang d query url trusted shown spelled resolves =
    let e = (get_bang_definition_and_ac-Spells trie bang d trusted).1 spelled in
    rw (shown, e) (redirect-leaf urls d query url resolves)

module _ (env : Env) (times : BanTimes) {R : Type 0} (site : Site env times R) where
  outcome_of : Outcome (Bool × Container env times) → Outcome (Container env times)
  outcome_of (done (b, c)) = done c
  outcome_of (raised (b, c)) = raised c

  -- Whether the search ends with the bang.
  is_ended : Outcome (Bool × Container env times) → Bool
  is_ended (done (b, c)) = b
  is_ended (raised (b, c)) = false

  search_external_bang-Spelled :
      (q : SearchQuery) (c : Container env times) (bang d url : Text)
      → IsTrie site.trie
      → q.external_bang ≡ some bang
      → is_empty bang ≡ false
      → Spells site.trie bang d
      → Resolves site.urls d (codes q.query) url
      → search_external_bang env times site q c
        ≡ done (true, record c { redirect_url = some (site.string_of url) })
  unfolding search_external_bang
  search_external_bang-Spelled q c bang d url trusted given shown spelled resolves =
      rw
        (
          given,
          shown,
          url_from-Spelled site.urls site.trie bang d (codes q.query) url trusted shown spelled
              resolves,
        )
        refl

  Searches-ended :
      (q : SearchQuery) (c c' : Container env times) (o : Outcome (Container env times))
      → search_external_bang env times site q c ≡ done (true, c')
      → Searches env times site q c o
      → o ≡ done c'
  unfolding outcome_of is_ended
  Searches-ended q _ c' _ e (by_bang c d found) = ap outcome_of (sym found ∙ e)
  Searches-ended q _ c' _ e (by_value_error c d b fails) =
      absurd (ground (arith, ap is_ended (sym fails ∙ e)))
  Searches-ended q _ c' _ e (answers_raise c d d' b unfound fails) =
      absurd (ground (arith, ap is_ended (sym unfound ∙ e)))
  Searches-ended q _ c' _ e (by_answerers c d d' unfound answered) =
      absurd (ground (arith, ap is_ended (sym unfound ∙ e)))
  Searches-ended q _ c' _ e (by_engines c d d' o unfound unanswered run) =
      absurd (ground (arith, ap is_ended (sym unfound ∙ e)))

  -- In a trie in which no key begins with another key of its dictionary: if the trie has the bang of
  -- a query (not the empty one), with a definition that gives an address for the query, then every
  -- search of the query returns the container with that address and with nothing else changed, so
  -- that neither the answerers nor the engines have a part in it.
  pub Searches-Spelled :
      (q : SearchQuery) (c : Container env times) (o : Outcome (Container env times))
      (bang d url : Text)
      → IsTrie site.trie
      → q.external_bang ≡ some bang
      → is_empty bang ≡ false
      → Spells site.trie bang d
      → Resolves site.urls d (codes q.query) url
      → Searches env times site q c o
      → o ≡ done (record c { redirect_url = some (site.string_of url) })
  Searches-Spelled q c o bang d url trusted given shown spelled resolves run =
      Searches-ended q c _ o
        (search_external_bang-Spelled q c bang d url trusted given shown spelled resolves) run
