-- ===== src/Search/Whole.antt =====
-- search/__init__.py: `Search.search` and `SearchWithPlugins.search`, from the first check of the
-- query to the closed container.
pub mod Redirected
use opencode_optimised_tooli.Prelude.{
  Bool, Dict, List, Option, String, Text, [], codes, false, if◌then◌else◌, ◌∷◌, is_empty, map, none,
  not, some, true, ℕ, ◌≡◌, list_eq, nat_eq, pair_eq, string_eq,
}
use opencode_optimised_tooli.Results.Container.{Env, answer_result, Outcome, done, raised, extend}
use opencode_optimised_tooli.Results.Ordered.{add_unresponsive_engine, close}
use opencode_optimised_tooli.WebAdapter.Types.{Result, ok, fault}
use opencode_optimised_tooli.ExternalBang.{Node, Urls, url_from}
use opencode_optimised_tooli.Search.Suspended.{BanTimes}
use opencode_optimised_tooli.Search.Processor.{Processor, SearchQuery, Container}
use opencode_optimised_tooli.Search.Requests.{Gathered, get_requests}
use opencode_optimised_tooli.Search.Threads.{Thread, is_alive, Running, Run, start_threads}
use opencode_optimised_tooli.Plugins.Answerers.{AnswerStorage, ask}
use opencode_optimised_tooli.Plugins.Storage.{Plugin, pre_search, post_search}

-- `if self.search_query.external_bang`
abbrev pub has_bang : Option Text → Bool
has_bang none = false
has_bang (some bang) = not (is_empty bang)

-- What a search reads besides its query: the settings, the processors, the answerers, the plugins
-- and the user's choice of them, the trie of the bangs, and the functions of the library on
-- addresses (`string_of` makes a string of a list of characters).
pub record Site (env : Env) (times : BanTimes) (R : Type 0) : Type 0 where
  pub max_page : ℕ
  pub now : ℕ
  pub max_request_timeout : Option ℕ
  pub processors : Dict String Processor
  pub answerers : AnswerStorage
  pub plugins : List (Plugin SearchQuery R env.floats.F)
  pub user_plugins : List String
  pub trie : Node
  pub urls : Urls
  pub string_of : Text → String

module _ (env : Env) (times : BanTimes) {R : Type 0} (site : Site env times R) where
  -- `search_external_bang`
  abbrev pub redirect :
      Result (Option Text) → Container env times → Outcome (Bool × Container env times)
  redirect (ok none) c = done (false, record c { redirect_url = none })
  redirect (ok (some url)) c = done (true, record c { redirect_url = some (site.string_of url) })
  redirect (fault f) c = raised (false, c)

  unfoldable pub search_external_bang :
      SearchQuery → Container env times → Outcome (Bool × Container env times)
  search_external_bang q c =
      if has_bang q.external_bang
      then redirect (url_from site.urls q.external_bang (codes q.query) site.trie) c
      else done (false, c)

  -- `search_answerers`, with whether there are answers
  abbrev pub with_bool : Bool → Outcome (Container env times) → Outcome (Bool × Container env times)
  with_bool b (done c) = done (b, c)
  with_bool b (raised c) = raised (b, c)

  unfoldable pub search_answerers :
      SearchQuery → Container env times → Outcome (Bool × Container env times)
  search_answerers q c =
      let results = ask q.query site.answerers in
      with_bool (not (is_empty results)) (extend env none (map answer_result results) c)

  abbrev pub gather : SearchQuery → Container env times → Outcome (Gathered env times × ℕ)
  gather q c =
      get_requests env times site.max_page site.now site.processors site.max_request_timeout q c

  -- `search_standard`: with requests, the main thread goes on when it waits for no thread.
  pub data Standard (q : SearchQuery)
      : Container env times → Outcome (Container env times) → Type 0 where
    gather_raises :
        (c : Container env times) (g : Gathered env times) (timeout : ℕ)
        → gather q c ≡ raised (g, timeout)
        → Standard q c (raised g.container)
    no_requests :
        (c : Container env times) (g : Gathered env times) (timeout : ℕ)
        → gather q c ≡ done (g, timeout)
        → g.requests ≡ []
        → Standard q c (done g.container)
    key_error :
        (c : Container env times) (g : Gathered env times) (timeout : ℕ)
        → gather q c ≡ done (g, timeout)
        → start_threads site.processors g.requests ≡ none
        → Standard q c (raised g.container)
    requests_made :
        (c : Container env times) (g : Gathered env times) (timeout n : ℕ) (threads : List Thread)
        (s : Running env times)
        → gather q c ≡ done (g, timeout)
        → start_threads site.processors g.requests ≡ some threads
        → Run env times n (record { container = g.container; waiting = threads; joined = [] }) s
        → s.waiting ≡ []
        → Standard q c (done s.container)
    join_raises :
        (c c' : Container env times) (g : Gathered env times) (timeout n : ℕ)
        (threads : List Thread) (s : Running env times) (th : Thread) (rest : List Thread)
        → gather q c ≡ done (g, timeout)
        → start_threads site.processors g.requests ≡ some threads
        → Run env times n (record { container = g.container; waiting = threads; joined = [] }) s
        → s.waiting ≡ th ∷ rest
        → is_alive th ≡ true
        → add_unresponsive_engine env th.engine_name "timeout" false s.container ≡ raised c'
        → Standard q c (raised c')

  -- `Search.search`: each stage runs only if the one before has found nothing.
  pub data Searches (q : SearchQuery)
      : Container env times → Outcome (Container env times) → Type 0 where
    by_bang :
        (c c' : Container env times)
        → search_external_bang q c ≡ done (true, c')
        → Searches q c (done c')
    by_value_error :
        (c c' : Container env times) (b : Bool)
        → search_external_bang q c ≡ raised (b, c')
        → Searches q c (raised c')
    answers_raise :
        (c c' c'' : Container env times) (b : Bool)
        → search_external_bang q c ≡ done (false, c')
        → search_answerers q c' ≡ raised (b, c'')
        → Searches q c (raised c'')
    by_answerers :
        (c c' c'' : Container env times)
        → search_external_bang q c ≡ done (false, c')
        → search_answerers q c' ≡ done (true, c'')
        → Searches q c (done c'')
    by_engines :
        (c c' c'' : Container env times) (o : Outcome (Container env times))
        → search_external_bang q c ≡ done (false, c')
        → search_answerers q c' ≡ done (false, c'')
        → Standard q c'' o
        → Searches q c o

  -- The end of `SearchWithPlugins.search`
  abbrev pub close_after : Outcome (Container env times) → Outcome (Container env times)
  close_after (done c) = done (close env c)
  close_after (raised c) = raised c

  abbrev pub finish : SearchQuery → Container env times → Outcome (Container env times)
  finish q c = close_after (post_search env q.query site.user_plugins site.plugins c)

  -- `SearchWithPlugins.search`: the query may be changed by the plugins, also if one of them stops
  -- the search.
  pub data SearchesWithPlugins (q : SearchQuery)
      : Container env times → Outcome (Container env times) → Type 0 where
    stopped :
        (c : Container env times) (q' : SearchQuery) (o : Outcome (Container env times))
        → pre_search site.user_plugins site.plugins q ≡ (false, q')
        → finish q' c ≡ o
        → SearchesWithPlugins q c o
    search_raises :
        (c c' : Container env times) (q' : SearchQuery)
        → pre_search site.user_plugins site.plugins q ≡ (true, q')
        → Searches q' c (raised c')
        → SearchesWithPlugins q c (raised c')
    searched :
        (c c' : Container env times) (q' : SearchQuery) (o : Outcome (Container env times))
        → pre_search site.user_plugins site.plugins q ≡ (true, q')
        → Searches q' c (done c')
        → finish q' c' ≡ o
        → SearchesWithPlugins q c o
