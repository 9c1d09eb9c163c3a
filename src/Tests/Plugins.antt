-- ===== src/Tests/Plugins.antt =====
-- Examples of the theorems on plugins, answerers, and whole searches.
use opencode_optimised_tooli.Prelude.{
  codes, has_prefix, split_on, if◌then◌else◌, ◌==◌, Bool, List, Option, String, [], contains, false,
  insert, keep, lookup, map, none, refl, some, true, ℕ, ◌++◌, ◌+◌, ◌∷◌, ◌≡◌, ◌⊎◌, list_eq, nat_eq,
  pair_eq, string_eq,
}
use opencode_optimised_tooli.Results.Answers.{Answer}
use opencode_optimised_tooli.Results.Container.{done}
use opencode_optimised_tooli.Plugins.Storage.{
  Plugin, chosen, pre_search, on_result, register, split, first_word, call_all,
}
use opencode_optimised_tooli.Plugins.Storage.Loops.{Passes, Stops, pre_search_outcomes}
use opencode_optimised_tooli.Plugins.Answerers.{
  Answerer, new_storage, ask, mark, ask_all, append_by, register as register_answerer,
}
use opencode_optimised_tooli.Plugins.Answerers.Laws.{copies, ask-register}
use opencode_optimised_tooli.Search.Processor.{SearchQuery}
use opencode_optimised_tooli.Search.Whole.{Site, search_external_bang, Searches, by_bang}
use opencode_optimised_tooli.Search.Whole.Redirected.{Searches-Spelled}
use opencode_optimised_tooli.ExternalBang.Laws.{Spells, at_branch, down}
use opencode_optimised_tooli.ExternalBang.Redirect.{Resolves}
use opencode_optimised_tooli.ExternalBang.{
  branch, url_from, redirect, get_bang_definition_and_ac, get_node, walk, step, found, get,
  resolve_bang_definition, resolve_parts, replace_mark,
}
use opencode_optimised_tooli.Tests.Results.{env, container}
use opencode_optimised_tooli.Tests.WebAdapter.{bangs, urls, ddg_definition, bangs-IsTrie}
use opencode_optimised_tooli.Tests.Search.{times, ddg_processor, second_page}

-- A plugin that counts its calls, and answers by `answer`.
abbrev counting : ℕ → String → Option Bool → Plugin ℕ ℕ ℕ
counting address id answer = record {
  address = address;
  id = id;
  keywords = [];
  init = true;
  pre_search = λ n. (answer, n + 1);
  on_result = λ n. (answer, n + 1);
  post_search = λ c. some [];
}

-- One raises, one is not chosen, one refuses, and one is never called.
abbrev plugins : List (Plugin ℕ ℕ ℕ)
plugins =
    counting 1 "a" none
    ∷ counting 2 "b" (some false)
    ∷ counting 3 "c" (some false)
    ∷ counting 4 "d" (some true)
    ∷ []

abbrev user_plugins : List String
user_plugins = "a" ∷ "c" ∷ "d" ∷ []

the_third_stops : pre_search user_plugins plugins 0 ≡ (false, 2)
unfolding pre_search call_all chosen keep contains
the_third_stops = refl

pre_search_outcomes_example :
    (((pre_search user_plugins plugins 0).0 ≡ true)
        × Passes
            (map (λ p. p.pre_search) (chosen user_plugins plugins))
            0
            (pre_search user_plugins plugins 0).1
      ⊎ ((pre_search user_plugins plugins 0).0 ≡ false)
        × Stops
            (map (λ p. p.pre_search) (chosen user_plugins plugins))
            0
            (pre_search user_plugins plugins 0).1)
    × (((on_result user_plugins plugins 7).0 ≡ true)
          × Passes
              (map (λ p. p.on_result) (chosen user_plugins plugins))
              7
              (on_result user_plugins plugins 7).1
        ⊎ ((on_result user_plugins plugins 7).0 ≡ false)
          × Stops
              (map (λ p. p.on_result) (chosen user_plugins plugins))
              7
              (on_result user_plugins plugins 7).1)
pre_search_outcomes_example = pre_search_outcomes user_plugins plugins 0 7

abbrev answer : String → Answer
answer s = record { hash = 1; template = "answer/legacy.html"; engine = ""; answer = s }

abbrev random : Answerer
random = record { address = 1; keywords = "random" ∷ []; answer = λ query. answer "4" ∷ [] }

ask-register_example :
    (first_word (split "random number") ≡ none
      → ask "random number" (register_answerer random new_storage) ≡ [])
    × ((keyword : String)
        → first_word (split "random number") ≡ some keyword
        → ask "random number" (register_answerer random new_storage)
          ≡ ask "random number" new_storage
            ++ copies keyword ("random" ∷ []) (map (mark keyword) (answer "4" ∷ [])))
ask-register_example = ask-register "random number" random new_storage

random_is_asked :
    ask "random number" (register_answerer random new_storage) ≡ mark "random" (answer "4") ∷ []
unfolding ask split ask_all lookup register append_by insert register_answerer
random_is_asked = refl

-- A site whose trie has the bang `d` of one address.
abbrev site : Site env times ℕ
site = record {
  max_page = 0;
  now = 0;
  max_request_timeout = none;
  processors = ("ddg", ddg_processor) ∷ [];
  answerers = register_answerer random new_storage;
  plugins = [];
  user_plugins = [];
  trie = branch bangs;
  urls = urls;
  string_of = λ url. if url == codes "https://ddg.gg/antt" then "https://ddg.gg/antt" else "";
}

a_bang_redirects :
    search_external_bang env times site
      (record second_page { external_bang = some (codes "d") })
      container
    ≡ done (true, record container { redirect_url = some "https://ddg.gg/antt" })
unfolding search_external_bang url_from redirect get_bang_definition_and_ac get_node walk step found
    get resolve_bang_definition resolve_parts replace_mark has_prefix split_on
a_bang_redirects = refl

abbrev bang_search : SearchQuery
bang_search = record second_page { external_bang = some (codes "d") }

abbrev run :
    Searches env times site bang_search container
      (done (record container { redirect_url = some "https://ddg.gg/antt" }))
run =
    by_bang container (record container { redirect_url = some "https://ddg.gg/antt" })
      a_bang_redirects

ddg-Spells : Spells (branch bangs) (codes "d") ddg_definition
unfolding get
ddg-Spells = down bangs 100 [] [] ddg_definition _ refl (at_branch _ ddg_definition refl)

ddg-Resolves : Resolves urls ddg_definition (codes "antt") (codes "https://ddg.gg/antt")
unfolding resolve_bang_definition resolve_parts replace_mark has_prefix split_on
ddg-Resolves = (5, refl)

Searches-Spelled_example :
    done (record container { redirect_url = some "https://ddg.gg/antt" })
    ≡ done (record container { redirect_url = some (site.string_of (codes "https://ddg.gg/antt")) })
Searches-Spelled_example =
    Searches-Spelled env times site bang_search container
      (done (record container { redirect_url = some "https://ddg.gg/antt" })) (codes "d")
      ddg_definition (codes "https://ddg.gg/antt") bangs-IsTrie refl refl ddg-Spells ddg-Resolves
      run
