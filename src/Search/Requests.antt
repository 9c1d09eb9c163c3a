-- ===== src/Search/Requests.antt =====
-- search/__init__.py: `Search._get_requests`, which picks the engines and the timeout.
pub mod Laws
use opencode_optimised_tooli.Prelude.{
  Dict, List, Option, String, [], if◌then◌else◌, lookup, max, min, none, snoc, some, ℕ, ◌∷◌,
  list_eq, nat_eq, pair_eq, string_eq,
}
use opencode_optimised_tooli.Search.Suspended.{BanTimes}
use opencode_optimised_tooli.Search.Processor.{
  Processor, SearchQuery, RequestParams, Container, get_params, extend_container_if_suspended,
}
use opencode_optimised_tooli.Results.Container.{Env, Outcome, done, raised}

pub record Request : Type 0 where
  pub engine_name : String
  pub query : String
  pub params : RequestParams

-- The variables of the loop.
pub record Gathered (env : Env) (times : BanTimes) : Type 0 where
  pub requests : List Request
  pub default_timeout : ℕ
  pub container : Container env times

-- `settings['outgoing']['max_request_timeout']` against the timeout of the query.
unfoldable pub adjust_timeout : ℕ → Option ℕ → Option ℕ → ℕ
adjust_timeout default_timeout none none = default_timeout
adjust_timeout default_timeout none (some query_timeout) = min default_timeout query_timeout
adjust_timeout default_timeout (some max_request_timeout) none =
    min default_timeout max_request_timeout
adjust_timeout default_timeout (some max_request_timeout) (some query_timeout) =
    min query_timeout max_request_timeout

module _ (env : Env) (times : BanTimes) (max_page now : ℕ)
    (processors : Dict String Processor) where
  -- A round for an engine that is not suspended.
  unfoldable pub add_request :
      SearchQuery → String × String → Processor → Gathered env times → Gathered env times
  add_request search_query (name, category) p g =
      elim (get_params max_page search_query category p.engine) [
        | none ↦ g
        | some params ↦
            let request : Request = record {
              engine_name = name;
              query = search_query.query;
              params = params;
            } in
            record g {
              requests = snoc g.requests request;
              default_timeout = max g.default_timeout p.engine.timeout;
            }
      ]

  -- One round of the loop over `engineref_list`.
  unfoldable pub visit :
      SearchQuery → String × String → Gathered env times → Outcome (Gathered env times)
  visit search_query (name, category) g = elim (lookup name processors) [
    | none ↦ done g
    | some p ↦ elim (extend_container_if_suspended env times now g.container p) [
      | raised (c, told) ↦ raised (record g { container = c })
      | done (c, told) ↦
          if told
          then done (record g { container = c })
          else done (add_request search_query (name, category) p (record g { container = c }))
    ]
  ]

  unfoldable pub visit_all :
      SearchQuery → List (String × String) → Gathered env times → Outcome (Gathered env times)
  visit_all search_query [] g = done g
  visit_all search_query (ref ∷ rest) g = elim (visit search_query ref g) [
    | raised g' ↦ raised g'
    | done g' ↦ visit_all search_query rest g'
  ]

  unfoldable pub get_requests :
      Option ℕ → SearchQuery → Container env times → Outcome (Gathered env times × ℕ)
  get_requests max_request_timeout search_query c =
      let start : Gathered env times = record {
        requests = [];
        default_timeout = 0;
        container = c;
      } in
      elim (visit_all search_query search_query.engineref_list start) [
        | raised g ↦ raised (g, 0)
        | done g ↦
            done
              (g, adjust_timeout g.default_timeout max_request_timeout search_query.timeout_limit)
      ]
