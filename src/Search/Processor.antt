-- ===== src/Search/Processor.antt =====
-- search/processors/abstract.py: `EngineProcessor`. (Metrics and log lines are left out.)
pub mod Laws
use opencode_optimised_tooli.Prelude.{
  Bool, Dict, List, Option, String, Text, [], concat, false, if◌then◌else◌, lookup, ltb, none, not,
  some, true, ℕ, ◌&&◌, ◌==◌, ◌∷◌, list_eq, nat_eq, pair_eq, string_eq,
}
use opencode_optimised_tooli.Search.Suspended.{
  SuspendedStatus, BanTimes, is_suspended, suspend, resume,
}
use opencode_optimised_tooli.Results.Container.{
  Env, Incoming, ResultContainer, Outcome, done, raised, extend,
}
use opencode_optimised_tooli.Results.Ordered.{add_timing, add_unresponsive_engine}

-- The attributes of the engine; 0 and "" are its falsy values.
pub record EngineInfo : Type 0 where
  pub name : String
  pub paging : Bool
  pub max_page : ℕ
  pub time_range_support : Bool
  pub timeout : ℕ
  pub language : String

pub record Processor : Type 0 where
  pub engine : EngineInfo
  pub suspended_status : SuspendedStatus

-- `exception_or_message`; a `SearxEngineAccessDeniedException` has its `suspended_time`.
pub data Problem : Type 0 where
  exception : String → String → Option ℕ → Problem
  message : String → Problem

unfoldable pub error_message : Problem → String
error_message (exception module_name qualname denied) =
    concat
      ((if module_name == "builtins" then "" else concat (module_name ∷ "." ∷ [])) ∷ qualname ∷ [])
error_message (message text) = text

abbrev pub suspended_time_of : Problem → Option ℕ
suspended_time_of (exception module_name qualname denied) = denied
suspended_time_of (message text) = none

-- `models.SearchQuery`, as far as the processors read it.
pub record SearchQuery : Type 0 where
  pub query : String
  pub engineref_list : List (String × String)
  pub lang : String
  pub safesearch : ℕ
  pub pageno : ℕ
  pub time_range : Option String
  pub timeout_limit : Option ℕ
  pub external_bang : Option Text
  pub engine_data : Dict String (Dict String String)

pub record RequestParams : Type 0 where
  pub query : String
  pub category : String
  pub pageno : ℕ
  pub safesearch : ℕ
  pub time_range : Option String
  pub engine_data : Dict String String
  pub searxng_locale : String
  pub language : String

abbrev pub is_set : Option String → Bool
is_set none = false
is_set (some s) = not (s == "")

abbrev pub or_empty : Option (Dict String String) → Dict String String
or_empty none = []
or_empty (some d) = d

-- `self.engine.max_page or get_setting("search.max_page")`
abbrev pub page_limit : ℕ → EngineInfo → ℕ
page_limit setting engine = if engine.max_page == 0 then setting else engine.max_page

unfoldable pub get_params : ℕ → SearchQuery → String → EngineInfo → Option RequestParams
get_params max_page search_query engine_category engine =
    if ltb 1 search_query.pageno && not engine.paging
    then none
    else if ltb 0 (page_limit max_page engine)
        && ltb (page_limit max_page engine) search_query.pageno
    then none
    else if is_set search_query.time_range && not engine.time_range_support
    then none
    else some (record {
      query = search_query.query;
      category = engine_category;
      pageno = search_query.pageno;
      safesearch = search_query.safesearch;
      time_range = search_query.time_range;
      engine_data = or_empty (lookup engine.name search_query.engine_data);
      searxng_locale = search_query.lang;
      language = if engine.language == "" then search_query.lang else engine.language;
    })

module _ (env : Env) (times : BanTimes) where
  abbrev pub Container : Type 0
  Container = ResultContainer env.floats.F

  unfoldable pub handle_exception :
      ℕ → Container → Problem → Bool → Processor → Outcome (Container × Processor)
  handle_exception now c problem suspends p =
      elim (add_unresponsive_engine env p.engine.name (error_message problem) false c) [
        | raised c' ↦ raised (c', p)
        | done c' ↦ done (
          c',
          if suspends
              then record p {
                suspended_status =
                    suspend times now (suspended_time_of problem) (error_message problem)
                      p.suspended_status;
              }
              else p,
        )
      ]

  -- `engine_time` and `page_load_time` as they are measured.
  unfoldable pub extend_container_basic :
      Container
      → env.floats.F
      → env.floats.F
      → List (Incoming env.floats.F)
      → EngineInfo
      → Outcome Container
  extend_container_basic c engine_time page_load_time search_results engine =
      elim (extend env (some engine.name) search_results c) [
        | raised c' ↦ raised c'
        | done c' ↦ done (add_timing env engine.name engine_time page_load_time c')
      ]

  -- `timed_out` is the flag `_timeout` that the main thread sets when it stops waiting.
  unfoldable pub extend_container :
      ℕ
      → Bool
      → Container
      → env.floats.F
      → env.floats.F
      → Option (List (Incoming env.floats.F))
      → Processor
      → Outcome (Container × Processor)
  extend_container now timed_out c engine_time page_load_time search_results p =
      if timed_out
      then handle_exception now c (message "timeout") false p
      else elim search_results [
        | none ↦ done (c, record p { suspended_status = resume p.suspended_status })
        | some results ↦
            elim (extend_container_basic c engine_time page_load_time results p.engine) [
              | raised c' ↦ raised (c', p)
              | done c' ↦ done (c', record p { suspended_status = resume p.suspended_status })
            ]
      ]

  unfoldable pub extend_container_if_suspended :
      ℕ → Container → Processor → Outcome (Container × Bool)
  extend_container_if_suspended now c p =
      if is_suspended now p.suspended_status
      then elim (add_unresponsive_engine env p.engine.name p.suspended_status.suspend_reason true
          c) [ raised c' ↦ raised (c', true) | done c' ↦ done (c', true) ]
      else done (c, false)
