-- ===== src/Tests/Search.antt =====
-- Examples of the theorems on processors and on the choice of engines.
use opencode_optimised_tooli.Results.Ordered.{add_unresponsive_engine}
use opencode_optimised_tooli.Prelude.{
  Option, [], arith, false, lookup, none, refl, some, true, ℕ, ◌∷◌, ◌≡◌, ◌≤◌, list_eq, nat_eq,
  pair_eq, string_eq,
}
use opencode_optimised_tooli.Results.Container.Laws.{state_of}
use opencode_optimised_tooli.Search.Suspended.{BanTimes, is_suspended, suspend, resume}
use opencode_optimised_tooli.Search.Processor.{
  EngineInfo, Processor, message, SearchQuery, RequestParams, handle_exception, extend_container,
  error_message,
}
use opencode_optimised_tooli.Search.Processor.Laws.{
  Treats, handle_exception_bans, extend_container_resumes,
}
use opencode_optimised_tooli.Search.Requests.{adjust_timeout, get_requests}
use opencode_optimised_tooli.Search.Requests.Laws.{Sound, adjust_timeout_bounds, get_requests-Sound}
use opencode_optimised_tooli.Tests.Results.{env, container}

abbrev pub times : BanTimes
times = record { max_ban = 120; ban_fail = 5 }

abbrev pub ddg_engine : EngineInfo
ddg_engine = record {
  name = "ddg";
  paging = true;
  max_page = 0;
  time_range_support = false;
  timeout = 3;
  language = "";
}

abbrev pub ddg_processor : Processor
ddg_processor = record {
  engine = ddg_engine;
  suspended_status = record { continuous_errors = 0; suspend_end_time = 0; suspend_reason = "" };
}

abbrev pub second_page : SearchQuery
second_page = record {
  query = "antt";
  engineref_list = ("ddg", "general") ∷ ("gone", "general") ∷ [];
  lang = "all";
  safesearch = 0;
  pageno = 2;
  time_range = none;
  timeout_limit = some 2;
  external_bang = none;
  engine_data = [];
}

abbrev params : RequestParams
params = record {
  query = "antt";
  category = "general";
  pageno = 2;
  safesearch = 0;
  time_range = none;
  engine_data = [];
  searxng_locale = "all";
  language = "all";
}

abbrev banned : Processor
banned = record ddg_processor {
  suspended_status = record {
    continuous_errors = 1;
    suspend_end_time = 105;
    suspend_reason = "timeout";
  };
}

handle_exception_bans_example : Treats env times true 100 (message "timeout") ddg_processor banned
unfolding handle_exception lookup add_unresponsive_engine suspend error_message
handle_exception_bans_example =
    handle_exception_bans env times 100 (record container { closed = true })
      (record container { closed = true }) (message "timeout") true ddg_processor banned refl

extend_container_resumes_example :
    (is_suspended 7 ddg_processor.suspended_status ≡ false)
    × (ddg_processor.suspended_status.continuous_errors ≡ 0)
unfolding extend_container resume
extend_container_resumes_example =
    extend_container_resumes env times 6 7 container container 1 1 none banned ddg_processor refl
      (omega arith)

abbrev at_most : Option ℕ
at_most = some 10

abbrev asked_for : Option ℕ
asked_for = some 2

adjust_timeout_bounds_example :
    ((m : ℕ) → at_most ≡ some m → adjust_timeout 3 at_most asked_for ≤ m)
    × ((t : ℕ) → asked_for ≡ some t → adjust_timeout 3 at_most asked_for ≤ t)
    × (at_most ≡ none → adjust_timeout 3 at_most asked_for ≤ 3)
adjust_timeout_bounds_example = adjust_timeout_bounds 3 at_most asked_for

get_requests-Sound_example :
    Sound env times 10 7
      (("ddg", ddg_processor) ∷ [])
      second_page
      (state_of (
        get_requests env times 10 7
          (("ddg", ddg_processor) ∷ [])
          (some 10)
          second_page
          container)).0
get_requests-Sound_example =
    get_requests-Sound env times 10 7 (("ddg", ddg_processor) ∷ []) second_page (some 10) container
