-- ===== src/Tests/Threads.antt =====
-- Examples of the theorems on the threads of a search.
use opencode_optimised_tooli.Results.Container.{UnresponsiveEngine, done}
use opencode_optimised_tooli.Prelude.{
  All, List, [], false, length, lookup, refl, some, true, ◌∷◌, ◌≡◌, list_eq, nat_eq, pair_eq,
  string_eq,
}
use opencode_optimised_tooli.Results.Container.Laws.{state_of}
use opencode_optimised_tooli.Results.Ordered.{add_unresponsive_engine}
use opencode_optimised_tooli.Search.Processor.{message}
use opencode_optimised_tooli.Search.Threads.{
  put_results, working, Thread, Running, join_late, Run, stay, next,
}
use opencode_optimised_tooli.Search.Threads.Laws.{IsSettled, search_multiple_requests_settles}
use opencode_optimised_tooli.Search.Threads.Late.{put_results_late}
use opencode_optimised_tooli.Tests.Results.{env, container}
use opencode_optimised_tooli.Tests.Search.{times, ddg_processor}

abbrev ddg_thread : Thread
ddg_thread = record {
  engine_name = "ddg";
  processor = ddg_processor;
  timed_out = false;
  phase = working;
}

abbrev started : Running env times
started = record { container = container; waiting = ddg_thread ∷ []; joined = [] }

abbrev left_alone : Running env times
left_alone = record {
  container = state_of (add_unresponsive_engine env "ddg" "timeout" false container);
  waiting = [];
  joined = record ddg_thread { timed_out = true } ∷ [];
}

ddg_is_unresponsive :
    add_unresponsive_engine env "ddg" "timeout" false container ≡ done left_alone.container
unfolding add_unresponsive_engine lookup
ddg_is_unresponsive = refl

abbrev one_join : Run env times 1 started left_alone
one_join =
    next (join_late container left_alone.container ddg_thread [] [] refl ddg_is_unresponsive)
      (stay left_alone)

search_multiple_requests_settles_example :
    All (IsSettled env times) left_alone.joined
    × (length left_alone.joined ≡ length started.waiting)
search_multiple_requests_settles_example =
    search_multiple_requests_settles env times 1 started left_alone refl one_join refl

put_results_late_example :
    (u : List UnresponsiveEngine) × (put_results env times 9 true container 2 1
        (some [])
        (message "timeout")
        false
        ddg_processor
      ≡ record container { unresponsive_engines = u })
put_results_late_example =
    put_results_late env times 9 container 2 1 (some []) (message "timeout") false ddg_processor
