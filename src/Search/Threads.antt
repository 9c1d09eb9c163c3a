-- ===== src/Search/Threads.antt =====
-- search/__init__.py: `search_multiple_requests`, its threads as interleaved steps.
pub mod Laws
pub mod Late
use opencode_optimised_tooli.Prelude.{
  Bool, Dict, List, Option, String, [], false, lookup, none, some, suc, true, ℕ, ◌∷◌, ◌≡◌, list_eq,
  nat_eq, pair_eq, string_eq,
}
use opencode_optimised_tooli.Results.Container.{Env, Incoming, Outcome, done, raised}
use opencode_optimised_tooli.Results.Container.Laws.{state_of}
use opencode_optimised_tooli.Results.Ordered.{add_unresponsive_engine}
use opencode_optimised_tooli.Search.Suspended.{BanTimes}
use opencode_optimised_tooli.Search.Processor.{
  Container, Processor, Problem, handle_exception, extend_container,
}
use opencode_optimised_tooli.Search.Requests.{Request}

-- How far a thread's `search` is: at the engine's request, behind the look at `_timeout` in
-- `extend_container` (with what it saw), or at its end.
pub data Phase : Type 0 where
  working : Phase
  checked : Bool → Phase
  ended : Phase

-- `th`, with `_timeout` and `_engine_name`, and the processor that runs in it.
pub record Thread : Type 0 where
  pub engine_name : String
  pub processor : Processor
  pub timed_out : Bool
  pub phase : Phase

-- `th.is_alive()`
abbrev pub is_alive : Thread → Bool
is_alive th = elim th.phase [ ended ↦ false | _ ↦ true ]

-- The threads as they are started; an engine without a processor is a KeyError (`none`).
unfoldable pub start_threads : Dict String Processor → List Request → Option (List Thread)
start_threads processors [] = some []
start_threads processors (r ∷ rest) =
    let later = start_threads processors rest in
    elim (lookup r.engine_name processors) [
      | none ↦ none
      | some p ↦ elim later [
        | none ↦ none
        | some threads ↦ some (
            record {
              engine_name = r.engine_name;
              processor = p;
              timed_out = false;
              phase = working;
            }
            ∷ threads)
      ]
    ]

module _ (env : Env) (times : BanTimes) where
  -- The container, the threads that the main thread still waits for, and the others.
  pub record Running : Type 0 where
    pub container : Container env times
    pub waiting : List Thread
    pub joined : List Thread

  -- `extend_container` in the `try` of `OnlineProcessor.search`: an exception in there (`problem`,
  -- with the `suspend` of its branch) is handled like one of the engine.
  unfoldable pub put_results :
      ℕ
      → Bool
      → Container env times
      → env.floats.F
      → env.floats.F
      → Option (List (Incoming env.floats.F))
      → Problem
      → Bool
      → Processor
      → Container env times
  put_results now saw c total load results problem suspends p =
      elim (extend_container env times now saw c total load results p) [
        | done (c', p') ↦ c'
        | raised (c', p') ↦ (state_of (handle_exception env times now c' problem suspends p')).0
      ]

  -- A step of one thread, an `OnlineProcessor.search`: the engine fails, or it answers, and then its
  -- results are put into the container.
  pub data Moves : Thread → Container env times → Thread → Container env times → Type 0 where
    fails :
        (th : Thread) (c : Container env times) (now : ℕ) (problem : Problem) (suspends : Bool)
        → th.phase ≡ working
        → Moves th c
            (record th { phase = ended })
            (state_of (handle_exception env times now c problem suspends th.processor)).0
    answers :
        (th : Thread) (c : Container env times)
        → th.phase ≡ working
        → Moves th c (record th { phase = checked th.timed_out }) c
    puts :
        (th : Thread) (c : Container env times) (now : ℕ) (saw : Bool) (total load : env.floats.F)
        (results : Option (List (Incoming env.floats.F))) (problem : Problem) (suspends : Bool)
        → th.phase ≡ checked saw
        → Moves th c
            (record th { phase = ended })
            (put_results now saw c total load results problem suspends th.processor)

  pub data Among
      : List Thread → Container env times → List Thread → Container env times → Type 0 where
    here :
        {th th' : Thread} {c c' : Container env times} (rest : List Thread)
        → Moves th c th' c'
        → Among (th ∷ rest) c (th' ∷ rest) c'
    there :
        {ths ths' : List Thread} {c c' : Container env times} (th : Thread)
        → Among ths c ths' c'
        → Among (th ∷ ths) c (th ∷ ths') c'

  -- A thread moves, or `th.join` comes back: from a thread that has ended, or, when the remaining
  -- time is over, from one that is alive. How long anything takes is not modelled: every order of
  -- these steps is a run, among them those that the real times allow. Where
  -- `add_unresponsive_engine` raises, the main thread goes no further (`join_raises` of Whole).
  pub data Step : Running → Running → Type 0 where
    waited_moves :
        {c c' : Container env times} {waiting waiting' : List Thread} (joined : List Thread)
        → Among waiting c waiting' c'
        → Step
            (record { container = c; waiting = waiting; joined = joined })
            (record { container = c'; waiting = waiting'; joined = joined })
    joined_moves :
        {c c' : Container env times} (waiting : List Thread) {joined joined' : List Thread}
        → Among joined c joined' c'
        → Step
            (record { container = c; waiting = waiting; joined = joined })
            (record { container = c'; waiting = waiting; joined = joined' })
    join_ended :
        (c : Container env times) (th : Thread) (rest joined : List Thread)
        → is_alive th ≡ false
        → Step
            (record { container = c; waiting = th ∷ rest; joined = joined })
            (record { container = c; waiting = rest; joined = th ∷ joined })
    join_late :
        (c c' : Container env times) (th : Thread) (rest joined : List Thread)
        → is_alive th ≡ true
        → add_unresponsive_engine env th.engine_name "timeout" false c ≡ done c'
        → Step
            (record { container = c; waiting = th ∷ rest; joined = joined })
            (record {
              container = c';
              waiting = rest;
              joined = record th { timed_out = true } ∷ joined;
            })

  -- A run of so many steps.
  pub data Run : ℕ → Running → Running → Type 0 where
    stay : (s : Running) → Run 0 s s
    next : {n : ℕ} {s t u : Running} → Step s t → Run n t u → Run (suc n) s u
