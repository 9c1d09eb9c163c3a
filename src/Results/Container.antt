-- ===== src/Results/Container.antt =====
-- results.py: the state of `ResultContainer`, and `extend`, by which engines, plugins and answerers
-- hand over their results.
pub mod Laws
pub mod Keyed
use mathlib.Core.Option
use opencode_optimised_tooli.Prelude.{
  Bool, Dict, List, Option, String, [], add_new, false, if◌then◌else◌, insert, lookup, map, none,
  not, some, true, ℕ, ◌&&◌, ◌+◌, ◌==◌, ◌∷◌, list_eq, nat_eq, pair_eq, string_eq,
}
use opencode_optimised_tooli.Results.Types.{MainResult, Float}
use opencode_optimised_tooli.Results.Answers
use opencode_optimised_tooli.Results.Answers.{Answer}
use opencode_optimised_tooli.Results.Infobox.{Infobox, merge_infobox}
use opencode_optimised_tooli.Results.Merge.{merge_main_result}
use opencode_optimised_tooli.Results.Normalize.{UrlLib, normalize_main, normalize_infobox}

-- The attributes of an engine that the container reads; `weight` is `none` where it has none.
pub record Engine (F : Type 0) : Type 0 where
  pub name : String
  pub weight : Option F
  pub paging : Bool
  pub categories : List String
  pub display_error_messages : Bool

pub record Timing (F : Type 0) : Type 0 where
  pub engine : String
  pub total : F
  pub load : F

pub record UnresponsiveEngine : Type 0 where
  pub engine : String
  pub error_type : String
  pub suspended : Bool

-- A `LegacyResult`: the keys that `extend` looks for, and the fields of an ordinary result in
-- `main`.
pub record Legacy (F : Type 0) : Type 0 where
  pub suggestion : Option String
  pub answer : Option Answer
  pub correction : Option String
  pub infobox : Option Infobox
  pub engine_data : Option String
  pub key : Option String
  pub main : MainResult F

-- What a list of results holds.
pub data Incoming (F : Type 0) : Type 0 where
  answer_result : Answer → Incoming F
  main_result : MainResult F → Incoming F
  other_result : Incoming F
  legacy_result : Legacy F → Incoming F

-- What the container reads from outside of it: the operations on floats and URLs, Python's `hash`,
-- the registered engines, and the callback `on_result` (the plugins), which may change a result
-- and refuses it by `none`. It never changes which keys a legacy result has.
pub record Env : Type 1 where
  pub floats : Float
  pub urls : UrlLib
  pub hash : String → ℕ
  pub engines : Dict String (Engine floats.F)
  pub on_answer : Answer → Option Answer
  pub on_main : MainResult floats.F → Option (MainResult floats.F)
  pub on_infobox : Infobox → Option Infobox
  pub on_text : String → Option String

-- An exception leaves the state it was raised in.
pub data Outcome {ℓ} (S : Type ℓ) : Type ℓ where
  done raised : S → Outcome S

-- Sets are lists without repetitions, `engine_data` is a dictionary of dictionaries, and
-- `main_results_sorted` is [] for None, which the code does not tell apart.
pub record ResultContainer (F : Type 0) : Type 0 where
  pub main_results_map : Dict ℕ (MainResult F)
  pub infoboxes : List Infobox
  pub suggestions : List String
  pub answers : List Answer
  pub corrections : List String
  pub engine_data : Dict String (Dict String String)
  pub closed : Bool
  pub paging : Bool
  pub unresponsive_engines : List UnresponsiveEngine
  pub timings : List (Timing F)
  pub redirect_url : Option String
  pub main_results_sorted : List (MainResult F)

abbrev pub new_container : {F : Type 0} → ResultContainer F
new_container = record {
  main_results_map = [];
  infoboxes = [];
  suggestions = [];
  answers = [];
  corrections = [];
  engine_data = [];
  closed = false;
  paging = false;
  unresponsive_engines = [];
  timings = [];
  redirect_url = none;
  main_results_sorted = [];
}

-- `result.engine or engine_name` (with "" for None)
abbrev pub or_name : String → Option String → String
or_name own none = own
or_name own (some engine_name) = if own == "" then engine_name else own

-- `engine_data[engine][key] = data` of a defaultdict
unfoldable pub put_data :
    String → String → String → Dict String (Dict String String) → Dict String (Dict String String)
put_data engine key data' d = elim (lookup engine d) [
  | none ↦ insert engine (insert key data' []) d
  | some old ↦ insert engine (insert key data' old) d
]

module _ (env : Env) where
  abbrev pub F : Type 0
  F = env.floats.F

  -- `weight2 > weight1`, 1 where an engine has no weight; `none` is the KeyError of an engine that
  -- is not registered.
  unfoldable pub heavier : String → String → Option Bool
  heavier origin other =
      let weight : Engine F → F = λ e. elim e.weight [ none ↦ env.floats.of_ℕ 1 | some w ↦ w ] in
      elim (lookup origin env.engines) [
        | none ↦ none
        | some e1 ↦
            Option.map (λ e2. env.floats.below (weight e1) (weight e2)) (lookup other env.engines)
      ]

  -- The counter `main_count` goes along with the container.
  abbrev pub Step : Type 0
  Step = Outcome (ResultContainer F × ℕ)

  unfoldable pub take_main : ResultContainer F → ℕ → Option (MainResult F) → Step
  take_main c count none = done (c, count)
  take_main c count (some r) =
      elim (merge_main_result env.urls.geturl env.hash c.main_results_map r (count + 1)) [
        | none ↦ raised (c, count + 1)
        | some results ↦ done (record c { main_results_map = results }, count + 1)
      ]

  unfoldable pub take_infobox : ResultContainer F → ℕ → Option Infobox → Step
  take_infobox c count none = done (c, count)
  take_infobox c count (some box) = elim (merge_infobox heavier c.infoboxes box) [
    | none ↦ raised (c, count)
    | some boxes ↦ done (record c { infoboxes = boxes }, count)
  ]

  unfoldable pub take_answer : ResultContainer F → Option Answer → ResultContainer F
  take_answer c none = c
  take_answer c (some a) = record c { answers = Answers.add a c.answers }

  unfoldable pub take_data : ResultContainer F → ℕ → Legacy F → Option String → Step
  take_data c count l none = done (c, count)
  take_data c count l (some data') = if l.main.engine == "" then done (c, count) else elim l.key [
    | none ↦ raised (c, count)
    | some key ↦
        done (record c { engine_data = put_data l.main.engine key data' c.engine_data }, count)
  ]

  -- The branch of a `LegacyResult`, in the order of its tests.
  unfoldable pub extend_legacy : ResultContainer F → ℕ → Legacy F → Step
  unfolding take_main take_infobox take_answer take_data
  extend_legacy c count l = elim l.suggestion [
    | some s ↦ elim (env.on_text s) [
      | none ↦ done (c, count)
      | some s' ↦ done (record c { suggestions = add_new s' c.suggestions }, count)
    ]
    | none ↦ elim l.answer [
      | some a ↦ done (take_answer c (env.on_answer a), count)
      | none ↦ elim l.correction [
        | some s ↦ elim (env.on_text s) [
          | none ↦ done (c, count)
          | some s' ↦ done (record c { corrections = add_new s' c.corrections }, count)
        ]
        | none ↦ elim l.infobox [
          | some box ↦ elim (normalize_infobox env.urls box) [
            | none ↦ raised (c, count)
            | some box' ↦ take_infobox c count (env.on_infobox box')
          ]
          | none ↦ elim l.engine_data [
            | some d ↦ take_data c count l (env.on_text d)
            | none ↦ take_main c count (env.on_main l.main)
          ]
        ]
      ]
    ]
  ]

  -- One round of the loop.
  unfoldable pub extend_one : Option String → ResultContainer F → ℕ → Incoming F → Step
  unfolding take_main take_answer extend_legacy
  extend_one engine_name c count (answer_result a) =
      done
        (take_answer c (env.on_answer (record a { engine = or_name a.engine engine_name })), count)
  extend_one engine_name c count (main_result r) =
      elim (normalize_main env.urls (record r { engine = or_name r.engine engine_name })) [
        | none ↦ raised (c, count)
        | some r' ↦ take_main c count (env.on_main r')
      ]
  extend_one engine_name c count other_result = raised (c, count)
  extend_one engine_name c count (legacy_result l) =
      elim (normalize_main env.urls
        (record l.main { engine = or_name l.main.engine engine_name })) [
          | none ↦ raised (c, count)
          | some r ↦ extend_legacy c count (record l { main = r })
        ]

  unfoldable pub extend_all : Option String → ResultContainer F → ℕ → List (Incoming F) → Step
  unfolding extend_one
  extend_all engine_name c count [] = done (c, count)
  extend_all engine_name c count (r ∷ rest) = elim (extend_one engine_name c count r) [
    | raised s ↦ raised s
    | done (c', count') ↦ extend_all engine_name c' count' rest
  ]

  -- `if not self.paging and eng.paging: self.paging = True`. (The count goes to a histogram.)
  unfoldable pub note_paging : Option String → ResultContainer F → ResultContainer F
  note_paging none c = c
  note_paging (some engine_name) c = elim (lookup engine_name env.engines) [
    | none ↦ c
    | some eng ↦ if not c.paging && eng.paging then record c { paging = true } else c
  ]

  unfoldable pub extend :
      Option String → List (Incoming F) → ResultContainer F → Outcome (ResultContainer F)
  unfolding extend_all note_paging
  extend engine_name results c =
      if c.closed then done c else elim (extend_all engine_name c 0 results) [
        | raised (c', count) ↦ raised c'
        | done (c', count) ↦ done (note_paging engine_name c')
      ]
