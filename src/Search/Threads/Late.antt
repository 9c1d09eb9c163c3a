-- ===== src/Search/Threads/Late.antt =====
-- What a late thread does to the container of the results.
use opencode_optimised_tooli.Prelude.{
  Bool, Bool-cases, List, Option, Option-cases, String, ap, false, if◌then◌else◌, inl, inr, lookup,
  refl, sym, true, ℕ, ◌∙◌, ◌≡◌, list_eq, nat_eq, pair_eq, string_eq,
}
use opencode_optimised_tooli.Results.Container.{Env, Incoming, UnresponsiveEngine, Outcome}
use opencode_optimised_tooli.Search.Suspended.{BanTimes}
use opencode_optimised_tooli.Search.Processor.{
  Container, extend_container, handle_exception, Processor, error_message, message, Problem,
}
use opencode_optimised_tooli.Results.Container.Laws.{state_of, Outcome-cases}
use opencode_optimised_tooli.Results.Ordered.{add_unresponsive, add_unresponsive_engine}
use opencode_optimised_tooli.Search.Threads.{put_results}

if-true {ℓ} : {A : Type ℓ} (b : Bool) (x y : A) → b ≡ true → (if b then x else y) ≡ x
if-true b x y e = rw e refl

if-false {ℓ} : {A : Type ℓ} (b : Bool) (x y : A) → b ≡ false → (if b then x else y) ≡ y
if-false b x y e = rw e refl

module _ (env : Env) (times : BanTimes) where
  abbrev container_of : Outcome (Container env times × Processor) → Container env times
  container_of o = (state_of o).0

  abbrev with_unresponsive : List UnresponsiveEngine → Container env times → Container env times
  with_unresponsive u c = record c { unresponsive_engines = u }

  unresponsive_only :
      (engine_name error_type : String) (c : Container env times)
      → (u : List UnresponsiveEngine) × (state_of
            (add_unresponsive_engine env engine_name error_type false c)
          ≡ record c { unresponsive_engines = u })
  unfolding add_unresponsive_engine
  unresponsive_only engine_name error_type c = elim (Bool-cases c.closed) [
    | inl over ↦ (c.unresponsive_engines, ap state_of (if-true c.closed _ _ over))
    | inr free ↦ elim (Option-cases (lookup engine_name env.engines)) [
      | inl e ↦ (c.unresponsive_engines, ap state_of (if-false c.closed _ _ free) ∙ rw e refl)
      | inr (engine, e) ↦ elim (Bool-cases engine.display_error_messages) [
        | inl shown ↦ (
          add_unresponsive
              (record { engine = engine_name; error_type = error_type; suspended = false })
              c.unresponsive_engines,
          ap state_of (if-false c.closed _ _ free) ∙ rw (e, shown) refl,
        )
        | inr quiet ↦
            (c.unresponsive_engines, ap state_of (if-false c.closed _ _ free) ∙ rw (e, quiet) refl)
      ]
    ]
  ]

  handle_exception-container :
      (now : ℕ) (c : Container env times) (problem : Problem) (suspends : Bool) (p : Processor)
      → (state_of (handle_exception env times now c problem suspends p)).0
        ≡ state_of (add_unresponsive_engine env p.engine.name (error_message problem) false c)
  unfolding handle_exception
  handle_exception-container now c problem suspends p =
      elim (Outcome-cases
        (add_unresponsive_engine env p.engine.name (error_message problem) false c)) [
          | inl (c', e) ↦ rw (e, state_of, handle_exception) refl
          | inr (c', e) ↦ rw (e, state_of, handle_exception) refl
        ]

  handle_exception_only :
      (now : ℕ) (c : Container env times) (problem : Problem) (suspends : Bool) (p : Processor)
      → (u : List UnresponsiveEngine) × ((state_of
            (handle_exception env times now c problem suspends p)).0
          ≡ record c { unresponsive_engines = u })
  handle_exception_only now c problem suspends p =
      let (u, same) = unresponsive_only p.engine.name (error_message problem) c in
      (u, handle_exception-container now c problem suspends p ∙ same)

  extend_container_late :
      (now : ℕ) (c : Container env times) (total load : env.floats.F)
      (results : Option (List (Incoming env.floats.F))) (p : Processor)
      → (u : List UnresponsiveEngine) × ((state_of
            (extend_container env times now true c total load results p)).0
          ≡ record c { unresponsive_engines = u })
  unfolding extend_container
  extend_container_late now c total load results p =
      handle_exception_only now c (message "timeout") false p

  -- A thread that saw its mark puts no result into the container: of the container only the
  -- unresponsive engines change.
  pub put_results_late :
      (now : ℕ) (c : Container env times) (total load : env.floats.F)
      (results : Option (List (Incoming env.floats.F))) (problem : Problem) (suspends : Bool)
      (p : Processor)
      → (u : List UnresponsiveEngine) × (put_results env times now true c total load results problem
            suspends p
          ≡ record c { unresponsive_engines = u })
  unfolding put_results
  put_results_late now c total load results problem suspends p =
      let (u, same) = extend_container_late now c total load results p in
      elim (Outcome-cases (extend_container env times now true c total load results p)) [
        | inl ((c', p'), e) ↦ (u, rw (e, put_results) (ap container_of (sym e) ∙ same))
        | inr ((c', p'), e) ↦
            let (u', after) = handle_exception_only now c' problem suspends p' in
            let c'_eq = ap container_of (sym e) ∙ same in
            (u', rw (e, put_results) (after ∙ ap (with_unresponsive u') c'_eq))
      ]
