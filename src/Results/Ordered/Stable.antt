-- ===== src/Results/Ordered/Stable.antt =====
-- What a caller sees of a container whose results were ordered once.
use opencode_optimised_tooli.Results.Grouping.{group_results}
use mathlib.Core.Path.{subst}
use mathlib.Core.List.{Perm}
use mathlib.Core.List.Perm
use opencode_optimised_tooli.Prelude.{
  Bool, Bool-cases, Dict, List, Option, String, [], ap, arith, inl, inr, is_empty, map, refl, sym,
  true, values, ℕ, ◌∙◌, ◌∷◌, ◌≡◌, list_eq, nat_eq, pair_eq, string_eq,
}
use opencode_optimised_tooli.Results.Types.{MainResult}
use opencode_optimised_tooli.Results.Container.{Env, Incoming, ResultContainer, extend, done}
use opencode_optimised_tooli.Results.Container.Laws.{state_of}
use opencode_optimised_tooli.Results.Ordered.Laws.{order-perm}
use opencode_optimised_tooli.Results.Ordered.{
  with_category, with_score, map_values, order, close, get_ordered_results, order_closed,
  ensure_closed, add_timing, add_unresponsive_engine,
}

module _ (env : Env) where
  abbrev pub Container : Type 0
  Container = ResultContainer env.floats.F

  -- What can be done to a container.
  pub data Op : Type 0 where
    op_extend : Option String → List (Incoming env.floats.F) → Op
    op_timing : String → env.floats.F → env.floats.F → Op
    op_unresponsive : String → String → Bool → Op
    op_close op_order : Op

  unfoldable pub run_op : Op → Container → Container
  run_op (op_extend engine_name results) c = state_of (extend env engine_name results c)
  run_op (op_timing engine_name total load) c = add_timing env engine_name total load c
  run_op (op_unresponsive engine_name error_type suspended) c =
      state_of (add_unresponsive_engine env engine_name error_type suspended c)
  run_op op_close c = close env c
  run_op op_order c = (get_ordered_results env c).0

  unfoldable pub run_ops : List Op → Container → Container
  run_ops [] c = c
  run_ops (op ∷ rest) c = run_ops rest (run_op op c)

  -- A container that will answer `answer`.
  record Frozen (answer : List (MainResult env.floats.F)) (c : Container) : Type 0 where
    is_closed : c.closed ≡ true
    memo : c.main_results_sorted ≡ answer
    nothing : answer ≡ [] → c.main_results_map ≡ []

  order_nothing : (m : Dict ℕ (MainResult env.floats.F)) → order env (values m) ≡ [] → m ≡ []
  order_nothing [] p = refl
  order_nothing (e ∷ m) p =
      let none_left : [] ≡ map (with_category env) (values (e ∷ m)) = Perm.nil-eq (
        subst (λ l. Perm l (map (with_category env) (values (e ∷ m)))) p
          (order-perm env (values (e ∷ m)))) in
      absurd (ground (arith, none_left))

  is_empty_nil : (l : List (MainResult env.floats.F)) → is_empty l ≡ true → l ≡ []
  is_empty_nil [] h = refl
  is_empty_nil (r ∷ l) h = absurd (ground arith)

  order_empty : order env [] ≡ []
  unfolding order group_results
  order_empty = refl

  ensure_closed-closed : (c : Container) → (ensure_closed env c).closed ≡ true
  unfolding ensure_closed close
  ensure_closed-closed c = ground arith

  ensure_closed_idle : (c : Container) → c.closed ≡ true → ensure_closed env c ≡ c
  unfolding ensure_closed
  ensure_closed_idle c h = rw h refl

  order_closed-Frozen :
      (c : Container) → c.closed ≡ true → Frozen (order_closed env c).1 (order_closed env c).0
  unfolding order_closed map_values
  order_closed-Frozen c h = elim (Bool-cases (is_empty c.main_results_sorted)) [
    | inl e ↦ rw e (record {
      is_closed = h;
      memo = refl;
      nothing = λ p. ap (map_values (with_category env)) (order_nothing c.main_results_map p);
    })
    | inr e ↦ rw e (record {
      is_closed = h;
      memo = refl;
      nothing = λ p. absurd (ground (arith, ap is_empty p));
    })
  ]

  order_closed_answer :
      (answer : List (MainResult env.floats.F)) (c : Container)
      → Frozen answer c
      → (order_closed env c).1 ≡ answer
  unfolding order_closed map_values
  order_closed_answer answer c f = elim (Bool-cases (is_empty c.main_results_sorted)) [
    | inl e ↦
        let none_left : answer ≡ [] = sym f.memo ∙ is_empty_nil c.main_results_sorted e in
        rw e (ap (λ m. order env (values m)) (f.nothing none_left) ∙ order_empty ∙ sym none_left)
    | inr e ↦ rw e f.memo
  ]

  extend_closed :
      (engine_name : Option String) (results : List (Incoming env.floats.F)) (c : Container)
      → c.closed ≡ true
      → extend env engine_name results c ≡ done c
  unfolding extend
  extend_closed engine_name results c h = rw h refl

  add_timing_closed :
      (engine_name : String) (total load : env.floats.F) (c : Container)
      → c.closed ≡ true
      → add_timing env engine_name total load c ≡ c
  unfolding add_timing
  add_timing_closed engine_name total load c h = rw h refl

  add_unresponsive_engine_closed :
      (engine_name error_type : String) (suspended : Bool) (c : Container)
      → c.closed ≡ true
      → add_unresponsive_engine env engine_name error_type suspended c ≡ done c
  unfolding add_unresponsive_engine
  add_unresponsive_engine_closed engine_name error_type suspended c h = rw h refl

  close-Frozen :
      (answer : List (MainResult env.floats.F)) (c : Container)
      → Frozen answer c
      → Frozen answer (close env c)
  unfolding close map_values
  close-Frozen answer c f = record {
    is_closed = refl;
    memo = f.memo;
    nothing = λ p. ap (map_values (with_score env)) (f.nothing p);
  }

  get_ordered_results-Frozen :
      (c : Container) → Frozen (get_ordered_results env c).1 (get_ordered_results env c).0
  unfolding get_ordered_results
  get_ordered_results-Frozen c = order_closed-Frozen (ensure_closed env c) (ensure_closed-closed c)

  Frozen-answer :
      (answer : List (MainResult env.floats.F)) (c : Container)
      → Frozen answer c
      → (get_ordered_results env c).1 ≡ answer
  unfolding get_ordered_results
  Frozen-answer answer c f =
      ap (λ d. (order_closed env d).1) (ensure_closed_idle c f.is_closed)
      ∙ order_closed_answer answer c f

  run_op-Frozen :
      (answer : List (MainResult env.floats.F)) (op : Op) (c : Container)
      → Frozen answer c
      → Frozen answer (run_op op c)
  unfolding run_op
  run_op-Frozen answer (op_extend engine_name results) c f =
      subst (Frozen answer) (sym (ap state_of (extend_closed engine_name results c f.is_closed))) f
  run_op-Frozen answer (op_timing engine_name total load) c f =
      subst (Frozen answer) (sym (add_timing_closed engine_name total load c f.is_closed)) f
  run_op-Frozen answer (op_unresponsive engine_name error_type suspended) c f =
      let p = add_unresponsive_engine_closed engine_name error_type suspended c f.is_closed in
      subst (Frozen answer) (sym (ap state_of p)) f
  run_op-Frozen answer op_close c f = close-Frozen answer c f
  run_op-Frozen answer op_order c f =
      subst (λ l. Frozen l (get_ordered_results env c).0) (Frozen-answer answer c f)
        (get_ordered_results-Frozen c)

  run_ops-Frozen :
      (answer : List (MainResult env.floats.F)) (ops : List Op) (c : Container)
      → Frozen answer c
      → Frozen answer (run_ops ops c)
  unfolding run_ops
  run_ops-Frozen answer [] c f = f
  run_ops-Frozen answer (op ∷ rest) c f =
      run_ops-Frozen answer rest (run_op op c) (run_op-Frozen answer op c f)

  -- Once the results were ordered, every later call returns the same list, whatever the engines
  -- that come late still hand over and whoever closes or orders the container again.
  pub get_ordered_results_stable :
      (c : Container) (ops : List Op)
      → (get_ordered_results env (run_ops ops (get_ordered_results env c).0)).1
        ≡ (get_ordered_results env c).1
  get_ordered_results_stable c ops =
      let (c', answer) = get_ordered_results env c in
      Frozen-answer answer (run_ops ops c')
        (run_ops-Frozen answer ops c' (get_ordered_results-Frozen c))
