-- ===== src/Plugins/Storage/Loops.antt =====
-- plugins/_core.py: which plugins the loops of `pre_search` and `on_result` call.
use mathlib.Core.Path.{subst}
use opencode_optimised_tooli.Prelude.{
  Bool, List, Option, String, [], ap, arith, false, inl, inr, map, none, refl, some, sym, true,
  ◌++◌, ◌∙◌, ◌∷◌, ◌≡◌, ◌≢◌, ◌⊎◌, list_eq, nat_eq, pair_eq, string_eq,
}
use opencode_optimised_tooli.Plugins.Storage.{
  Call, call_all, after_call, Plugin, chosen, pre_search, on_result,
}

refuses-cases : (o : Option Bool) → (o ≢ some false) ⊎ (o ≡ some false)
refuses-cases none = inl (λ e. ground (arith, e))
refuses-cases (some true) = inl (λ e. ground (arith, e))
refuses-cases (some false) = inr refl

after_call-goes_on {ℓ} :
    {A : Type ℓ} (o : Option Bool) (x y : A) → (o ≢ some false) → after_call o x x y ≡ x
after_call-goes_on none x y h = refl
after_call-goes_on (some true) x y h = refl
after_call-goes_on (some false) x y h = absurd (h refl)

module _ {T : Type 0} where
  -- The calls, one after another, lead from `s` to `t`, and none of them returns False: it returns
  -- True or raises an exception.
  unfoldable pub Passes : List (Call T) → T → T → Type 0
  Passes [] s t = s ≡ t
  Passes (call ∷ calls) s t = ((call s).0 ≢ some false) × Passes calls (call s).1 t

  -- The first call that returns False, which leads to `t`.
  unfoldable pub Stops : List (Call T) → T → T → Type 0
  Stops calls s t =
      (before : List (Call T)) × (call : Call T) × (after : List (Call T)) × (u : T) × (calls
        ≡ before ++ call ∷ after)
      × Passes before s u
      × (call u ≡ (some false, t))

  call_all-goes_on :
      (call : Call T) (calls : List (Call T)) (s : T)
      → ((call s).0 ≢ some false)
      → call_all true (call ∷ calls) s ≡ call_all true calls (call s).1
  unfolding call_all
  call_all-goes_on call calls s h =
      after_call-goes_on (call s).0 (call_all true calls (call s).1) (false, (call s).1) h

  call_all-stops :
      (call : Call T) (calls : List (Call T)) (s : T)
      → (call s).0 ≡ some false
      → call_all true (call ∷ calls) s ≡ (false, (call s).1)
  unfolding call_all
  call_all-stops call calls s h =
      ap
        (λ o.
          after_call o (call_all true calls (call s).1) (call_all true calls (call s).1)
            (false, (call s).1))
        h

  call_all_nil : (s : T) → ((call_all true [] s).0 ≡ true) × (s ≡ (call_all true [] s).1)
  unfolding call_all
  call_all_nil s = (refl, refl)

  Stops-later :
      (call : Call T) (calls : List (Call T)) (s t : T)
      → ((call s).0 ≢ some false)
      → Stops calls (call s).1 t
      → Stops (call ∷ calls) s t
  unfolding Stops Passes
  Stops-later call calls s t h (before, stop, after, u, split_at, passes, stops) =
      (call ∷ before, stop, after, u, ap (◌∷◌ call) split_at, (h, passes), stops)

  -- A loop either passes all its calls or stops at the first False.
  pub call_all-cases :
      (calls : List (Call T)) (s : T)
      → ((call_all true calls s).0 ≡ true) × Passes calls s (call_all true calls s).1
        ⊎ ((call_all true calls s).0 ≡ false) × Stops calls s (call_all true calls s).1
  unfolding Passes Stops
  call_all-cases [] s = inl (call_all_nil s)
  call_all-cases (call ∷ calls) s = elim (refuses-cases (call s).0) [
    | inl h ↦
        let step = call_all-goes_on call calls s h in
        elim (call_all-cases calls (call s).1) [
          | inl (kept, passes) ↦ inl (
            ap (λ r. r.0) step ∙ kept,
            (h, subst (λ r. Passes calls (call s).1 r.1) (sym step) passes),
          )
          | inr (refused, stops) ↦ inr (
            ap (λ r. r.0) step ∙ refused,
            subst (λ r. Stops (call ∷ calls) s r.1) (sym step) (Stops-later call calls s _ h stops),
          )
        ]
    | inr h ↦
        let step = call_all-stops call calls s h in
        inr (
          ap (λ r. r.0) step,
          subst (λ r. Stops (call ∷ calls) s r.1) (sym step)
              ([], call, calls, s, refl, refl, ap (λ (o : Option Bool). (o, (call s).1)) h),
        )
  ]

-- `pre_search` calls the plugins that the user has chosen, one after another, each on what the one
-- before has left. It returns True if none of them returns False, and else False, after the first
-- that does; an exception is no refusal. So does `on_result`, with the result in place of the search.
pub pre_search_outcomes :
    {S R F : Type 0} (user_plugins : List String) (plugin_list : List (Plugin S R F)) (state : S)
    (result : R)
    → (((pre_search user_plugins plugin_list state).0 ≡ true)
          × Passes
              (map (λ p. p.pre_search) (chosen user_plugins plugin_list))
              state
              (pre_search user_plugins plugin_list state).1
        ⊎ ((pre_search user_plugins plugin_list state).0 ≡ false)
          × Stops
              (map (λ p. p.pre_search) (chosen user_plugins plugin_list))
              state
              (pre_search user_plugins plugin_list state).1)
      × (((on_result user_plugins plugin_list result).0 ≡ true)
            × Passes
                (map (λ p. p.on_result) (chosen user_plugins plugin_list))
                result
                (on_result user_plugins plugin_list result).1
          ⊎ ((on_result user_plugins plugin_list result).0 ≡ false)
            × Stops
                (map (λ p. p.on_result) (chosen user_plugins plugin_list))
                result
                (on_result user_plugins plugin_list result).1)
unfolding pre_search on_result
pre_search_outcomes user_plugins plugin_list state result = (
  call_all-cases (map (λ p. p.pre_search) (chosen user_plugins plugin_list)) state,
  call_all-cases (map (λ p. p.on_result) (chosen user_plugins plugin_list)) result,
)
