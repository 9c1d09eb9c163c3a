-- ===== src/Settings/Engines/Filter.antt =====
-- settings_loader.py: which engines the two filters leave.
use mathlib.Core.Option.{some_inj}
use mathlib.Core.Path.{subst}
use opencode_optimised_tooli.Prelude.{
  Bool, Bool-cases, Option, ap, arith, if◌then◌else◌, inl, inr, none, refl, some, sym, true, ◌↔◌,
  ◌∙◌, ◌≡◌, list_eq, nat_eq, pair_eq, string_eq,
}
use opencode_optimised_tooli.Tree.{Tree, Trees, nil, item, items}
use opencode_optimised_tooli.Tree.Laws.{IsIn}
use opencode_optimised_tooli.Tree.Partial.{◌>>=◌, bind-some}
use opencode_optimised_tooli.Settings.Engines.{filter_engines, filter_by, engine_name, elements}

filter_engines-item :
    (test : Tree → Option Bool) (engine : Tree) (l kept : Trees)
    → filter_engines test (item engine l) ≡ some kept
    → (wanted : Bool) × (later : Trees) × ((engine_name engine >>= test) ≡ some wanted)
      × (filter_engines test l ≡ some later)
      × (kept ≡ (if wanted then item engine later else later))
unfolding filter_engines
filter_engines-item test engine l kept h =
    let (name, n_eq, h1) = bind-some (engine_name engine) _ kept h in
    let (wanted, w_eq, h2) = bind-some (test name) _ kept h1 in
    let (later, l_eq, h3) = bind-some (filter_engines test l) _ kept h2 in
    (wanted, later, ap (λ o. o >>= test) n_eq ∙ w_eq, l_eq, sym (some_inj.0 h3))

-- The engines that a filter leaves are those of the list that pass its test.
filter_engines-IsIn :
    (test : Tree → Option Bool) (l kept : Trees) (t : Tree)
    → filter_engines test l ≡ some kept
    → IsIn t kept ↔ (IsIn t l × ((engine_name t >>= test) ≡ some true))
unfolding filter_engines IsIn
filter_engines-IsIn test nil kept t h =
    (λ is_in. absurd (subst (IsIn t) (sym (some_inj.0 h)) is_in), λ (is_in, passes). absurd is_in)
filter_engines-IsIn test (item engine l) kept t h =
    let (wanted, later, test_eq, l_eq, kept_eq) = filter_engines-item test engine l kept h in
    let rest = filter_engines-IsIn test l later t l_eq in
    elim (Bool-cases wanted) [
      | inl wants ↦
          let kept_is : kept ≡ item engine later = kept_eq ∙ rw wants refl in
          (
            λ is_in. elim (subst (IsIn t) kept_is is_in) [
              | inl e ↦ (inl e, ap (λ x. engine_name x >>= test) (sym e) ∙ test_eq ∙ ap some wants)
              | inr there ↦ (inr ((rest.0 there).0), (rest.0 there).1)
            ],
            λ (is_in, passes).
                subst (IsIn t) (sym kept_is)
                  (elim is_in [ inl e ↦ inl e | inr there ↦ inr (rest.1 (there, passes)) ]),
          )
      | inr drops ↦
          let kept_is : kept ≡ later = kept_eq ∙ rw drops refl in
          (
            λ is_in. let found = rest.0 (subst (IsIn t) kept_is is_in) in (inr found.0, found.1),
            λ (is_in, passes). subst (IsIn t) (sym kept_is) (elim is_in [
              | inl e ↦
                  let clash =
                    sym (ap (λ x. engine_name x >>= test) (sym e) ∙ test_eq ∙ ap some drops)
                    ∙ passes in
                  absurd (ground (arith, clash))
              | inr there ↦ rest.1 (there, passes)
            ]),
          )
    ]

-- What an engine needs to be left by a filter.
unfoldable pub Passes : (Tree → Tree → Option Bool) → Option Tree → Tree → Type 0
Passes test none t = Unit
Passes test (some names) t = (engine_name t >>= λ name. test name names) ≡ some true

pub filter_by-IsIn :
    (test : Tree → Tree → Option Bool) (names : Option Tree) (l : Trees) (left : Tree)
    → filter_by test names (items l) ≡ some left
    → (kept : Trees) × (left ≡ items kept)
      × ((t : Tree) → IsIn t kept ↔ (IsIn t l × Passes test names t))
unfolding filter_by Passes elements
filter_by-IsIn test none l left h =
    (l, sym (some_inj.0 h), λ t. (λ is_in. (is_in, tt), λ (is_in, _). is_in))
filter_by-IsIn test (some names) l left h =
    let (kept, kept_eq, e) = bind-some (filter_engines (λ name. test name names) l) _ left h in
    (kept, sym (some_inj.0 e), λ t. filter_engines-IsIn (λ name. test name names) l kept t kept_eq)
