-- ===== src/Settings/Load/Removed.antt =====
-- settings_loader.py: which default engines `use_default_settings` leaves.

use mathlib.Core.Option.{some_inj}
use opencode_optimised_tooli.Prelude.{
  codes, Bool, Option, ap, arith, false, inl, inr, none, refl, some, sym, ◌||◌, ◌↔◌, ◌∙◌, ◌≡◌,
  list_eq, nat_eq, pair_eq, string_eq,
}
use opencode_optimised_tooli.Tree.{dict, Tree, Trees, Fields, get, items}
use opencode_optimised_tooli.Tree.Laws.{IsIn, get-put_self, get-fold_fields_other}
use opencode_optimised_tooli.Settings.Engines.{filter_by, opposite, contained_in, merge_engines}
use opencode_optimised_tooli.Settings.Engines.Filter.{Passes, filter_by-IsIn}
use opencode_optimised_tooli.Settings.Load.{
  use_default_settings_key, engines_key, tabs_key, plugins_key, setting_value, merge_settings,
  set_tabs, set_plugins, given, is_present, update_engines, engine_lists, update_settings,
}
use opencode_optimised_tooli.Settings.Load.Laws.{
  is_special, ordinary, merge_settings_folds, get-ordinary-special,
}
use opencode_optimised_tooli.Settings.Load.Merged.{
  update_settings-some, update_engines-cases, get-set_tabs, get-set_plugins,
}

module _ (is_equal : Tree → Tree → Bool) where
  -- The tests of `remove` and of `keep_only`
  unfoldable pub not_removed : Tree → Tree → Option Bool
  not_removed name names = opposite (contained_in is_equal name names)

  -- Which engines of a list the two filters leave.
  unfoldable pub Leaves : Option Tree × Option Tree → Trees → Trees → Type 0
  Leaves (remove, keep_only) l kept =
      (t : Tree)
      → IsIn t kept
        ↔ (IsIn t l × Passes not_removed remove t × Passes (contained_in is_equal) keep_only t)

  Leaves-all :
      (remove keep_only : Option Tree) (l : Trees)
      → (is_present remove || is_present keep_only) ≡ false
      → Leaves (remove, keep_only) l l
  unfolding Leaves Passes
  Leaves-all none none l idle t = (λ is_in. (is_in, tt, tt), λ (is_in, a, b). is_in)
  Leaves-all none (some k) l idle t = absurd (ground arith)
  Leaves-all (some r) keep_only l idle t = absurd (ground arith)

  update_engines-Leaves :
      (lists : Option Tree × Option Tree) (d result : Fields) (l : Trees)
      → get engines_key d ≡ some (items l)
      → update_engines is_equal lists none d ≡ some result
      → (kept : Trees) × (get engines_key result ≡ some (items kept)) × Leaves lists l kept
  unfolding Leaves not_removed merge_engines
  update_engines-Leaves (remove, keep_only) d result l there h =
      elim (update_engines-cases is_equal remove keep_only none d result h) [
        | inl (idle, same) ↦
            (l, ap (get engines_key) same ∙ there, Leaves-all remove keep_only l idle)
        | inr (engines, left, kept, merged, engines_eq, left_eq, kept_eq, merged_eq, same) ↦
            let engines_is = some_inj.0 (sym there ∙ engines_eq) in
            let (first, left_is, by_remove) =
              filter_by-IsIn not_removed remove l left
                (ap (filter_by not_removed remove) engines_is ∙ left_eq) in
            let (second, kept_is, by_keep) =
              filter_by-IsIn (contained_in is_equal) keep_only first kept
                (ap (filter_by (contained_in is_equal) keep_only) (sym left_is) ∙ kept_eq) in
            (
              second,
              ap (get engines_key) same
                  ∙ get-put_self engines_key merged d
                  ∙ sym merged_eq
                  ∙ ap some kept_is,
              λ t.
                  let (a, b) = by_remove t in
                  let (c, e) = by_keep t in
                  (
                    λ is_in. ((a (c is_in).0).0, (a (c is_in).0).1, (c is_in).1),
                    λ (is_in, stays, wanted). e (b (is_in, stays), wanted),
                  ),
            )
      ]

  merge_settings-engines :
      (d user merged : Fields)
      → merge_settings d user ≡ some merged
      → get engines_key merged ≡ get engines_key d
  unfolding is_special
  merge_settings-engines d user merged h =
      get-fold_fields_other setting_value (ordinary user) d merged engines_key
        (sym (merge_settings_folds user d) ∙ h) (get-ordinary-special engines_key user refl)

  -- The engines that are left, when the lists come from the user's `use_default_settings`.
  lists-Leaves :
      (d user result : Fields) (l : Trees) (lists : Option Tree × Option Tree)
      → get engines_key user ≡ none
      → get engines_key d ≡ some (items l)
      → update_settings is_equal d user ≡ some result
      → engine_lists (get use_default_settings_key user) ≡ some lists
      → (kept : Trees) × (get engines_key result ≡ some (items kept)) × Leaves lists l kept
  lists-Leaves d user result l lists no_engines there h given_lists =
      let (merged, lists', merged_eq, lists_eq, ends) =
        update_settings-some is_equal d user result h in
      let tabbed = set_tabs (get tabs_key user) merged in
      let plugged = set_plugins (given (get plugins_key user)) tabbed in
      let still =
        get-set_plugins (given (get plugins_key user)) tabbed engines_key refl
        ∙ get-set_tabs (get tabs_key user) merged engines_key refl
        ∙ merge_settings-engines d user merged merged_eq
        ∙ there in
      let same : lists' ≡ lists = some_inj.0 (sym lists_eq ∙ given_lists) in
      update_engines-Leaves lists plugged result l still (
        ap (λ x. update_engines is_equal x none plugged) (sym same)
        ∙ ap (λ o. update_engines is_equal lists' o plugged) (sym no_engines)
        ∙ ends)

  -- For default settings whose `engines` is a list, and a user who gives no `engines`, but a
  -- dictionary `engines` below `use_default_settings`: when `update_settings` ends without an
  -- exception, `engines` is a list after it, and the engines in it are the default ones whose name
  -- is not in the list at `remove`, if that is given and not None, and in the list at `keep_only`, if
  -- that is given and not None.
  pub update_settings-Leaves :
      (d user result uds part : Fields) (l : Trees)
      → get engines_key user ≡ none
      → get use_default_settings_key user ≡ some (dict uds)
      → get engines_key uds ≡ some (dict part)
      → get engines_key d ≡ some (items l)
      → update_settings is_equal d user ≡ some result
      → (kept : Trees) × (get engines_key result ≡ some (items kept))
        × Leaves (given (get (codes "remove") part), given (get (codes "keep_only") part)) l kept
  unfolding engine_lists
  update_settings-Leaves d user result uds part l no_engines uds_eq part_eq there h =
      lists-Leaves d user result l
        (given (get (codes "remove") part), given (get (codes "keep_only") part)) no_engines there h
        (rw uds_eq (rw part_eq refl))
