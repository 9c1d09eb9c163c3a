-- ===== src/Settings/Load/Merged.antt =====
-- settings_loader.py: every setting after `update_settings`.
use mathlib.Core.Option.{some_inj}
use mathlib.Core.Path.{subst}
use opencode_optimised_tooli.Prelude.{
  Bool, Bool-cases, Option, Option-cases, Text, ap, arith, false, if◌then◌else◌, inl, inr, none,
  not, refl, some, sym, true, ◌==◌, ◌||◌, ◌∙◌, ◌≡◌, ◌⊎◌, list_eq, nat_eq, pair_eq, string_eq,
}
use opencode_optimised_tooli.Tree.{Tree, Fields, get, put, dict_of, scalar, items, dict, entry}
use opencode_optimised_tooli.Tree.Laws.{
  AreDistinct, get-put_other, get-put_self, get-fold_fields, get-fold_fields_other,
  fold_fields-takes,
}
use opencode_optimised_tooli.Tree.Partial.{bind-some}
use opencode_optimised_tooli.Settings.Engines.{
  is_true, filter_by, opposite, contained_in, merge_engines,
}
use opencode_optimised_tooli.Settings.Merge.{update_dict, merged_value}
use opencode_optimised_tooli.Settings.Load.{
  use_default_settings_key, engines_key, tabs_key, plugins_key, setting_value, merge_settings,
  set_tabs, set_plugins, given, is_present, update_engines, store_engines, engine_lists,
  update_settings,
}
use opencode_optimised_tooli.Settings.Load.Laws.{
  is_special, ordinary, merge_settings_folds, get-ordinary, AreDistinct-ordinary,
}

-- A setting that the first loop merges, and nothing else sets.
pub is_plain : Text → Bool
is_plain key =
    not (
      use_default_settings_key == key
      || engines_key == key
      || tabs_key == key
      || plugins_key == key)

-- What a setting becomes, by its default and the user's value: the user's value, but a dictionary is
-- merged into the default's, and an empty one changes nothing. (A default that is no dictionary takes
-- no other dictionary: that is an exception.)
unfoldable pub Merges : Option Tree → Tree → Option Tree → Type 0
Merges none v result = result ≡ some v
Merges (some held) (scalar s) result = result ≡ some (scalar s)
Merges (some held) (items l) result = result ≡ some (items l)
Merges (some (dict b)) (dict u) result =
    (m : Fields) × (update_dict b u ≡ some m) × (result ≡ some (dict m))
Merges (some (scalar s)) (dict u) result = (u ≡ Fields.empty) × (result ≡ some (scalar s))
Merges (some (items l)) (dict u) result = (u ≡ Fields.empty) × (result ≡ some (items l))

setting_value-Merges :
    (held : Option Tree) (v t : Tree) → setting_value held v ≡ some t → Merges held v (some t)
unfolding setting_value merged_value Merges
setting_value-Merges none v t h = sym h
setting_value-Merges (some held) (scalar s) t h = sym h
setting_value-Merges (some held) (items l) t h = sym h
setting_value-Merges (some (dict b)) (dict u) t h = elim (Option-cases (update_dict b u)) [
  | inl e ↦ absurd (ground (arith, e))
  | inr (m, e) ↦ (m, e, sym h ∙ ap dict_of e)
]
setting_value-Merges (some (scalar s)) (dict Fields.empty) t h = (refl, sym h)
setting_value-Merges (some (scalar s)) (dict (entry k v rest)) t h = absurd (ground arith)
setting_value-Merges (some (items l)) (dict Fields.empty) t h = (refl, sym h)
setting_value-Merges (some (items l)) (dict (entry k v rest)) t h = absurd (ground arith)

none_of :
    (a b c d : Bool)
    → not (a || b || c || d) ≡ true
    → ((a || b) ≡ false) × (b ≡ false) × (c ≡ false) × (d ≡ false)
none_of a b c d h = ground arith

set_tabs-true :
    (v : Tree) (d : Fields) → is_true v ≡ true → get tabs_key (set_tabs (some v) d) ≡ some v
unfolding set_tabs
set_tabs-true v d truthy = rw truthy (get-put_self tabs_key v d)

pub get-set_tabs :
    (held : Option Tree) (d : Fields) (key : Text)
    → (tabs_key == key) ≡ false
    → get key (set_tabs held d) ≡ get key d
unfolding set_tabs
get-set_tabs none d key apart = refl
get-set_tabs (some t) d key apart = ground (arith, get-put_other tabs_key key t d apart)

pub get-set_plugins :
    (held : Option Tree) (d : Fields) (key : Text)
    → (plugins_key == key) ≡ false
    → get key (set_plugins held d) ≡ get key d
unfolding set_plugins
get-set_plugins none d key apart = refl
get-set_plugins (some t) d key apart = get-put_other plugins_key key t d apart

if-true {ℓ} :
    {A : Type ℓ} {b : Bool} {x z : A} (y : A) → b ≡ true → (if b then x else y) ≡ z → x ≡ z
if-true {x = x} {z = z} y e h = subst (λ b. (if b then x else y) ≡ z) e h

module _ (is_equal : Tree → Tree → Bool) where
  -- Either nothing changes, or the four steps on the list of engines end.
  pub update_engines-cases :
      (remove keep_only user_engines : Option Tree) (d result : Fields)
      → update_engines is_equal (remove, keep_only) user_engines d ≡ some result
      → ((is_present user_engines || is_present remove || is_present keep_only) ≡ false)
          × (result ≡ d)
        ⊎ (engines left kept merged : Tree) × (get engines_key d ≡ some engines)
          × (filter_by (λ name names. opposite (contained_in is_equal name names)) remove engines
              ≡ some left)
          × (filter_by (contained_in is_equal) keep_only left ≡ some kept)
          × (merge_engines is_equal user_engines kept ≡ some merged)
          × (result ≡ put engines_key merged d)
  unfolding update_engines store_engines
  update_engines-cases remove keep_only user_engines d result h =
      elim (Bool-cases (is_present user_engines || is_present remove || is_present keep_only)) [
        | inr idle ↦ inl (idle, ground (arith, idle))
        | inl busy ↦
            let stored : store_engines is_equal remove keep_only user_engines d ≡ some result =
              if-true _ busy h in
            let (engines, engines_eq, h1) = bind-some (get engines_key d) _ result stored in
            let (left, left_eq, h2) = bind-some (filter_by _ remove engines) _ result h1 in
            let (kept, kept_eq, h3) = bind-some (filter_by _ keep_only left) _ result h2 in
            let (merged, merged_eq, h4) =
              bind-some (merge_engines is_equal user_engines kept) _ result h3 in
            inr (
              engines,
              left,
              kept,
              merged,
              engines_eq,
              left_eq,
              kept_eq,
              merged_eq,
              sym (some_inj.0 h4),
            )
      ]

  get-update_engines :
      (lists : Option Tree × Option Tree) (user_engines : Option Tree) (d result : Fields)
      (key : Text)
      → update_engines is_equal lists user_engines d ≡ some result
      → (engines_key == key) ≡ false
      → get key result ≡ get key d
  get-update_engines (remove, keep_only) user_engines d result key h apart =
      elim (update_engines-cases remove keep_only user_engines d result h) [
        | inl (idle, same) ↦ ap (get key) same
        | inr (engines, left, kept, merged, engines_eq, left_eq, kept_eq, merged_eq, same) ↦
            ap (get key) same ∙ get-put_other engines_key key merged d apart
      ]

  -- The three parts of `update_settings`.
  pub update_settings-some :
      (d user result : Fields)
      → update_settings is_equal d user ≡ some result
      → (merged : Fields) × (lists : Option Tree × Option Tree) × (merge_settings d user
          ≡ some merged)
        × (engine_lists (get use_default_settings_key user) ≡ some lists)
        × (update_engines is_equal lists
              (get engines_key user)
              (set_plugins (given (get plugins_key user)) (set_tabs (get tabs_key user) merged))
            ≡ some result)
  unfolding update_settings
  update_settings-some d user result h =
      let (merged, merged_eq, h1) = bind-some (merge_settings d user) _ result h in
      let (lists, lists_eq, h2) =
        bind-some (engine_lists (get use_default_settings_key user)) _ result h1 in
      (merged, lists, merged_eq, lists_eq, h2)

  merge_settings-plain :
      (d user merged : Fields) (key : Text)
      → AreDistinct user
      → merge_settings d user ≡ some merged
      → is_special key ≡ false
      → (get key user ≡ none → get key merged ≡ get key d)
        × ((v : Tree) → get key user ≡ some v → Merges (get key d) v (get key merged))
  merge_settings-plain d user merged key distinct h usual =
      let folds = sym (merge_settings_folds user d) ∙ h in
      let same = get-ordinary key user usual in
      (
        λ absent.
            get-fold_fields_other setting_value (ordinary user) d merged key folds (same ∙ absent),
        λ v there.
            let apart = AreDistinct-ordinary user distinct in
            let (t, takes) =
              fold_fields-takes setting_value (ordinary user) d merged key v apart folds
                (same ∙ there) in
            let held =
              get-fold_fields setting_value (ordinary user) d merged key v apart folds
                (same ∙ there) in
            subst (Merges (get key d) v) (sym (held ∙ takes))
              (setting_value-Merges (get key d) v t takes),
      )

  -- For the settings of a user in which no key is twice: when `update_settings` ends without an
  -- exception, a setting other than `use_default_settings`, `engines`, `categories_as_tabs` and
  -- `plugins` keeps its default if the user has it not; else it gets the user's value, but a
  -- dictionary is merged into a default dictionary by `update_dict`, and an empty one leaves a default
  -- that is none. `categories_as_tabs`, if the user's value is true to Python, and `plugins`, if the
  -- user gives it and not as None, are the user's, not merged.
  pub get-update_settings :
      (d user result : Fields)
      → AreDistinct user
      → update_settings is_equal d user ≡ some result
      → ((key : Text)
          → is_plain key ≡ true
          → (get key user ≡ none → get key result ≡ get key d)
            × ((v : Tree) → get key user ≡ some v → Merges (get key d) v (get key result)))
        × ((v : Tree)
            → get tabs_key user ≡ some v
            → is_true v ≡ true
            → get tabs_key result ≡ some v)
        × ((v : Tree) → given (get plugins_key user) ≡ some v → get plugins_key result ≡ some v)
  unfolding is_plain is_special set_plugins
  get-update_settings d user result distinct h =
      let (merged, lists, merged_eq, lists_eq, ends) = update_settings-some d user result h in
      let tabbed = set_tabs (get tabs_key user) merged in
      let plugged = set_plugins (given (get plugins_key user)) tabbed in
      (
        λ key plain.
            let (usual, no_engines, no_tabs, no_plugins) =
              none_of (use_default_settings_key == key) (engines_key == key) (tabs_key == key)
                (plugins_key == key) plain in
            let rest : get key result ≡ get key merged =
              get-update_engines lists (get engines_key user) plugged result key ends no_engines
              ∙ get-set_plugins (given (get plugins_key user)) tabbed key no_plugins
              ∙ get-set_tabs (get tabs_key user) merged key no_tabs in
            let (absent, there) = merge_settings-plain d user merged key distinct merged_eq usual in
            (λ a. rest ∙ absent a, λ v a. subst (Merges (get key d) v) (sym rest) (there v a)),
        λ v there truthy.
            get-update_engines lists (get engines_key user) plugged result tabs_key ends refl
            ∙ get-set_plugins (given (get plugins_key user)) tabbed tabs_key refl
            ∙ ap (λ o. get tabs_key (set_tabs o merged)) there
            ∙ set_tabs-true v merged truthy,
        λ v there.
            get-update_engines lists (get engines_key user) plugged result plugins_key ends refl
            ∙ ap (λ o. get plugins_key (set_plugins o tabbed)) there
            ∙ get-put_self plugins_key v tabbed,
      )
