-- ===== src/Settings/Load/Laws.antt =====
-- settings_loader.py: what `update_settings` makes of each setting.

use opencode_optimised_tooli.Prelude.{
  Bool, Bool-cases, Option-cases, Text, ap, arith, false, if◌then◌else◌, inl, inr, list_beq_iff,
  none, refl, sym, true, ◌==◌, ◌||◌, ◌∙◌, ◌≡◌, list_eq, nat_eq, pair_eq, string_eq,
}
use opencode_optimised_tooli.Tree.{Fields, entry, get, put, fold_fields, then_put}
use opencode_optimised_tooli.Tree.Laws.{AreDistinct, fold_fields-entry, fold_fields-entry_fails}
use opencode_optimised_tooli.Settings.Load.{
  use_default_settings_key, engines_key, setting_value, merge_settings,
}

unfoldable pub is_special : Text → Bool
is_special k = use_default_settings_key == k || engines_key == k

-- The settings that the first loop sees.
unfoldable pub ordinary : Fields → Fields
ordinary Fields.empty = Fields.empty
ordinary (entry k v rest) =
    let later = ordinary rest in if is_special k then later else entry k v later

pub merge_settings_folds :
    (user base : Fields) → merge_settings base user ≡ fold_fields setting_value (ordinary user) base
unfolding merge_settings fold_fields ordinary is_special
merge_settings_folds Fields.empty base = refl
merge_settings_folds (entry k v rest) base = elim (Bool-cases (is_special k)) [
  | inl special ↦ rw (special, merge_settings, ordinary) (merge_settings_folds rest base)
  | inr usual ↦ elim (Option-cases (setting_value (get k base) v)) [
    | inl failed ↦
        rw (usual, merge_settings, ordinary)
          (ap (λ o. then_put k o (λ b. merge_settings b rest) base) failed
            ∙ sym (fold_fields-entry_fails setting_value k v (ordinary rest) base failed))
    | inr (w, made) ↦
        rw (usual, merge_settings, ordinary)
          (ap (λ o. then_put k o (λ b. merge_settings b rest) base) made
            ∙ merge_settings_folds rest (put k w base)
            ∙ sym (fold_fields-entry setting_value k v (ordinary rest) base w made))
  ]
]

pub get-ordinary :
    (key : Text) (d : Fields) → is_special key ≡ false → get key (ordinary d) ≡ get key d
unfolding get ordinary
get-ordinary key Fields.empty usual = refl
get-ordinary key (entry k v rest) usual =
    ground (arith, get-ordinary key rest usual, ap is_special, list_beq_iff k key)

pub get-ordinary-none : (key : Text) (d : Fields) → get key d ≡ none → get key (ordinary d) ≡ none
unfolding get ordinary
get-ordinary-none key Fields.empty absent = refl
get-ordinary-none key (entry k v rest) absent = ground (arith, get-ordinary-none key rest)

pub get-ordinary-special :
    (key : Text) (d : Fields) → is_special key ≡ true → get key (ordinary d) ≡ none
unfolding get ordinary
get-ordinary-special key Fields.empty special = refl
get-ordinary-special key (entry k v rest) special =
    ground (arith, get-ordinary-special key rest special, ap is_special, list_beq_iff k key)

pub AreDistinct-ordinary : (d : Fields) → AreDistinct d → AreDistinct (ordinary d)
unfolding AreDistinct ordinary
AreDistinct-ordinary Fields.empty distinct = tt
AreDistinct-ordinary (entry k v rest) (fresh, distinct) = elim (Bool-cases (is_special k)) [
  | inl special ↦ rw special (AreDistinct-ordinary rest distinct)
  | inr usual ↦ rw usual (get-ordinary-none k rest fresh, AreDistinct-ordinary rest distinct)
]
