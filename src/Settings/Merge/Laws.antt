-- ===== src/Settings/Merge/Laws.antt =====
-- settings_loader.py: what `update_dict` makes of each key.
use opencode_optimised_tooli.Prelude.{
  Text, none, refl, some, sym, ◌∙◌, ◌≡◌, list_eq, nat_eq, pair_eq, string_eq,
}
use opencode_optimised_tooli.Tree.{Tree, Fields, get, fold_fields}
use opencode_optimised_tooli.Tree.Laws.{
  AreDistinct, is_fold, get-fold_fields, get-fold_fields_other, fold_fields-takes,
}
use opencode_optimised_tooli.Settings.Merge.{update_dict, merged_value}

pub update_dict_folds :
    (new base : Fields) → update_dict base new ≡ fold_fields merged_value new base
unfolding update_dict
update_dict_folds new base =
    is_fold merged_value update_dict (λ b. refl) (λ b k t rest. refl) new base

-- For a user's dictionary whose keys are distinct: when `update_dict` ends without an exception, a
-- key that the user has not keeps its default value, and a key that the user has with a value `v`
-- gets what `merged_value` makes of the default value and `v`, whatever the order of the keys is.
pub get-update_dict :
    (user_dict default_dict result : Fields) (key : Text)
    → AreDistinct user_dict
    → update_dict default_dict user_dict ≡ some result
    → (get key user_dict ≡ none → get key result ≡ get key default_dict)
      × ((v : Tree)
          → get key user_dict ≡ some v
          → get key result ≡ merged_value (get key default_dict) v)
get-update_dict user_dict default_dict result key d h =
    let folds = sym (update_dict_folds user_dict default_dict) ∙ h in
    (
      get-fold_fields_other merged_value user_dict default_dict result key folds,
      λ v. get-fold_fields merged_value user_dict default_dict result key v d folds,
    )

-- Each key of the user's has been merged.
pub update_dict-takes :
    (user_dict default_dict result : Fields) (key : Text) (v : Tree)
    → AreDistinct user_dict
    → update_dict default_dict user_dict ≡ some result
    → get key user_dict ≡ some v
    → (merged : Tree) × (get key result ≡ some merged)
      × (merged_value (get key default_dict) v ≡ some merged)
update_dict-takes user_dict default_dict result key v d h there =
    let folds = sym (update_dict_folds user_dict default_dict) ∙ h in
    let (merged, made) =
      fold_fields-takes merged_value user_dict default_dict result key v d folds there in
    (
      merged,
      get-fold_fields merged_value user_dict default_dict result key v d folds there ∙ made,
      made,
    )
