-- ===== src/Botdetection/Config/Update.antt =====
-- botdetection/config.py: what `dict_deepupdate` makes of each key.
use opencode_optimised_tooli.Prelude.{
  Text, none, refl, some, sym, ◌∙◌, ◌≡◌, list_eq, nat_eq, pair_eq, string_eq,
}
use opencode_optimised_tooli.Tree.{Tree, fold_fields}
use opencode_optimised_tooli.Tree.Laws.{
  is_fold, AreDistinct, get-fold_fields_other, get-fold_fields,
}
use opencode_optimised_tooli.Botdetection.Config.{dict_deepupdate, updated_value, Fields, get}

-- The update is a loop whose step takes the two values of a key.
pub dict_deepupdate_folds :
    (upd base : Fields) → dict_deepupdate base upd ≡ fold_fields updated_value upd base
unfolding dict_deepupdate fold_fields
dict_deepupdate_folds upd base =
    is_fold updated_value dict_deepupdate (λ b. refl) (λ b k t rest. refl) upd base

-- For an update whose keys are distinct, as those of a dictionary are: when `dict_deepupdate` ends
-- without a TypeError, a key that the update has not keeps its value, and a key that the update has
-- with a value `t` gets the value that `updated_value` makes of the old one and `t`, whatever the
-- order of the keys is.
pub get-dict_deepupdate :
    (upd base result : Fields) (key : Text)
    → AreDistinct upd
    → dict_deepupdate base upd ≡ some result
    → (get key upd ≡ none → get key result ≡ get key base)
      × ((t : Tree) → get key upd ≡ some t → get key result ≡ updated_value (get key base) t)
get-dict_deepupdate upd base result key d h =
    let folds = sym (dict_deepupdate_folds upd base) ∙ h in
    (
      get-fold_fields_other updated_value upd base result key folds,
      λ t. get-fold_fields updated_value upd base result key t d folds,
    )
