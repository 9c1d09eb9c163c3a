-- ===== src/Botdetection/Config/Load.antt =====
-- botdetection/config.py: `Config.from_toml`, which checks a file and then updates the schema by it.
use opencode_optimised_tooli.Prelude.{
  Bool-cases, Dict, Text, [], false, inl, inr, none, refl, some, true, ◌∙◌, ◌≡◌, ◌⊎◌, list_eq,
  nat_eq, pair_eq, string_eq,
}
use opencode_optimised_tooli.Tree.{Tree, Fields, get}
use opencode_optimised_tooli.Tree.Laws.{fold_fields_ends}
use opencode_optimised_tooli.Botdetection.Config.{
  Config, from_toml, loaded, value_at, invalid_file, new_config, update, validate, dict_deepupdate,
  updated_value, validate_fields,
}
use opencode_optimised_tooli.Botdetection.Config.Update.{dict_deepupdate_folds, get-dict_deepupdate}
use opencode_optimised_tooli.Botdetection.Config.Validate.{valid-Takes, At, Takes}
use opencode_optimised_tooli.Botdetection.Config.Plain.{IsPlain, AreDistinct-plain}

module _ (schema : Fields) (deprecated : Dict Text Text) (upd : Fields) (plain : IsPlain upd) where
  -- The update by a valid file raises no TypeError.
  valid_update_ends :
      (validate_fields schema deprecated [] upd).0 ≡ true
      → (result : Fields) × (dict_deepupdate schema upd ≡ some result)
  unfolding At Takes value_at
  valid_update_ends valid =
      let (result, ends) =
        fold_fields_ends updated_value upd schema (AreDistinct-plain upd plain)
          (valid-Takes schema deprecated [] upd schema (tt, refl) plain valid) in
      (result, dict_deepupdate_folds upd schema ∙ ends)

  -- For a file whose keys are distinct and have no dot, on every level: if it is invalid,
  -- `from_toml` refuses it with the issues of `validate`; if it is valid, the update raises no
  -- TypeError, and in the configuration that `from_toml` returns a key that the file has not has the
  -- schema's value, and a key that the file has with a value `t` has what `updated_value` makes of
  -- the schema's value and `t`.
  pub from_toml_outcomes :
      ((validate upd (new_config schema deprecated)).0 ≡ false)
        × (from_toml schema (some upd) deprecated
            ≡ invalid_file (validate upd (new_config schema deprecated)).1)
      ⊎ ((validate upd (new_config schema deprecated)).0 ≡ true)
        × (config : Config) × (from_toml schema (some upd) deprecated ≡ loaded config)
        × ((key : Text)
            → (get key upd ≡ none → get key config.cfg ≡ get key schema)
              × ((t : Tree)
                  → get key upd ≡ some t
                  → get key config.cfg ≡ updated_value (get key schema) t))
  unfolding from_toml validate update
  from_toml_outcomes = elim (Bool-cases (validate_fields schema deprecated [] upd).0) [
    | inl valid ↦
        let (result, ends) = valid_update_ends valid in
        inr (
          valid,
          record (new_config schema deprecated) { cfg = result },
          rw valid (rw (ends, update) refl),
          λ key. get-dict_deepupdate upd schema result key (AreDistinct-plain upd plain) ends,
        )
    | inr invalid ↦ inl (invalid, rw invalid refl)
  ]
