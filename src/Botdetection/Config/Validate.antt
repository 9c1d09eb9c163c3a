-- ===== src/Botdetection/Config/Validate.antt =====
-- botdetection/config.py: what `validate` promises to the update that follows it.
use mathlib.Core.Option.{some_inj}
use opencode_optimised_tooli.Prelude.{
  All, All-append, Bool, Bool-cases, Dict, List, Option, Text, [], ap, arith, contains, false, inl,
  inr, join_on, list_beq_iff, none, refl, snoc, some, sym, true, ◌==◌, ◌∙◌, ◌∷◌, ◌≡◌, list_eq,
  nat_eq, pair_eq, string_eq,
}
use opencode_optimised_tooli.Tree.{
  Tree, Fields, scalar, items, dict, entry, get, type_of, append_trees, as_dict, dict_of,
}
use opencode_optimised_tooli.Tree.Laws.{fold_fields_ends, type_of-items, type_of-dict}
use opencode_optimised_tooli.Botdetection.Config.{
  value_at, value, check_entry, validate_fields, validate_below, dict_deepupdate, updated_value,
  Issue,
}
use opencode_optimised_tooli.Botdetection.Config.Update.{dict_deepupdate_folds}
use opencode_optimised_tooli.Botdetection.Config.Plain.{
  IsPlain, AreDistinct-plain, value_at-snoc, value_at_name,
}

updated_value-absent : (t : Tree) → (v : Tree) × (updated_value none t ≡ some v)
unfolding updated_value
updated_value-absent (scalar s) = (scalar s, refl)
updated_value-absent (items l) = (items l, refl)
updated_value-absent (dict d) = (dict d, refl)

updated_value-dict :
    (b d result : Fields)
    → dict_deepupdate b d ≡ some result
    → updated_value (some (dict b)) (dict d) ≡ some (dict result)
unfolding updated_value
updated_value-dict b d result ends = ap dict_of ends

-- What the update of a value needs: nothing for a new key, else the same type and, for two
-- dictionaries, that the update of the one by the other ends.
updated_value-takes :
    (held : Option Tree) (t : Tree)
    → ((v : Tree) → held ≡ some v → type_of v ≡ type_of t)
    → ((b d : Fields)
        → held ≡ some (dict b)
        → t ≡ dict d
        → (result : Fields) × (dict_deepupdate b d ≡ some result))
    → (v : Tree) × (updated_value held t ≡ some v)
unfolding updated_value
updated_value-takes none t same below = updated_value-absent t
updated_value-takes (some v) (scalar s) same below = (scalar s, refl)
updated_value-takes (some v) (items l) same below =
    let (m, e) = type_of-items v l (same v refl) in
    (items (append_trees m l), ap (λ w. updated_value (some w) (items l)) e)
updated_value-takes (some v) (dict d) same below =
    let (b, e) = type_of-dict v d (same v refl) in
    let (result, ends) = below b d (ap some e) refl in
    (dict result, ap (λ w. updated_value (some w) (dict d)) e ∙ updated_value-dict b d result ends)

module _ (schema : Fields) (deprecated : Dict Text Text) where
  -- A key that is valid has no schema, or one of its type; a dictionary is then valid below.
  check_entry-valid :
      (names : List Text) (t : Tree) (below : Bool × List Issue) (v : Tree)
      → value (join_on b'.' names) schema ≡ some v
      → (check_entry schema deprecated names t below).0 ≡ true
      → (type_of v ≡ type_of t) × (below.0 ≡ true)
  unfolding check_entry
  check_entry-valid names t (good, issues) v held valid = ground (arith, held)

  validate_fields-entry :
      (names : List Text) (key : Text) (t : Tree) (rest : Fields)
      → (validate_fields schema deprecated names (entry key t rest)).0 ≡ true
      → ((check_entry schema deprecated
            (snoc names key)
            t
            (validate_below schema deprecated (snoc names key) t)).0
          ≡ true)
        × ((validate_fields schema deprecated names rest).0 ≡ true)
  unfolding validate_fields
  validate_fields-entry names key t rest valid = ground arith

  -- `upd` and `base` stand at the same place of a valid file and of the schema.
  unfoldable pub Takes : (upd base : Fields) → Type 0
  Takes upd base =
      (key : Text) (t : Tree)
      → get key upd ≡ some t
      → (v : Tree) × (updated_value (get key base) t ≡ some v)

  unfoldable pub At : (names : List Text) (base : Fields) → Type 0
  At names base =
      All (λ key. contains b'.' key ≡ false) names
      × (value_at names (dict schema) ≡ some (dict base))

  At-key :
      (names : List Text) (base : Fields) (k : Text) (b : Fields)
      → At names base
      → contains b'.' k ≡ false
      → get k base ≡ some (dict b)
      → At (snoc names k) b
  unfolding At
  At-key names base k b (free, at) k_free held = (
    All-append (λ key. contains b'.' key ≡ false) names (k ∷ []) free (k_free, tt),
    value_at-snoc names k (dict schema) base at ∙ held,
  )

  valid_entry-types :
      (names : List Text) (base : Fields) (k : Text) (t : Tree) (below : Bool × List Issue)
      (v : Tree)
      → At names base
      → contains b'.' k ≡ false
      → (check_entry schema deprecated (snoc names k) t below).0 ≡ true
      → get k base ≡ some v
      → (type_of v ≡ type_of t) × (below.0 ≡ true)
  unfolding At
  valid_entry-types names base k t below v (free, at) k_free valid held =
      let free' = All-append (λ key. contains b'.' key ≡ false) names (k ∷ []) free (k_free, tt) in
      check_entry-valid (snoc names k) t below v
        (value_at_name names k schema free' ∙ value_at-snoc names k (dict schema) base at ∙ held)
        valid

  Takes-entry :
      (names : List Text) (k : Text) (first : Tree) (rest base : Fields)
      → At names base
      → contains b'.' k ≡ false
      → (validate_fields schema deprecated names (entry k first rest)).0 ≡ true
      → ((b d : Fields)
          → At (snoc names k) b
          → first ≡ dict d
          → (validate_below schema deprecated (snoc names k) first).0 ≡ true
          → (result : Fields) × (dict_deepupdate b d ≡ some result))
      → Takes rest base
      → Takes (entry k first rest) base
  unfolding Takes get
  Takes-entry names k first rest base at k_free valid deeper later key t there =
      let valid_here = (validate_fields-entry names k first rest valid).0 in
      elim (Bool-cases (k == key)) [
        | inr apart ↦ later key t (ground arith)
        | inl same ↦
            let k_eq = (list_beq_iff k key).0 same in
            let found : first ≡ t = ground arith in
            let types : (v : Tree)
                → get k base ≡ some v
                → (type_of v ≡ type_of first)
                  × ((validate_below schema deprecated (snoc names k) first).0 ≡ true) =
              λ v. valid_entry-types names base k first _ v at k_free valid_here in
            let (v, made) =
              updated_value-takes (get k base) first (λ v held. (types v held).0)
                (λ b d held first_eq.
                  deeper b d (At-key names base k b at k_free held) first_eq
                    (types (dict b) held).1) in
            (
              v,
              ap (λ x. updated_value (get x base) t) (sym k_eq)
                  ∙ ap (updated_value (get k base)) (sym found)
                  ∙ made,
            )
      ]

  pub valid-Takes :
      (names : List Text) (upd base : Fields)
      → At names base
      → IsPlain upd
      → (validate_fields schema deprecated names upd).0 ≡ true
      → Takes upd base
  unfolding IsPlain Takes get validate_fields
  valid-Takes names Fields.empty base at plain valid =
      λ key t (there : none ≡ some t). absurd (ground arith)
  valid-Takes names (entry k (scalar s) rest) base at (k_free, fresh, below, plain) valid =
      Takes-entry names k (scalar s) rest base at k_free valid
        (λ b d at' e good. absurd (ground arith))
        (valid-Takes names rest base at plain
          (validate_fields-entry names k (scalar s) rest valid).1)
  valid-Takes names (entry k (items l) rest) base at (k_free, fresh, below, plain) valid =
      Takes-entry names k (items l) rest base at k_free valid
        (λ b d at' e good. absurd (ground arith))
        (valid-Takes names rest base at plain
          (validate_fields-entry names k (items l) rest valid).1)
  valid-Takes names (entry k (dict first) rest) base at (k_free, fresh, below, plain) valid =
      Takes-entry names k (dict first) rest base at k_free valid
        (λ b d at' e good.
          let (result, ends) =
            fold_fields_ends updated_value first b (AreDistinct-plain first below)
              (valid-Takes (snoc names k) first b at' below good) in
          let same : first ≡ d = some_inj.0 (ap (λ x. as_dict (some x)) e) in
          (result, ap (dict_deepupdate b) (sym same) ∙ dict_deepupdate_folds first b ∙ ends))
        (valid-Takes names rest base at plain
          (validate_fields-entry names k (dict first) rest valid).1)
