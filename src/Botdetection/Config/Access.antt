-- ===== src/Botdetection/Config/Access.antt =====
-- botdetection/config.py: `get` after `set`.
use mathlib.Core.Option.{some_inj}
use opencode_optimised_tooli.Prelude.{
  Bool-cases, List, Option, Option-cases, Text, [], ap, arith, if◌then◌else◌, inl, inr, is_empty,
  refl, some, split_on, sym, ◌∙◌, ◌∷◌, ◌≡◌, list_eq, nat_eq, pair_eq, string_eq,
}
use opencode_optimised_tooli.Tree.{Tree, Fields, get, put, dict, as_dict}
use opencode_optimised_tooli.Tree.Laws.{get-put_self}
use opencode_optimised_tooli.Botdetection.Config.{
  Config, value, value_at, replace_text, get_parent_dict, get_value, put_below, parent_path,
  parent_name, last_part, set_value,
}
use opencode_optimised_tooli.Botdetection.Config.Plain.{value_at-found}

put_below-cases :
    (part : Text) (path : List Text) (key : Text) (t : Tree) (d d' : Fields)
    → put_below (part ∷ path) key t d ≡ some d'
    → (child child' : Fields) × (put_below path key t child ≡ some child')
      × (d' ≡ put part (dict child') d)
unfolding put_below
put_below-cases part path key t d d' h = elim (Option-cases (as_dict (get part d))) [
  | inl none_there ↦ absurd (ground (arith, none_there))
  | inr (child, there) ↦ elim (Option-cases (put_below path key t child)) [
    | inl failed ↦ absurd (ground (arith, there, failed))
    | inr (child', put_there) ↦ (child, child', put_there, ground (arith, there, put_there))
  ]
]

-- Where a path of keys ends after `put_below`, there is a dictionary with the key.
value_at-put_below :
    (path : List Text) (key : Text) (t : Tree) (d d' : Fields)
    → put_below path key t d ≡ some d'
    → (p : Fields) × (value_at path (dict d') ≡ some (dict p)) × (get key p ≡ some t)
unfolding put_below value_at
value_at-put_below [] key t d d' h =
    (d', refl, ap (get key) (sym (some_inj.0 h)) ∙ get-put_self key t d)
value_at-put_below (part ∷ path) key t d d' h =
    let (child, child', put_there, d'_eq) = put_below-cases part path key t d d' h in
    let (p, at, has) = value_at-put_below path key t child child' put_there in
    (
      p,
      ap (λ x. value_at (part ∷ path) (dict x)) d'_eq
          ∙ value_at-found part path (put part (dict child') d) (dict child')
              (get-put_self part (dict child') d)
          ∙ at,
      has,
    )

set_value-put_below :
    (name : Text) (t : Tree) (config config' : Config)
    → set_value name t config ≡ some config'
    → put_below (parent_path (parent_name name)) (last_part (split_on b'.' name)) t config.cfg
      ≡ some config'.cfg
unfolding set_value
set_value-put_below name t config config' h =
    elim (Option-cases
      (put_below (parent_path (parent_name name)) (last_part (split_on b'.' name)) t config.cfg)) [
        | inl failed ↦ absurd (ground (arith, failed))
        | inr (d, made) ↦ made ∙ ground (arith, made)
      ]

get_parent_dict-at :
    (name : Text) (config : Config) (p : Fields)
    → value_at (parent_path (parent_name name)) (dict config.cfg) ≡ some (dict p)
    → get_parent_dict name config ≡ some p
unfolding get_parent_dict value value_at
get_parent_dict-at name config p at = elim (Bool-cases (is_empty (parent_name name))) [
  | inl top ↦ rw top (
      ap as_dict (
        sym (
          ap (λ b. value_at (if b then [] else split_on b'.' (parent_name name)) (dict config.cfg))
            top)
        ∙ at))
  | inr below ↦ rw below (
      ap as_dict (
        sym (
          ap (λ b. value_at (if b then [] else split_on b'.' (parent_name name)) (dict config.cfg))
            below)
        ∙ at))
]

-- After a `set` that raises no KeyError, `get` of the same name, whatever default is given, returns
-- the value that was set if that is no text; for a text it returns what `%` makes of it, or raises
-- the exception of `%`.
pub get_value-set_value :
    (replaced : Config → Text → Option Tree) (name : Text) (t : Tree) (fallback : Option Tree)
    (config config' : Config)
    → set_value name t config ≡ some config'
    → get_value replaced name fallback config' ≡ replace_text (replaced config') t
unfolding get_value
get_value-set_value replaced name t fallback config config' h =
    let (p, at, has) =
      value_at-put_below (parent_path (parent_name name)) (last_part (split_on b'.' name)) t
        config.cfg config'.cfg (set_value-put_below name t config config' h) in
    rw (get_parent_dict-at name config' p at, get_value) (rw has refl)
