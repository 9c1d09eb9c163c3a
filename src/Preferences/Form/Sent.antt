-- ===== src/Preferences/Form/Sent.antt =====
-- The fields of a form after the unsent booleans were put in.
use mathlib.Core.Path.{subst}
use opencode_optimised_tooli.Prelude.{
  Bool, Bool-cases, Dict, DistinctKeys, DistinctKeys-insert, Text, [], arith, codes, false, has_key,
  has_key-insert, if◌then◌else◌, inl, inr, insert, list_beq_iff, lookup, lookup-insert, not, refl,
  some, sym, true, ◌&&◌, ◌==◌, ◌∙◌, ◌∷◌, ◌≡◌, list_eq, nat_eq, pair_eq, string_eq,
}
use opencode_optimised_tooli.Preferences.Whole.{Entry}
use opencode_optimised_tooli.Preferences.Form.{is_boolean, add_unsent}

lookup-has_key :
    (name v : Text) (form : Dict Text Text) → lookup name form ≡ some v → has_key name form ≡ true
unfolding lookup has_key
lookup-has_key name v [] h = absurd (ground arith)
lookup-has_key name v ((other, t) ∷ form) h = ground (arith, lookup-has_key name v form)

-- A field of another name that may be put at the end.
put_other-lookup :
    (name key : Text) (b : Bool) (form : Dict Text Text)
    → (key == name) ≡ false
    → lookup name (if b then insert key (codes "False") form else form) ≡ lookup name form
put_other-lookup name key true form apart =
    lookup-insert key name (codes "False") form ∙ rw apart refl
put_other-lookup name key false form apart = refl

put_other-has_key :
    (name key : Text) (b : Bool) (form : Dict Text Text)
    → (key == name) ≡ false
    → has_key name (if b then insert key (codes "False") form else form) ≡ has_key name form
put_other-has_key name key true form apart =
    has_key-insert key name (codes "False") form ∙ rw apart refl
put_other-has_key name key false form apart = refl

put_other-DistinctKeys :
    (key : Text) (b : Bool) (form : Dict Text Text)
    → DistinctKeys form
    → DistinctKeys (if b then insert key (codes "False") form else form)
put_other-DistinctKeys key true form d = DistinctKeys-insert key (codes "False") form d
put_other-DistinctKeys key false form d = d

add_unsent-keeps :
    (name v : Text) (settings : Dict Text Entry) (form : Dict Text Text)
    → lookup name form ≡ some v
    → lookup name (add_unsent settings form) ≡ some v
unfolding add_unsent
add_unsent-keeps name v [] form h = h
add_unsent-keeps name v ((key, entry) ∷ rest) form h = elim (Bool-cases (key == name)) [
  | inl same ↦
      let held =
        subst (λ k. has_key k form ≡ true) (sym ((list_beq_iff key name).0 same))
          (lookup-has_key name v form h) in
      rw held (add_unsent-keeps name v rest form h)
  | inr apart ↦ add_unsent-keeps name v rest _ (
      put_other-lookup name key (not (has_key key form) && is_boolean entry.setting) form apart ∙ h)
]

pub add_unsent-DistinctKeys :
    (settings : Dict Text Entry) (form : Dict Text Text)
    → DistinctKeys form
    → DistinctKeys (add_unsent settings form)
unfolding add_unsent
add_unsent-DistinctKeys [] form d = d
add_unsent-DistinctKeys ((key, entry) ∷ rest) form d =
    add_unsent-DistinctKeys rest _
      (put_other-DistinctKeys key (not (has_key key form) && is_boolean entry.setting) form d)

pub add_unsent-false :
    (name : Text) (entry : Entry) (settings : Dict Text Entry) (form : Dict Text Text)
    → is_boolean entry.setting ≡ true
    → has_key name form ≡ false
    → lookup name settings ≡ some entry
    → lookup name (add_unsent settings form) ≡ some (codes "False")
unfolding add_unsent lookup
add_unsent-false name entry [] form b absent e = absurd (ground arith)
add_unsent-false name entry ((key, other) ∷ rest) form b absent e =
    elim (Bool-cases (key == name)) [
      | inl same ↦
          let equal = (list_beq_iff key name).0 same in
          let first : other ≡ entry = ground arith in
          let free = subst (λ k. has_key k form ≡ false) (sym equal) absent in
          let switch = subst (λ x. is_boolean x.setting ≡ true) (sym first) b in
          rw (free, switch)
            (add_unsent-keeps name (codes "False") rest (insert key (codes "False") form)
              (lookup-insert key name (codes "False") form ∙ rw same refl))
      | inr apart ↦
          add_unsent-false name entry rest _ b
            (put_other-has_key name key (not (has_key key form) && is_boolean other.setting) form
                apart
              ∙ absent)
            (ground arith)
    ]
