-- ===== src/Preferences/Form/Loop.antt =====
-- What the loop over the fields of a form leaves as it is.
use mathlib.Core.Path.{subst}
use opencode_optimised_tooli.Prelude.{
  Bool, Dict, Option, Option-cases, Text, [], arith, codes, false, has_key, has_prefix,
  if◌then◌else◌, inl, inr, lookup, lookup-insert, none, refl, some, true, ◌==◌, ◌∙◌, ◌∷◌, ◌≡◌, ◌⊎◌,
  list_eq, nat_eq, pair_eq, string_eq,
}
use opencode_optimised_tooli.Preferences.Whole.{
  Entry, KeyValue, parse_value, Preferences, put_setting,
}
use opencode_optimised_tooli.Preferences.Form.{
  Collected, Reading, reads, stopped, with_preferences, collect, read_field, read_form,
}

abbrev pub setting_of : Text → Collected → Option Entry
setting_of name s = lookup name s.preferences.key_value_settings

-- The setting is `found` wherever the loop comes to its end.
abbrev pub Leaves : Text → Option Entry → Reading → Type 0
Leaves name found (reads s) = setting_of name s ≡ found
Leaves name found (stopped p) = Unit

Leaves-if :
    (name : Text) (found : Option Entry) (b : Bool) (s t : Collected)
    → setting_of name s ≡ found
    → setting_of name t ≡ found
    → setting_of name (if b then s else t) ≡ found
Leaves-if name found true s t h k = h
Leaves-if name found false s t h k = k

collect-keeps :
    (name : Text) (found : Option Entry) (other t : Text) (s : Collected)
    → setting_of name s ≡ found
    → setting_of name (collect other t s) ≡ found
unfolding collect
collect-keeps name found other t s h =
    Leaves-if name found (has_prefix (codes "engine_") other) _ _ h (
      Leaves-if name found (has_prefix (codes "category_") other) _ _ h (
        Leaves-if name found (has_prefix (codes "plugin_") other) _ _ h
          (Leaves-if name found (other == codes "tokens") _ _ h h)))

pub put_setting-keeps :
    (name : Text) (found : Option Entry) (other : Text) (entry : Entry) (v : Option KeyValue)
    (s : Collected)
    → (other == name) ≡ false
    → setting_of name s ≡ found
    → Leaves name found (with_preferences s (put_setting other entry v s.preferences))
unfolding put_setting
put_setting-keeps name found other entry none s apart h = tt
put_setting-keeps name found other entry (some v) s apart h =
    lookup-insert other name (record entry { setting = v }) s.preferences.key_value_settings
    ∙ rw apart h

pub read_field-keeps :
    (name : Text) (found : Option Entry) (other t : Text) (s : Collected)
    → (other == name) ≡ false
    → setting_of name s ≡ found
    → Leaves name found (read_field other t s)
unfolding read_field
read_field-keeps name found other t s apart h =
    elim (Option-cases (lookup other s.preferences.key_value_settings)) [
      | inl e ↦ rw (e, Leaves) (collect-keeps name found other t s h)
      | inr (entry, e) ↦
          rw (e, Leaves)
            (put_setting-keeps name found other entry (parse_value t entry.setting) s apart h)
    ]

Reading-cases :
    (r : Reading) → ((s : Collected) × (r ≡ reads s)) ⊎ ((p : Preferences) × (r ≡ stopped p))
Reading-cases (reads s) = inl (s, refl)
Reading-cases (stopped p) = inr (p, refl)

-- A round before the others.
pub read_form-first :
    (name : Text) (found later : Option Entry) (other t : Text) (rest : Dict Text Text)
    (s : Collected)
    → Leaves name found (read_field other t s)
    → ((s' : Collected) → setting_of name s' ≡ found → Leaves name later (read_form rest s'))
    → Leaves name later (read_form ((other, t) ∷ rest) s)
unfolding read_form
read_form-first name found later other t rest s one others =
    elim (Reading-cases (read_field other t s)) [
      | inl (s', e) ↦ rw (e, Leaves) (others s' (subst (Leaves name found) e one))
      | inr (p, e) ↦ rw (e, Leaves) tt
    ]

pub read_form-keeps :
    (name : Text) (found : Option Entry) (rest : Dict Text Text) (s : Collected)
    → has_key name rest ≡ false
    → setting_of name s ≡ found
    → Leaves name found (read_form rest s)
unfolding read_form has_key
read_form-keeps name found [] s absent h = h
read_form-keeps name found ((other, t) ∷ rest) s absent h =
    read_form-first name found found other t rest s
      (read_field-keeps name found other t s (ground arith) h)
      λ s' k. read_form-keeps name found rest s' (ground arith) k
