-- ===== src/Preferences/Form/Unsent.antt =====
-- Boolean settings that a form does not send.
use BooleanSetting.{parse}
use mathlib.Core.Path.{subst}
use opencode_optimised_tooli.Prelude.{
  Bool-cases, Dict, DistinctKeys, Option, Option-cases, Text, [], arith, codes, false, has_key, inl,
  inr, list_beq_iff, lookup, lookup-insert_self, refl, some, sym, true, ◌==◌, ◌∷◌, ◌≡◌, list_eq,
  nat_eq, pair_eq, string_eq,
}
use opencode_optimised_tooli.Preferences.BooleanSetting
use opencode_optimised_tooli.Preferences.Whole.{
  Entry, KeyValue, string, enum_string, multiple_choice, search_language, map_setting, boolean,
  parse_value, Preferences, Parsed, complete, refused, put_setting,
}
use opencode_optimised_tooli.Preferences.Form.Loop.{
  setting_of, Leaves, put_setting-keeps, read_field-keeps, read_form-first, read_form-keeps,
}
use opencode_optimised_tooli.Preferences.Form.Sent.{add_unsent-DistinctKeys, add_unsent-false}
use opencode_optimised_tooli.Preferences.Form.{
  is_boolean, add_unsent, Collected, Reading, reads, stopped, with_preferences, read_field,
  read_form, put_category, put_categories, put_choices, finish, parse_form,
}

-- The setting that was switched off.
abbrev pub switched_off : Entry → Entry
switched_off entry = record entry {
  setting = boolean (record { value = false; key = BooleanSetting.normalized_str false });
}

parse_value-False :
    (k : KeyValue)
    → is_boolean k ≡ true
    → parse_value (codes "False") k
      ≡ some (boolean (record { value = false; key = BooleanSetting.normalized_str false }))
unfolding parse_value parse lookup
parse_value-False (boolean b) h = refl
parse_value-False (string t) h = absurd (ground arith)
parse_value-False (enum_string t) h = absurd (ground arith)
parse_value-False (multiple_choice t) h = absurd (ground arith)
parse_value-False (search_language t) h = absurd (ground arith)
parse_value-False (map_setting t) h = absurd (ground arith)

put_false :
    (name : Text) (entry : Entry) (s : Collected)
    → Leaves name (some (switched_off entry)) (
        with_preferences s (
          put_setting name entry
            (some (boolean (record { value = false; key = BooleanSetting.normalized_str false })))
            s.preferences))
unfolding put_setting
put_false name entry s =
    lookup-insert_self name (switched_off entry) s.preferences.key_value_settings

read_field-false :
    (name : Text) (entry : Entry) (s : Collected)
    → is_boolean entry.setting ≡ true
    → setting_of name s ≡ some entry
    → Leaves name (some (switched_off entry)) (read_field name (codes "False") s)
unfolding read_field
read_field-false name entry s b h =
    rw (h, Leaves)
      (subst
        (λ v.
          Leaves name (some (switched_off entry))
            (with_preferences s (put_setting name entry v s.preferences)))
        (sym (parse_value-False entry.setting b)) (put_false name entry s))

read_form-false :
    (name : Text) (entry : Entry) (form : Dict Text Text) (s : Collected)
    → is_boolean entry.setting ≡ true
    → DistinctKeys form
    → lookup name form ≡ some (codes "False")
    → setting_of name s ≡ some entry
    → Leaves name (some (switched_off entry)) (read_form form s)
unfolding lookup
read_form-false name entry [] s b d e h = absurd (ground arith)
read_form-false name entry ((other, t) ∷ rest) s b (fresh, d) e h =
    elim (Bool-cases (other == name)) [
      | inl same ↦
          let equal = (list_beq_iff other name).0 same in
          let sent : t ≡ codes "False" = ground arith in
          read_form-first name (some (switched_off entry)) (some (switched_off entry)) other t rest
            s
            (subst (λ k. Leaves name (some (switched_off entry)) (read_field k t s)) (sym equal)
              (subst (λ x. Leaves name (some (switched_off entry)) (read_field name x s)) (sym sent)
                (read_field-false name entry s b h)))
            λ s' k.
              read_form-keeps name (some (switched_off entry)) rest s'
                (subst (λ k. has_key k rest ≡ false) equal fresh) k
      | inr apart ↦
          read_form-first name (some entry) (some (switched_off entry)) other t rest s
            (read_field-keeps name (some entry) other t s apart h)
            λ s' k. read_form-false name entry rest s' b d (ground arith) k
    ]

put_category-keeps :
    (name : Text) (found : Option Entry) (entry : Entry) (k : KeyValue) (s : Collected)
    → (codes "categories" == name) ≡ false
    → setting_of name s ≡ found
    → Leaves name found
        (with_preferences s (put_category s.enabled_categories entry k s.preferences))
unfolding put_category
put_category-keeps name found entry (multiple_choice m) s apart h =
    put_setting-keeps name found (codes "categories") entry _ s apart h
put_category-keeps name found entry (boolean b) s apart h = tt
put_category-keeps name found entry (string t) s apart h = tt
put_category-keeps name found entry (enum_string t) s apart h = tt
put_category-keeps name found entry (search_language t) s apart h = tt
put_category-keeps name found entry (map_setting t) s apart h = tt

put_categories-keeps :
    (name : Text) (found : Option Entry) (s : Collected)
    → (codes "categories" == name) ≡ false
    → setting_of name s ≡ found
    → Leaves name found (with_preferences s (put_categories s.enabled_categories s.preferences))
unfolding put_categories
put_categories-keeps name found s apart h =
    elim (Option-cases (lookup (codes "categories") s.preferences.key_value_settings)) [
      | inl e ↦ rw (e, Leaves) tt
      | inr (entry, e) ↦
          rw (e, Leaves) (put_category-keeps name found entry entry.setting s apart h)
    ]

abbrev LeftIn : Text → Option Entry → Parsed → Type 0
LeftIn name found (complete p) = lookup name p.key_value_settings ≡ found
LeftIn name found (refused p) = Unit

put_choices-keeps :
    (name : Text) (found : Option Entry) (s : Collected) (r : Parsed)
    → Leaves name found (with_preferences s r)
    → LeftIn name found (put_choices s r)
put_choices-keeps name found s (complete p) h = h
put_choices-keeps name found s (refused p) h = tt

finish-keeps :
    (name : Text) (found : Option Entry) (r : Reading)
    → (codes "categories" == name) ≡ false
    → Leaves name found r
    → LeftIn name found (finish r)
finish-keeps name found (stopped p) apart h = tt
finish-keeps name found (reads s) apart h =
    put_choices-keeps name found s (put_categories s.enabled_categories s.preferences)
      (put_categories-keeps name found s apart h)

-- If a form is parsed to its end, then each boolean setting that it does not send is false
-- afterwards, also a locked one. (No field is sent twice, and the setting is not the one of the
-- categories.)
pub parse_form-unsent :
    (name : Text) (entry : Entry) (form : Dict Text Text) (p p' : Preferences)
    → (codes "categories" == name) ≡ false
    → is_boolean entry.setting ≡ true
    → DistinctKeys form
    → has_key name form ≡ false
    → lookup name p.key_value_settings ≡ some entry
    → parse_form form p ≡ complete p'
    → lookup name p'.key_value_settings ≡ some (switched_off entry)
unfolding parse_form
parse_form-unsent name entry form p p' apart b d absent h e =
    let sent = add_unsent p.key_value_settings form in
    let start : Collected = record {
      preferences = p;
      disabled_engines = [];
      enabled_categories = [];
      disabled_plugins = [];
    } in
    subst (LeftIn name (some (switched_off entry))) e (
      finish-keeps name (some (switched_off entry)) (read_form sent start) apart (
        read_form-false name entry sent start b
          (add_unsent-DistinctKeys p.key_value_settings form d)
          (add_unsent-false name entry p.key_value_settings form b absent h) h))
