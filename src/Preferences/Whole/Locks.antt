-- ===== src/Preferences/Whole/Locks.antt =====
-- Locked settings keep their values.
use mathlib.Core.Path.{subst}
use mathlib.Core.Option.{some_inj}
use opencode_optimised_tooli.Prelude.{
  Bool, Bool-cases, Dict, Option, Option-cases, Text, [], ap, arith, codes, false, if◌then◌else◌,
  inl, inr, list_beq_iff, lookup, lookup-insert, none, refl, some, sym, true, ◌==◌, ◌∙◌, ◌∷◌, ◌≡◌,
  ◌⊎◌, list_eq, nat_eq, pair_eq, string_eq,
}
use opencode_optimised_tooli.Preferences.Whole.{
  Entry, KeyValue, Preferences, Parsed, complete, refused, left_by, put_setting, parse_other,
  parse_entry, parse_entries, parse_dict, parse_value,
}

-- The setting is there and locked.
abbrev pub Holds : Text → Entry → Preferences → Type 0
Holds name entry p = lookup name p.key_value_settings ≡ some entry

put_setting-Holds :
    (name other : Text) (entry found : Entry) (v : Option KeyValue) (p : Preferences)
    → (other == name) ≡ false
    → Holds name entry p
    → Holds name entry (left_by (put_setting other found v p))
unfolding put_setting
put_setting-Holds name other entry found none p apart h = h
put_setting-Holds name other entry found (some v) p apart h =
    lookup-insert other name (record found { setting = v }) p.key_value_settings ∙ rw apart h

Holds-if :
    (name : Text) (entry : Entry) (b : Bool) (p q : Preferences)
    → Holds name entry p
    → Holds name entry q
    → Holds name entry (if b then p else q)
Holds-if name entry true p q h k = h
Holds-if name entry false p q h k = k

Holds-left_by :
    (name : Text) (entry : Entry) (b : Bool) (p : Preferences) (r : Parsed)
    → Holds name entry p
    → (b ≡ false → Holds name entry (left_by r))
    → Holds name entry (left_by (if b then complete p else r))
Holds-left_by name entry true p r h k = h
Holds-left_by name entry false p r h k = k refl

parse_other-Holds :
    (input_data : Dict Text Text) (other t : Text) (name : Text) (entry : Entry) (p : Preferences)
    → Holds name entry p
    → Holds name entry (parse_other input_data other t p)
unfolding parse_other
parse_other-Holds input_data other t name entry p h =
    Holds-if name entry (other == codes "disabled_engines") _ _ h (
      Holds-if name entry (other == codes "disabled_plugins") _ _ h
        (Holds-if name entry (other == codes "tokens") _ _ h h))

-- An unlocked setting has another name than a locked one.
apart :
    (name other : Text) (entry found : Entry) (p : Preferences)
    → lookup other p.key_value_settings ≡ some found
    → Holds name entry p
    → entry.locked ≡ true
    → found.locked ≡ false
    → (other == name) ≡ false
apart name other entry found p e h locked free = elim (Bool-cases (other == name)) [
  | inr different ↦ different
  | inl same ↦
      let equal : entry ≡ found = some_inj.0 (
        sym h
        ∙ ap (λ k. lookup k p.key_value_settings) (sym ((list_beq_iff other name).0 same))
        ∙ e) in
      absurd (ground (arith, ap (λ x. x.locked) equal))
]

Parsed-cases :
    (r : Parsed) → ((p : Preferences) × (r ≡ complete p)) ⊎ ((p : Preferences) × (r ≡ refused p))
Parsed-cases (complete p) = inl (p, refl)
Parsed-cases (refused p) = inr (p, refl)

parse_entry-Holds :
    (input_data : Dict Text Text) (other t : Text) (name : Text) (entry : Entry) (p : Preferences)
    → entry.locked ≡ true
    → Holds name entry p
    → Holds name entry (left_by (parse_entry input_data other t p))
unfolding parse_entry
parse_entry-Holds input_data other t name entry p locked h =
    elim (Option-cases (lookup other p.key_value_settings)) [
      | inl e ↦ rw (e, left_by) (parse_other-Holds input_data other t name entry p h)
      | inr (found, e) ↦
          rw (e, left_by)
            (Holds-left_by name entry found.locked p
              (put_setting other found (parse_value t found.setting) p) h
              λ free.
                put_setting-Holds name other entry found (parse_value t found.setting) p
                  (apart name other entry found p e h locked free) h)
    ]

parse_entries-Holds :
    (input_data rest : Dict Text Text) (name : Text) (entry : Entry) (p : Preferences)
    → entry.locked ≡ true
    → Holds name entry p
    → Holds name entry (left_by (parse_entries input_data rest p))
unfolding parse_entries
parse_entries-Holds input_data [] name entry p locked h = h
parse_entries-Holds input_data ((other, t) ∷ rest) name entry p locked h =
    let kept = parse_entry-Holds input_data other t name entry p locked h in
    elim (Parsed-cases (parse_entry input_data other t p)) [
      | inl (p', e) ↦
          rw (e, left_by)
            (parse_entries-Holds input_data rest name entry p' locked
              (subst (λ r. Holds name entry (left_by r)) e kept))
      | inr (p', e) ↦ rw (e, left_by) (subst (λ r. Holds name entry (left_by r)) e kept)
    ]

-- Whatever cookies or encoded preferences hold, and whether they are refused or not: a locked
-- setting stays as it is.
pub parse_dict-Holds :
    (input_data : Dict Text Text) (name : Text) (entry : Entry) (p : Preferences)
    → entry.locked ≡ true
    → Holds name entry p
    → Holds name entry (left_by (parse_dict input_data p))
unfolding parse_dict
parse_dict-Holds input_data name entry p locked h =
    parse_entries-Holds input_data input_data name entry p locked h
