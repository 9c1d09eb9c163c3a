-- ===== src/Preferences/Laws.antt =====
-- What the settings promise: their values are valid, and cookies give back what was saved.
use mathlib.Core.Path.{subst}
use mathlib.Core.Option.{some_inj}
use opencode_optimised_tooli.Prelude.{
  ==_self, All, Bool, List, Option-cases, Text, [], add_new, ap, arith, contains, false,
  if◌then◌else◌, inl, inr, is_empty, join_on, lookup, refl, snoc, some, split_on-join_on, true,
  ◌==◌, ◌||◌, ◌∙◌, ◌∷◌, ◌≡◌, list_eq, nat_eq, pair_eq, string_eq,
}
use opencode_optimised_tooli.Preferences.Setting.{Setting}
use opencode_optimised_tooli.Preferences.MultipleChoiceSetting
use opencode_optimised_tooli.Preferences.MultipleChoiceSetting.{validate_selections, select}
use opencode_optimised_tooli.Preferences.SearchLanguageSetting
use opencode_optimised_tooli.Preferences.SearchLanguageSetting.{choose}
use opencode_optimised_tooli.Preferences.BooleanSetting
use opencode_optimised_tooli.Preferences.BooleanSetting.{normalized_str, first_of, map_str2bool}

module _ (s : Setting (List Text)) where
  abbrev pub IsCookieText : Text → Type 0
  IsCookieText t = (contains b',' t ≡ false) × (is_empty t ≡ false)

  All-cookie : (ps : List Text) → All IsCookieText ps → All (λ q. contains b',' q ≡ false) ps
  All-cookie [] h = tt
  All-cookie (p ∷ ps) ((free, _), h) = (free, All-cookie ps h)

  join_on-is_empty :
      (p : Text) (ps : List Text) → is_empty p ≡ false → is_empty (join_on b',' (p ∷ ps)) ≡ false
  unfolding join_on
  join_on-is_empty [] ps h = absurd (ground arith)
  join_on-is_empty (c ∷ p) [] h = refl
  join_on-is_empty (c ∷ p) (q ∷ ps) h = refl

  join_on_nil : join_on b',' [] ≡ []
  unfolding join_on
  join_on_nil = refl

  parse-join_on :
      (value : List Text)
      → validate_selections s.choices value ≡ true
      → All IsCookieText value
      → MultipleChoiceSetting.parse (join_on b',' value) s ≡ some (record s { value = value })
  unfolding MultipleChoiceSetting.parse
  parse-join_on [] valid texts = rw join_on_nil refl
  parse-join_on (p ∷ ps) valid texts =
      rw
        (
          join_on-is_empty p ps texts.0.1,
          split_on-join_on b',' p ps (All-cookie (p ∷ ps) texts),
          valid,
        )
        refl

  -- The cookie of a valid list of choices gives back the list, if no choice is empty or holds a
  -- comma.
  parse-save :
      validate_selections s.choices s.value ≡ true
      → All IsCookieText s.value
      → MultipleChoiceSetting.parse (MultipleChoiceSetting.save s) s ≡ some s
  unfolding MultipleChoiceSetting.save
  parse-save valid texts = parse-join_on s.value valid texts

validate_selections-snoc :
    (choices value : List Text) (c : Text)
    → validate_selections choices value ≡ true
    → contains c choices ≡ true
    → validate_selections choices (snoc value c) ≡ true
unfolding validate_selections
validate_selections-snoc choices [] c h k = ground arith
validate_selections-snoc choices (v ∷ value) c h k =
    ground (arith, validate_selections-snoc choices value c)

validate_selections-select :
    (choices value data' : List Text)
    → validate_selections choices value ≡ true
    → validate_selections choices (select choices value data') ≡ true
unfolding select add_new
validate_selections-select choices value [] h = h
validate_selections-select choices value (c ∷ rest) h =
    validate_selections-select choices (if contains c choices then add_new c value else value) rest
      (ground (arith, validate_selections-snoc choices value c))

validate_nothing : (choices : List Text) → validate_selections choices [] ≡ true
unfolding validate_selections
validate_nothing choices = refl

-- A form puts no value outside of the choices into a setting, whatever it holds, if there was none
-- before.
pub parse_form-valid :
    (s : Setting (List Text)) (data' : List Text)
    → validate_selections s.choices s.value ≡ true
    → validate_selections s.choices (MultipleChoiceSetting.parse_form data' s).value ≡ true
unfolding MultipleChoiceSetting.parse_form
parse_form-valid s data' h =
    ground (arith, validate_selections-select s.choices [] data' (validate_nothing s.choices))

choose_known :
    (data' : Text) (s : Setting Text)
    → (contains (choose data' s) s.choices || (choose data' s == s.value)) ≡ true
unfolding choose
choose_known data' s = ground (arith, ==_self s.value)

-- Whatever the cookie holds, the language is afterwards one of the choices or the one before.
pub parse_known :
    (valid_code : Text → Bool) (data' : Text) (s s' : Setting Text)
    → SearchLanguageSetting.parse valid_code data' s ≡ some s'
    → (contains s'.value s.choices || (s'.value == s.value)) ≡ true
unfolding SearchLanguageSetting.parse
parse_known valid_code data' s s' h = ground (arith, choose_known data' s)

reparsed :
    (v : Bool) (key : Text) (t : BooleanSetting.State)
    → normalized_str v ≡ some key
    → BooleanSetting.parse key t ≡ some (record { value = v; key = normalized_str v })
unfolding BooleanSetting.parse normalized_str first_of lookup
reparsed true key t h =
    subst
      (λ k. BooleanSetting.parse k t ≡ some (record { value = true; key = normalized_str true }))
      (some_inj.0 h) refl
reparsed false key t h =
    subst
      (λ k. BooleanSetting.parse k t ≡ some (record { value = false; key = normalized_str false }))
      (some_inj.0 h) refl

-- A parsed truth value is saved as a cookie that is parsed to the same value, whatever spelling
-- it came from.
pub parse_key :
    (data' key : Text) (s s' t : BooleanSetting.State)
    → BooleanSetting.parse data' s ≡ some s'
    → s'.key ≡ some key
    → BooleanSetting.parse key t ≡ some s'
unfolding BooleanSetting.parse
parse_key data' key s s' t h k = elim (Option-cases (lookup data' map_str2bool)) [
  | inl e ↦ absurd (ground arith)
  | inr (v, e) ↦
      let p : record { value = v; key = normalized_str v } ≡ s' = ground arith in
      reparsed v key t (ap (λ x. x.key) p ∙ k) ∙ ap some p
]
