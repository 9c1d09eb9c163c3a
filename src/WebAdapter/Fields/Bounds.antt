-- ===== src/WebAdapter/Fields/Bounds.antt =====
-- webadapter.py: the bounds of the fields that are accepted.
use opencode_optimised_tooli.Prelude.{
  Bool, Bool-cases, Option, Option-cases, Text, [], ap, arith, codes, contains, false, inl, inr,
  lookup, none, some, true, ℕ, ◌==◌, ◌||◌, ◌≡◌, ◌≤◌, list_eq, nat_eq, pair_eq, string_eq,
}
use opencode_optimised_tooli.Query.Types.{
  Setup, RawTextQuery, valid_language_code, is_digits, int_of,
}
use opencode_optimised_tooli.WebAdapter.Types.{ok, Form, Preferences}
use opencode_optimised_tooli.WebAdapter.Fields.{
  check_lang, parse_lang, last_language, check_time_range, parse_time_range, time_ranges,
  check_safesearch, choose_safesearch, parse_safesearch,
}

module _ (setup : Setup) where
  check_safesearch-le : (shown : Text) (m n : ℕ) → check_safesearch setup shown m ≡ ok n → n ≤ 2
  unfolding check_safesearch
  check_safesearch-le shown m n h = ground arith

  choose_safesearch-le :
      (m : ℕ) (field : Option Text) (n : ℕ) → choose_safesearch setup m field ≡ ok n → n ≤ 2
  unfolding choose_safesearch
  choose_safesearch-le m none n h = check_safesearch-le [] m n h
  choose_safesearch-le m (some s) n h = elim (Bool-cases (is_digits setup.unicode s)) [
    | inr e ↦ absurd (ground arith)
    | inl e ↦ elim (Option-cases (int_of setup.unicode s)) [
      | inl e2 ↦ absurd (ground arith)
      | inr (k, e2) ↦ check_safesearch-le s k n (ground arith)
    ]
  ]

  pub parse_safesearch-le :
      (p : Preferences) (form : Form) (n : ℕ)
      → p.safesearch ≤ 2
      → parse_safesearch setup p form ≡ ok n
      → n ≤ 2
  unfolding parse_safesearch
  parse_safesearch-le p form n h e =
      ground (arith, choose_safesearch-le p.safesearch (lookup (codes "safesearch") form) n)

check_time_range-known :
    (field : Option Text) (t : Text)
    → check_time_range field ≡ ok (some t)
    → contains t time_ranges ≡ true
unfolding check_time_range
check_time_range-known none t h = absurd (ground arith)
check_time_range-known (some s) t h = elim (Bool-cases (contains s time_ranges)) [
  | inl e ↦ ground (arith, ap (λ x. contains x time_ranges))
  | inr e ↦ absurd (ground arith)
]

pub parse_time_range-known :
    (form : Form) (t : Text) → parse_time_range form ≡ ok (some t) → contains t time_ranges ≡ true
unfolding parse_time_range
parse_time_range-known form t h = check_time_range-known (lookup (codes "time_range") form) t h

abbrev pub is_language : Text → Bool
is_language l = valid_language_code l || (l == codes "auto")

check_lang-valid : (m l : Text) → check_lang m ≡ ok l → is_language l ≡ true
unfolding check_lang
check_lang-valid m l h = elim (Bool-cases (is_language m)) [
  | inl e ↦ ground (arith, ap is_language)
  | inr e ↦ absurd (ground arith)
]

-- A language is an accepted code or "auto", unless it is locked.
pub parse_lang-valid :
    (p : Preferences) (form : Form) (raw : RawTextQuery) (l : Text)
    → contains (codes "language") p.lock ≡ false
    → parse_lang p form raw ≡ ok l
    → is_language l ≡ true
unfolding parse_lang
parse_lang-valid p form raw l free h =
    let language = last_language raw.languages (lookup (codes "language") form) p.language in
    check_lang-valid language l (ground arith)
