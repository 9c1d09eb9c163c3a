-- ===== src/WebAdapter/Fields/Laws.antt =====
-- webadapter.py: the outcomes of the page number.
use opencode_optimised_tooli.Prelude.{
  Bool-cases, Option-cases, arith, codes, inl, inr, lookup, ltb, none, refl, true, ℕ, ◌≡◌, ◌≤◌, ◌⊎◌,
  list_eq, nat_eq, pair_eq, string_eq,
}
use opencode_optimised_tooli.Query.Types.{Setup, is_digits, int_of}
use opencode_optimised_tooli.WebAdapter.Types.{parameter_error, value_error, ok, fault, Form}
use opencode_optimised_tooli.WebAdapter.Fields.{or_one, parse_pageno}

module _ (setup : Setup) where
  -- The three outcomes of the page number: a number from 1 on, a refusal that shows the field, or
  -- a ValueError for a text of digits that `int` does not read.
  pub parse_pageno_outcomes :
      (form : Form)
      → ((n : ℕ) × (1 ≤ n) × (parse_pageno setup form ≡ ok n))
        ⊎ ((parse_pageno setup form
              ≡ fault (parameter_error (codes "pageno") (or_one (lookup (codes "pageno") form))))
            ⊎ ((parse_pageno setup form ≡ fault value_error)
                × (is_digits setup.unicode (or_one (lookup (codes "pageno") form)) ≡ true)
                × (int_of setup.unicode (or_one (lookup (codes "pageno") form)) ≡ none)))
  unfolding parse_pageno
  parse_pageno_outcomes form =
      let p = or_one (lookup (codes "pageno") form) in
      elim (Bool-cases (is_digits setup.unicode p)) [
        | inr no_digits ↦ inr (inl (rw no_digits refl))
        | inl digits ↦ elim (Option-cases (int_of setup.unicode p)) [
          | inl e ↦ inr (inr (rw (digits, e) refl, digits, e))
          | inr (n, e) ↦ elim (Bool-cases (ltb n 1)) [
            | inl low ↦ inr (inl (rw (digits, e, low) refl))
            | inr high ↦ inl (n, ground arith, rw (digits, e, high) refl)
          ]
        ]
      ]
