-- ===== src/Query/Raw/Refused.antt =====
-- The queries that are refused: those with a timeout on which `int` or a division raises.
use opencode_optimised_tooli.Prelude.{
  ltb, leb, if◌then◌else◌, ◌*◌, ℕ, Bool, Bool-cases, List, Option, Option-cases, Text, [], any, ap,
  arith, false, inl, inr, is_empty, none, refl, some, sym, true, ◌&&◌, ◌==◌, ◌∙◌, ◌∷◌, ◌≡◌, list_eq,
  nat_eq, pair_eq, string_eq,
}
use opencode_optimised_tooli.Query.Types.{
  EngineRef, Setup, RawTextQuery, new_query, is_digits, int_of,
}
use opencode_optimised_tooli.Query.Commands.{float_limit, parse_timeout, call_timeout, call_parser}
use opencode_optimised_tooli.Query.Raw.{
  split_spaces, is_blank_part, parse_part, parse_parts, parse_query,
}

abbrev pub is_none {ℓ} : {A : Type ℓ} → Option A → Bool
is_none none = true
is_none (some a) = false

module _ (setup : Setup) where
  -- No integer, or one that is too large for a float.
  abbrev pub is_bad_value : Option ℕ → Bool
  is_bad_value none = true
  is_bad_value (some n) = leb float_limit n

  -- A timeout of characters that are digits, and that give no float.
  abbrev pub is_bad_number : Text → Bool
  is_bad_number s = is_digits setup.unicode s && is_bad_value (int_of setup.unicode s)

  abbrev pub is_refused : Text → Bool
  is_refused [] = false
  is_refused (c ∷ s) = (c == b'<') && is_bad_number s

  is_none-limit :
      (raw : ℕ) (q : RawTextQuery)
      → is_none {A = RawTextQuery × Bool} (
          if ltb raw 100
          then some (record q { timeout_limit = some (raw * 1000) }, true)
          else if leb float_limit raw
          then none
          else some (record q { timeout_limit = some raw }, true))
        ≡ leb float_limit raw
  unfolding float_limit
  is_none-limit raw q = ground arith

  is_none-parse_timeout :
      (s : Text) (q : RawTextQuery) → is_none (parse_timeout setup s q) ≡ is_bad_number s
  unfolding parse_timeout
  is_none-parse_timeout s q = elim (Bool-cases (is_digits setup.unicode s)) [
    | inr other ↦ rw other refl
    | inl digits ↦ elim (Option-cases (int_of setup.unicode s)) [
      | inl e ↦ rw (digits, e) refl
      | inr (n, e) ↦ rw (digits, e) (is_none-limit n q)
    ]
  ]

  is_none-call_timeout :
      (last : Bool) (s : Text) (q : RawTextQuery)
      → is_none (call_timeout setup last s q) ≡ is_bad_number s
  unfolding call_timeout
  is_none-call_timeout last [] q = refl
  is_none-call_timeout last (c ∷ s) q = is_none-parse_timeout (c ∷ s) q

  is_none-call_parser :
      (last : Bool) (part : Text) (q : RawTextQuery)
      → is_none (call_parser setup last part q) ≡ is_refused part
  unfolding call_parser
  is_none-call_parser last [] q = refl
  is_none-call_parser last (c ∷ []) q = ground (arith, is_none-call_timeout last [] q)
  is_none-call_parser last (c ∷ d ∷ more) q = ground (arith, is_none-call_timeout last (d ∷ more) q)

  blank-is_refused : (part : Text) → is_blank_part part ≡ true → is_refused part ≡ false
  unfolding is_blank_part
  blank-is_refused [] h = refl
  blank-is_refused (c ∷ part) h = ground arith

  is_none-parse_part :
      (last : Bool) (part : Text) (q : RawTextQuery)
      → is_none (parse_part setup last part q) ≡ is_refused part
  unfolding parse_part
  is_none-parse_part last part q = elim (Bool-cases (is_blank_part part)) [
    | inl blank ↦ rw (blank, blank-is_refused part blank) refl
    | inr shown ↦ elim (Option-cases (call_parser setup last part q)) [
      | inl e ↦ rw (shown, e) (ap is_none (sym e) ∙ is_none-call_parser last part q)
      | inr (r, e) ↦ rw (shown, e) (ap is_none (sym e) ∙ is_none-call_parser last part q)
    ]
  ]

  is_none-parse_parts :
      (parts : List Text) (q : RawTextQuery)
      → is_none (parse_parts setup parts q) ≡ any is_refused parts
  unfolding parse_parts any
  is_none-parse_parts [] q = refl
  is_none-parse_parts (part ∷ rest) q =
      let one = is_none-parse_part (is_empty rest) part q in
      elim (Option-cases (parse_part setup (is_empty rest) part q)) [
        | inl e ↦
            let bad : is_refused part ≡ true = sym one ∙ ap is_none e in
            rw (e, bad, parse_parts) refl
        | inr (q', e) ↦
            let good : is_refused part ≡ false = sym one ∙ ap is_none e in
            rw (e, good, parse_parts) (is_none-parse_parts rest q')
      ]

  -- A query is refused, by an exception, exactly if one of its parts is a `<` before characters that
  -- are digits to `isdigit` and that `int` does not read (too many ones included), or reads as a
  -- number that is too large for a float; every other query is parsed.
  pub parse_query_refuses :
      (query : Text) (disabled_engines : List EngineRef)
      → is_none (parse_query setup query disabled_engines) ≡ any is_refused (split_spaces query)
  unfolding parse_query
  parse_query_refuses query disabled_engines =
      is_none-parse_parts (split_spaces query) (new_query query disabled_engines)
