-- ===== src/WebAdapter/Assemble/Laws.antt =====
-- `get_search_query_from_webapp`: what holds of each query that it returns.
use mathlib.Core.Path.{subst}
use opencode_optimised_tooli.Prelude.{
  none, refl, list_beq_iff, Option, ◌⊎◌, ◌==◌, All, All-keep, Bool, Bool-cases, Dict, List, Text,
  [], ap, arith, codes, contains, false, if◌then◌else◌, inl, inr, is_empty, keep, lookup, map, not,
  some, sym, true, ℕ, ◌&&◌, ◌∙◌, ◌∷◌, ◌≡◌, ◌≤◌, list_eq, nat_eq, pair_eq, string_eq,
}
use opencode_optimised_tooli.Query.Types.{EngineRef, Setup, RawTextQuery}
use opencode_optimised_tooli.WebAdapter.Types.{
  ok, fault, Gives, Gives-if, Gives-bind, Seconds, Form, Preferences, SearchQuery,
}
use opencode_optimised_tooli.WebAdapter.Fields.{
  parse_timeout, parse_pageno, parse_time_range, parse_lang, time_ranges, parse_safesearch,
}
use opencode_optimised_tooli.WebAdapter.Fields.Laws.{parse_pageno_outcomes}
use opencode_optimised_tooli.WebAdapter.Fields.Bounds.{
  parse_safesearch-le, parse_time_range-known, parse_lang-valid, is_language,
}
use opencode_optimised_tooli.WebAdapter.Engines.{
  parse_engine_data, deduplicate_engineref_list, parse_generic, validate_engineref_list,
}
use opencode_optimised_tooli.WebAdapter.Engines.Laws.{
  ref_key, AreDistinct, is_known, is_open, deduplicate_engineref_list-AreDistinct,
  validate_engineref_list_lem,
}
use opencode_optimised_tooli.WebAdapter.Assemble.{
  or_all, resolve_auto, Assembled, assemble, choose_engines, get_search_query, raw_query,
  text_field, parameter_error,
}

contains-keep :
    (k : Text) (p : EngineRef → Bool) (refs : List EngineRef)
    → contains k (map ref_key refs) ≡ false
    → contains k (map ref_key (keep p refs)) ≡ false
unfolding contains keep
contains-keep k p [] h = h
contains-keep k p (r ∷ refs) h = ground (arith, contains-keep k p refs)

AreDistinct-keep :
    (p : EngineRef → Bool) (refs : List EngineRef)
    → AreDistinct (map ref_key refs)
    → AreDistinct (map ref_key (keep p refs))
unfolding keep
AreDistinct-keep p [] h = tt
AreDistinct-keep p (r ∷ refs) (fresh, h) = elim (Bool-cases (p r)) [
  | inl e ↦ rw e (contains-keep (ref_key r) p refs fresh, AreDistinct-keep p refs h)
  | inr e ↦ rw e (AreDistinct-keep p refs h)
]

module _ (setup : Setup) (seconds : Seconds) (engine_tokens : Dict Text (List Text)) where
  -- The engines are known, open to the client's tokens and different.
  abbrev pub AreValid : Preferences → List EngineRef → Type 0
  AreValid p refs =
      All (λ r. (is_known setup engine_tokens r && is_open setup engine_tokens p r) ≡ true) refs
      × AreDistinct (map ref_key refs)

  abbrev pub IsSound : Preferences → SearchQuery seconds.T → Type 0
  IsSound p q =
      (1 ≤ q.pageno)
      × (q.safesearch ≤ 2)
      × ((t : Text) → q.time_range ≡ some t → contains t time_ranges ≡ true)
      × AreValid p q.engineref_list

  validated-AreValid :
      (p : Preferences) (refs : List EngineRef)
      → AreValid p
          (validate_engineref_list setup engine_tokens (deduplicate_engineref_list refs) p).valid
  validated-AreValid p refs =
      let valid =
        λ (r : EngineRef). is_known setup engine_tokens r && is_open setup engine_tokens p r in
      let distinct = (deduplicate_engineref_list-AreDistinct refs).0 in
      let checked = deduplicate_engineref_list refs in
      subst (λ v. AreValid p v.valid)
        (sym (validate_engineref_list_lem setup engine_tokens checked p))
        (All-keep valid checked, AreDistinct-keep valid checked distinct)

  choose_engines-AreValid :
      (p : Preferences) (form : Form) (raw : RawTextQuery)
      → Gives (λ v. AreValid p v.valid) (choose_engines setup seconds engine_tokens p form raw)
  unfolding choose_engines
  choose_engines-AreValid p form raw =
      Gives-bind (λ v. AreValid p v.valid)
        (if not (contains (codes "categories") p.lock) && raw.specific
          then ok raw.enginerefs
          else parse_generic setup p form p.disabled_engines)
        _ λ refs e. validated-AreValid p refs

  parse_pageno-pos : (form : Form) (n : ℕ) → parse_pageno setup form ≡ ok n → 1 ≤ n
  parse_pageno-pos form n h = elim (parse_pageno_outcomes setup form) [
    | inl (m, pos, e) ↦ ground arith
    | inr (inl e) ↦ absurd (ground arith)
    | inr (inr (e, digits, refused)) ↦ absurd (ground arith)
  ]

  -- The language of a query is the selected one, or for "auto" the tag of the client, or "all".
  abbrev pub IsResolved : Preferences → Text → Text → Type 0
  IsResolved p selected lang =
      ((selected == codes "auto") ≡ false) × (lang ≡ selected)
      ⊎ ((selected ≡ codes "auto") × (p.client_locale_tag ≡ some lang) × (is_empty lang ≡ false))
      ⊎ ((selected ≡ codes "auto")
          × (lang ≡ codes "all")
          × ((p.client_locale_tag ≡ none) ⊎ (p.client_locale_tag ≡ some [])))

  or_all-cases :
      (tag : Option Text)
      → ((tag ≡ some (or_all tag)) × (is_empty (or_all tag) ≡ false))
        ⊎ ((or_all tag ≡ codes "all") × ((tag ≡ none) ⊎ (tag ≡ some [])))
  or_all-cases none = inr (refl, inl refl)
  or_all-cases (some []) = inr (refl, inr refl)
  or_all-cases (some (c ∷ tag)) = inl (refl, refl)

  resolve_auto-IsResolved :
      (p : Preferences) (selected : Text) → IsResolved p selected (resolve_auto p selected)
  resolve_auto-IsResolved p selected = elim (Bool-cases (selected == codes "auto")) [
    | inl same ↦
        let auto = (list_beq_iff selected (codes "auto")).0 same in
        elim (or_all-cases p.client_locale_tag) [
          | inl (e, shown) ↦ rw same (inr (inl (auto, e, shown)))
          | inr (e, blank) ↦ rw same (inr (inr (auto, e, blank)))
        ]
    | inr other ↦ rw other (inl (refl, refl))
  ]

  -- The query's language is the resolved one; the selected one is an accepted code or "auto", unless
  -- it is locked.
  abbrev pub IsGood : Preferences → Assembled setup seconds engine_tokens → Type 0
  IsGood p a =
      IsSound p a.search_query
      × IsResolved p a.selected_locale a.search_query.lang
      × (contains (codes "language") p.lock ≡ false → is_language a.selected_locale ≡ true)

  assemble-IsGood :
      (p : Preferences) (form : Form) (q : Text)
      → p.safesearch ≤ 2
      → Gives (IsGood p) (assemble setup seconds engine_tokens p form q)
  unfolding assemble
  assemble-IsGood p form q locked =
      Gives-bind (IsGood p) (raw_query setup seconds engine_tokens q p.disabled_engines) _ λ raw e1.
        Gives-bind (IsGood p) (parse_pageno setup form) _ λ pageno e2.
          Gives-bind (IsGood p) (parse_safesearch setup p form) _ λ safesearch e3.
            Gives-bind (IsGood p) (parse_time_range form) _ λ time_range e4.
              Gives-bind (IsGood p) (parse_timeout seconds form raw) _ λ timeout e5.
                Gives-bind (IsGood p) (parse_engine_data form) _ λ engine_data e6.
                  Gives-bind (IsGood p) (parse_lang p form raw) _ λ lang e7.
                    Gives-bind (IsGood p) (choose_engines setup seconds engine_tokens p form raw) _
                      λ refs e8. (
                        (
                          parse_pageno-pos form pageno e2,
                          parse_safesearch-le setup p form safesearch locked e3,
                          (λ t e. parse_time_range-known form t (e4 ∙ ap ok e)),
                          subst (Gives (λ v. AreValid p v.valid)) e8
                              (choose_engines-AreValid p form raw),
                        ),
                        resolve_auto-IsResolved p lang,
                        λ free. parse_lang-valid p form raw lang free e7,
                      )

  -- If the preference for safe search is at most 2, then each query that is returned has a page
  -- from 1 on, safe search at most 2, no other time range than the four, and engines that are
  -- known, open to the client's tokens and different. The selected language is an accepted code or
  -- "auto", unless the preferences lock it; the language of the query is the selected one, but for
  -- "auto" the tag of the client, and "all" if that is missing or empty.
  pub get_search_query-IsGood :
      (p : Preferences) (form : Form) (a : Assembled setup seconds engine_tokens)
      → p.safesearch ≤ 2
      → get_search_query setup seconds engine_tokens p form ≡ ok a
      → IsGood p a
  unfolding get_search_query
  get_search_query-IsGood p form a locked h =
      let q = text_field setup seconds engine_tokens (lookup (codes "q") form) in
      subst (Gives (IsGood p)) h (
        Gives-if (IsGood p) (is_empty q) (fault (parameter_error (codes "q") []))
          (assemble setup seconds engine_tokens p form q) tt (assemble-IsGood p form q locked))
