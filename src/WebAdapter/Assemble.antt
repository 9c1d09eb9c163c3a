-- ===== src/WebAdapter/Assemble.antt =====
-- webadapter.py: `get_search_query_from_webapp`.
pub mod Laws
use opencode_optimised_tooli.Prelude.{
  Dict, List, Option, Text, [], codes, contains, if◌then◌else◌, is_empty, lookup, none, not, some,
  ◌&&◌, ◌==◌, list_eq, nat_eq, pair_eq, string_eq,
}
use opencode_optimised_tooli.Query.Types.{EngineRef, Setup, RawTextQuery}
use opencode_optimised_tooli.Query.Raw.{parse_query, get_query}
use opencode_optimised_tooli.WebAdapter.Types.{
  Fault, parameter_error, value_error, Result, ok, fault, ◌>>=◌, Seconds, Form, Preferences,
  SearchQuery,
}
use opencode_optimised_tooli.WebAdapter.Fields.{
  parse_pageno, parse_safesearch, parse_time_range, parse_timeout, parse_lang,
}
use opencode_optimised_tooli.WebAdapter.Engines.{
  deduplicate_engineref_list, parse_engine_data, parse_generic, Validated, validate_engineref_list,
}

-- `if query_lang == 'auto': query_lang = preferences.client.locale_tag or 'all'`
abbrev pub or_all : Option Text → Text
or_all none = codes "all"
or_all (some tag) = if is_empty tag then codes "all" else tag

abbrev pub resolve_auto : Preferences → Text → Text
resolve_auto preferences query_lang =
    if query_lang == codes "auto" then or_all preferences.client_locale_tag else query_lang

module _ (setup : Setup) (seconds : Seconds) (engine_tokens : Dict Text (List Text)) where
  -- The returned tuple.
  pub record Assembled : Type 0 where
    pub search_query : SearchQuery seconds.T
    pub raw_text_query : RawTextQuery
    pub unknown : List EngineRef
    pub no_token : List EngineRef
    pub selected_locale : Text

  abbrev pub raw_query : Text → List EngineRef → Result RawTextQuery
  raw_query q disabled_engines = elim (parse_query setup q disabled_engines) [
    | none ↦ fault value_error
    | some raw ↦ ok raw
  ]

  unfoldable pub choose_engines :
      Preferences → Form → RawTextQuery → Result (Validated setup engine_tokens)
  choose_engines preferences form raw = do
    refs ←
        (if not (contains (codes "categories") preferences.lock) && raw.specific
          then ok raw.enginerefs
          else parse_generic setup preferences form preferences.disabled_engines)
    ok (validate_engineref_list setup engine_tokens (deduplicate_engineref_list refs) preferences)

  abbrev pub text_field : Option Text → Text
  text_field none = []
  text_field (some q) = q

  -- The steps for a query that is not empty.
  unfoldable pub assemble : Preferences → Form → Text → Result Assembled
  assemble preferences form q = do
    raw ← raw_query q preferences.disabled_engines
    pageno ← parse_pageno setup form
    safesearch ← parse_safesearch setup preferences form
    time_range ← parse_time_range form
    timeout ← parse_timeout seconds form raw
    engine_data ← parse_engine_data form
    lang ← parse_lang preferences form raw
    refs ← choose_engines preferences form raw
    ok (record {
      search_query = record {
        query = get_query raw;
        engineref_list = refs.valid;
        lang = resolve_auto preferences lang;
        safesearch = safesearch;
        pageno = pageno;
        time_range = time_range;
        timeout_limit = timeout;
        external_bang = raw.external_bang;
        engine_data = engine_data;
        redirect_to_first_result = raw.redirect_to_first_result;
      };
      raw_text_query = raw;
      unknown = refs.unknown;
      no_token = refs.no_token;
      selected_locale = lang;
    })

  unfoldable pub get_search_query : Preferences → Form → Result Assembled
  get_search_query preferences form =
      let q = text_field (lookup (codes "q") form) in
      if is_empty q then fault (parameter_error (codes "q") []) else assemble preferences form q
