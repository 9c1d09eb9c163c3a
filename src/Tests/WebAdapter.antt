-- ===== src/Tests/WebAdapter.antt =====
-- Examples of the theorems on the requests of the web application and on bangs.
use opencode_optimised_tooli.Query.Commands.{call_parser}
use opencode_optimised_tooli.Query.Raw.{
  parse_query, parse_parts, split_spaces, parse_part, is_blank_part, append_part, get_query,
}
use opencode_optimised_tooli.Prelude.{
  All, insert, Text, [], add_new, any, arith, codes, contains, drop_spaces, false, has_key,
  has_prefix, insert, join_on, keep, lookup, none, refl, some, split_on, strip, true, ℕ, ◌++◌, ◌↔◌,
  ◌∷◌, ◌≡◌, ◌≤◌, ◌⊎◌, list_eq, nat_eq, pair_eq, string_eq,
}
use opencode_optimised_tooli.Query.Types.{
  EngineRef, new_query, is_digits, int_of, all_digits, int_from, valid_language_code,
}
use opencode_optimised_tooli.WebAdapter.Types.{
  SearchQuery, ok, Seconds, Form, Preferences, fault, value_error, parameter_error,
}
use opencode_optimised_tooli.WebAdapter.Fields.{
  parse_pageno, or_one, parse_lang, check_lang, last_language, parse_time_range, check_time_range,
  check_timeout, choose_timeout, parse_timeout, parse_safesearch, choose_safesearch,
  check_safesearch,
}
use opencode_optimised_tooli.WebAdapter.Fields.Laws.{parse_pageno_outcomes}
use opencode_optimised_tooli.WebAdapter.Engines.{
  deduplicate_engineref_list, validate_engineref_list, add_engines, complete_selection, drop,
  get_engineref_from_category_list, get_selected_categories, index_refs, named_engines,
  parse_categories, parse_category_form, parse_engine_data, parse_generic, put_all_engine_data,
  put_engine_data, read_fields, remove_first, strip_all, validate_token,
}
use opencode_optimised_tooli.WebAdapter.Engines.Laws.{
  HasNoRepeats, deduplicate_engineref_list_keeps,
}
use opencode_optimised_tooli.WebAdapter.Assemble.{
  Assembled, get_search_query, assemble, choose_engines,
}
use opencode_optimised_tooli.WebAdapter.Assemble.Laws.{IsGood, get_search_query-IsGood}
use opencode_optimised_tooli.ExternalBang.{
  Urls, get_bang_url, leaf, branch, Children, nil, child, leaf_key, get_bang_definition_and_ac, get,
  url_from, redirect, get_node, walk, step, found, resolve_bang_definition, resolve_parts,
  replace_mark,
}
use opencode_optimised_tooli.ExternalBang.Redirect.{Resolves, get_bang_url-Spells}
use opencode_optimised_tooli.ExternalBang.Laws.{
  Spells, IsTrie, IsPrefixFree, get_bang_definition_and_ac-Spells,
}
use opencode_optimised_tooli.Tests.Query.{setup}

abbrev seconds : Seconds
seconds = record { T = ℕ; of_milliseconds = λ n. n; parse = λ t. none }

abbrev preferences : Preferences
preferences = record {
  lock = [];
  language = codes "auto";
  safesearch = 1;
  categories = codes "general" ∷ [];
  disabled_engines = [];
  tokens = [];
  client_locale_tag = none;
}

abbrev second_page : Form
second_page = (codes "q", codes "!d cat") ∷ (codes "pageno", codes "2") ∷ []

abbrev page_zero : Form
page_zero = (codes "q", codes "cat") ∷ (codes "pageno", codes "0") ∷ []

abbrev ddg : EngineRef
ddg = (codes "ddg", codes "general")

abbrev other : EngineRef
other = (codes "gone", codes "general")

parse_pageno_outcomes_example :
    ((n : ℕ) × (1 ≤ n) × (parse_pageno setup page_zero ≡ ok n))
    ⊎ ((parse_pageno setup page_zero
          ≡ fault (parameter_error (codes "pageno") (or_one (lookup (codes "pageno") page_zero))))
        ⊎ ((parse_pageno setup page_zero ≡ fault value_error)
            × (is_digits setup.unicode (or_one (lookup (codes "pageno") page_zero)) ≡ true)
            × (int_of setup.unicode (or_one (lookup (codes "pageno") page_zero)) ≡ none)))
parse_pageno_outcomes_example = parse_pageno_outcomes setup page_zero

deduplicate_engineref_list_keeps_example :
    HasNoRepeats (deduplicate_engineref_list (ddg ∷ other ∷ ddg ∷ []))
    × All
        (λ r. contains r (deduplicate_engineref_list (ddg ∷ other ∷ ddg ∷ [])) ≡ true)
        (ddg ∷ other ∷ ddg ∷ [])
    × All
        (λ r. contains r (ddg ∷ other ∷ ddg ∷ []) ≡ true)
        (deduplicate_engineref_list (ddg ∷ other ∷ ddg ∷ []))
unfolding contains
deduplicate_engineref_list_keeps_example =
    deduplicate_engineref_list_keeps (ddg ∷ other ∷ ddg ∷ []) (refl, (refl, (refl, tt)))

-- With a `|` in a category two references may share a key, and one of them goes lost.
one_goes_lost :
    deduplicate_engineref_list ((codes "z", codes "x|y") ∷ (codes "y|z", codes "x") ∷ [])
    ≡ (codes "y|z", codes "x") ∷ []
unfolding deduplicate_engineref_list index_refs insert
one_goes_lost = refl

refused :
    get_search_query setup seconds [] preferences page_zero
    ≡ fault (parameter_error (codes "pageno") (codes "0"))
unfolding get_search_query lookup assemble parse_query parse_parts split_spaces parse_part
    is_blank_part call_parser parse_pageno all_digits int_from
refused = refl

-- "//ddg.gg/", the mark of the query, and the rank
abbrev pub ddg_definition : Text
ddg_definition = codes "//ddg.gg/" ++ 2 ∷ 1 ∷ codes "5"

abbrev pub bangs : Children
bangs =
    child (codes "d")
      (branch (child leaf_key (leaf ddg_definition) (child (codes "b") (leaf (codes "db")) nil)))
      nil

abbrev sound_form : Form
sound_form = (codes "q", codes "cat") ∷ (codes "pageno", codes "2") ∷ []

abbrev nothing : Assembled setup seconds []
nothing = record {
  search_query = record {
    query = [];
    engineref_list = [];
    lang = [];
    safesearch = 0;
    pageno = 1;
    time_range = none;
    timeout_limit = none;
    external_bang = none;
    engine_data = [];
    redirect_to_first_result = false;
  };
  raw_text_query = new_query [] [];
  unknown = [];
  no_token = [];
  selected_locale = [];
}

abbrev answered : Assembled setup seconds []
answered = elim (get_search_query setup seconds [] preferences sound_form) [
  | ok a ↦ a
  | fault e ↦ nothing
]

answered_lem : get_search_query setup seconds [] preferences sound_form ≡ ok answered
unfolding get_search_query lookup assemble parse_query parse_parts split_spaces parse_part
    is_blank_part call_parser parse_pageno all_digits int_from contains parse_time_range has_key
    insert add_new any keep drop_spaces has_prefix join_on split_on strip append_part get_query
    choose_engines add_engines complete_selection deduplicate_engineref_list drop
    get_engineref_from_category_list get_selected_categories index_refs named_engines
    parse_categories parse_category_form parse_engine_data parse_generic put_all_engine_data
    put_engine_data read_fields remove_first strip_all validate_engineref_list validate_token
    check_lang check_time_range check_timeout choose_timeout last_language parse_lang parse_timeout
    parse_safesearch choose_safesearch check_safesearch valid_language_code
answered_lem = refl

get_search_query-IsGood_example : IsGood setup seconds [] preferences answered
get_search_query-IsGood_example =
    get_search_query-IsGood setup seconds [] preferences sound_form answered (omega arith)
      answered_lem

abbrev after_d : Children
after_d = child leaf_key (leaf ddg_definition) (child (codes "b") (leaf (codes "db")) nil)

after_d-IsPrefixFree : IsPrefixFree after_d
unfolding get
after_d-IsPrefixFree [] rest c next h = refl
after_d-IsPrefixFree (a ∷ []) rest c next h = absurd (ground arith)
after_d-IsPrefixFree (a ∷ b ∷ key) rest c next h = absurd (ground arith)

bangs-IsPrefixFree : IsPrefixFree bangs
unfolding get
bangs-IsPrefixFree [] rest c next h = refl
bangs-IsPrefixFree (a ∷ []) rest c next h = absurd (ground arith)
bangs-IsPrefixFree (a ∷ b ∷ key) rest c next h = absurd (ground arith)

pub bangs-IsTrie : IsTrie (branch bangs)
unfolding IsTrie
bangs-IsTrie = (bangs-IsPrefixFree, ((after_d-IsPrefixFree, (tt, (tt, tt))), tt))

get_bang_definition_and_ac-Spells_example :
    ((get_bang_definition_and_ac (branch bangs) (codes "d")).0 ≡ some (leaf ddg_definition))
    ↔ Spells (branch bangs) (codes "d") ddg_definition
get_bang_definition_and_ac-Spells_example =
    get_bang_definition_and_ac-Spells (branch bangs) (codes "d") ddg_definition bangs-IsTrie

abbrev pub urls : Urls
urls = record { quote_plus = λ t. t; urlparse = λ t. none; int = λ t. some 5 }

abbrev bang_search : SearchQuery ℕ
bang_search = record {
  query = codes "cat";
  engineref_list = [];
  lang = codes "all";
  safesearch = 0;
  pageno = 1;
  time_range = none;
  timeout_limit = none;
  external_bang = some (codes "d");
  engine_data = [];
  redirect_to_first_result = false;
}

redirected : get_bang_url urls bang_search (branch bangs) ≡ ok (some (codes "https://ddg.gg/cat"))
unfolding get_bang_url url_from redirect get_bang_definition_and_ac get_node walk step get found
    resolve_bang_definition resolve_parts split_on replace_mark has_prefix
redirected = refl

get_bang_url-Spells_example :
    (bang : Text) × (d : Text) × (bang_search.external_bang ≡ some bang)
    × Spells (branch bangs) bang d
    × Resolves urls d bang_search.query (codes "https://ddg.gg/cat")
get_bang_url-Spells_example =
    get_bang_url-Spells urls bang_search (branch bangs) (codes "https://ddg.gg/cat") bangs-IsTrie
      redirected
