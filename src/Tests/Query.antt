-- ===== src/Tests/Query.antt =====
-- Examples of the theorems on queries.
use opencode_optimised_tooli.Query.Commands.{call_parser, call_timeout, parse_timeout}
use opencode_optimised_tooli.Prelude.{
  [], any, codes, false, if◌then◌else◌, is_digit, map, none, refl, some, to_lower, ◌++◌, ◌-◌, ◌==◌,
  ◌||◌, ◌∷◌, ◌≡◌, list_eq, nat_eq, pair_eq, string_eq,
}
use opencode_optimised_tooli.Query.Types.{
  Unicode, Setup, RawTextQuery, new_query, all_digits, int_from,
}
use opencode_optimised_tooli.Query.Raw.{
  split_spaces, parse_query, get_full_query, words, parse_parts, parse_part, is_blank_part,
}
use opencode_optimised_tooli.Query.Raw.Refused.{is_none, is_refused, parse_query_refuses}
use opencode_optimised_tooli.Query.Raw.Laws.{
  Interleaves, parse_query-Interleaves, words-get_full_query,
}

abbrev pub ascii : Unicode
ascii = record {
  lower = map to_lower;
  upper = λ t. t;
  is_digit_char = is_digit;
  decimal = λ c. if is_digit c then some (c - 48) else none;
}

abbrev pub setup : Setup
setup = record {
  unicode = ascii;
  locales = [];
  languages = codes "en" ∷ [];
  engine_shortcuts = (codes "d", codes "ddg") ∷ [];
  engines = (codes "ddg", codes "general" ∷ []) ∷ [];
  categories = (codes "general", codes "ddg" ∷ []) ∷ [];
  has_bang = λ t. false;
  bang_completions = λ t. [];
}

abbrev pub bang_query : RawTextQuery
bang_query = elim (parse_query setup (codes "!d cat") []) [ none ↦ new_query [] [] | some q ↦ q ]

bang_query_parsed : parse_query setup (codes "!d cat") [] ≡ some bang_query
unfolding parse_query parse_parts split_spaces parse_part is_blank_part call_parser
bang_query_parsed = refl

parse_query-Interleaves_example :
    Interleaves bang_query.query_parts bang_query.user_query_parts (words (codes "!d cat"))
parse_query-Interleaves_example =
    parse_query-Interleaves setup (codes "!d cat") [] bang_query bang_query_parsed

words-get_full_query_example :
    words (get_full_query bang_query) ≡ bang_query.query_parts ++ bang_query.user_query_parts
words-get_full_query_example =
    words-get_full_query setup (codes "!d cat") [] bang_query bang_query_parsed

-- A superscript two is a digit for `isdigit`, and none for `int`.
abbrev superscript : Setup
superscript = record setup {
  unicode = record ascii { is_digit_char = λ c. is_digit c || (c == 0xB2) };
}

parse_query_refuses_example :
    is_none (parse_query superscript (codes "<²") [])
    ≡ any (is_refused superscript) (split_spaces (codes "<²"))
parse_query_refuses_example = parse_query_refuses superscript (codes "<²") []

superscript_refused : parse_query superscript (codes "<²") [] ≡ none
unfolding parse_query parse_parts split_spaces parse_part is_blank_part call_parser call_timeout
    parse_timeout all_digits int_from
superscript_refused = refl
