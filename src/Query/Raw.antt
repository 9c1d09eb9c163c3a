-- ===== src/Query/Raw.antt =====
-- query.py: `RawTextQuery`, which splits the query and sorts its parts.
pub mod Words
pub mod Strip
pub mod Frame
pub mod Laws
pub mod Refused
use opencode_optimised_tooli.Prelude.{
  Bool, List, Option, Text, [], cons_first, false, if◌then◌else◌, is_empty, is_space, join_on,
  length, none, snoc, some, strip, suc, true, zero, ℕ, ◌&&◌, ◌++◌, ◌-◌, ◌∷◌, list_eq, nat_eq,
  pair_eq, string_eq,
}
use opencode_optimised_tooli.Query.Types.{EngineRef, Setup, RawTextQuery, new_query}
use opencode_optimised_tooli.Query.Commands.{call_parser}

-- What a blank does to the parts of the rest: it starts a separator or lengthens the first one.
abbrev pub cons_blank : ℕ → List Text → List Text
cons_blank c ([] ∷ separator ∷ more) = [] ∷ (c ∷ separator) ∷ more
cons_blank c parts = [] ∷ (c ∷ []) ∷ parts

-- `re.split(r'(\s+)', s)`: words and separators take turns, beginning and ending with a word,
-- which may be empty.
unfoldable pub split_spaces : Text → List Text
split_spaces [] = [] ∷ []
split_spaces (c ∷ s) =
    let rest = split_spaces s in if is_space c then cons_blank c rest else cons_first c rest

-- `s.isspace() or s == ''`
unfoldable pub is_blank_part : Text → Bool
is_blank_part [] = true
is_blank_part (c ∷ s) = is_space c && is_blank_part s

-- Appending a part to `query_parts` (true) or `user_query_parts`.
unfoldable pub append_part : Bool → Text → RawTextQuery → RawTextQuery
append_part special part q =
    if special
    then record q {
      query_parts = snoc q.query_parts part;
      autocomplete_location = some (true, length q.query_parts);
    }
    else record q {
      user_query_parts = snoc q.user_query_parts part;
      autocomplete_location = some (false, length q.user_query_parts);
    }

module _ (setup : Setup) where
  -- A round of the loop; the last part may be completed.
  unfoldable pub parse_part : Bool → Text → RawTextQuery → Option RawTextQuery
  parse_part last part q =
      if is_blank_part part then some q else elim (call_parser setup last part q) [
        | none ↦ none
        | some (q', special) ↦ some (append_part special part q')
      ]

  unfoldable pub parse_parts : List Text → RawTextQuery → Option RawTextQuery
  parse_parts [] q = some q
  parse_parts (part ∷ rest) q = elim (parse_part (is_empty rest) part q) [
    | none ↦ none
    | some q' ↦ parse_parts rest q'
  ]

  -- `RawTextQuery(query, disabled_engines)`; `none` is a ValueError.
  unfoldable pub parse_query : Text → List EngineRef → Option RawTextQuery
  parse_query query disabled_engines =
      parse_parts (split_spaces query) (new_query query disabled_engines)

-- `getQuery`
unfoldable pub get_query : RawTextQuery → Text
get_query q = join_on b' ' q.user_query_parts

-- `getFullQuery`
unfoldable pub get_full_query : RawTextQuery → Text
get_full_query q = strip (join_on b' ' q.query_parts ++ b' ' ∷ get_query q)

-- `l[i] = v`
unfoldable pub set_at : List Text → ℕ → Text → List Text
set_at [] i v = []
set_at (x ∷ xs) zero v = v ∷ xs
set_at (x ∷ xs) (suc i) v = x ∷ set_at xs i v

-- `get_autocomplete_full_query`; a query without parts has no location, and raises a TypeError.
unfoldable pub get_autocomplete_full_query : Text → RawTextQuery → Option Text
get_autocomplete_full_query text q = elim q.autocomplete_location [
  | none ↦ none
  | some (special, i) ↦ some (
      get_full_query (
        if special
        then record q { query_parts = set_at q.query_parts i text }
        else record q { user_query_parts = set_at q.user_query_parts i text }))
]

-- `s.split()`: the words of a text.
unfoldable pub words : Text → List Text
words [] = []
words (c ∷ s) =
    let rest = words s in
    if is_space c then rest else elim s [
      | [] ↦ (c ∷ []) ∷ rest
      | d ∷ more ↦ if is_space d then (c ∷ []) ∷ rest else cons_first c rest
    ]

-- `changeQuery`; without words the location is -1, at which `get_autocomplete_full_query` fails as
-- at None.
unfoldable pub change_query : Text → RawTextQuery → RawTextQuery
change_query query q =
    let parts = words (strip query) in
    let changed = record q { user_query_parts = parts } in
    record changed {
      query = get_full_query changed;
      autocomplete_location = if is_empty parts then none else some (false, length parts - 1);
      autocomplete_list = [];
    }
