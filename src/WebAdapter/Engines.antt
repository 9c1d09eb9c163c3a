-- ===== src/WebAdapter/Engines.antt =====
-- webadapter.py: the categories and engines of a search.
pub mod Laws
use opencode_optimised_tooli.Prelude.{
  Bool, Dict, List, Option, Text, [], any, codes, contains, false, has_key, has_prefix,
  if◌then◌else◌, insert, keep, lookup, none, not, snoc, some, split_on, strip, suc, true, values,
  zero, ℕ, ◌++◌, ◌==◌, ◌∷◌, list_eq, nat_eq, pair_eq, string_eq,
}
use opencode_optimised_tooli.Query.Types.{EngineRef, Setup}
use opencode_optimised_tooli.Query.Commands.{category_refs}
use opencode_optimised_tooli.WebAdapter.Types.{
  Fault, value_error, key_error, index_error, Result, ok, fault, ◌>>=◌, Form, Preferences,
}

-- `engineref_dict`: a later reference takes the place of an equal one.
unfoldable pub index_refs : List EngineRef → Dict Text EngineRef → Dict Text EngineRef
index_refs [] d = d
index_refs (q ∷ rest) d = index_refs rest (insert (q.1 ++ b'|' ∷ q.0) q d)

unfoldable pub deduplicate_engineref_list : List EngineRef → List EngineRef
deduplicate_engineref_list engineref_list = values (index_refs engineref_list [])

-- `l.remove(x)`
unfoldable pub remove_first : Text → List Text → List Text
remove_first x [] = []
remove_first x (y ∷ ys) = let later = remove_first x ys in if y == x then ys else y ∷ later

unfoldable pub strip_all : List Text → List Text
strip_all [] = []
strip_all (t ∷ ts) = strip t ∷ strip_all ts

-- `s[n:]`
unfoldable pub drop : ℕ → Text → Text
drop zero s = s
drop (suc n) [] = []
drop (suc n) (c ∷ s) = drop n s

-- `engine_data[engine][key] = v`
abbrev pub or_nothing : Option (Dict Text Text) → Dict Text Text
or_nothing none = []
or_nothing (some d) = d

-- The parts of the name of a field `engine_data-<engine>-<key>`; another number of them is a
-- ValueError.
unfoldable pub put_engine_data :
    List Text → Text → Dict Text (Dict Text Text) → Result (Dict Text (Dict Text Text))
put_engine_data (head ∷ engine ∷ key ∷ []) v d =
    ok (insert engine (insert key v (or_nothing (lookup engine d))) d)
put_engine_data parts v d = fault value_error

unfoldable pub put_all_engine_data :
    Form → Dict Text (Dict Text Text) → Result (Dict Text (Dict Text Text))
put_all_engine_data [] d = ok d
put_all_engine_data ((k, v) ∷ rest) d =
    (if has_prefix (codes "engine_data") k then put_engine_data (split_on b'-' k) v d else ok d)
    >>= put_all_engine_data rest

unfoldable pub parse_engine_data : Form → Result (Dict Text (Dict Text Text))
parse_engine_data form = put_all_engine_data form []

module _ (setup : Setup) where
  abbrev is_category : Text → Bool
  is_category c = has_key c setup.categories

  unfoldable pub parse_category_form : List Text → Text → Text → List Text
  parse_category_form query_categories name value =
      if name == codes "categories"
      then query_categories ++ keep is_category (strip_all (split_on b',' value))
      else if has_prefix (codes "category_") name
      then (let category = drop 9 name in
          if not (is_category category)
          then query_categories
          else if not (value == codes "off")
          then snoc query_categories category
          else remove_first category query_categories)
      else query_categories

  unfoldable pub parse_categories : Form → List Text → List Text
  parse_categories [] selected = selected
  parse_categories ((name, value) ∷ rest) selected =
      parse_categories rest (parse_category_form selected name value)

  abbrev pub or_else : List Text → List Text → List Text
  or_else [] other = other
  or_else (x ∷ xs) other = x ∷ xs

  -- Without a form (`none`) only the preferences are asked.
  unfoldable pub get_selected_categories : Preferences → Option Form → List Text
  get_selected_categories preferences form =
      let selected : List Text =
        if contains (codes "categories") preferences.lock
        then []
        else elim form [ none ↦ [] | some f ↦ parse_categories f [] ] in
      or_else (or_else selected preferences.categories) (codes "general" ∷ [])

  -- A category that does not exist is a KeyError.
  unfoldable pub get_engineref_from_category_list :
      List Text → List EngineRef → Result (List EngineRef)
  get_engineref_from_category_list [] disabled_engines = ok []
  get_engineref_from_category_list (categ ∷ rest) disabled_engines =
      let later = get_engineref_from_category_list rest disabled_engines in
      elim (lookup categ setup.categories) [
        | none ↦ fault key_error
        | some names ↦ later >>= λ refs. ok (category_refs disabled_engines categ names ++ refs)
      ]

  -- The engines of the field "engines", with their first categories; an engine without any is an
  -- IndexError.
  unfoldable pub named_engines : List Text → Result (List EngineRef)
  named_engines [] = ok []
  named_engines (name ∷ rest) =
      let later = named_engines rest in
      elim (lookup name setup.engines) [
        | none ↦ later
        | some [] ↦ fault index_error
        | some (category ∷ more) ↦ later >>= λ refs. ok ((name, category) ∷ refs)
      ]

  -- The variables of the loop of `parse_generic`.
  pub record Selection : Type 0 where
    pub engineref_list : List EngineRef
    pub query_categories : List Text
    pub explicit_engine_list : Bool

  unfoldable pub add_engines : Selection → List EngineRef → Selection
  add_engines s [] = s
  add_engines s (r ∷ rs) = record s {
    engineref_list = s.engineref_list ++ r ∷ rs;
    explicit_engine_list = true;
  }

  unfoldable pub read_fields : Form → Selection → Result Selection
  read_fields [] s = ok s
  read_fields ((pd_name, pd) ∷ rest) s =
      (if pd_name == codes "engines"
        then (named_engines (strip_all (split_on b',' pd)) >>= λ refs. ok (add_engines s refs))
        else ok (record s { query_categories = parse_category_form s.query_categories pd_name pd }))
      >>= read_fields rest

  -- What follows the loop.
  unfoldable pub complete_selection :
      Preferences → List EngineRef → Selection → Result (List EngineRef)
  complete_selection preferences disabled_engines s =
      let categories =
        if s.explicit_engine_list
        then s.query_categories
        else or_else s.query_categories (get_selected_categories preferences none) in
      get_engineref_from_category_list categories disabled_engines >>= λ refs.
      ok (s.engineref_list ++ refs)

  unfoldable pub parse_generic : Preferences → Form → List EngineRef → Result (List EngineRef)
  parse_generic preferences form disabled_engines =
      let start : Selection = record {
        engineref_list = [];
        query_categories = [];
        explicit_engine_list = false;
      } in
      (if contains (codes "categories") preferences.lock then ok start else read_fields form start)
      >>= complete_selection preferences disabled_engines

  -- `Preferences.validate_token`: an engine without tokens is open to all.
  module _ (engine_tokens : Dict Text (List Text)) where
    unfoldable pub validate_token : Preferences → Text → Bool
    validate_token preferences name = elim (lookup name engine_tokens) [
      | none ↦ true
      | some [] ↦ true
      | some (t ∷ ts) ↦ any (λ token. contains token (t ∷ ts)) preferences.tokens
    ]

    -- The three lists: valid, unknown, and without a token.
    pub record Validated : Type 0 where
      pub valid : List EngineRef
      pub unknown : List EngineRef
      pub no_token : List EngineRef

    unfoldable pub validate_engineref_list : List EngineRef → Preferences → Validated
    validate_engineref_list [] preferences = record { valid = []; unknown = []; no_token = [] }
    validate_engineref_list (r ∷ rest) preferences =
        let v = validate_engineref_list rest preferences in
        if not (has_key r.0 setup.engines)
        then record v { unknown = r ∷ v.unknown }
        else if not (validate_token preferences r.0)
        then record v { no_token = r ∷ v.no_token }
        else record v { valid = r ∷ v.valid }
