-- ===== src/Tests/Schema.antt =====
-- Examples of the theorems on the schema of the settings.
use opencode_optimised_tooli.Prelude.{
  inl, inr, Bool, Dict, Option, Text, [], codes, false, none, refl, some, true, ◌==◌, ◌∷◌, ◌≡◌,
  list_eq, nat_eq, pair_eq, string_eq, any, lookup,
}
use opencode_optimised_tooli.Tree.{
  Tree, Fields, scalar, dict, truth, integer, string, entry, get, put,
}
use opencode_optimised_tooli.Settings.Schema.{
  Keys, end, key, setting, section, kind, text, truth_value, whole, plain, is_instance,
  read_environ, overridden, given_or_default, fits, accepts, call, run, step, apply_schema,
}
use opencode_optimised_tooli.Settings.Schema.Typed.{
  tree_get, has, HasDistinctKeys, IsDistinctBelow, Becomes, IsOneOf, HasType, IsDict, Applied,
}
use opencode_optimised_tooli.Settings.Schema.Outcomes.{Promises, apply_schema_outcomes}

-- `==` on integers, which is all that the examples compare.
abbrev is_equal : Tree → Tree → Bool
is_equal (scalar (integer a m)) (scalar (integer b n)) = m == n
is_equal _ _ = false

abbrev no_struct : Text → Tree → Option Tree
no_struct name t = none

abbrev number : Tree
number = scalar (integer false 8888)

-- Two settings of the schema's section `server`.
abbrev server_keys : Keys
server_keys =
    key (codes "port")
      (setting (record {
        check = plain;
        type_definition = kind whole ∷ kind text ∷ [];
        default = scalar (integer false 8888);
        environ_name = some (codes "SEARXNG_PORT");
      }))
      (key (codes "limiter")
        (setting (record {
          check = plain;
          type_definition = kind truth_value ∷ [];
          default = scalar (truth false);
          environ_name = some (codes "SEARXNG_LIMITER");
        }))
        end)

abbrev schema : Keys
schema = key (codes "server") (section server_keys) (key (codes "networks") (section end) end)

abbrev environ : Dict Text Text
environ = (codes "SEARXNG_LIMITER", codes "ON") ∷ []

abbrev user : Fields
user = entry (codes "x") (scalar (truth true)) (
    entry (codes "server") (dict (entry (codes "port") (scalar (string (codes "80"))) Fields.empty))
      Fields.empty)

abbrev result : Tree
result = dict (
    entry (codes "x") (scalar (truth true)) (
      entry (codes "server")
        (dict (
          entry (codes "port") (scalar (string (codes "80")))
            (entry (codes "limiter") (scalar (truth true)) Fields.empty)))
        (entry (codes "networks") (dict Fields.empty) Fields.empty)))

schema-HasDistinctKeys : HasDistinctKeys schema
unfolding HasDistinctKeys IsDistinctBelow has
schema-HasDistinctKeys = (refl, (refl, tt, (refl, tt, tt)), (refl, tt, tt))

apply_schema_example :
    apply_schema is_equal environ (λ t. false) no_struct (dict user) schema ≡ some result
unfolding apply_schema run step call accepts fits any is_instance read_environ overridden
    given_or_default get put lookup
apply_schema_example = refl

apply_schema_outcomes_example :
    Promises is_equal environ
      (λ t. false)
      no_struct
      schema
      (dict user)
      (apply_schema is_equal environ (λ t. false) no_struct (dict user) schema)
apply_schema_outcomes_example =
    apply_schema_outcomes is_equal environ (λ t. false) no_struct schema (dict user)
      schema-HasDistinctKeys

-- A wrong value is refused.
refused :
    apply_schema is_equal []
      (λ t. false)
      no_struct
      (dict (entry (codes "limiter") (scalar (string (codes "maybe"))) Fields.empty))
      server_keys
    ≡ none
unfolding apply_schema run step call accepts fits any is_instance read_environ overridden
    given_or_default get put lookup
refused = refl

-- What is returned has the schema applied.
result-Applied : Applied is_equal environ (λ t. false) no_struct schema (dict user) result
unfolding Applied Becomes HasType IsOneOf IsDict tree_get call accepts fits any is_instance
    read_environ overridden given_or_default get lookup
result-Applied = (
  tt,
  (_, refl, (tt, (_, refl, (refl, inr (inl refl))), (tt, (_, refl, (refl, inl refl)), tt))),
  (tt, (_, refl, tt), tt),
)

-- After an error the later sections are left out: `server` gets no values.
abbrev wrong : Tree
wrong = dict (entry (codes "limiter") (scalar (string (codes "maybe"))) Fields.empty)

section_left_out :
    run is_equal []
      (λ t. false)
      no_struct
      (key
        (codes "limiter")
        (setting (record {
          check = plain;
          type_definition = kind truth_value ∷ [];
          default = scalar (truth false);
          environ_name = none;
        }))
        (key (codes "server") (section server_keys) end))
      wrong
      false
    ≡ some (wrong, true)
unfolding run step call accepts fits any is_instance overridden given_or_default get
section_left_out = refl
