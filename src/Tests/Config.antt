-- ===== src/Tests/Config.antt =====
-- Examples of the theorems on the limiter's configuration.
use opencode_optimised_tooli.Prelude.{
  contains, if◌then◌else◌, Option, none, some, Text, Bool, Text, [], codes, contains, false,
  join_on, none, refl, some, split_on, true, ◌≡◌, ◌⊎◌, list_eq, nat_eq, pair_eq, string_eq,
}
use opencode_optimised_tooli.Tree.{
  Tree, Fields, scalar, dict, entry, truth, string, get, type_of, scalar_type, put,
}
use opencode_optimised_tooli.Botdetection.Config.{
  Config, from_toml, validate, new_config, loaded, invalid_file, updated_value, get_value,
  set_value, replace_text, value, validate_fields, check_entry, value_at, update, dict_deepupdate,
  put_below, all_but_last, last_part,
}
use opencode_optimised_tooli.Botdetection.Config.Plain.{IsPlain}
use opencode_optimised_tooli.Botdetection.Config.Load.{from_toml_outcomes}
use opencode_optimised_tooli.Botdetection.Config.Access.{get_value-set_value}

abbrev ip_limit : Bool → Fields
ip_limit link_token = entry (codes "link_token") (scalar (truth link_token)) Fields.empty

abbrev schema : Fields
schema =
    entry (codes "botdetection")
      (dict (entry (codes "ip_limit") (dict (ip_limit false)) Fields.empty)) Fields.empty

abbrev limiter_toml : Fields
limiter_toml =
    entry (codes "botdetection")
      (dict (entry (codes "ip_limit") (dict (ip_limit true)) Fields.empty)) Fields.empty

limiter_toml-IsPlain : IsPlain limiter_toml
unfolding IsPlain contains get
limiter_toml-IsPlain = (refl, refl, (refl, refl, (refl, refl, tt, tt), tt), tt)

from_toml_outcomes_example :
    ((validate limiter_toml (new_config schema [])).0 ≡ false)
      × (from_toml schema (some limiter_toml) []
          ≡ invalid_file (validate limiter_toml (new_config schema [])).1)
    ⊎ ((validate limiter_toml (new_config schema [])).0 ≡ true)
      × (config : Config) × (from_toml schema (some limiter_toml) [] ≡ loaded config)
      × ((key : Text)
          → (get key limiter_toml ≡ none → get key config.cfg ≡ get key schema)
            × ((t : Tree)
                → get key limiter_toml ≡ some t
                → get key config.cfg ≡ updated_value (get key schema) t))
from_toml_outcomes_example = from_toml_outcomes schema [] limiter_toml limiter_toml-IsPlain

-- The file above is valid, and sets the switch.
abbrev with_link_token : Config
with_link_token = record { cfg_schema = schema; deprecated = []; cfg = limiter_toml }

file_is_loaded : from_toml schema (some limiter_toml) [] ≡ loaded with_link_token
unfolding from_toml validate validate_fields check_entry value value_at split_on join_on get type_of
    scalar_type update dict_deepupdate put
file_is_loaded = refl

-- What is no dictionary stays as it is.
below_a_value :
    value (codes "botdetection.ip_limit.link_token.xxx") schema ≡ some (scalar (truth false))
unfolding value value_at split_on get
below_a_value = refl

-- Formatting of texts without a percent sign; others are refused.
abbrev format : Config → Text → Option Tree
format config s = if contains b'%' s then none else some (scalar (string s))

get_value-set_value_example :
    get_value format (codes "botdetection.ip_limit.link_token") none with_link_token
    ≡ replace_text (format with_link_token) (scalar (truth true))
unfolding set_value put_below join_on all_but_last split_on get put last_part
get_value-set_value_example =
    get_value-set_value format (codes "botdetection.ip_limit.link_token") (scalar (truth true)) none
      (new_config schema []) with_link_token refl
