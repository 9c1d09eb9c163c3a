-- ===== src/Tests/Results.antt =====
-- Examples of the theorems on results, on a small container.
use opencode_optimised_tooli.Prelude.{
  All, List, String, [], codes, false, get_elem?, has_key, insert, length, lookup, ltb, none, refl,
  some, suc, true, ℕ, ◌*◌, ◌+◌, ◌/◌, ◌∷◌, ◌≡◌, list_eq, nat_eq, pair_eq, string_eq,
}
use mathlib.Core.List.{Perm}
use opencode_optimised_tooli.Results.Types.{MainResult, Float, ParsedUrl, normal}
use opencode_optimised_tooli.Results.Infobox.{Link}
use opencode_optimised_tooli.Results.Normalize.{UrlLib}
use opencode_optimised_tooli.Results.Container.{
  Env, Engine, Incoming, main_result, ResultContainer, new_container, extend,
}
use opencode_optimised_tooli.Results.Container.Laws.{results_of}
use opencode_optimised_tooli.Results.Container.Keyed.{IsKeyed, extend-Keyed}
use opencode_optimised_tooli.Results.Grouping.{Group, group_results, place, place_all, append_group}
use opencode_optimised_tooli.Results.Grouping.Laws.{group_results-perm}
use opencode_optimised_tooli.Results.Grouping.Adjacent.{place_joins_behind_same, grouped}
use opencode_optimised_tooli.Results.Ordered.{get_ordered_results}
use opencode_optimised_tooli.Results.Ordered.Stable.{
  Op, op_extend, op_close, op_order, run_ops, get_ordered_results_stable,
}

-- Scores that are natural numbers.
abbrev naturals : Float
naturals = record {
  F = ℕ;
  zero = 0;
  of_ℕ = λ n. n;
  add = λ m n. m + n;
  mul = λ m n. m * n;
  div = λ m n. m / n;
  below = ltb;
}

abbrev parsed : String → ParsedUrl
parsed s = record { scheme = []; netloc = s; path = ""; params = ""; query = ""; fragment = "" }

abbrev url_lib : UrlLib
url_lib = record { urlparse = λ s. some (parsed s); geturl = λ u. u.netloc; idna = λ s. some s }

abbrev ddg : Engine ℕ
ddg = record {
  name = "ddg";
  weight = some 2;
  paging = true;
  categories = "general" ∷ [];
  display_error_messages = true;
}

abbrev pub env : Env
env = record {
  floats = naturals;
  urls = url_lib;
  hash = λ s. length (codes s);
  engines = ("ddg", ddg) ∷ [];
  on_answer = λ a. some a;
  on_main = λ r. some r;
  on_infobox = λ b. some b;
  on_text = λ s. some s;
}

abbrev page : String → MainResult ℕ
page url = record {
  is_legacy = false;
  url = some url;
  engine = "ddg";
  parsed_url = some (parsed url);
  template = "default.html";
  title = codes "a title";
  content = codes "some content";
  img_src = "";
  thumbnail = "";
  priority = normal;
  engines = [];
  positions = [];
  score = 0;
  category = "";
  extra = [];
}

abbrev pub container : ResultContainer ℕ
container = new_container

abbrev incoming : List (Incoming ℕ)
incoming = main_result (page "a.org") ∷ main_result (page "bb.org") ∷ []

abbrev link : String → Link
link s = record { url = some s; entity = none }

extend-Keyed_example :
    All (IsKeyed env) (results_of env (extend env (some "ddg") incoming container))
    × ((k : ℕ)
        → has_key k container.main_results_map ≡ true
        → has_key k (results_of env (extend env (some "ddg") incoming container)) ≡ true)
extend-Keyed_example = extend-Keyed env (some "ddg") incoming container tt

-- Results that are their own categories.
abbrev own : String → String
own s = s

group_results-perm_example : Perm (group_results own ("a" ∷ "b" ∷ "a" ∷ [])) ("a" ∷ "b" ∷ "a" ∷ [])
group_results-perm_example = group_results-perm own ("a" ∷ "b" ∷ "a" ∷ [])

abbrev first_group : Group
first_group = record { index = 1; count = 8 }

place_joins_behind_same_example :
    (i : ℕ) × (r : String) × (own r ≡ own "a")
    × (get_elem? (place own (grouped own ("a" ∷ "b" ∷ [])) "a").gresults i ≡ some r)
    × (get_elem? (place own (grouped own ("a" ∷ "b" ∷ [])) "a").gresults (suc i) ≡ some "a")
unfolding lookup place_all place append_group insert
place_joins_behind_same_example =
    place_joins_behind_same own ("a" ∷ "b" ∷ []) "a" first_group refl refl

abbrev late : List (Op env)
late = op_extend (some "ddg") incoming ∷ op_close ∷ op_order ∷ []

get_ordered_results_stable_example :
    (get_ordered_results env (run_ops env late (get_ordered_results env container).0)).1
    ≡ (get_ordered_results env container).1
get_ordered_results_stable_example = get_ordered_results_stable env container late
