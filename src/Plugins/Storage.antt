-- ===== src/Plugins/Storage.antt =====
-- plugins/_core.py: `PluginStorage`.
pub mod Loops
use Prim.Native.Char.{Char, code}
use opencode_optimised_tooli.Prelude.{
  Bool, List, Option, String, [], concat, contains, false, if◌then◌else◌, is_empty, is_space, keep,
  map, none, not, snoc, some, true, ℕ, ◌&&◌, ◌==◌, ◌||◌, ◌∷◌, list_eq, nat_eq, pair_eq, string_eq,
}
use opencode_optimised_tooli.Results.Container.{
  ResultContainer, Incoming, Outcome, done, raised, Env, extend,
}

-- An object of a plugin class: its address, and the results of its methods for one request, with
-- `none` for an exception. `pre_search` may change the search, `on_result` the result; `post_search`
-- reads the container (and returns [] for None).
pub record Plugin (S R F : Type 0) : Type 0 where
  pub address : ℕ
  pub id : String
  pub keywords : List String
  pub init : Bool
  pub pre_search : S → Option Bool × S
  pub on_result : R → Option Bool × R
  pub post_search : ResultContainer F → Option (List (Incoming F))

-- A method of a plugin, as a loop calls it.
abbrev pub Call : Type 0 → Type 0
Call T = T → Option Bool × T

abbrev pub after_call {ℓ} : {A : Type ℓ} → Option Bool → A → A → A → A
after_call none failed kept refused = failed
after_call (some true) failed kept refused = kept
after_call (some false) failed kept refused = refused

-- The loop of `pre_search` and of `on_result`: an exception leaves `ret` as it is, the first False
-- breaks.
unfoldable pub call_all : {T : Type 0} → Bool → List (Call T) → T → Bool × T
call_all ret [] s = (ret, s)
call_all ret (call ∷ calls) s =
    let (answer, s') = call s in
    let failed = call_all ret calls s' in
    let kept = call_all true calls s' in after_call answer failed kept (false, s')

-- `s.split()`: the words of a text.
abbrev pub starts_word : String → Bool
starts_word String.[] = false
starts_word (String.◌∷◌ c s) = not (is_space (code c))

abbrev pub cons_char : Char → List String → List String
cons_char c [] = String.◌∷◌ c "" ∷ []
cons_char c (word ∷ words) = String.◌∷◌ c word ∷ words

unfoldable pub split : String → List String
split String.[] = []
split (String.◌∷◌ c s) =
    let rest = split s in
    if is_space (code c)
    then rest
    else if starts_word s
    then cons_char c rest
    else String.◌∷◌ c "" ∷ rest

-- The loops `for keyword in query.split()`: the first word, or None.
abbrev pub first_word : List String → Option String
first_word [] = none
first_word (word ∷ words) = some word

module _ {S R F : Type 0} where
  -- The set `plugin_list`, in the order of its iteration: objects whose hash is their address.
  unfoldable pub is_held : Plugin S R F → List (Plugin S R F) → Bool
  is_held plugin [] = false
  is_held plugin (p ∷ plugin_list) = (p.address == plugin.address) || is_held plugin plugin_list

  -- `plugin in [p.id for p in self.plugin_list]`: a plugin is equal to what has the same hash.
  unfoldable pub is_among_ids : (String → ℕ) → Plugin S R F → List (Plugin S R F) → Bool
  is_among_ids hash plugin [] = false
  is_among_ids hash plugin (p ∷ plugin_list) =
      (plugin.address == hash p.id) || is_among_ids hash plugin plugin_list

  -- `register`; `none` is the KeyError.
  unfoldable pub register :
      (String → ℕ) → Plugin S R F → List (Plugin S R F) → Option (List (Plugin S R F))
  register hash plugin plugin_list =
      if is_among_ids hash plugin plugin_list
      then none
      else some (if is_held plugin plugin_list then plugin_list else snoc plugin_list plugin)

  unfoldable pub init : List (Plugin S R F) → List (Plugin S R F)
  init plugin_list = keep (λ p. p.init) plugin_list

  -- `[p for p in self.plugin_list if p.id in search.user_plugins]`
  unfoldable pub chosen : List String → List (Plugin S R F) → List (Plugin S R F)
  chosen user_plugins plugin_list = keep (λ p. contains p.id user_plugins) plugin_list

  unfoldable pub pre_search : List String → List (Plugin S R F) → S → Bool × S
  pre_search user_plugins plugin_list state =
      call_all true (map (λ p. p.pre_search) (chosen user_plugins plugin_list)) state

  unfoldable pub on_result : List String → List (Plugin S R F) → R → Bool × R
  on_result user_plugins plugin_list result =
      call_all true (map (λ p. p.on_result) (chosen user_plugins plugin_list)) result

  -- `plugin.keywords` and `keyword and keyword not in plugin.keywords`
  unfoldable pub is_skipped : Option String → Plugin S R F → Bool
  is_skipped none plugin = false
  is_skipped (some keyword) plugin =
      not (is_empty plugin.keywords) && not (contains keyword plugin.keywords)

-- `post_search`: an exception of a plugin is caught, one of `extend` is not.
module _ (env : Env) where
  abbrev pub Container : Type 0
  Container = ResultContainer env.floats.F

  abbrev pub after_extend : Outcome Container → (Container → Outcome Container) → Outcome Container
  after_extend (raised c) later = raised c
  after_extend (done c) later = later c

  abbrev pub hand_over :
      String → Option (List (Incoming env.floats.F)) → Container → Outcome Container
  hand_over id none c = done c
  hand_over id (some results) c = extend env (some (concat ("plugin: " ∷ id ∷ []))) results c

  unfoldable pub post_search_one :
      {S R : Type 0} → Option String → Plugin S R env.floats.F → Container → Outcome Container
  post_search_one keyword plugin c =
      if is_skipped keyword plugin then done c else hand_over plugin.id (plugin.post_search c) c

  unfoldable pub post_search_all :
      {S R : Type 0}
      → Option String
      → List (Plugin S R env.floats.F)
      → Container
      → Outcome Container
  post_search_all keyword [] c = done c
  post_search_all keyword (plugin ∷ plugins) c =
      after_extend (post_search_one keyword plugin c) (post_search_all keyword plugins)

  unfoldable pub post_search :
      {S R : Type 0}
      → String
      → List String
      → List (Plugin S R env.floats.F)
      → Container
      → Outcome Container
  post_search query user_plugins plugin_list c =
      post_search_all (first_word (split query)) (chosen user_plugins plugin_list) c
