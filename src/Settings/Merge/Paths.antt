-- ===== src/Settings/Merge/Paths.antt =====
-- settings_loader.py: what `update_dict` leaves at the end of a path of keys.
use mathlib.Core.Option.{some_inj}
use mathlib.Core.Path.{subst}
use opencode_optimised_tooli.Prelude.{
  Bool-cases, List, Option, Text, [], ap, arith, inl, inr, none, refl, some, sym, ◌==◌, ◌∙◌, ◌∷◌,
  ◌≡◌, ◌≢◌, list_eq, nat_eq, pair_eq, string_eq,
}
use opencode_optimised_tooli.Tree.{Tree, Fields, scalar, items, dict, entry, get, as_dict, dict_of}
use opencode_optimised_tooli.Tree.Laws.{AreDistinct}
use opencode_optimised_tooli.Tree.Partial.{◌>>=◌, bind-some}
use opencode_optimised_tooli.Settings.Merge.{update_dict, merged_value}
use opencode_optimised_tooli.Settings.Merge.Laws.{get-update_dict, update_dict-takes}

-- The value at the end of a path of keys.
unfoldable pub at_path : List Text → Fields → Option Tree
at_path [] d = none
at_path (k ∷ []) d = get k d
at_path (k ∷ l ∷ path) d = as_dict (get k d) >>= at_path (l ∷ path)

-- No dictionary has a key twice, on any level.
unfoldable mutual
  pub AllDistinct : Fields → Type 0
  AllDistinct Fields.empty = Unit
  AllDistinct (entry key t rest) = (get key rest ≡ none) × AllBelow t × AllDistinct rest

  pub AllBelow : Tree → Type 0
  AllBelow (scalar s) = Unit
  AllBelow (items l) = Unit
  AllBelow (dict d) = AllDistinct d

AreDistinct-all : (d : Fields) → AllDistinct d → AreDistinct d
unfolding AllDistinct AreDistinct
AreDistinct-all Fields.empty all = tt
AreDistinct-all (entry key t rest) (fresh, below, all) = (fresh, AreDistinct-all rest all)

AllDistinct-get :
    (d : Fields) (key : Text) (b : Fields)
    → AllDistinct d
    → get key d ≡ some (dict b)
    → AllDistinct b
unfolding AllDistinct get
AllDistinct-get Fields.empty key b all there = absurd (ground arith)
AllDistinct-get (entry k t rest) key b (fresh, below, all) there = elim (Bool-cases (k == key)) [
  | inr apart ↦ AllDistinct-get rest key b all (ground arith)
  | inl same ↦ let t_eq : t ≡ dict b = ground arith in subst AllBelow t_eq below
]

merged_value-leaf :
    (held : Option Tree) (v : Tree) → as_dict (some v) ≡ none → merged_value held v ≡ some v
unfolding merged_value
merged_value-leaf held (scalar s) leaf = refl
merged_value-leaf held (items l) leaf = refl
merged_value-leaf held (dict d) leaf = absurd (ground arith)

dict_of-some :
    (o : Option Fields) (merged : Tree)
    → dict_of o ≡ some merged
    → (d : Fields) × (o ≡ some d) × (merged ≡ dict d)
dict_of-some none merged h = absurd (ground arith)
dict_of-some (some d) merged h = (d, refl, sym (some_inj.0 h))

at_path-empty : (path : List Text) (v : Tree) → at_path path Fields.empty ≢ some v
unfolding at_path get
at_path-empty [] v h = ground arith
at_path-empty (k ∷ []) v h = ground arith
at_path-empty (k ∷ l ∷ path) v h = ground arith

-- A dictionary with something in it is merged into a dictionary, or into nothing.
merged_value-dict :
    (held : Option Tree) (u : Fields) (merged : Tree) (path : List Text) (v : Tree)
    → merged_value held (dict u) ≡ some merged
    → at_path path u ≡ some v
    → (b d : Fields) × (update_dict b u ≡ some d) × (merged ≡ dict d)
unfolding merged_value
merged_value-dict none u merged path v h at =
    let (d, made, d_eq) = dict_of-some (update_dict Fields.empty u) merged h in
    (Fields.empty, d, made, d_eq)
merged_value-dict (some (dict b)) u merged path v h at =
    let (d, made, d_eq) = dict_of-some (update_dict b u) merged h in (b, d, made, d_eq)
merged_value-dict (some (scalar s)) Fields.empty merged path v h at =
    absurd (at_path-empty path v at)
merged_value-dict (some (scalar s)) (entry k t rest) merged path v h at = absurd (ground arith)
merged_value-dict (some (items l)) Fields.empty merged path v h at =
    absurd (at_path-empty path v at)
merged_value-dict (some (items l)) (entry k t rest) merged path v h at = absurd (ground arith)

as_dict-some : (o : Option Tree) (d : Fields) → as_dict o ≡ some d → o ≡ some (dict d)
as_dict-some none d h = absurd (ground arith)
as_dict-some (some (scalar s)) d h = absurd (ground arith)
as_dict-some (some (items l)) d h = absurd (ground arith)
as_dict-some (some (dict e)) d h = ap (λ x. some (dict x)) (some_inj.0 h)

-- For a user's dictionary in which no key is twice, on any level: when `update_dict` ends without an
-- exception, whatever stands in it at the end of a path of keys and is no dictionary itself stands
-- at the end of the same path of the result.
pub at_path-update_dict :
    (path : List Text) (user_dict default_dict result : Fields) (v : Tree)
    → AllDistinct user_dict
    → update_dict default_dict user_dict ≡ some result
    → at_path path user_dict ≡ some v
    → as_dict (some v) ≡ none
    → at_path path result ≡ some v
unfolding at_path
at_path-update_dict [] user_dict default_dict result v all h at leaf = absurd (ground arith)
at_path-update_dict (k ∷ []) user_dict default_dict result v all h at leaf =
    (get-update_dict user_dict default_dict result k (AreDistinct-all user_dict all) h).1 v at
    ∙ merged_value-leaf (get k default_dict) v leaf
at_path-update_dict (k ∷ l ∷ path) user_dict default_dict result v all h at leaf =
    let (u, u_there, at_u) = bind-some (as_dict (get k user_dict)) (at_path (l ∷ path)) v at in
    let user_k = as_dict-some (get k user_dict) u u_there in
    let (merged, result_k, made) =
      update_dict-takes user_dict default_dict result k (dict u) (AreDistinct-all user_dict all) h
        user_k in
    let (b, d, ends, merged_eq) =
      merged_value-dict (get k default_dict) u merged (l ∷ path) v made at_u in
    ap (λ o. as_dict o >>= at_path (l ∷ path)) (result_k ∙ ap some merged_eq)
    ∙ at_path-update_dict (l ∷ path) u b d v (AllDistinct-get user_dict k u all user_k) ends at_u
        leaf
