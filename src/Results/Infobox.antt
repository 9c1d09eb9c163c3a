-- ===== src/Results/Infobox.antt =====
-- results.py: `merge_two_infoboxes` and `_merge_infobox`.
pub mod Laws
use mathlib.Core.Option
use opencode_optimised_tooli.Prelude.{
  Bool, List, Option, String, Text, [], add_new, any, contains, false, if◌then◌else◌, is_empty,
  keep, length, ltb, map, none, not, snoc, some, true, ◌&&◌, ◌++◌, ◌==◌, ◌||◌, ◌∷◌, list_eq, nat_eq,
  pair_eq, string_eq,
}

-- A link of an infobox; `dict.get` answers `none` where the key is missing.
pub record Link : Type 0 where
  pub url : Option String
  pub entity : Option String

pub record Attribute : Type 0 where
  pub label : Option String
  pub entity : Option String
  pub value : String

-- A `LegacyResult` with the key "infobox".
pub record Infobox : Type 0 where
  pub id : Option String
  pub engine : String
  pub engines : List String
  pub urls : List Link
  pub img_src : String
  pub attributes : List Attribute
  pub content : Text

abbrev pub opt_beq : Option String → Option String → Bool
opt_beq none none = true
opt_beq (some a) (some b) = a == b
opt_beq _ _ = false

abbrev pub is_there : Option String → Bool
is_there none = false
is_there (some s) = true

-- The `if` in the loop over `origin.urls`: both of one entity, or of one URL (or both without).
abbrev pub same_link : Link → Link → Bool
same_link url2 url1 =
    (is_there url2.entity && opt_beq url2.entity url1.entity) || opt_beq url1.url url2.url

-- `url_items` is the list of `origin`, which grows while `other.urls` is walked.
unfoldable pub merge_urls : List Link → List Link → List Link
merge_urls items [] = items
merge_urls items (url2 ∷ rest) =
    merge_urls (if any (same_link url2) items then items else snoc items url2) rest

-- The labels and entities of the attributes.
unfoldable pub attr_names : List Attribute → List String
attr_names [] = []
attr_names (a ∷ rest) =
    let names = attr_names rest in
    let with_entity : List String = elim a.entity [
      | none ↦ names
      | some e ↦ if e == "" then names else e ∷ names
    ] in
    elim a.label [ none ↦ with_entity | some l ↦ if l == "" then with_entity else l ∷ with_entity ]

abbrev pub named_in : Option String → List String → Bool
named_in none names = false
named_in (some s) names = contains s names

unfoldable pub merge_attributes : List Attribute → List Attribute → List Attribute
unfolding attr_names
merge_attributes origin other =
    let names = attr_names origin in
    origin ++ keep (λ a. not (named_in a.label names) && not (named_in a.entity names)) other

unfoldable pub merge_content : Text → Text → Text
merge_content origin other =
    if is_empty other
    then origin
    else if is_empty origin
    then other
    else if ltb (length origin) (length other)
    then other
    else origin

-- `|=` on sets
unfoldable pub union : List String → List String → List String
union xs [] = xs
union xs (y ∷ ys) = union (add_new y xs) ys

-- `heavier` says that the engine of `other` weighs more than that of `origin`; an engine that is
-- not registered raises a KeyError (`none`).
module _ (heavier : String → String → Option Bool) where
  unfoldable pub merge_two_infoboxes : Infobox → Infobox → Option Infobox
  unfolding merge_urls merge_attributes merge_content union
  merge_two_infoboxes origin other =
      Option.map
        (λ by_weight. record {
          id = origin.id;
          engine = if by_weight then other.engine else origin.engine;
          engines = union origin.engines other.engines;
          urls = merge_urls origin.urls other.urls;
          img_src =
              if other.img_src == ""
              then origin.img_src
              else if (origin.img_src == "") || by_weight
              then other.img_src
              else origin.img_src;
          attributes =
              if is_empty other.attributes
              then origin.attributes
              else if is_empty origin.attributes
              then other.attributes
              else merge_attributes origin.attributes other.attributes;
          content = merge_content origin.content other.content;
        })
        (heavier origin.engine other.engine)

  -- The loop over the infoboxes: every one with the new id is merged with the new infobox. The
  -- flag is `not add_infobox`.
  unfoldable pub merge_matching : String → Infobox → List Infobox → Option (Bool × List Infobox)
  merge_matching new_id new [] = some (false, [])
  merge_matching new_id new (old ∷ rest) =
      let later = merge_matching new_id new rest in
      elim later [
        | none ↦ none
        | some (found, rest') ↦
            if opt_beq (some new_id) old.id
            then Option.map (λ merged. (true, merged ∷ rest')) (merge_two_infoboxes old new)
            else some (found, old ∷ rest')
      ]

  unfoldable pub merge_infobox : List Infobox → Infobox → Option (List Infobox)
  unfolding merge_matching
  merge_infobox boxes new = elim new.id [
    | none ↦ some (snoc boxes new)
    | some new_id ↦ elim (merge_matching new_id new boxes) [
      | none ↦ none
      | some (found, boxes') ↦ some (if found then boxes' else snoc boxes' new)
    ]
  ]
