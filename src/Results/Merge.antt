-- ===== src/Results/Merge.antt =====
-- results.py: `merge_two_main_results` and `_merge_main_result`, the merging of duplicates.
pub mod Laws
use opencode_optimised_tooli.Prelude.{
  Bool, Dict, Option, String, Text, [], add_new, false, has_key, if◌then◌else◌, insert, length,
  lookup, ltb, none, snoc, some, ℕ, ◌&&◌, ◌==◌, ◌||◌, ◌∷◌, list_eq, nat_eq, pair_eq, string_eq,
}
use opencode_optimised_tooli.Results.Types.{MainResult, ParsedUrl, hash_text}

-- `s.endswith("s")`
unfoldable pub ends_with_s : Text → Bool
ends_with_s [] = false
ends_with_s (c ∷ []) = c == b's'
ends_with_s (c ∷ d ∷ s) = ends_with_s (d ∷ s)

-- `LegacyResult.defaults_from`: keys that are missing, with a value that is not empty. (On a
-- `MainResult` every field is set, and nothing is taken over.)
unfoldable pub defaults_from : Dict String String → Dict String String → Dict String String
defaults_from self [] = self
defaults_from self ((k, v) ∷ other) =
    defaults_from (if has_key k self || (v == "") then self else insert k v self) other

-- `geturl` is that of urllib.parse.
module _ {F : Type 0} (geturl : ParsedUrl → String) where
  -- Use https, ftps, .. if possible.
  unfoldable pub secure_url : MainResult F → MainResult F → MainResult F
  unfolding ends_with_s
  secure_url origin other = elim origin.parsed_url [
    | none ↦ origin
    | some u ↦ if ends_with_s u.scheme then origin else elim other.parsed_url [
      | none ↦ origin
      | some v ↦
          if ends_with_s v.scheme
          then (let secure = record u { scheme = v.scheme } in
              record origin { parsed_url = some secure; url = some (geturl secure) })
          else origin
    ]
  ]

  unfoldable pub merge_two_main_results : MainResult F → MainResult F → MainResult F
  unfolding defaults_from secure_url
  merge_two_main_results origin other =
      secure_url
        (record origin {
          content =
              if ltb (length origin.content) (length other.content)
              then other.content
              else origin.content;
          title =
              if ltb (length origin.title) (length other.title) then other.title else origin.title;
          extra =
              if origin.is_legacy && other.is_legacy
              then defaults_from origin.extra other.extra
              else origin.extra;
          engines = add_new other.engine origin.engines;
        })
        other

  -- `_merge_main_result`, over a hash of texts: `none` is the ValueError of a result without
  -- `parsed_url`.
  unfoldable pub merge_main_result :
      (String → ℕ) → Dict ℕ (MainResult F) → MainResult F → ℕ → Option (Dict ℕ (MainResult F))
  merge_main_result hash results r position = elim (hash_text r) [
    | none ↦ none
    | some text ↦ elim (lookup (hash text) results) [
      | none ↦ some (insert (hash text) (record r { positions = position ∷ [] }) results)
      | some origin ↦
          let merged = merge_two_main_results origin r in
          some (
            insert (hash text) (record merged { positions = snoc merged.positions position })
              results)
    ]
  ]
