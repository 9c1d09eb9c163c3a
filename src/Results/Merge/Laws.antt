-- ===== src/Results/Merge/Laws.antt =====
-- What merging keeps.
use opencode_optimised_tooli.Prelude.{
  ==_self, String, arith, contains, contains-add_new, false, length, max, true, ◌&&◌, ◌==◌, ◌≡◌,
  list_eq, nat_eq, pair_eq, string_eq,
}
use opencode_optimised_tooli.Results.Types.{MainResult, ParsedUrl, hash_text}
use opencode_optimised_tooli.Results.Merge.{merge_two_main_results, secure_url}

module _ {F : Type 0} (geturl : ParsedUrl → String) where
  -- The URL of an upgrade differs from the old one in its scheme only.
  hash_text-secure_url :
      (origin other : MainResult F) (t : String)
      → (origin.is_legacy && (origin.template == "images.html")) ≡ false
      → hash_text (secure_url geturl origin other) ≡ hash_text origin
  unfolding secure_url hash_text
  hash_text-secure_url origin other t h = ground arith

  -- Merging keeps the hash of an ordinary result, so that the map stays keyed by hashes.
  pub hash_text-merge :
      (origin other : MainResult F)
      → (origin.is_legacy && (origin.template == "images.html")) ≡ false
      → hash_text (merge_two_main_results geturl origin other) ≡ hash_text origin
  unfolding merge_two_main_results secure_url hash_text
  hash_text-merge origin other h = ground arith

  -- A merged result has the longer of the two titles and of the two contents, and the engine of
  -- the other result among its engines; it keeps its own engines.
  merge_keeps_more :
      (origin other : MainResult F)
      → (length (merge_two_main_results geturl origin other).title
          ≡ max (length origin.title) (length other.title))
        × (length (merge_two_main_results geturl origin other).content
            ≡ max (length origin.content) (length other.content))
        × (contains other.engine (merge_two_main_results geturl origin other).engines ≡ true)
        × ((e : String)
            → contains e origin.engines ≡ true
            → contains e (merge_two_main_results geturl origin other).engines ≡ true)
  unfolding merge_two_main_results secure_url
  merge_keeps_more origin other = (
    ground arith,
    ground arith,
    ground (arith, contains-add_new other.engine other.engine origin.engines, ==_self other.engine),
    λ e h. ground (arith, contains-add_new other.engine e origin.engines),
  )
