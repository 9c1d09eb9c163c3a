-- ===== src/Results/Container/Keyed.antt =====
-- The container's main results stay keyed by their hashes.
use mathlib.Core.Path.{subst}
use opencode_optimised_tooli.Prelude.{
  ==_iff, All, All-insert, Bool, Bool-cases, Dict, List, Option, Option-cases, String, [], arith,
  has_key, has_key-insert, inl, inr, insert, lookup, refl, snoc, some, sym, true, ℕ, ◌&&◌, ◌==◌,
  ◌∙◌, ◌∷◌, ◌≡◌, ◌⊎◌, list_eq, nat_eq, pair_eq, string_eq,
}
use opencode_optimised_tooli.Results.Types.{MainResult, ParsedUrl, hash_text}
use opencode_optimised_tooli.Results.Merge.{merge_main_result, merge_two_main_results, secure_url}
use opencode_optimised_tooli.Results.Merge.Laws.{hash_text-merge}
use opencode_optimised_tooli.Results.Container.{Env, Incoming, ResultContainer, extend}
use opencode_optimised_tooli.Results.Container.Laws.{results_of, extend-keeps}

All-lookup {κ} :
    {V : Type 0} (P : ℕ × V → Type κ) (k : ℕ) (v : V) (m : Dict ℕ V)
    → lookup k m ≡ some v
    → All P m
    → P (k, v)
unfolding lookup
All-lookup P k v [] h all = absurd (ground arith)
All-lookup P k v ((j, w) ∷ m) h (pw, all) = elim (Bool-cases (j == k)) [
  | inl e ↦
      let w_eq : w ≡ v = ground arith in
      subst (λ i. P (i, v)) ((==_iff j k).0 e) (subst (λ x. P (j, x)) w_eq pw)
  | inr e ↦ All-lookup P k v m (ground arith) all
]

module _ (env : Env) where
  abbrev pub Main : Type 0
  Main = MainResult env.floats.F

  abbrev pub is_image : Main → Bool
  is_image r = r.is_legacy && (r.template == "images.html")

  -- An entry stands at the hash of its text; legacy image results are left out, since their text
  -- has the URL, which merging may upgrade.
  abbrev pub IsKeyed : ℕ × Main → Type 0
  IsKeyed (k, r) = (is_image r ≡ true) ⊎ ((t : String) × (hash_text r ≡ some t) × (env.hash t ≡ k))

  abbrev pub geturl : ParsedUrl → String
  geturl = env.urls.geturl

  is_image-merge :
      (origin other : Main)
      → is_image (merge_two_main_results geturl origin other) ≡ is_image origin
  unfolding merge_two_main_results secure_url
  is_image-merge origin other = ground arith

  IsKeyed-positions :
      (k : ℕ) (r : Main) (ps : List ℕ) → IsKeyed (k, r) → IsKeyed (k, record r { positions = ps })
  unfolding hash_text
  IsKeyed-positions k r ps h = h

  IsKeyed-merge :
      (k : ℕ) (origin other : Main)
      → IsKeyed (k, origin)
      → IsKeyed (k, merge_two_main_results geturl origin other)
  IsKeyed-merge k origin other h = elim (Bool-cases (is_image origin)) [
    | inl e ↦ inl (is_image-merge origin other ∙ e)
    | inr e ↦ elim h [
      | inl i ↦ absurd (ground arith)
      | inr (t, at_t, key) ↦ inr (t, hash_text-merge geturl origin other e ∙ at_t, key)
    ]
  ]

  -- What a merging that returns has done: it has put one value at the hash of the result.
  record Merged (m m' : Dict ℕ Main) (r : Main) (n : ℕ) : Type 0 where
    text : String
    value : Main
    text_eq : hash_text r ≡ some text
    map_eq : m' ≡ insert (env.hash text) value m
    is_new :
        (value ≡ record r { positions = n ∷ [] })
        ⊎ ((origin : Main) × (lookup (env.hash text) m ≡ some origin)
            × (value ≡ record (merge_two_main_results geturl origin r) {
              positions = snoc (merge_two_main_results geturl origin r).positions n;
            }))

  merge_main_result-Merged :
      (m m' : Dict ℕ Main) (r : Main) (n : ℕ)
      → merge_main_result geturl env.hash m r n ≡ some m'
      → Merged m m' r n
  unfolding merge_main_result
  merge_main_result-Merged m m' r n h = elim (Option-cases (hash_text r)) [
    | inl e ↦ absurd (ground arith)
    | inr (t, e) ↦ elim (Option-cases (lookup (env.hash t) m)) [
      | inl e2 ↦ record {
        text = t;
        value = record r { positions = n ∷ [] };
        text_eq = e;
        map_eq = ground arith;
        is_new = inl refl;
      }
      | inr (origin, e2) ↦
          let merged = merge_two_main_results geturl origin r in
          record {
            text = t;
            value = record merged { positions = snoc merged.positions n };
            text_eq = e;
            map_eq = ground arith;
            is_new = inr (origin, e2, refl);
          }
    ]
  ]

  merge_main_result-Keyed :
      (m m' : Dict ℕ Main) (r : Main) (n : ℕ)
      → merge_main_result geturl env.hash m r n ≡ some m'
      → All IsKeyed m
      → All IsKeyed m'
  merge_main_result-Keyed m m' r n h all =
      let d = merge_main_result-Merged m m' r n h in
      let value_keyed : IsKeyed (env.hash d.text, d.value) = elim d.is_new [
        | inl p ↦
            subst (λ v. IsKeyed (env.hash d.text, v)) (sym p)
              (IsKeyed-positions (env.hash d.text) r (n ∷ []) (inr (d.text, d.text_eq, refl)))
        | inr (origin, at_hash, p) ↦
            let merged = merge_two_main_results geturl origin r in
            subst (λ v. IsKeyed (env.hash d.text, v)) (sym p)
              (IsKeyed-positions (env.hash d.text) merged (snoc merged.positions n) (
                IsKeyed-merge (env.hash d.text) origin r
                  (All-lookup IsKeyed (env.hash d.text) origin m at_hash all)))
      ] in
      rw d.map_eq (All-insert IsKeyed (env.hash d.text) d.value m value_keyed all)

  merge_main_result-has_key :
      (k : ℕ) (m m' : Dict ℕ Main) (r : Main) (n : ℕ)
      → merge_main_result geturl env.hash m r n ≡ some m'
      → has_key k m ≡ true
      → has_key k m' ≡ true
  merge_main_result-has_key k m m' r n h kept =
      let d = merge_main_result-Merged m m' r n h in
      rw d.map_eq (ground (arith, has_key-insert (env.hash d.text) k d.value m))

  -- Whatever an engine hands over, and whether `extend` returns or raises: the results stay keyed
  -- by the hashes of their texts (legacy image results left out), and no key goes lost.
  pub extend-Keyed :
      (engine_name : Option String) (results : List (Incoming env.floats.F))
      (c : ResultContainer env.floats.F)
      → All IsKeyed c.main_results_map
      → All IsKeyed (results_of env (extend env engine_name results c))
        × ((k : ℕ)
            → has_key k c.main_results_map ≡ true
            → has_key k (results_of env (extend env engine_name results c)) ≡ true)
  extend-Keyed engine_name results c all = (
    extend-keeps env (All IsKeyed) (λ m m' r n. merge_main_result-Keyed m m' r n) engine_name
        results c all,
    λ k.
        extend-keeps env (λ m. has_key k m ≡ true)
          (λ m m' r n. merge_main_result-has_key k m m' r n) engine_name results c,
  )
