-- ===== src/Results/Infobox/Laws.antt =====
-- What the merging of infoboxes keeps.
use opencode_optimised_tooli.Prelude.{
  ==_self, All, Bool, Bool-cases, List, Option, String, [], any, append-nil, append_assoc, arith,
  false, if◌then◌else◌, inl, inr, none, refl, snoc, some, sym, true, ◌++◌, ◌||◌, ◌∙◌, ◌∷◌, ◌≡◌,
  list_eq, nat_eq, pair_eq, string_eq,
}
use opencode_optimised_tooli.Results.Infobox.{Link, same_link, merge_urls, opt_beq}

-- The merged links start with the old ones.
merge_urls-extends :
    (items more : List Link) → (added : List Link) × (merge_urls items more ≡ items ++ added)
unfolding merge_urls
merge_urls-extends items [] = ([], sym (append-nil items))
merge_urls-extends items (u ∷ rest) = elim (Bool-cases (any (same_link u) items)) [
  | inl e ↦ rw e (merge_urls-extends items rest)
  | inr e ↦
      let (added, p) = merge_urls-extends (snoc items u) rest in
      (u ∷ added, rw e (p ∙ append_assoc items (u ∷ []) added))
]

any-append {ℓ} :
    {A : Type ℓ} (p : A → Bool) (xs ys : List A) → any p (xs ++ ys) ≡ (any p xs || any p ys)
unfolding any
any-append p [] ys = refl
any-append p (x ∷ xs) ys = ground (arith, any-append p xs ys)

opt_refl : (o : Option String) → opt_beq o o ≡ true
opt_refl none = refl
opt_refl (some s) = ==_self s

same_link_self : (u : Link) → same_link u u ≡ true
same_link_self u = ground (arith, opt_refl u.url)

any-snoc : (u : Link) (items : List Link) → any (same_link u) (snoc items u) ≡ true
unfolding any
any-snoc u [] = ground (arith, same_link_self u)
any-snoc u (x ∷ xs) = ground (arith, any-snoc u xs)

any-merge_urls :
    (u : Link) (items more : List Link)
    → any (same_link u) items ≡ true
    → any (same_link u) (merge_urls items more) ≡ true
any-merge_urls u items more h =
    let (added, p) = merge_urls-extends items more in
    rw p (ground (arith, any-append (same_link u) items added, h))

merge_urls_step :
    (u : Link) (items rest : List Link) (b : Bool)
    → any (same_link u) items ≡ b
    → merge_urls items (u ∷ rest) ≡ merge_urls (if b then items else snoc items u) rest
unfolding merge_urls
merge_urls_step u items rest b e = rw e refl

merge_urls_reaches :
    (items more result : List Link)
    → merge_urls items more ≡ result
    → All (λ u. any (same_link u) result ≡ true) more
merge_urls_reaches items [] result p = tt
merge_urls_reaches items (u ∷ rest) result p = elim (Bool-cases (any (same_link u) items)) [
  | inl e ↦
      let q : merge_urls items rest ≡ result = sym (merge_urls_step u items rest true e) ∙ p in
      (rw (sym q) (any-merge_urls u items rest e), merge_urls_reaches items rest result q)
  | inr e ↦
      let q : merge_urls (snoc items u) rest ≡ result =
        sym (merge_urls_step u items rest false e) ∙ p in
      (
        rw (sym q) (any-merge_urls u (snoc items u) rest (any-snoc u items)),
        merge_urls_reaches (snoc items u) rest result q,
      )
]

-- Merging links keeps every old link in its place and leaves no link of the other infobox without
-- an equal one (of its entity or its URL) in the result.
merge_urls_covers :
    (items more : List Link)
    → ((added : List Link) × (merge_urls items more ≡ items ++ added))
      × All (λ u. any (same_link u) (merge_urls items more) ≡ true) more
merge_urls_covers items more =
    (merge_urls-extends items more, merge_urls_reaches items more (merge_urls items more) refl)
