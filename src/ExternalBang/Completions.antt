-- ===== src/ExternalBang/Completions.antt =====
-- The completions of a bang.
use mathlib.Core.Path.{subst}
use opencode_optimised_tooli.Prelude.{
  All, All-keep, List, Option-cases, Text, [], ap, append-nil, append_assoc, arith, has_prefix,
  if◌then◌else◌, inl, inr, is_empty, keep, none, not, refl, snoc, sym, true, ◌++◌, ◌==◌, ◌∙◌, ◌∷◌,
  ◌≡◌, list_eq, nat_eq, pair_eq, string_eq,
}
use opencode_optimised_tooli.ExternalBang.{
  Node, leaf, branch, leaf_key, children_keys, step, walk, put_before, found, iterate,
  get_bang_definition_and_ac, get_node,
}

-- The walk only moves letters: from the bang to `after`, from `after` to `before`.
walk-append :
    (bang : Text) (node : Node) (before after : Text)
    → (walk bang node before after).before ++ (walk bang node before after).after
      ≡ before ++ (after ++ bang)
unfolding walk
walk-append [] node before after = ap (◌++◌ before) (sym (append-nil after))
walk-append (c ∷ bang) node before after = elim (Option-cases (step node (snoc after c))) [
  | inl e ↦
      rw (e, walk)
        (walk-append bang node before (snoc after c)
          ∙ ap (◌++◌ before) (append_assoc after (c ∷ []) bang))
  | inr (next, e) ↦
      rw (e, walk)
        (walk-append bang next (before ++ snoc after c) []
          ∙ append_assoc before (snoc after c) bang
          ∙ ap (◌++◌ before) (append_assoc after (c ∷ []) bang))
]

has_prefix-append : (p s : Text) → has_prefix p (p ++ s) ≡ true
unfolding has_prefix
has_prefix-append [] s = refl
has_prefix-append (c ∷ p) s = ground (arith, has_prefix-append p s)

has_prefix-append_append :
    (b p s : Text) → has_prefix p s ≡ true → has_prefix (b ++ p) (b ++ s) ≡ true
unfolding has_prefix
has_prefix-append_append [] p s h = h
has_prefix-append_append (c ∷ b) p s h = ground (arith, has_prefix-append_append b p s h)

put_before-prefixed :
    (before after : Text) (l : List Text)
    → All (λ k. has_prefix after k ≡ true) l
    → All (λ k. has_prefix (before ++ after) k ≡ true) (put_before before l)
unfolding put_before
put_before-prefixed before after [] h = tt
put_before-prefixed before after (k ∷ l) (h, hs) =
    (has_prefix-append_append before after k h, put_before-prefixed before after l hs)

put_before-prefix :
    (before : Text) (l : List Text) → All (λ k. has_prefix before k ≡ true) (put_before before l)
unfolding put_before
put_before-prefix before [] = tt
put_before-prefix before (k ∷ l) = (has_prefix-append before k, put_before-prefix before l)

found-prefix :
    (node : Node) (before : Text) → All (λ k. has_prefix before k ≡ true) (found node before).1
unfolding found
found-prefix (leaf d) before = tt
found-prefix (branch children) before =
    put_before-prefix before (keep (λ k. not (k == leaf_key)) (children_keys children))

place-prefixed :
    (node : Node) (before after : Text)
    → All
        (λ k. has_prefix (before ++ after) k ≡ true)
        (if not (is_empty after)
          then (none, put_before before (keep (has_prefix after) (iterate node)))
          else found node before).1
place-prefixed node before [] =
    subst (λ t. All (λ k. has_prefix t k ≡ true) (found node before).1) (sym (append-nil before))
      (found-prefix node before)
place-prefixed node before (c ∷ after) =
    put_before-prefixed before (c ∷ after) (keep (has_prefix (c ∷ after)) (iterate node))
      (All-keep (has_prefix (c ∷ after)) (iterate node))

-- Each completion of a bang begins with the bang.
get_bang_definition_and_ac-prefix :
    (trie : Node) (bang : Text)
    → All (λ k. has_prefix bang k ≡ true) (get_bang_definition_and_ac trie bang).1
unfolding get_bang_definition_and_ac get_node
get_bang_definition_and_ac-prefix trie bang =
    let place = walk bang trie [] [] in
    subst (λ t. All (λ k. has_prefix t k ≡ true) (get_bang_definition_and_ac trie bang).1)
      (walk-append bang trie [] []) (place-prefixed place.node place.before place.after)
