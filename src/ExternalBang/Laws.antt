-- ===== src/ExternalBang/Laws.antt =====
-- The bangs of a trie, and that the walk finds exactly these.
use mathlib.Core.Path.{subst}
use opencode_optimised_tooli.Prelude.{
  Bool-cases, Option-cases, Text, [], ap, append_assoc, arith, false, inl, inr, none, refl, snoc,
  some, sym, ℕ, ◌++◌, ◌==◌, ◌↔◌, ◌∙◌, ◌∷◌, ◌≡◌, ◌⊎◌, list_eq, nat_eq, pair_eq, string_eq,
}
use opencode_optimised_tooli.ExternalBang.{
  Node, leaf, branch, Children, nil, child, leaf_key, get, step, walk, get_node, found,
  get_bang_definition_and_ac, is_empty,
}

-- A trie has a bang if keys, put together, spell it down to a definition.
pub data Spells : Node → Text → Text → Type 0 where
  at_leaf : (d : Text) → Spells (leaf d) [] d
  at_branch :
      (children : Children) (d : Text)
      → get children leaf_key ≡ some (leaf d)
      → Spells (branch children) [] d
  down :
      (children : Children) (c : ℕ) (key bang d : Text) (next : Node)
      → get children (c ∷ key) ≡ some next
      → Spells next bang d
      → Spells (branch children) (c ∷ key ++ bang) d

found-Spells :
    (node : Node) (before d : Text) → (found node before).0 ≡ some (leaf d) → Spells node [] d
unfolding found
found-Spells (leaf e) before d h = subst (Spells (leaf e) []) (ground arith) (at_leaf e)
found-Spells (branch children) before d h = at_branch children d h

down-snoc :
    (node : Node) (after : Text) (c : ℕ) (bang d : Text) (next : Node)
    → step node (snoc after c) ≡ some next
    → Spells next bang d
    → Spells node (snoc after c ++ bang) d
unfolding step
down-snoc (leaf e) after c bang d next h s = absurd (ground arith)
down-snoc (branch children) [] c bang d next h s = down children c [] bang d next h s
down-snoc (branch children) (a ∷ after) c bang d next h s =
    down children a (snoc after c) bang d next h s

walk-some :
    (node : Node) (c : ℕ) (bang before after : Text) (next : Node)
    → step node (snoc after c) ≡ some next
    → walk (c ∷ bang) node before after ≡ walk bang next (before ++ snoc after c) []
unfolding walk
walk-some node c bang before after next e = rw (e, walk) refl

walk-none :
    (node : Node) (c : ℕ) (bang before after : Text)
    → step node (snoc after c) ≡ none
    → walk (c ∷ bang) node before after ≡ walk bang node before (snoc after c)
unfolding walk
walk-none node c bang before after e = rw (e, walk) refl

-- What the walk from a node finds at the end of the bang is spelled from that node.
walk-Spells :
    (bang : Text) (node : Node) (before after d : Text)
    → (walk bang node before after).after ≡ []
    → Spells (walk bang node before after).node [] d
    → Spells node (after ++ bang) d
unfolding walk
walk-Spells [] node before after d = λ h s. subst (λ t. Spells node (t ++ []) d) (sym h) s
walk-Spells (c ∷ bang) node before after d = elim (Option-cases (step node (snoc after c))) [
  | inl e ↦
      rw (e, walk)
        λ h s.
          subst (λ t. Spells node t d) (append_assoc after (c ∷ []) bang)
            (walk-Spells bang node before (snoc after c) d h s)
  | inr (next, e) ↦
      rw (e, walk)
        λ h s.
          subst (λ t. Spells node t d) (append_assoc after (c ∷ []) bang)
            (down-snoc node after c bang d next e
              (walk-Spells bang next (before ++ snoc after c) [] d h s))
]

-- No key of a dictionary begins with another one.
abbrev pub IsPrefixFree : Children → Type 0
IsPrefixFree children =
    (key rest : Text) (c : ℕ) (next : Node)
    → get children (key ++ c ∷ rest) ≡ some next
    → get children key ≡ none

unfoldable mutual
  pub IsTrie : Node → Type 0
  IsTrie (leaf d) = Unit
  IsTrie (branch children) = IsPrefixFree children × AreTries children

  pub AreTries : Children → Type 0
  AreTries nil = Unit
  AreTries (child key node rest) = IsTrie node × AreTries rest

get-IsTrie :
    (children : Children) (key : Text) (next : Node)
    → AreTries children
    → get children key ≡ some next
    → IsTrie next
unfolding get IsTrie
get-IsTrie nil key next h e = absurd (ground arith)
get-IsTrie (child k node rest) key next (h, hs) e = elim (Bool-cases (k == key)) [
  | inl same ↦ subst IsTrie (ground arith) h
  | inr other ↦ get-IsTrie rest key next hs (ground arith)
]

-- The walk along a key leads to the key's node.
walk-key :
    (children : Children) (after : Text) (c : ℕ) (key bang : Text) (next : Node) (before : Text)
    → IsPrefixFree children
    → get children (after ++ c ∷ key) ≡ some next
    → walk (c ∷ (key ++ bang)) (branch children) before after
      ≡ walk bang next (before ++ (after ++ c ∷ key)) []
unfolding step
walk-key children after c [] bang next before free e =
    walk-some (branch children) c bang before after next e
walk-key children after c (k ∷ key) bang next before free e =
    let longer = ap (get children) (append_assoc after (c ∷ []) (k ∷ key)) ∙ e in
    walk-none (branch children) c (k ∷ (key ++ bang)) before after
      (free (snoc after c) key k next longer)
    ∙ walk-key children (snoc after c) k key bang next before free longer
    ∙ ap (λ t. walk bang next (before ++ t) []) (append_assoc after (c ∷ []) (k ∷ key))

-- The walk along a bang that a trie has ends at a node with its definition.
walk-found :
    (node : Node) (bang d before : Text)
    → Spells node bang d
    → IsTrie node
    → ((walk bang node before []).after ≡ [])
      × ((found (walk bang node before []).node (walk bang node before []).before).0
          ≡ some (leaf d))
unfolding found walk IsTrie
walk-found node bang d before (at_leaf _) trie = (refl, refl)
walk-found node bang d before (at_branch children _ e) trie = (refl, e)
walk-found node bang d before (down children c key rest _ next e s) (free, tries) =
    subst (λ place. (place.after ≡ []) × ((found place.node place.before).0 ≡ some (leaf d)))
      (sym (walk-key children [] c key rest next before free e))
      (walk-found next rest d (before ++ c ∷ key) s (get-IsTrie children (c ∷ key) next tries e))

Text-cases : (t : Text) → (t ≡ []) ⊎ (is_empty t ≡ false)
Text-cases [] = inl refl
Text-cases (c ∷ t) = inr refl

found_at_end :
    (trie : Node) (bang : Text)
    → (walk bang trie [] []).after ≡ []
    → (get_bang_definition_and_ac trie bang).0
      ≡ (found (walk bang trie [] []).node (walk bang trie [] []).before).0
unfolding get_bang_definition_and_ac get_node
found_at_end trie bang e = rw e refl

none_within :
    (trie : Node) (bang : Text)
    → is_empty (walk bang trie [] []).after ≡ false
    → (get_bang_definition_and_ac trie bang).0 ≡ none
unfolding get_bang_definition_and_ac get_node
none_within trie bang e = rw e refl

-- In a trie in which no key begins with another key of its dictionary, the definition of a bang is
-- the one that the trie has for it.
pub get_bang_definition_and_ac-Spells :
    (trie : Node) (bang d : Text)
    → IsTrie trie
    → ((get_bang_definition_and_ac trie bang).0 ≡ some (leaf d)) ↔ Spells trie bang d
get_bang_definition_and_ac-Spells trie bang d h = (
  (λ e. elim (Text-cases (walk bang trie [] []).after) [
    | inl ended ↦ walk-Spells bang trie [] [] d ended (
        found-Spells (walk bang trie [] []).node (walk bang trie [] []).before d
          (sym (found_at_end trie bang ended) ∙ e))
    | inr within ↦ absurd (ground (arith, none_within trie bang within))
  ]),
  λ s. let (ended, e) = walk-found trie bang d [] s h in found_at_end trie bang ended ∙ e,
)
