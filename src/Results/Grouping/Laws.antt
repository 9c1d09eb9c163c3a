-- ===== src/Results/Grouping/Laws.antt =====
-- Pass 2 of the ordering loses no result, and puts a result behind one of its own category.
use mathlib.Core.List.{Perm, perm_middle, perm_append_singleton}
use mathlib.Core.List.Perm
use opencode_optimised_tooli.Prelude.{
  Bool-cases, List, Option-cases, String, [], append-nil, arith, inl, inr, insert_at, lookup, some,
  suc, zero, ℕ, ◌++◌, ◌∷◌, ◌≡◌, ◌⊎◌, list_eq, nat_eq, pair_eq, string_eq,
}
use opencode_optimised_tooli.Results.Grouping.{
  Group, State, append_group, join_group, accepts, place, place_all, group_results,
}

module _ {A : Type 0} where
  insert_at-perm : (l : List A) (i : ℕ) (a : A) → Perm (insert_at l i a) (a ∷ l)
  unfolding insert_at
  insert_at-perm l zero a = Perm.refl _
  insert_at-perm [] (suc i) a = Perm.refl _
  insert_at-perm (x ∷ l) (suc i) a =
      Perm.trans (Perm.cons x (insert_at-perm l i a)) (Perm.swap a x l)

module _ {A : Type 0} (category_of : A → String) where
  -- A round either opens a group at the end or joins the group of the result's category.
  pub place_cases :
      (s : State category_of) (res : A)
      → (place category_of s res ≡ append_group category_of s res)
        ⊎ ((grp : Group) × (lookup (category_of res) s.positions ≡ some grp)
            × (place category_of s res ≡ join_group category_of s res grp))
  unfolding place
  place_cases s res = elim (Option-cases (lookup (category_of res) s.positions)) [
    | inl e ↦ inl (ground arith)
    | inr (grp, e) ↦ elim (Bool-cases (accepts category_of s grp)) [
      | inl yes' ↦ inr (grp, e, ground arith)
      | inr no' ↦ inl (ground arith)
    ]
  ]

  place-perm :
      (s : State category_of) (res : A) → Perm (place category_of s res).gresults (res ∷ s.gresults)
  unfolding append_group join_group
  place-perm s res = elim (place_cases s res) [
    | inl e ↦ rw e (perm_append_singleton res s.gresults)
    | inr (grp, _, e) ↦ rw e (insert_at-perm s.gresults grp.index res)
  ]

  place_all-perm :
      (s : State category_of) (results : List A)
      → Perm (place_all category_of s results).gresults (s.gresults ++ results)
  unfolding place_all
  place_all-perm s [] = rw (append-nil s.gresults) (Perm.refl _)
  place_all-perm s (res ∷ rest) = Perm.trans (place_all-perm (place category_of s res) rest) (
      Perm.trans (Perm.append_right rest (place-perm s res))
        (Perm.symm (perm_middle s.gresults rest)))

  -- The grouped list is a permutation of the sorted one: no result is lost, and none is doubled.
  pub group_results-perm : (results : List A) → Perm (group_results category_of results) results
  unfolding group_results
  group_results-perm results = place_all-perm (record { gresults = []; positions = [] }) results
