-- ===== src/Results/Ordered/Laws.antt =====
-- What the ordering of the results guarantees.
use mathlib.Core.Path.{subst}
use mathlib.Core.List.{Perm, perm_middle}
use mathlib.Core.List.Perm
use opencode_optimised_tooli.Prelude.{
  Bool-cases, List, [], append-nil, false, inl, inr, map, refl, sym, true, ◌++◌, ◌∷◌, ◌≡◌, list_eq,
  nat_eq, pair_eq, string_eq,
}
use opencode_optimised_tooli.Results.Types.{MainResult}
use opencode_optimised_tooli.Results.Container.{Env}
use opencode_optimised_tooli.Results.Grouping.Laws.{group_results-perm}
use opencode_optimised_tooli.Results.Ordered.{
  insert_by_score, sort_by_score, with_category, group_key, order,
}

module _ (env : Env) where
  abbrev pub Main : Type 0
  Main = MainResult env.floats.F

  -- No score is below the next one.
  abbrev pub Descending : List Main → Type 0
  Descending [] = Unit
  Descending (r ∷ []) = Unit
  Descending (r ∷ i ∷ rest) = (env.floats.below r.score i.score ≡ false) × Descending (i ∷ rest)

  -- `<` on floats is never true both ways.
  abbrev pub BelowAsym : Type 0
  BelowAsym = (a b : env.floats.F) → env.floats.below a b ≡ true → env.floats.below b a ≡ false

  insert_by_score-perm : (r : Main) (l : List Main) → Perm (insert_by_score env r l) (r ∷ l)
  unfolding insert_by_score
  insert_by_score-perm r [] = Perm.refl _
  insert_by_score-perm r (i ∷ rest) = elim (Bool-cases (env.floats.below i.score r.score)) [
    | inl e ↦ rw e (Perm.refl _)
    | inr e ↦ rw e (Perm.trans (Perm.cons i (insert_by_score-perm r rest)) (Perm.swap r i rest))
  ]

  sort_by_score-perm : (l m : List Main) → Perm (sort_by_score env l m) (l ++ m)
  unfolding sort_by_score
  sort_by_score-perm l [] = rw (append-nil l) (Perm.refl _)
  sort_by_score-perm l (r ∷ rest) = Perm.trans (sort_by_score-perm (insert_by_score env r l) rest) (
      Perm.trans (Perm.append_right rest (insert_by_score-perm r l))
        (Perm.symm (perm_middle l rest)))

  insert_by_score_first :
      (r i : Main) (rest : List Main)
      → env.floats.below i.score r.score ≡ true
      → insert_by_score env r (i ∷ rest) ≡ r ∷ i ∷ rest
  unfolding insert_by_score
  insert_by_score_first r i rest e = rw e refl

  insert_by_score_later :
      (r i : Main) (rest : List Main)
      → env.floats.below i.score r.score ≡ false
      → insert_by_score env r (i ∷ rest) ≡ i ∷ insert_by_score env r rest
  unfolding insert_by_score
  insert_by_score_later r i rest e = rw e refl

  insert_by_score-Descending :
      BelowAsym → (r : Main) (l : List Main) → Descending l → Descending (insert_by_score env r l)
  unfolding insert_by_score
  insert_by_score-Descending asym r [] h = tt
  insert_by_score-Descending asym r (i ∷ []) h =
      elim (Bool-cases (env.floats.below i.score r.score)) [
        | inl e ↦ rw e (asym i.score r.score e, tt)
        | inr e ↦ rw e (e, tt)
      ]
  insert_by_score-Descending asym r (i ∷ j ∷ rest) h =
      elim (Bool-cases (env.floats.below i.score r.score)) [
        | inl e ↦
            subst Descending (sym (insert_by_score_first r i (j ∷ rest) e))
              (asym i.score r.score e, h)
        | inr e ↦
            let later = insert_by_score-Descending asym r (j ∷ rest) h.1 in
            subst Descending (sym (insert_by_score_later r i (j ∷ rest) e))
              (elim (Bool-cases (env.floats.below j.score r.score)) [
                | inl first ↦
                    let p = insert_by_score_first r j rest first in
                    subst (λ l. Descending (i ∷ l)) (sym p) (e, subst Descending p later)
                | inr last ↦
                    let p = insert_by_score_later r j rest last in
                    subst (λ l. Descending (i ∷ l)) (sym p) (h.0, subst Descending p later)
              ])
      ]

  sort_by_score-Descending :
      BelowAsym → (l m : List Main) → Descending l → Descending (sort_by_score env l m)
  unfolding sort_by_score
  sort_by_score-Descending asym l [] h = h
  sort_by_score-Descending asym l (r ∷ rest) h =
      sort_by_score-Descending asym (insert_by_score env r l) rest
        (insert_by_score-Descending asym r l h)

  -- Before the grouping the results are a permutation of the collected ones whose scores descend,
  -- if `<` on floats is never true both ways.
  sorted_by_score :
      BelowAsym
      → (results : List Main)
      → Perm (sort_by_score env [] results) results × Descending (sort_by_score env [] results)
  sorted_by_score asym results =
      (sort_by_score-perm [] results, sort_by_score-Descending asym [] results tt)

  -- The ordered list is a permutation of the results with the categories of their engines: ordering
  -- loses no result and doubles none.
  pub order-perm :
      (results : List Main) → Perm (order env results) (map (with_category env) results)
  unfolding order
  order-perm results =
      Perm.trans
        (group_results-perm (group_key env)
          (map (with_category env) (sort_by_score env [] results)))
        (Perm.map (with_category env) (sort_by_score-perm [] results))
