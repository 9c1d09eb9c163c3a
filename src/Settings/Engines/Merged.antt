-- ===== src/Settings/Engines/Merged.antt =====
-- settings_loader.py: the loop over the user's engines against its description engine by engine.
use mathlib.Core.Option.{some_inj}
use mathlib.Core.Path.{subst}
use opencode_optimised_tooli.Prelude.{
  Bool, Bool-cases, List, Option-cases, [], ap, arith, false, if◌then◌else◌, inl, inr, refl, some,
  sym, true, ◌∙◌, ◌∷◌, ◌≡◌, ◌⊎◌, list_eq, nat_eq, pair_eq, string_eq,
}
use opencode_optimised_tooli.Tree.{
  Tree, Trees, Fields, nil, item, dict, scalar, items, append_trees,
}
use opencode_optimised_tooli.Tree.Partial.{◌>>=◌, bind-some}
use opencode_optimised_tooli.Settings.Engines.{
  has_name, update_engine, add_engine, add_engines, name_key,
}
use opencode_optimised_tooli.Settings.Engines.Laws.{
  as_fields, engines_after, new_engines, engines_after-update_engine, engines_after-unnamed,
  has_name-update_engine, append_trees_nil, append_trees_assoc, updates,
}

module _ (is_equal : Tree → Tree → Bool) where
  engines_after-nil :
      (engines : List (Tree × Fields)) → engines_after is_equal nil engines ≡ some engines
  unfolding engines_after updates
  engines_after-nil [] = refl
  engines_after-nil ((key, definition) ∷ rest) =
      ap (λ o. o >>= λ later. some ((key, definition) ∷ later)) (engines_after-nil rest)

  new_engines-item :
      (engines : List (Tree × Fields)) (t : Tree) (users : Trees) (user : Fields) (name : Tree)
      → as_fields t ≡ some user
      → name_key user ≡ some name
      → new_engines is_equal engines (item t users) ≡ (
          new_engines is_equal engines users >>= λ later.
          some (if has_name is_equal name engines then later else item t later))
  unfolding new_engines
  new_engines-item engines t users user name t_eq n_eq = rw (t_eq, new_engines) (rw n_eq refl)

  new_engines-same :
      (engines other : List (Tree × Fields)) (users : Trees)
      → ((name : Tree) → has_name is_equal name other ≡ has_name is_equal name engines)
      → new_engines is_equal other users ≡ new_engines is_equal engines users
  unfolding new_engines
  new_engines-same engines other nil same = refl
  new_engines-same engines other (item t users) same = elim (Option-cases (as_fields t)) [
    | inl no_dict ↦ rw (no_dict, new_engines) refl
    | inr (user, t_eq) ↦ elim (Option-cases (name_key user)) [
      | inl no_name ↦ rw (t_eq, new_engines) (rw no_name refl)
      | inr (name, n_eq) ↦
          new_engines-item other t users user name t_eq n_eq
          ∙ ap
              (λ o.
                o >>= λ later. some (if has_name is_equal name other then later else item t later))
              (new_engines-same engines other users same)
          ∙ ap
              (λ b. new_engines is_equal engines users >>= λ later.
                some (if b then later else item t later))
              (same name)
          ∙ sym (new_engines-item engines t users user name t_eq n_eq)
    ]
  ]

  as_fields-some : (t : Tree) (d : Fields) → as_fields t ≡ some d → t ≡ dict d
  as_fields-some (scalar s) d h = absurd (ground arith)
  as_fields-some (items l) d h = absurd (ground arith)
  as_fields-some (dict e) d h = ap dict (some_inj.0 h)

  if-true {ℓ} :
      {A : Type ℓ} {b : Bool} {x z : A} (y : A) → b ≡ true → (if b then x else y) ≡ z → x ≡ z
  if-true {x = x} {z = z} y e h = subst (λ b. (if b then x else y) ≡ z) e h

  if-false {ℓ} :
      {A : Type ℓ} {b : Bool} {y z : A} (x : A) → b ≡ false → (if b then x else y) ≡ z → y ≡ z
  if-false {y = y} {z = z} x e h = subst (λ b. (if b then x else y) ≡ z) e h

  -- The two ways of a round that ends.
  add_engine-cases :
      (t : Tree) (engines updated : List (Tree × Fields)) (added after : Trees)
      → add_engine is_equal t (engines, added) ≡ some (updated, after)
      → (user : Fields) × (name : Tree) × (as_fields t ≡ some user)
        × (name_key user ≡ some name)
        × (((has_name is_equal name engines ≡ true)
              × (update_engine is_equal name user engines ≡ some updated)
              × (after ≡ added))
            ⊎ ((has_name is_equal name engines ≡ false)
                × (updated ≡ engines)
                × (after ≡ append_trees added (item t nil))))
  unfolding add_engine
  add_engine-cases (scalar s) engines updated added after h = absurd (ground arith)
  add_engine-cases (items l) engines updated added after h = absurd (ground arith)
  add_engine-cases (dict user) engines updated added after h =
      let (name, n_eq, h') =
        bind-some (name_key user)
          (λ name.
            if has_name is_equal name engines
            then (update_engine is_equal name user engines >>= λ updated. some (updated, added))
            else some (engines, append_trees added (item (dict user) nil)))
          (updated, after) h in
      elim (Bool-cases (has_name is_equal name engines)) [
        | inl known ↦
            let (l, made, e) =
              bind-some (update_engine is_equal name user engines)
                (λ updated. some (updated, added)) (updated, after) (if-true _ known h') in
            let pair = some_inj.0 e in
            (
              user,
              name,
              refl,
              n_eq,
              inl (known, made ∙ ap (λ p. some p.0) pair, ap (λ p. p.1) (sym pair)),
            )
        | inr fresh ↦
            let pair = some_inj.0 (if-false _ fresh h') in
            (
              user,
              name,
              refl,
              n_eq,
              inr (fresh, ap (λ p. p.0) (sym pair), ap (λ p. p.1) (sym pair)),
            )
      ]

  -- When the loop over the user's engines ends without an exception, each definition is what its
  -- own updates make of it, in the order of the user's list: the last definition of a name takes
  -- those of the user's engines that have the name, every other definition stays as it is. What is
  -- appended are the user's engines whose name no definition had, in their order.
  pub add_engines_lem :
      (users : Trees) (engines updated : List (Tree × Fields)) (added after : Trees)
      → add_engines is_equal users (engines, added) ≡ some (updated, after)
      → (engines_after is_equal users engines ≡ some updated)
        × (new : Trees) × (new_engines is_equal engines users ≡ some new)
        × (after ≡ append_trees added new)
  unfolding add_engines new_engines append_trees
  add_engines_lem nil engines updated added after h =
      let pair = some_inj.0 h in
      (
        engines_after-nil engines ∙ ap (λ p. some p.0) pair,
        nil,
        refl,
        ap (λ p. p.1) (sym pair) ∙ sym (append_trees_nil added),
      )
  add_engines_lem (item t users) engines updated added after h =
      let ((engines1, added1), made, h1) =
        bind-some (add_engine is_equal t (engines, added)) (add_engines is_equal users)
          (updated, after) h in
      let (ends, new, new_eq, after_eq) = add_engines_lem users engines1 updated added1 after h1 in
      let (user, name, t_eq, n_eq, ways) = add_engine-cases t engines engines1 added added1 made in
      elim ways [
        | inl (known, step, added_eq) ↦ (
          engines_after-update_engine is_equal t user name users engines engines1 t_eq n_eq step
              ∙ ends,
          new,
          new_engines-item engines t users user name t_eq n_eq
              ∙ ap
                  (λ b. new_engines is_equal engines users >>= λ later.
                    some (if b then later else item t later))
                  known
              ∙ ap (λ o. o >>= λ later. some later)
                  (sym (
                      new_engines-same engines engines1 users
                        (λ n. has_name-update_engine is_equal name n user engines engines1 step))
                    ∙ new_eq),
          after_eq ∙ ap (λ l. append_trees l new) added_eq,
        )
        | inr (fresh, same, added_eq) ↦ (
          engines_after-unnamed is_equal t user name users engines t_eq n_eq fresh
              ∙ ap (engines_after is_equal users) (sym same)
              ∙ ends,
          item t new,
          new_engines-item engines t users user name t_eq n_eq
              ∙ ap
                  (λ b. new_engines is_equal engines users >>= λ later.
                    some (if b then later else item t later))
                  fresh
              ∙ ap (λ o. o >>= λ later. some (item t later))
                  (ap (λ l. new_engines is_equal l users) (sym same) ∙ new_eq),
          after_eq
              ∙ ap (λ l. append_trees l new) added_eq
              ∙ append_trees_assoc added (item t nil) new,
        )
      ]
