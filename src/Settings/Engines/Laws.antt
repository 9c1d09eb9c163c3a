-- ===== src/Settings/Engines/Laws.antt =====
-- settings_loader.py: what the loop over the user's engines leaves of each engine.
use mathlib.Core.Option.{some_inj}
use opencode_optimised_tooli.Prelude.{
  Bool, Bool-cases, List, Option, Option-cases, [], ap, arith, false, if◌then◌else◌, inl, inr, none,
  not, refl, some, sym, true, ◌&&◌, ◌||◌, ◌∙◌, ◌∷◌, ◌≡◌, ◌⊎◌, list_eq, nat_eq, pair_eq, string_eq,
}
use opencode_optimised_tooli.Tree.{Tree, Trees, Fields, nil, item, dict, append_trees}
use opencode_optimised_tooli.Tree.Partial.{◌>>=◌, bind-some, bind-ext}
use opencode_optimised_tooli.Settings.Merge.{update_dict}
use opencode_optimised_tooli.Settings.Engines.{has_name, update_engine, name_key}

-- `d[...]` for a dictionary
abbrev pub as_fields : Tree → Option Fields
as_fields (dict d) = some d
as_fields t = none

pub append_trees_nil : (l : Trees) → append_trees l nil ≡ l
unfolding append_trees
append_trees_nil nil = refl
append_trees_nil (item t l) = ap (item t) (append_trees_nil l)

pub append_trees_assoc :
    (l m n : Trees) → append_trees (append_trees l m) n ≡ append_trees l (append_trees m n)
unfolding append_trees
append_trees_assoc nil m n = refl
append_trees_assoc (item t l) m n = ap (item t) (append_trees_assoc l m n)

module _ (is_equal : Tree → Tree → Bool) where
  -- An independent description: what becomes of one definition, which stands before `rest`. A user's
  -- engine of its name updates it, unless the name comes again in `rest`.
  unfoldable pub updates : Tree → List (Tree × Fields) → Trees → Fields → Option Fields
  updates key rest nil definition = some definition
  updates key rest (item t users) definition = do
    user_engine ← as_fields t
    name ← name_key user_engine
    let is_meant = is_equal key name && not (has_name is_equal name rest)
    updated ← if is_meant then update_dict definition user_engine else some definition
    updates key rest users updated

  unfoldable pub engines_after : Trees → List (Tree × Fields) → Option (List (Tree × Fields))
  engines_after users [] = some []
  engines_after users ((key, definition) ∷ rest) = do
    updated ← updates key rest users definition
    later ← engines_after users rest
    some ((key, updated) ∷ later)

  -- The user's engines whose name no definition has.
  unfoldable pub new_engines : List (Tree × Fields) → Trees → Option Trees
  new_engines engines nil = some nil
  new_engines engines (item t users) = do
    user_engine ← as_fields t
    name ← name_key user_engine
    later ← new_engines engines users
    some (if has_name is_equal name engines then later else item t later)

  -- The two ways of one step of `update_engine`.
  update_engine-cases :
      (name key : Tree) (user definition : Fields) (rest updated : List (Tree × Fields))
      → update_engine is_equal name user ((key, definition) ∷ rest) ≡ some updated
      → ((is_equal key name ≡ true)
          × (has_name is_equal name rest ≡ false)
          × (d : Fields) × (update_dict definition user ≡ some d)
          × (updated ≡ (key, d) ∷ rest))
        ⊎ ((is_equal key name && not (has_name is_equal name rest)) ≡ false)
          × (later : List (Tree × Fields)) × (update_engine is_equal name user rest ≡ some later)
          × (updated ≡ (key, definition) ∷ later)
  unfolding update_engine
  update_engine-cases name key user definition rest updated h =
      elim (Bool-cases (is_equal key name && not (has_name is_equal name rest))) [
        | inl meant ↦
            let (d, made, e) =
              bind-some (update_dict definition user) (λ d. some ((key, d) ∷ rest)) updated
                (ground (arith, meant)) in
            inl (ground (arith, meant), ground (arith, meant), d, made, sym (some_inj.0 e))
        | inr other ↦
            let (later, made, e) =
              bind-some (update_engine is_equal name user rest) (λ l. some ((key, definition) ∷ l))
                updated (ground (arith, other)) in
            inr (other, later, made, sym (some_inj.0 e))
      ]

  pub has_name-update_engine :
      (name other : Tree) (user : Fields) (engines updated : List (Tree × Fields))
      → update_engine is_equal name user engines ≡ some updated
      → has_name is_equal other updated ≡ has_name is_equal other engines
  unfolding update_engine has_name
  has_name-update_engine name other user [] updated h =
      ap (has_name is_equal other) (sym (some_inj.0 h))
  has_name-update_engine name other user ((key, definition) ∷ rest) updated h =
      elim (update_engine-cases name key user definition rest updated h) [
        | inl (same, last, d, made, e) ↦ ap (has_name is_equal other) e
        | inr (apart, later, made, e) ↦
            ap (has_name is_equal other) e
            ∙ ap (λ b. is_equal key other || b)
                (has_name-update_engine name other user rest later made)
      ]

  -- What `updates` does for one engine of the user.
  update_if : Tree → List (Tree × Fields) → Tree → Fields → Fields → Option Fields
  update_if key rest name user definition =
      if is_equal key name && not (has_name is_equal name rest)
      then update_dict definition user
      else some definition

  update_if-meant :
      (key : Tree) (rest : List (Tree × Fields)) (name : Tree) (user definition : Fields)
      → is_equal key name ≡ true
      → has_name is_equal name rest ≡ false
      → update_if key rest name user definition ≡ update_dict definition user
  unfolding update_if
  update_if-meant key rest name user definition same last = rw (same, last) refl

  update_if-other :
      (key : Tree) (rest : List (Tree × Fields)) (name : Tree) (user definition : Fields)
      → (is_equal key name && not (has_name is_equal name rest)) ≡ false
      → update_if key rest name user definition ≡ some definition
  unfolding update_if
  update_if-other key rest name user definition other = rw other refl

  updates-item :
      (key : Tree) (rest : List (Tree × Fields)) (t : Tree) (users : Trees)
      (definition user : Fields) (name : Tree)
      → as_fields t ≡ some user
      → name_key user ≡ some name
      → updates key rest (item t users) definition
        ≡ (update_if key rest name user definition >>= updates key rest users)
  unfolding updates update_if
  updates-item key rest t users definition user name t_eq n_eq = rw (t_eq, updates) (rw n_eq refl)

  updates-rest :
      (key : Tree) (rest other : List (Tree × Fields)) (users : Trees) (definition : Fields)
      → ((name : Tree) → has_name is_equal name other ≡ has_name is_equal name rest)
      → updates key other users definition ≡ updates key rest users definition
  unfolding updates update_if
  updates-rest key rest other nil definition same = refl
  updates-rest key rest other (item t users) definition same = elim (Option-cases (as_fields t)) [
    | inl no_dict ↦ rw (no_dict, updates) refl
    | inr (user, t_eq) ↦ elim (Option-cases (name_key user)) [
      | inl no_name ↦ rw (t_eq, updates) (rw no_name refl)
      | inr (name, n_eq) ↦
          updates-item key other t users definition user name t_eq n_eq
          ∙ ap
              (λ b.
                (if is_equal key name && not b
                  then update_dict definition user
                  else some definition)
                >>= updates key other users)
              (same name)
          ∙ bind-ext (update_if key rest name user definition) (updates key other users)
              (updates key rest users) (λ d. updates-rest key rest other users d same)
          ∙ sym (updates-item key rest t users definition user name t_eq n_eq)
    ]
  ]

  engines_after-entry :
      (users : Trees) (key : Tree) (definition : Fields) (rest : List (Tree × Fields))
      (x : Option Fields) (y : Option (List (Tree × Fields)))
      → updates key rest users definition ≡ x
      → engines_after users rest ≡ y
      → engines_after users ((key, definition) ∷ rest)
        ≡ (x >>= λ updated. y >>= λ later. some ((key, updated) ∷ later))
  unfolding engines_after
  engines_after-entry users key definition rest x y x_eq y_eq = rw (x_eq, y_eq) refl

  -- An engine of the user whose name no definition has.
  pub engines_after-unnamed :
      (t : Tree) (user : Fields) (name : Tree) (users : Trees) (engines : List (Tree × Fields))
      → as_fields t ≡ some user
      → name_key user ≡ some name
      → has_name is_equal name engines ≡ false
      → engines_after (item t users) engines ≡ engines_after users engines
  unfolding engines_after has_name update_if
  engines_after-unnamed t user name users [] t_eq n_eq h = refl
  engines_after-unnamed t user name users ((key, definition) ∷ rest) t_eq n_eq h =
      engines_after-entry (item t users) key definition rest (updates key rest users definition)
        (engines_after users rest)
        (updates-item key rest t users definition user name t_eq n_eq
          ∙ ap (λ o. o >>= updates key rest users)
              (update_if-other key rest name user definition (ground arith)))
        (engines_after-unnamed t user name users rest t_eq n_eq (ground arith))

  -- One more engine of the user, before the others.
  pub engines_after-update_engine :
      (t : Tree) (user : Fields) (name : Tree) (users : Trees)
      (engines updated : List (Tree × Fields))
      → as_fields t ≡ some user
      → name_key user ≡ some name
      → update_engine is_equal name user engines ≡ some updated
      → engines_after (item t users) engines ≡ engines_after users updated
  unfolding update_engine engines_after
  engines_after-update_engine t user name users [] updated t_eq n_eq h =
      ap (engines_after users) (some_inj.0 h)
  engines_after-update_engine t user name users ((key, definition) ∷ rest) updated t_eq n_eq h =
      elim (update_engine-cases name key user definition rest updated h) [
        | inl (same, last, d, made, e) ↦
            engines_after-entry (item t users) key definition rest (updates key rest users d)
              (engines_after users rest)
              (updates-item key rest t users definition user name t_eq n_eq
                ∙ ap (λ o. o >>= updates key rest users)
                    (update_if-meant key rest name user definition same last ∙ made))
              (engines_after-unnamed t user name users rest t_eq n_eq last)
            ∙ ap (engines_after users) (sym e)
        | inr (apart, later, made, e) ↦
            engines_after-entry (item t users) key definition rest
              (updates key later users definition) (engines_after users later)
              (updates-item key rest t users definition user name t_eq n_eq
                ∙ ap (λ o. o >>= updates key rest users)
                    (update_if-other key rest name user definition apart)
                ∙ sym (
                    updates-rest key rest later users definition
                      (λ n. has_name-update_engine name n user rest later made)))
              (engines_after-update_engine t user name users rest later t_eq n_eq made)
            ∙ ap (engines_after users) (sym e)
      ]
