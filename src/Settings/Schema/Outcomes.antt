-- ===== src/Settings/Schema/Outcomes.antt =====
-- settings_defaults.py: when `apply_schema` returns, and what.
use mathlib.Core.Path.{subst}
use opencode_optimised_tooli.Prelude.{
  true, if◌then◌else◌, none, Bool-cases, Bool, Dict, Option, Text, arith, false, inl, inr, refl,
  some, sym, ◌≡◌, list_eq, nat_eq, pair_eq, string_eq,
}
use opencode_optimised_tooli.Tree.Partial.{◌>>=◌}
use opencode_optimised_tooli.Tree.{Tree, Fields, scalar, items, dict, get, put}
use opencode_optimised_tooli.Tree.Laws.{get-put_other}
use opencode_optimised_tooli.Settings.Schema.{
  Schema, struct, setting, section, other, Keys, end, key, or_default, run, step, apply_schema,
}
use opencode_optimised_tooli.Settings.Schema.Typed.{
  tree_get, IsDict, has, HasDistinctKeys, IsDistinctBelow, Applied, Becomes,
}
use opencode_optimised_tooli.Settings.Schema.Laws.{run-Applied, run_keeps}

module _ (is_equal : Tree → Tree → Bool) (environ : Dict Text Text) (is_dir : Tree → Bool)
    (convert : Text → Tree → Option Tree) where
  -- What is applied to settings is applied to them with another value at a key that the schema has
  -- not.
  Applied-put_back :
      (keys : Keys) (k : Text) (t : Tree) (d : Fields) (after : Tree)
      → has k keys ≡ false
      → Applied is_equal environ is_dir convert keys (dict d) after
      → Applied is_equal environ is_dir convert keys (dict (put k t d)) after
  unfolding Applied has tree_get IsDict
  Applied-put_back end k t d after absent a = tt
  Applied-put_back (key k' s rest) k t d after absent (_, (u, there, becomes), a) = (
    tt,
    (
      u,
      there,
      subst (λ o. Becomes is_equal environ is_dir convert s o u)
          (sym (get-put_other k k' t d (ground arith))) becomes,
    ),
    Applied-put_back rest k t d after (ground arith) a,
  )

  -- The loop goes through if the schema can be applied.
  mutual
    unfolding run step Becomes Applied HasDistinctKeys IsDistinctBelow tree_get IsDict

    step_goes :
        (s : Schema) (k : Text) (d : Fields) (t : Tree)
        → IsDistinctBelow s
        → Becomes is_equal environ is_dir convert s (get k d) t
        → (v : Tree) × (step is_equal environ is_dir convert k s (dict d) false
            ≡ some (dict (put k v d), false))
    step_goes (struct name) k d t apart made = (t, rw made refl)
    step_goes (setting s) k d t apart (made, _) = (t, rw made refl)
    step_goes (section keys) k d t apart made =
        let (v, ran) = run_goes keys (or_default (dict Fields.empty) (get k d)) t apart made in
        (v, ground arith)
    step_goes (other u) k d t apart made = (or_default u (get k d), refl)

    run_goes :
        (keys : Keys) (before after : Tree)
        → HasDistinctKeys keys
        → Applied is_equal environ is_dir convert keys before after
        → (r : Tree) × (run is_equal environ is_dir convert keys before false ≡ some (r, false))
    run_goes end before after apart a = (before, refl)
    run_goes (key k s rest) (scalar _) after apart (bad, _, _) = absurd bad
    run_goes (key k s rest) (items _) after apart (bad, _, _) = absurd bad
    run_goes (key k s rest) (dict d) after (fresh, below, apart) (_, (t, _, becomes), a) =
        let (v, stepped) = step_goes s k d t below becomes in
        let (r, ran) =
          run_goes rest (dict (put k v d)) after apart
            (Applied-put_back rest k v d after fresh a) in
        (r, ground arith)

  keeps-if :
      (schema : Keys) (settings result : Tree)
      → HasDistinctKeys schema
      → run is_equal environ is_dir convert schema settings false ≡ some (result, false)
      → (k : Text)
      → (if has k schema then none else tree_get k result)
        ≡ (if has k schema then none else tree_get k settings)
  keeps-if schema settings result apart ran k = elim (Bool-cases (has k schema)) [
    | inl e ↦ rw e refl
    | inr e ↦ rw e (run_keeps is_equal environ is_dir convert schema k settings result apart ran e)
  ]

  -- What a call of `apply_schema` promises: if it raises, the schema can be applied in no way; the
  -- settings that it returns have the schema applied, and keep the values of all other keys.
  abbrev pub Promises : Keys → Tree → Option Tree → Type 0
  Promises schema settings none =
      ¬ ((after : Tree) × Applied is_equal environ is_dir convert schema settings after)
  Promises schema settings (some result) =
      Applied is_equal environ is_dir convert schema settings result
      × ((k : Text)
          → (if has k schema then none else tree_get k result)
            ≡ (if has k schema then none else tree_get k settings))

  run-Promises :
      (schema : Keys) (settings : Tree) (outcome : Option (Tree × Bool))
      → HasDistinctKeys schema
      → run is_equal environ is_dir convert schema settings false ≡ outcome
      → Promises schema settings (do (t, error) ← outcome; if error then none else some t)
  run-Promises schema settings none apart h =
      λ (after, a). let (r, ran) = run_goes schema settings after apart a in absurd (ground arith)
  run-Promises schema settings (some (t, true)) apart h =
      λ (after, a). let (r, ran) = run_goes schema settings after apart a in absurd (ground arith)
  run-Promises schema settings (some (t, false)) apart h = (
    run-Applied is_equal environ is_dir convert schema settings t apart h,
    keeps-if schema settings t apart h,
  )

  -- For a schema in which no key is there twice, in its sections neither: if `apply_schema` raises,
  -- the schema can be applied to the settings in no way. If it returns, the schema is applied in what
  -- it returns: on every level each key of the schema has a value, a setting the one that its
  -- `__call__` makes of the value that was there, which is of one of the types or values that the
  -- setting asks for; and a key that the schema has not keeps its value.
  pub apply_schema_outcomes :
      (schema : Keys) (settings : Tree)
      → HasDistinctKeys schema
      → Promises schema settings (apply_schema is_equal environ is_dir convert settings schema)
  unfolding apply_schema
  apply_schema_outcomes schema settings apart =
      run-Promises schema settings (run is_equal environ is_dir convert schema settings false) apart
        refl
