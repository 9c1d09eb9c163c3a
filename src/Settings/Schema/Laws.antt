-- ===== src/Settings/Schema/Laws.antt =====
-- settings_defaults.py: a loop of `apply_schema` without an error applies the schema, and leaves the
-- other keys.
use mathlib.Core.Option.{some_inj}
use mathlib.Core.Path.{subst}
use opencode_optimised_tooli.Prelude.{
  Bool, Dict, Option, Option-cases, Text, ap, arith, false, inl, inr, list_beq_iff, refl, some, sym,
  true, ◌∙◌, ◌≡◌, list_eq, nat_eq, pair_eq, string_eq,
}
use opencode_optimised_tooli.Tree.{Tree, Fields, scalar, items, dict, get, put}
use opencode_optimised_tooli.Tree.Laws.{get-put_self, get-put_other}
use opencode_optimised_tooli.Settings.Schema.{
  Schema, struct, setting, section, other, Keys, end, key, or_default, or_empty, call, run, step,
}
use opencode_optimised_tooli.Settings.Schema.Typed.{
  tree_get, IsDict, has, HasDistinctKeys, IsDistinctBelow, Applied, Becomes,
}
use opencode_optimised_tooli.Settings.Schema.Run.{call-HasType, run_split}

module _ (is_equal : Tree → Tree → Bool) (environ : Dict Text Text) (is_dir : Tree → Bool)
    (convert : Text → Tree → Option Tree) where
  -- A step without an error puts one value at the key.
  Puts : Text → Schema → Tree → Tree → Type 0
  Puts k s before after =
      (d : Fields) × (t : Tree) × (before ≡ dict d)
      × (after ≡ dict (put k t d))
      × Becomes is_equal environ is_dir convert s (get k d) t

  Puts-dict :
      (k : Text) (s : Schema) (d : Fields) (t after : Tree) (error : Bool)
      → ◌≡◌ {A = Option (Tree × Bool)} (some (dict (put k t d), error)) (some (after, false))
      → Becomes is_equal environ is_dir convert s (get k d) t
      → Puts k s (dict d) after
  unfolding Puts
  Puts-dict k s d t after error h becomes =
      (d, t, refl, sym (ap (λ p. p.0) (some_inj.0 h)), becomes)

  -- What stands at a key that the schema has not does not matter to what is applied.
  Applied-put :
      (keys : Keys) (k : Text) (t : Tree) (d : Fields) (after : Tree)
      → has k keys ≡ false
      → Applied is_equal environ is_dir convert keys (dict (put k t d)) after
      → Applied is_equal environ is_dir convert keys (dict d) after
  unfolding Applied has tree_get IsDict
  Applied-put end k t d after absent a = tt
  Applied-put (key k' s rest) k t d after absent (_, (u, there, becomes), a) = (
    tt,
    (
      u,
      there,
      subst (λ o. Becomes is_equal environ is_dir convert s o u)
          (get-put_other k k' t d (ground arith)) becomes,
    ),
    Applied-put rest k t d after (ground arith) a,
  )

  mutual
    unfolding step Becomes Puts Applied HasDistinctKeys IsDistinctBelow has tree_get IsDict

    step-Puts :
        (s : Schema) (k : Text) (before after : Tree)
        → IsDistinctBelow s
        → step is_equal environ is_dir convert k s before false ≡ some (after, false)
        → Puts k s before after
    step-Puts (struct name) k (dict d) after apart h =
        elim (Option-cases (convert name (or_empty (get k d)))) [
          | inl e ↦ absurd (ground arith)
          | inr (v, e) ↦ Puts-dict k (struct name) d v after false (rw e at h) e
        ]
    step-Puts (struct name) k (scalar _) after apart h = absurd (ground arith)
    step-Puts (struct name) k (items _) after apart h = absurd (ground arith)
    step-Puts (setting s) k (dict d) after apart h =
        elim (Option-cases (call is_equal environ is_dir convert s (get k d))) [
          | inl e ↦ absurd (ground arith)
          | inr (v, e) ↦
              Puts-dict k (setting s) d v after false (rw e at h)
                (e, call-HasType is_equal environ is_dir convert s (get k d) v e)
        ]
    step-Puts (setting s) k (scalar _) after apart h = absurd (ground arith)
    step-Puts (setting s) k (items _) after apart h = absurd (ground arith)
    step-Puts (section keys) k (dict d) after apart h =
        elim (Option-cases (
          run is_equal environ is_dir convert keys (or_default (dict Fields.empty) (get k d))
            false)) [
              | inl e ↦ absurd (ground arith)
              | inr ((v, true), e) ↦ absurd (ground arith)
              | inr ((v, false), e) ↦
                  Puts-dict k (section keys) d v after false (ground arith)
                    (run-Applied keys _ v apart e)
            ]
    step-Puts (section keys) k (scalar _) after apart h = absurd (ground arith)
    step-Puts (section keys) k (items _) after apart h = absurd (ground arith)
    step-Puts (other u) k (dict d) after apart h = Puts-dict k (other u) d _ after false h refl
    step-Puts (other u) k (scalar _) after apart h = absurd (ground arith)
    step-Puts (other u) k (items _) after apart h = absurd (ground arith)

    pub run_keeps :
        (keys : Keys) (k : Text) (before after : Tree)
        → HasDistinctKeys keys
        → run is_equal environ is_dir convert keys before false ≡ some (after, false)
        → has k keys ≡ false
        → tree_get k after ≡ tree_get k before
    run_keeps end k before after apart h absent =
        ap (tree_get k) (sym (ap (λ p. p.0) (some_inj.0 h)))
    run_keeps (key k' s rest) k before after (fresh, below, apart) h absent =
        let (u, stepped, later) =
          run_split is_equal environ is_dir convert k' s rest before after h in
        let (d, t, before_eq, u_eq, _) = step-Puts s k' before u below stepped in
        run_keeps rest k u after apart later (ground arith)
        ∙ ap (tree_get k) u_eq
        ∙ get-put_other k' k t d (ground (arith, list_beq_iff k k', list_beq_iff k' k))
        ∙ ap (tree_get k) (sym before_eq)

    pub run-Applied :
        (keys : Keys) (before after : Tree)
        → HasDistinctKeys keys
        → run is_equal environ is_dir convert keys before false ≡ some (after, false)
        → Applied is_equal environ is_dir convert keys before after
    run-Applied end before after apart h = tt
    run-Applied (key k s rest) before after (fresh, below, apart) h =
        let (u, stepped, later) =
          run_split is_equal environ is_dir convert k s rest before after h in
        let (d, t, before_eq, u_eq, becomes) = step-Puts s k before u below stepped in
        let there : tree_get k after ≡ some t =
          run_keeps rest k u after apart later fresh ∙ ap (tree_get k) u_eq ∙ get-put_self k t d in
        let others =
          subst (λ x. Applied is_equal environ is_dir convert rest x after) u_eq
            (run-Applied rest u after apart later) in
        subst (λ x. Applied is_equal environ is_dir convert (key k s rest) x after) (sym before_eq)
          (tt, (t, there, becomes), Applied-put rest k t d after fresh others)
