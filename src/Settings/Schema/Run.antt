-- ===== src/Settings/Schema/Run.antt =====
-- settings_defaults.py: the loop of `apply_schema` sets each key of the schema once.
use mathlib.Core.Path.{subst}
use opencode_optimised_tooli.Prelude.{
  Bool, Bool-cases, Dict, List, Option, Option-cases, Text, [], any, arith, false, if◌then◌else◌,
  inl, inr, none, refl, some, true, ◌∷◌, ◌≡◌, list_eq, nat_eq, pair_eq, string_eq,
}
use opencode_optimised_tooli.Tree.Partial.{bind-some}
use opencode_optimised_tooli.Tree.{Tree, Trees, scalar, items, dict, nil, item}
use opencode_optimised_tooli.Settings.Schema.{
  Element, kind, value, Check, plain, directory, sublist, SettingsValue, Schema, struct, setting,
  section, other, Keys, end, key, is_instance, call, fits, all_in, accepts, run, step, overridden,
  given_or_default,
}
use opencode_optimised_tooli.Settings.Schema.Typed.{IsOneOf, AreAllowed, HasType}

if_some : (b : Bool) (u t : Tree) → (if b then some u else none) ≡ some t → (b ≡ true) × (u ≡ t)
if_some b u t h = (ground arith, ground arith)

module _ (is_equal : Tree → Tree → Bool) (environ : Dict Text Text) (is_dir : Tree → Bool)
    (convert : Text → Tree → Option Tree) where
  any-IsOneOf :
      (definition : List Element) (t : Tree)
      → any (fits is_equal environ is_dir convert t) definition ≡ true
      → IsOneOf is_equal environ is_dir convert definition t
  unfolding any fits IsOneOf
  any-IsOneOf [] t h = absurd (ground arith)
  any-IsOneOf (kind k ∷ rest) t h = elim (Bool-cases (is_instance k t)) [
    | inl e ↦ inl e
    | inr e ↦ inr (any-IsOneOf rest t (ground arith))
  ]
  any-IsOneOf (value v ∷ rest) t h = elim (Bool-cases (is_equal t v)) [
    | inl e ↦ inl e
    | inr e ↦ inr (any-IsOneOf rest t (ground arith))
  ]

  all_in-AreAllowed :
      (l allowed : Trees)
      → all_in is_equal environ is_dir convert l allowed ≡ true
      → AreAllowed is_equal environ is_dir convert l allowed
  unfolding all_in AreAllowed
  all_in-AreAllowed nil allowed h = tt
  all_in-AreAllowed (item t l) allowed h =
      (ground arith, all_in-AreAllowed l allowed (ground arith))

  accepts-HasType :
      (check : Check) (definition : List Element) (t : Tree)
      → accepts is_equal environ is_dir convert check definition t ≡ true
      → HasType is_equal environ is_dir convert check definition t
  unfolding accepts HasType
  accepts-HasType plain definition t h = any-IsOneOf definition t h
  accepts-HasType directory definition t h = (any-IsOneOf definition t (ground arith), ground arith)
  accepts-HasType (sublist allowed) definition (items l) h =
      (l, refl, all_in-AreAllowed l allowed h)
  accepts-HasType (sublist allowed) definition (scalar s) h = absurd (ground arith)
  accepts-HasType (sublist allowed) definition (dict d) h = absurd (ground arith)

  pub call-HasType :
      (s : SettingsValue) (held : Option Tree) (t : Tree)
      → call is_equal environ is_dir convert s held ≡ some t
      → HasType is_equal environ is_dir convert s.check s.type_definition t
  unfolding call
  call-HasType s held t h =
      let (u, _, made) = bind-some (overridden environ s (given_or_default s held)) _ t h in
      let (accepted, same) = if_some _ u t made in
      accepts-HasType s.check s.type_definition t (
        subst (λ x. accepts is_equal environ is_dir convert s.check s.type_definition x ≡ true) same
          accepted)

  -- After an error the flag stays set.
  step_error :
      (k : Text) (s : Schema) (t t' : Tree) (error : Bool)
      → step is_equal environ is_dir convert k s t true ≡ some (t', error)
      → error ≡ true
  unfolding step
  step_error k (struct name) (dict d) t' error h = ground arith
  step_error k (struct name) (scalar _) t' error h = ground arith
  step_error k (struct name) (items _) t' error h = ground arith
  step_error k (setting s) (dict d) t' error h = ground arith
  step_error k (setting s) (scalar _) t' error h = ground arith
  step_error k (setting s) (items _) t' error h = ground arith
  step_error k (section keys) (dict d) t' error h = ground arith
  step_error k (section keys) (scalar _) t' error h = ground arith
  step_error k (section keys) (items _) t' error h = ground arith
  step_error k (other u) (dict d) t' error h = ground arith
  step_error k (other u) (scalar _) t' error h = ground arith
  step_error k (other u) (items _) t' error h = ground arith

  run_error :
      (keys : Keys) (t t' : Tree) (error : Bool)
      → run is_equal environ is_dir convert keys t true ≡ some (t', error)
      → error ≡ true
  unfolding run
  run_error end t t' error h = ground arith
  run_error (key k s rest) t t' error h =
      elim (Option-cases (step is_equal environ is_dir convert k s t true)) [
        | inl e ↦ absurd (ground arith)
        | inr ((u, flag), e) ↦ run_error rest u t' error (
            subst (λ b. run is_equal environ is_dir convert rest u b ≡ some (t', error))
              (step_error k s t u flag e) (ground arith))
      ]

  -- A run without an error has had none at its first key.
  pub run_split :
      (k : Text) (s : Schema) (rest : Keys) (t t' : Tree)
      → run is_equal environ is_dir convert (key k s rest) t false ≡ some (t', false)
      → (u : Tree) × (step is_equal environ is_dir convert k s t false ≡ some (u, false))
        × (run is_equal environ is_dir convert rest u false ≡ some (t', false))
  unfolding run
  run_split k s rest t t' h =
      elim (Option-cases (step is_equal environ is_dir convert k s t false)) [
        | inl e ↦ absurd (ground arith)
        | inr ((u, true), e) ↦ absurd (ground (arith, run_error rest u t' false))
        | inr ((u, false), e) ↦ (u, e, ground arith)
      ]
