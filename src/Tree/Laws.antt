-- ===== src/Tree/Laws.antt =====
-- Dictionaries of a tree as functions of their keys.
use mathlib.Core.Path.{subst}
use mathlib.Core.Option.{some_inj}
use opencode_optimised_tooli.Prelude.{
  ==_self, Bool-cases, Option, Option-cases, Text, ap, arith, false, if◌then◌else◌, inl, inr,
  list_beq_iff, none, refl, some, sym, ◌<◌, ◌==◌, ◌↔◌, ◌∙◌, ◌≡◌, ◌⊎◌, list_eq, nat_eq, pair_eq,
  string_eq,
}
use opencode_optimised_tooli.Tree.{
  then_put, Scalar, null, truth, integer, real, string, moment, scalar, items, dict, Trees, nil,
  item, append_trees, type_of, scalar_type, Tree, Fields, empty, entry, get, put, fold_fields,
}

pub get-put :
    (key other : Text) (t : Tree) (d : Fields)
    → get other (put key t d) ≡ (if key == other then some t else get other d)
unfolding get put
get-put key other t empty = refl
get-put key other t (entry k held rest) = ground (
  arith,
  list_beq_iff key other,
  list_beq_iff k key,
  list_beq_iff k other,
  get-put key other t rest,
)

pub get-put_self : (key : Text) (t : Tree) (d : Fields) → get key (put key t d) ≡ some t
get-put_self key t d = get-put key key t d ∙ rw ==_self refl

-- No key is there twice.
unfoldable pub AreDistinct : Fields → Type 0
AreDistinct empty = Unit
AreDistinct (entry key t rest) = (get key rest ≡ none) × AreDistinct rest

pub get-put_other :
    (key other : Text) (t : Tree) (d : Fields)
    → (key == other) ≡ false
    → get other (put key t d) ≡ get other d
get-put_other key other t d apart = get-put key other t d ∙ rw apart refl

-- The loop leaves the keys that `new` has not.
pub get-fold_fields_other :
    (step : Option Tree → Tree → Option Tree) (new base result : Fields) (key : Text)
    → fold_fields step new base ≡ some result
    → get key new ≡ none
    → get key result ≡ get key base
unfolding fold_fields get
get-fold_fields_other step empty base result key h absent = ap (get key) (sym (some_inj.0 h))
get-fold_fields_other step (entry k t rest) base result key h absent =
    elim (Option-cases (step (get k base) t)) [
      | inl e ↦ absurd (ground arith)
      | inr (v, e) ↦
          let apart : (k == key) ≡ false = ground arith in
          get-fold_fields_other step rest (put k v base) result key (ground arith) (ground arith)
          ∙ get-put_other k key v base apart
    ]

-- At each key that `new` has, the loop leaves what `step` makes of the two values.
pub get-fold_fields :
    (step : Option Tree → Tree → Option Tree) (new base result : Fields) (key : Text) (t : Tree)
    → AreDistinct new
    → fold_fields step new base ≡ some result
    → get key new ≡ some t
    → get key result ≡ step (get key base) t
unfolding fold_fields get AreDistinct
get-fold_fields step empty base result key t d h e = absurd (ground arith)
get-fold_fields step (entry k first rest) base result key t (fresh, d) h e =
    elim (Option-cases (step (get k base) first)) [
      | inl failed ↦ absurd (ground arith)
      | inr (v, made) ↦
          let h' : fold_fields step rest (put k v base) ≡ some result = ground arith in
          elim (Bool-cases (k == key)) [
            | inl same ↦
                let k_eq = (list_beq_iff k key).0 same in
                let first_eq : first ≡ t = ground arith in
                get-fold_fields_other step rest (put k v base) result key h'
                  (subst (λ x. get x rest ≡ none) k_eq fresh)
                ∙ get-put k key v base
                ∙ rw same (sym made)
                ∙ ap (λ x. step (get x base) first) k_eq
                ∙ ap (step (get key base)) first_eq
            | inr apart ↦
                get-fold_fields step rest (put k v base) result key t d h' (ground arith)
                ∙ ap (λ x. step x t) (get-put_other k key v base apart)
          ]
    ]

pub fold_fields-entry :
    (step : Option Tree → Tree → Option Tree) (k : Text) (t : Tree) (rest base : Fields) (v : Tree)
    → step (get k base) t ≡ some v
    → fold_fields step (entry k t rest) base ≡ fold_fields step rest (put k v base)
unfolding fold_fields
fold_fields-entry step k t rest base v made = rw (made, fold_fields) refl

pub fold_fields-entry_fails :
    (step : Option Tree → Tree → Option Tree) (k : Text) (t : Tree) (rest base : Fields)
    → step (get k base) t ≡ none
    → fold_fields step (entry k t rest) base ≡ none
unfolding fold_fields
fold_fields-entry_fails step k t rest base failed = rw (failed, fold_fields) refl

-- A loop that has come to its end has taken each key.
pub fold_fields-takes :
    (step : Option Tree → Tree → Option Tree) (new base result : Fields) (key : Text) (t : Tree)
    → AreDistinct new
    → fold_fields step new base ≡ some result
    → get key new ≡ some t
    → (v : Tree) × (step (get key base) t ≡ some v)
unfolding fold_fields get AreDistinct
fold_fields-takes step Fields.empty base result key t d h e = absurd (ground arith)
fold_fields-takes step (entry k first rest) base result key t (fresh, d) h e =
    elim (Option-cases (step (get k base) first)) [
      | inl failed ↦ absurd (ground arith)
      | inr (v, made) ↦ elim (Bool-cases (k == key)) [
        | inl same ↦
            let k_eq = (list_beq_iff k key).0 same in
            let first_eq : first ≡ t = ground arith in
            (
              v,
              ap (λ x. step (get x base) t) (sym k_eq)
                  ∙ ap (step (get k base)) (sym first_eq)
                  ∙ made,
            )
        | inr apart ↦
            let (w, taken) =
              fold_fields-takes step rest (put k v base) result key t d (ground arith)
                (ground arith) in
            (w, ap (λ x. step x t) (sym (get-put_other k key v base apart)) ∙ taken)
      ]
    ]

-- A loop with such a step.
pub is_fold :
    (step : Option Tree → Tree → Option Tree) (loop : Fields → Fields → Option Fields)
    → ((base : Fields) → loop base Fields.empty ≡ some base)
    → ((base : Fields) (k : Text) (t : Tree) (rest : Fields)
        → loop base (entry k t rest) ≡ then_put k (step (get k base) t) (λ b. loop b rest) base)
    → (new base : Fields) → loop base new ≡ fold_fields step new base
unfolding fold_fields
is_fold step loop at_end at_entry Fields.empty base = at_end base
is_fold step loop at_end at_entry (entry k t rest) base =
    at_entry base k t rest ∙ elim (Option-cases (step (get k base) t)) [
      | inl failed ↦
          ap (λ o. then_put k o (λ b. loop b rest) base) failed
          ∙ sym (fold_fields-entry_fails step k t rest base failed)
      | inr (v, made) ↦
          ap (λ o. then_put k o (λ b. loop b rest) base) made
          ∙ is_fold step loop at_end at_entry rest (put k v base)
          ∙ sym (fold_fields-entry step k t rest base v made)
    ]

-- The loop comes to its end if `step` takes the two values of each key.
pub fold_fields_ends :
    (step : Option Tree → Tree → Option Tree) (new base : Fields)
    → AreDistinct new
    → ((key : Text) (t : Tree)
        → get key new ≡ some t
        → (v : Tree) × (step (get key base) t ≡ some v))
    → (result : Fields) × (fold_fields step new base ≡ some result)
unfolding fold_fields get AreDistinct
fold_fields_ends step empty base d takes = (base, refl)
fold_fields_ends step (entry k t rest) base (fresh, d) takes =
    let (v, made) = takes k t (rw ==_self refl) in
    let (result, ends) = fold_fields_ends step rest (put k v base) d λ key u e.
      let apart : (k == key) ≡ false = ground (arith, list_beq_iff k key, ap (λ x. get x rest)) in
      let (w, taken) = takes key u (rw apart e) in
      (w, ap (λ x. step x u) (get-put_other k key v base apart) ∙ taken) in
    (result, fold_fields-entry step k t rest base v made ∙ ends)

scalar_type-lt : (s : Scalar) → scalar_type s < 6
unfolding scalar_type
scalar_type-lt null = omega arith
scalar_type-lt (truth b) = omega arith
scalar_type-lt (integer negative n) = omega arith
scalar_type-lt (real bits) = omega arith
scalar_type-lt (string s) = omega arith
scalar_type-lt (moment bits) = omega arith

pub type_of-dict :
    (t : Tree) (d : Fields) → type_of t ≡ type_of (dict d) → (e : Fields) × (t ≡ dict e)
unfolding type_of
type_of-dict (scalar s) d h = absurd (omega (arith, scalar_type-lt s))
type_of-dict (items l) d h = absurd (omega arith)
type_of-dict (dict e) d h = (e, refl)

pub type_of-items :
    (t : Tree) (l : Trees) → type_of t ≡ type_of (items l) → (m : Trees) × (t ≡ items m)
unfolding type_of
type_of-items (scalar s) l h = absurd (omega (arith, scalar_type-lt s))
type_of-items (dict d) l h = absurd (omega arith)
type_of-items (items m) l h = (m, refl)

-- `t in l`
unfoldable pub IsIn : Tree → Trees → Type 0
IsIn t nil = ⊥
IsIn t (item u l) = (u ≡ t) ⊎ IsIn t l

pub IsIn-append : (l m : Trees) (t : Tree) → IsIn t (append_trees l m) ↔ (IsIn t l ⊎ IsIn t m)
unfolding IsIn append_trees
IsIn-append nil m t = (λ h. inr h, λ h. elim h [ inl no_item ↦ absurd no_item | inr k ↦ k ])
IsIn-append (item u l) m t =
    let (there, back) = IsIn-append l m t in
    (
      λ h. elim h [
        | inl e ↦ inl (inl e)
        | inr k ↦ elim (there k) [ inl a ↦ inl (inr a) | inr b ↦ inr b ]
      ],
      λ h. elim h [
        | inl (inl e) ↦ inl e
        | inl (inr a) ↦ inr (back (inl a))
        | inr b ↦ inr (back (inr b))
      ],
    )
