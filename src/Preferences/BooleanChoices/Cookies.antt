-- ===== src/Preferences/BooleanChoices/Cookies.antt =====
-- The two cookies of the switched engines or plugins give back every choice.
use opencode_optimised_tooli.Prelude.{
  ==_iff, All, Bool, Bool-cases, Dict, DistinctKeys, List, Option, Text, [], ap, arith, contains,
  false, has_key, has_key-insert, if◌then◌else◌, inl, inr, insert, is_empty, join_on, keep, keys,
  lookup, lookup-insert, none, not, refl, some, split_on, split_on-join_on, true, ◌&&◌, ◌∷◌, ◌≡◌,
  list_eq, nat_eq, pair_eq, string_eq,
}
use opencode_optimised_tooli.Preferences.BooleanSetting.{same}
use opencode_optimised_tooli.Preferences.BooleanChoices.{
  BooleanChoices, set_known, parse_cookie, with_value, was, changed, save,
}

abbrev pub is_there : Option Bool → Bool
is_there none = false
is_there (some v) = true

has_key-lookup : (k : Text) (d : Dict Text Bool) → has_key k d ≡ is_there (lookup k d)
unfolding has_key lookup
has_key-lookup k [] = refl
has_key-lookup k ((i, w) ∷ d) = ground (arith, has_key-lookup k d)

same_has_key : (j k : Text) (d : Dict Text Bool) → j ≡ k → has_key j d ≡ has_key k d
same_has_key j k d p = ap (λ x. has_key x d) p

-- What `set_known` does to one key.
lookup-set_known :
    (v : Bool) (k : Text) (names : List Text) (d : Dict Text Bool)
    → lookup k (set_known v names d)
      ≡ (if contains k names && has_key k d then some v else lookup k d)
unfolding set_known contains
lookup-set_known v k [] d = refl
lookup-set_known v k (name ∷ rest) d = elim (Bool-cases (has_key name d)) [
  | inl e ↦ ground (
    arith,
    lookup-set_known v k rest (insert name v d),
    lookup-insert name k v d,
    has_key-insert name k v d,
    ==_iff name k,
  )
  | inr e ↦ ground (arith, lookup-set_known v k rest d, ==_iff name k, same_has_key name k d)
]

contains-with_value :
    (v : Bool) (k : Text) (d : Dict Text Bool)
    → DistinctKeys d
    → contains k (with_value v d) ≡ was v (lookup k d)
unfolding contains with_value lookup
contains-with_value v k [] h = refl
contains-with_value v k ((j, w) ∷ d) (fresh, h) =
    ground (arith, contains-with_value v k d h, has_key-lookup k d, ==_iff j k, same_has_key j k d)

contains-keep :
    (p : Text → Bool) (k : Text) (l : List Text) → contains k (keep p l) ≡ (contains k l && p k)
unfolding contains keep
contains-keep p k [] = refl
contains-keep p k (x ∷ l) = ground (arith, contains-keep p k l, ==_iff x k, ap p)

contains-split_nothing :
    (k : Text) → is_empty k ≡ false → contains k (split_on b',' (join_on b',' [])) ≡ contains k []
unfolding split_on join_on contains
contains-split_nothing [] h = absurd (ground arith)
contains-split_nothing (c ∷ k) h = refl

abbrev pub IsFree : Text → Type 0
IsFree q = contains b',' q ≡ false

IsFree-with_value :
    (v : Bool) (d : Dict Text Bool) → All IsFree (keys d) → All IsFree (with_value v d)
unfolding with_value
IsFree-with_value v [] h = tt
IsFree-with_value v ((k, w) ∷ d) (p, h) = elim (Bool-cases (same v w)) [
  | inl e ↦ rw e (p, IsFree-with_value v d h)
  | inr e ↦ rw e (IsFree-with_value v d h)
]

IsFree-keep : (p : Text → Bool) (l : List Text) → All IsFree l → All IsFree (keep p l)
unfolding keep
IsFree-keep p [] h = tt
IsFree-keep p (x ∷ l) (free, h) = elim (Bool-cases (p x)) [
  | inl e ↦ rw e (free, IsFree-keep p l h)
  | inr e ↦ rw e (IsFree-keep p l h)
]

IsFree-changed :
    (v : Bool) (s : BooleanChoices) → All IsFree (keys s.choices) → All IsFree (changed v s)
unfolding changed
IsFree-changed v s h =
    IsFree-keep (λ k. was (not v) (lookup k s.default_choices)) (with_value v s.choices)
      (IsFree-with_value v s.choices h)

-- Splitting a cookie finds the same names, but for the empty one.
contains-split_on :
    (k : Text) (names : List Text)
    → is_empty k ≡ false
    → All (λ q. contains b',' q ≡ false) names
    → contains k (split_on b',' (join_on b',' names)) ≡ contains k names
contains-split_on k [] h free = contains-split_nothing k h
contains-split_on k (p ∷ ps) h free = ap (contains k) (split_on-join_on b',' p ps free)

contains-changed :
    (v : Bool) (k : Text) (s : BooleanChoices)
    → DistinctKeys s.choices
    → contains k (changed v s)
      ≡ (was v (lookup k s.choices) && was (not v) (lookup k s.default_choices))
unfolding changed
contains-changed v k s h = ground (
  arith,
  contains-keep (λ k. was (not v) (lookup k s.default_choices)) k (with_value v s.choices),
  contains-with_value v k s.choices h,
)

-- Parsing the saved cookies into fresh choices (the defaults) restores the user's choice for every
-- name that is not empty, if the names are distinct and hold no comma, and the choices have the
-- names of the defaults.
pub parse_cookie-save :
    (s fresh : BooleanChoices)
    → fresh.choices ≡ s.default_choices
    → ((k : Text) → has_key k s.choices ≡ has_key k s.default_choices)
    → DistinctKeys s.choices
    → All IsFree (keys s.choices)
    → (k : Text) → is_empty k ≡ false
    → lookup k (parse_cookie (save s).0 (save s).1 fresh).choices ≡ lookup k s.choices
unfolding parse_cookie save
parse_cookie-save s fresh start same_keys distinct free k named =
    let disabled = split_on b',' (join_on b',' (changed false s)) in
    let enabled = split_on b',' (join_on b',' (changed true s)) in
    let first = set_known false disabled s.default_choices in
    let dis_eq = contains-split_on k (changed false s) named (IsFree-changed false s free) in
    let en_eq = contains-split_on k (changed true s) named (IsFree-changed true s free) in
    rw start (
      ground (
        arith,
        lookup-set_known true k enabled first,
        lookup-set_known false k disabled s.default_choices,
        has_key-lookup k first,
        has_key-lookup k s.default_choices,
        has_key-lookup k s.choices,
        same_keys k,
        dis_eq,
        en_eq,
        contains-changed false k s distinct,
        contains-changed true k s distinct,
      ))
