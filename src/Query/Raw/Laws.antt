-- ===== src/Query/Raw/Laws.antt =====
-- Where the words of a query go.
use mathlib.Core.Path.{subst}
use mathlib.Core.Option.{some_inj}
use opencode_optimised_tooli.Prelude.{
  All, Bool, Bool-cases, List, Option-cases, Text, [], ap, append-nil, append_assoc, arith, false,
  if◌then◌else◌, inl, inr, is_empty, join_on, keep, refl, snoc, some, sym, true, ◌++◌, ◌∙◌, ◌∷◌,
  ◌≡◌, ◌⊎◌, list_eq, nat_eq, pair_eq, string_eq,
}
use opencode_optimised_tooli.Query.Types.{EngineRef, Setup, RawTextQuery, new_query}
use opencode_optimised_tooli.Query.Commands.{call_parser}
use opencode_optimised_tooli.Query.Raw.{
  split_spaces, is_blank_part, append_part, parse_part, parse_parts, parse_query, get_query,
  get_full_query, words,
}
use opencode_optimised_tooli.Query.Raw.Words.{
  real_parts, real_parts-split_spaces, IsWord, words-IsWord, words-join_on, words-join_on_two,
}
use opencode_optimised_tooli.Query.Raw.Strip.{words-strip}
use opencode_optimised_tooli.Query.Raw.Frame.{parts_of, parts_of-call_parser}

-- Two lists that together are a third one, each in its order.
pub data Interleaves {ℓ} {A : Type ℓ} : List A → List A → List A → Type ℓ where
  neither : Interleaves [] [] []
  first_takes :
      {xs ys zs : List A} (x : A) → Interleaves xs ys zs → Interleaves (x ∷ xs) ys (x ∷ zs)
  second_takes :
      {xs ys zs : List A} (y : A) → Interleaves xs ys zs → Interleaves xs (y ∷ ys) (y ∷ zs)

All-Interleaves {ℓ κ} :
    {A : Type ℓ} {xs ys zs : List A} (P : A → Type κ)
    → Interleaves xs ys zs
    → All P zs
    → All P xs × All P ys
All-Interleaves P neither h = (tt, tt)
All-Interleaves P (first_takes x i) (p, h) = let (hx, hy) = All-Interleaves P i h in ((p, hx), hy)
All-Interleaves P (second_takes y i) (p, h) = let (hx, hy) = All-Interleaves P i h in (hx, (p, hy))

real_parts_nothing : real_parts [] ≡ []
unfolding keep
real_parts_nothing = refl

-- What a part of the query has added to the two lists.
record Sorts (q q' : RawTextQuery) (parts : List Text) : Type 0 where
  special : List Text
  plain : List Text
  special_eq : q'.query_parts ≡ q.query_parts ++ special
  plain_eq : q'.user_query_parts ≡ q.user_query_parts ++ plain
  sorted : Interleaves special plain (real_parts parts)

append_part-first :
    (part : Text) (q : RawTextQuery)
    → ((append_part true part q).query_parts ≡ snoc q.query_parts part)
      × ((append_part true part q).user_query_parts ≡ q.user_query_parts)
unfolding append_part
append_part-first part q = (refl, refl)

append_part-second :
    (part : Text) (q : RawTextQuery)
    → ((append_part false part q).query_parts ≡ q.query_parts)
      × ((append_part false part q).user_query_parts ≡ snoc q.user_query_parts part)
unfolding append_part
append_part-second part q = (refl, refl)

real_parts-cons :
    (part : Text) (rest : List Text)
    → real_parts (part ∷ rest)
      ≡ (if is_blank_part part then real_parts rest else part ∷ real_parts rest)
unfolding keep
real_parts-cons part rest = ground arith

-- One more part before the others.
Sorts-cons :
    (special : Bool) (part : Text) (rest : List Text) (q q1 q' : RawTextQuery)
    → is_blank_part part ≡ false
    → parts_of q1 ≡ parts_of q
    → Sorts (append_part special part q1) q' rest
    → Sorts q q' (part ∷ rest)
Sorts-cons true part rest q q1 q' real same s =
    let (here, there) = append_part-first part q1 in
    record {
      special = part ∷ s.special;
      plain = s.plain;
      special_eq =
          s.special_eq
          ∙ ap (λ l. l ++ s.special) (here ∙ ap (λ p. snoc p.0 part) same)
          ∙ append_assoc q.query_parts (part ∷ []) s.special;
      plain_eq = s.plain_eq ∙ ap (λ l. l ++ s.plain) (there ∙ ap (λ p. p.1) same);
      sorted =
          subst (Interleaves (part ∷ s.special) s.plain)
            (sym (real_parts-cons part rest ∙ rw real refl)) (first_takes part s.sorted);
    }
Sorts-cons false part rest q q1 q' real same s =
    let (there, here) = append_part-second part q1 in
    record {
      special = s.special;
      plain = part ∷ s.plain;
      special_eq = s.special_eq ∙ ap (λ l. l ++ s.special) (there ∙ ap (λ p. p.0) same);
      plain_eq =
          s.plain_eq
          ∙ ap (λ l. l ++ s.plain) (here ∙ ap (λ p. snoc p.1 part) same)
          ∙ append_assoc q.user_query_parts (part ∷ []) s.plain;
      sorted =
          subst (Interleaves s.special (part ∷ s.plain))
            (sym (real_parts-cons part rest ∙ rw real refl)) (second_takes part s.sorted);
    }

Sorts-blank :
    (part : Text) (rest : List Text) (q q' : RawTextQuery)
    → is_blank_part part ≡ true
    → Sorts q q' rest
    → Sorts q q' (part ∷ rest)
Sorts-blank part rest q q' blank s = record {
  special = s.special;
  plain = s.plain;
  special_eq = s.special_eq;
  plain_eq = s.plain_eq;
  sorted =
      subst (Interleaves s.special s.plain) (sym (real_parts-cons part rest ∙ rw blank refl))
        s.sorted;
}

module _ (setup : Setup) where
  -- What a round does with a part.
  parse_part-cases :
      (last : Bool) (part : Text) (q q1 : RawTextQuery)
      → parse_part setup last part q ≡ some q1
      → ((is_blank_part part ≡ true) × (q ≡ q1))
        ⊎ ((is_blank_part part ≡ false)
            × (q2 : RawTextQuery) × (special : Bool) × (call_parser setup last part q
                ≡ some (q2, special))
            × (append_part special part q2 ≡ q1))
  unfolding parse_part
  parse_part-cases last part q q1 h = elim (Bool-cases (is_blank_part part)) [
    | inl blank ↦ inl (blank, ground arith)
    | inr real ↦ elim (Option-cases (call_parser setup last part q)) [
      | inl e ↦ absurd (ground arith)
      | inr ((q2, special), e) ↦ inr (real, q2, special, e, ground arith)
    ]
  ]

  parse_parts-Sorts :
      (parts : List Text) (q q' : RawTextQuery)
      → parse_parts setup parts q ≡ some q'
      → Sorts q q' parts
  unfolding parse_parts
  parse_parts-Sorts [] q q' h =
      subst (λ x. Sorts q x []) (some_inj.0 h)
        (record {
          special = [];
          plain = [];
          special_eq = sym (append-nil q.query_parts);
          plain_eq = sym (append-nil q.user_query_parts);
          sorted = subst (Interleaves [] []) (sym real_parts_nothing) neither;
        })
  parse_parts-Sorts (part ∷ rest) q q' h =
      elim (Option-cases (parse_part setup (is_empty rest) part q)) [
        | inl e ↦ absurd (ground arith)
        | inr (q1, e) ↦
            let h' : parse_parts setup rest q1 ≡ some q' = ground arith in
            let s = parse_parts-Sorts rest q1 q' h' in
            elim (parse_part-cases (is_empty rest) part q q1 e) [
              | inl (blank, same) ↦
                  Sorts-blank part rest q q' blank (subst (λ x. Sorts x q' rest) (sym same) s)
              | inr (real, q2, special, called, put) ↦
                  Sorts-cons special part rest q q2 q' real
                    (parts_of-call_parser setup (is_empty rest) part q q2 special called)
                    (subst (λ x. Sorts x q' rest) (sym put) s)
            ]
      ]

  -- Every word of a query that is parsed goes either to the commands or to the text of the user, in order.
  pub parse_query-Interleaves :
      (query : Text) (disabled_engines : List EngineRef) (q : RawTextQuery)
      → parse_query setup query disabled_engines ≡ some q
      → Interleaves q.query_parts q.user_query_parts (words query)
  unfolding parse_query
  parse_query-Interleaves query disabled_engines q h =
      let s = parse_parts-Sorts (split_spaces query) (new_query query disabled_engines) q h in
      subst (λ x. Interleaves x q.user_query_parts (words query)) (sym s.special_eq)
        (subst (λ x. Interleaves s.special x (words query)) (sym s.plain_eq)
          (subst (Interleaves s.special s.plain) (real_parts-split_spaces query) s.sorted))

  -- Printing a parsed query and splitting it again gives its commands and then its text.
  pub words-get_full_query :
      (query : Text) (disabled_engines : List EngineRef) (q : RawTextQuery)
      → parse_query setup query disabled_engines ≡ some q
      → words (get_full_query q) ≡ q.query_parts ++ q.user_query_parts
  unfolding get_full_query get_query
  words-get_full_query query disabled_engines q h =
      let sorted = parse_query-Interleaves query disabled_engines q h in
      let (commands, text) = All-Interleaves IsWord sorted (words-IsWord query) in
      words-strip (join_on b' ' q.query_parts ++ b' ' ∷ join_on b' ' q.user_query_parts)
      ∙ words-join_on_two q.query_parts (join_on b' ' q.user_query_parts) commands
      ∙ ap (λ l. q.query_parts ++ l) (words-join_on q.user_query_parts text)
