-- ===== src/WebAdapter/Engines/Laws.antt =====
-- The engines of a search: no engine twice under a category, and three lists of the checked ones.
use opencode_optimised_tooli.Prelude.{
  ==_iff, ==_self, true, ◌==◌, ◌∙◌, All, All-insert, Bool, Bool-cases, Dict, DistinctKeys,
  DistinctKeys-insert, List, Text, [], arith, contains, false, has_key, has_key-insert, inl, inr,
  insert, keep, map, not, refl, sym, values, ◌&&◌, ◌++◌, ◌||◌, ◌∷◌, ◌≡◌, list_eq, nat_eq, pair_eq,
  string_eq,
}
use opencode_optimised_tooli.Query.Types.{EngineRef, Setup}
use opencode_optimised_tooli.WebAdapter.Types.{Preferences}
use opencode_optimised_tooli.WebAdapter.Engines.{
  index_refs, deduplicate_engineref_list, validate_token, validate_engineref_list,
}

-- A reference's category and name, as the dictionary's keys spell them.
abbrev pub ref_key : EngineRef → Text
ref_key r = r.1 ++ b'|' ∷ r.0

abbrev pub AreDistinct : List Text → Type 0
AreDistinct [] = Unit
AreDistinct (t ∷ ts) = (contains t ts ≡ false) × AreDistinct ts

index_refs-DistinctKeys :
    (refs : List EngineRef) (d : Dict Text EngineRef)
    → DistinctKeys d
    → DistinctKeys (index_refs refs d)
unfolding index_refs
index_refs-DistinctKeys [] d h = h
index_refs-DistinctKeys (r ∷ refs) d h =
    index_refs-DistinctKeys refs (insert (ref_key r) r d) (DistinctKeys-insert (ref_key r) r d h)

abbrev IsKeyed : Text × EngineRef → Type 0
IsKeyed e = e.0 ≡ ref_key e.1

index_refs-IsKeyed :
    (refs : List EngineRef) (d : Dict Text EngineRef)
    → All IsKeyed d
    → All IsKeyed (index_refs refs d)
unfolding index_refs
index_refs-IsKeyed [] d h = h
index_refs-IsKeyed (r ∷ refs) d h =
    index_refs-IsKeyed refs (insert (ref_key r) r d) (All-insert IsKeyed (ref_key r) r d refl h)

has_key-index_refs :
    (k : Text) (refs : List EngineRef) (d : Dict Text EngineRef)
    → has_key k (index_refs refs d) ≡ (contains k (map ref_key refs) || has_key k d)
unfolding index_refs contains
has_key-index_refs k [] d = refl
has_key-index_refs k (r ∷ refs) d =
    ground
      (arith, has_key-index_refs k refs (insert (ref_key r) r d), has_key-insert (ref_key r) k r d)

contains-values :
    (k : Text) (d : Dict Text EngineRef)
    → All IsKeyed d
    → contains k (map ref_key (values d)) ≡ has_key k d
unfolding contains has_key
contains-values k [] h = refl
contains-values k ((other, r) ∷ d) (e, h) = rw (e, contains-values k d h) refl

values-AreDistinct :
    (d : Dict Text EngineRef)
    → All IsKeyed d
    → DistinctKeys d
    → AreDistinct (map ref_key (values d))
values-AreDistinct [] h k = tt
values-AreDistinct ((other, r) ∷ d) (e, h) (fresh, k) =
    (rw (sym e, contains-values other d h) fresh, values-AreDistinct d h k)

-- No two of the references that are kept have the same key, and the key of each given one is kept.
pub deduplicate_engineref_list-AreDistinct :
    (refs : List EngineRef)
    → AreDistinct (map ref_key (deduplicate_engineref_list refs))
      × ((k : Text)
          → contains k (map ref_key (deduplicate_engineref_list refs))
            ≡ contains k (map ref_key refs))
unfolding deduplicate_engineref_list has_key
deduplicate_engineref_list-AreDistinct refs =
    let keyed = index_refs-IsKeyed refs [] tt in
    (
      values-AreDistinct (index_refs refs []) keyed (index_refs-DistinctKeys refs [] tt),
      λ k.
          ground
            (arith, contains-values k (index_refs refs []) keyed, has_key-index_refs k refs []),
    )

-- A reference with no `|` in its category: its key tells it.
abbrev pub HasNoBar : EngineRef → Type 0
HasNoBar r = contains b'|' r.1 ≡ false

cut_at_bar :
    (c d n m : Text)
    → contains b'|' c ≡ false
    → contains b'|' d ≡ false
    → c ++ b'|' ∷ n ≡ d ++ b'|' ∷ m
    → (c ≡ d) × (n ≡ m)
unfolding contains
cut_at_bar [] [] n m h k e = (refl, ground arith)
cut_at_bar [] (y ∷ d) n m h k e = absurd (ground arith)
cut_at_bar (x ∷ c) [] n m h k e = absurd (ground arith)
cut_at_bar (x ∷ c) (y ∷ d) n m h k e =
    let tails : c ++ b'|' ∷ n ≡ d ++ b'|' ∷ m = ground arith in
    let (same, rest) = cut_at_bar c d n m (ground arith) (ground arith) tails in
    (ground arith, rest)

ref_key_injective : (r q : EngineRef) → HasNoBar r → HasNoBar q → ref_key r ≡ ref_key q → r ≡ q
ref_key_injective (n, c) (m, d) h k e = let (same, rest) = cut_at_bar c d n m h k e in ground arith

contains-map-ref_key :
    (r : EngineRef) (refs : List EngineRef)
    → contains r refs ≡ true
    → contains (ref_key r) (map ref_key refs) ≡ true
unfolding contains
contains-map-ref_key r [] h = absurd (ground arith)
contains-map-ref_key r (q ∷ refs) h = elim (Bool-cases (q == r)) [
  | inl e ↦ rw ((==_iff q r).0 e) (ground (arith, ==_self (ref_key r)))
  | inr e ↦ ground (arith, contains-map-ref_key r refs)
]

contains-ref_key :
    (r : EngineRef) (refs : List EngineRef)
    → HasNoBar r
    → All HasNoBar refs
    → contains (ref_key r) (map ref_key refs) ≡ true
    → contains r refs ≡ true
unfolding contains
contains-ref_key r [] h k e = absurd (ground arith)
contains-ref_key r (q ∷ refs) h (k, all) e = elim (Bool-cases (ref_key q == ref_key r)) [
  | inl same ↦
      let equal = ref_key_injective q r k h ((==_iff (ref_key q) (ref_key r)).0 same) in
      rw equal (ground (arith, ==_self r))
  | inr apart ↦ ground (arith, contains-ref_key r refs h all)
]

-- What holds of all given references holds of those that are kept.
All-index_refs :
    (P : EngineRef → Type 0) (refs : List EngineRef) (d : Dict Text EngineRef)
    → All P refs
    → All (λ e. P e.1) d
    → All (λ e. P e.1) (index_refs refs d)
unfolding index_refs
All-index_refs P [] d h k = k
All-index_refs P (r ∷ refs) d (p, h) k =
    All-index_refs P refs (insert (ref_key r) r d) h (All-insert (λ e. P e.1) (ref_key r) r d p k)

All-values :
    (P : EngineRef → Type 0) (d : Dict Text EngineRef) → All (λ e. P e.1) d → All P (values d)
All-values P [] h = tt
All-values P (e ∷ d) (p, h) = (p, All-values P d h)

All-map {ℓ κ} :
    {P : EngineRef → Type ℓ} {Q : EngineRef → Type κ} (refs : List EngineRef)
    → ((r : EngineRef) → P r → Q r)
    → All P refs
    → All Q refs
All-map [] f h = tt
All-map (r ∷ refs) f (p, h) = (f r p, All-map refs f h)

All-contained : (refs : List EngineRef) → All (λ r. contains r refs ≡ true) refs
unfolding contains
All-contained [] = tt
All-contained (r ∷ refs) = (
  ground (arith, ==_self r),
  All-map {P = λ q. contains q refs ≡ true} refs (λ q h. ground arith) (All-contained refs),
)

All-both {ℓ κ} :
    (P : EngineRef → Type ℓ) (Q : EngineRef → Type κ) (refs : List EngineRef)
    → All P refs
    → All Q refs
    → All (λ r. P r × Q r) refs
All-both P Q [] h k = tt
All-both P Q (r ∷ refs) (p, h) (q, k) = ((p, q), All-both P Q refs h k)

-- No reference is there twice.
abbrev pub HasNoRepeats : List EngineRef → Type 0
HasNoRepeats [] = Unit
HasNoRepeats (r ∷ refs) = (contains r refs ≡ false) × HasNoRepeats refs

AreDistinct-HasNoRepeats :
    (refs : List EngineRef) → AreDistinct (map ref_key refs) → HasNoRepeats refs
AreDistinct-HasNoRepeats [] h = tt
AreDistinct-HasNoRepeats (r ∷ refs) (fresh, h) =
    (ground (arith, contains-map-ref_key r refs), AreDistinct-HasNoRepeats refs h)

-- If no category has a `|` in it: of the references that are kept none is there twice, each given
-- reference is kept, and each one that is kept was given.
pub deduplicate_engineref_list_keeps :
    (refs : List EngineRef)
    → All HasNoBar refs
    → HasNoRepeats (deduplicate_engineref_list refs)
      × All (λ r. contains r (deduplicate_engineref_list refs) ≡ true) refs
      × All (λ r. contains r refs ≡ true) (deduplicate_engineref_list refs)
unfolding deduplicate_engineref_list
deduplicate_engineref_list_keeps refs bars =
    let kept = deduplicate_engineref_list refs in
    let (distinct, covers) = deduplicate_engineref_list-AreDistinct refs in
    let free : All HasNoBar kept =
      All-values HasNoBar (index_refs refs []) (All-index_refs HasNoBar refs [] bars tt) in
    (
      AreDistinct-HasNoRepeats kept distinct,
      All-map {P = λ r. HasNoBar r × (contains r refs ≡ true)} refs
          (λ r (h, there).
            contains-ref_key r kept h free (covers (ref_key r) ∙ contains-map-ref_key r refs there))
          (All-both HasNoBar (λ r. contains r refs ≡ true) refs bars (All-contained refs)),
      All-values (λ r. contains r refs ≡ true) (index_refs refs [])
          (All-index_refs (λ r. contains r refs ≡ true) refs [] (All-contained refs) tt),
    )

module _ (setup : Setup) (engine_tokens : Dict Text (List Text)) where
  abbrev pub is_known : EngineRef → Bool
  is_known r = has_key r.0 setup.engines

  abbrev pub is_open : Preferences → EngineRef → Bool
  is_open preferences r = validate_token setup engine_tokens preferences r.0

  -- The three lists select the references that are known and open to the tokens, unknown, known
  -- and not open, each in the given order.
  pub validate_engineref_list_lem :
      (refs : List EngineRef) (preferences : Preferences)
      → validate_engineref_list setup engine_tokens refs preferences ≡ record {
        valid = keep (λ r. is_known r && is_open preferences r) refs;
        unknown = keep (λ r. not (is_known r)) refs;
        no_token = keep (λ r. is_known r && not (is_open preferences r)) refs;
      }
  unfolding validate_engineref_list keep
  validate_engineref_list_lem [] preferences = refl
  validate_engineref_list_lem (r ∷ rest) preferences =
      let ih = validate_engineref_list_lem rest preferences in
      elim (Bool-cases (is_known r)) [
        | inr unknown ↦ rw (unknown, ih) refl
        | inl known ↦ elim (Bool-cases (is_open preferences r)) [
          | inl held ↦ rw (known, held, ih) refl
          | inr closed ↦ rw (known, closed, ih) refl
        ]
      ]
