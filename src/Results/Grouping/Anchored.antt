-- ===== src/Results/Grouping/Anchored.antt =====
-- results.py, `get_ordered_results`, pass 2: the position of a group is behind a result of its category.
use mathlib.Core.Option
use opencode_optimised_tooli.Prelude.{
  ==_iff, Bool-cases, Dict, List, Option-cases, String, [], ap, arith, false, get_elem?,
  get_elem?-insert_at_gt, get_elem?-insert_at_lt, get_elem?-insert_at_self, get_elem?-lt,
  get_elem?-snoc, get_elem?-snoc_self, if◌then◌else◌, inl, inr, insert_at, leb, leb→le, length,
  lookup, lookup-insert, refl, snoc, some, suc, sym, true, ℕ, ◌+◌, ◌==◌, ◌∙◌, ◌∷◌, ◌≡◌, ◌≤◌,
  list_eq, nat_eq, pair_eq, string_eq,
}
use opencode_optimised_tooli.Results.Grouping.{
  Group, shift, shift_all, adjust_group, take_one, State, append_group, join_group, place,
  place_all, max_count,
}
use opencode_optimised_tooli.Results.Grouping.Laws.{place_cases}

lookup-shift_all :
    (c : String) (i : ℕ) (d : Dict String Group)
    → lookup c (shift_all i d) ≡ Option.map (shift i) (lookup c d)
unfolding lookup shift_all
lookup-shift_all c i [] = refl
lookup-shift_all c i ((k, g) ∷ rest) = ground (arith, lookup-shift_all c i rest)

lookup-adjust_group :
    (k c : String) (d : Dict String Group)
    → lookup c (adjust_group k d)
      ≡ (if k == c then Option.map take_one (lookup c d) else lookup c d)
unfolding lookup adjust_group
lookup-adjust_group k c [] = ground arith
lookup-adjust_group k c ((j, g) ∷ rest) =
    ground (arith, lookup-adjust_group k c rest, ==_iff j k, ==_iff j c, ==_iff k c)

module _ {A : Type 0} (category_of : A → String) where
  -- The place before `index` holds a result of the category.
  pub record IsLast (gresults : List A) (c : String) (index : ℕ) : Type 0 where
    pub before : ℕ
    pub last : A
    pub index_eq : index ≡ suc before
    pub found : get_elem? gresults before ≡ some last
    pub same : category_of last ≡ c

  abbrev pub Anchored : State category_of → Type 0
  Anchored s =
      (c : String) (g : Group) → lookup c s.positions ≡ some g → IsLast s.gresults c g.index

  IsLast-snoc : (l : List A) (a : A) (c : String) (i : ℕ) → IsLast l c i → IsLast (snoc l a) c i
  IsLast-snoc l a c i h = record {
    before = h.before;
    last = h.last;
    index_eq = h.index_eq;
    found = get_elem?-snoc l h.before a h.found;
    same = h.same;
  }

  append_group-Anchored :
      (s : State category_of) (res : A) → Anchored s → Anchored (append_group category_of s res)
  unfolding append_group
  append_group-Anchored s res anchored c g h = elim (Bool-cases (category_of res == c)) [
    | inl e ↦ record {
      before = length s.gresults;
      last = res;
      index_eq = ground (
        arith,
        lookup-insert (category_of res) c
            (record { index = length s.gresults + 1; count = max_count }) s.positions,
      );
      found = get_elem?-snoc_self s.gresults res;
      same = (==_iff (category_of res) c).0 e;
    }
    | inr e ↦ IsLast-snoc s.gresults res c g.index (
        anchored c g (
          ground (
            arith,
            lookup-insert (category_of res) c
                (record { index = length s.gresults + 1; count = max_count }) s.positions,
          )))
  ]

  -- The group that was joined ends one place later.
  joined_index :
      (s : State category_of) (res : A) (grp : Group)
      → lookup (category_of res) s.positions ≡ some grp
      → (c : String) (g : Group) → (category_of res == c) ≡ true
      → lookup c (adjust_group (category_of res) (shift_all grp.index s.positions)) ≡ some g
      → g.index ≡ suc grp.index
  joined_index s res grp at_res c g e h = ground (
    arith,
    lookup-adjust_group (category_of res) c (shift_all grp.index s.positions),
    lookup-shift_all c grp.index s.positions,
    ==_iff (category_of res) c,
  )

  -- Another group is only shifted.
  other_group :
      (s : State category_of) (res : A) (grp : Group) (c : String) (g : Group)
      → (category_of res == c) ≡ false
      → lookup c (adjust_group (category_of res) (shift_all grp.index s.positions)) ≡ some g
      → (g0 : Group) × (lookup c s.positions ≡ some g0) × (g ≡ shift grp.index g0)
  other_group s res grp c g e h = elim (Option-cases (lookup c s.positions)) [
    | inl n ↦ absurd (
        ground (
          arith,
          lookup-adjust_group (category_of res) c (shift_all grp.index s.positions),
          lookup-shift_all c grp.index s.positions,
        ))
    | inr (g0, p) ↦ (
      g0,
      p,
      ground (
        arith,
        lookup-adjust_group (category_of res) c (shift_all grp.index s.positions),
        lookup-shift_all c grp.index s.positions,
      ),
    )
  ]

  -- Two groups that end at one place are of one category.
  IsLast-unique :
      (l : List A) (c d : String) (i j : ℕ) → IsLast l c i → IsLast l d j → i ≡ j → c ≡ d
  IsLast-unique l c d i j p q h =
      let one_place : p.before ≡ q.before = omega (arith, p.index_eq, q.index_eq) in
      let one_result : p.last ≡ q.last =
        let both : some p.last ≡ some q.last = sym p.found ∙ ap (get_elem? l) one_place ∙ q.found in
        cc in
      sym p.same ∙ ap category_of one_result ∙ q.same

  shifted_le :
      (l : List A) (res : A) (i : ℕ) (c : String) (j : ℕ)
      → IsLast l (category_of res) i
      → (other : IsLast l c j) → (category_of res == c) ≡ false
      → i ≤ j
      → i ≤ other.before
  shifted_le l res i c j own other ne h = elim (Bool-cases (leb i other.before)) [
    | inl e ↦ leb→le i other.before e
    | inr e ↦ absurd (
        ground (
          arith,
          IsLast-unique l (category_of res) c i j own other (ground (arith, other.index_eq)),
          ==_iff (category_of res) c,
        ))
  ]

  shift-IsLast :
      (l : List A) (res : A) (i : ℕ) (c : String) (j : ℕ)
      → IsLast l (category_of res) i
      → IsLast l c j
      → (category_of res == c) ≡ false
      → (g : Group) → g.index ≡ j
      → IsLast (insert_at l i res) c (shift i g).index
  shift-IsLast l res i c j own other ne g at_j = elim (Bool-cases (leb i g.index)) [
    | inl e ↦ record {
      before = suc other.before;
      last = other.last;
      index_eq = ground (arith, other.index_eq);
      found =
          get_elem?-insert_at_gt l i other.before res
            (shifted_le l res i c j own other ne (ground arith)) other.found;
      same = other.same;
    }
    | inr e ↦ record {
      before = other.before;
      last = other.last;
      index_eq = ground (arith, other.index_eq);
      found =
          get_elem?-insert_at_lt l i other.before res (ground (arith, other.index_eq)) other.found;
      same = other.same;
    }
  ]

  join_group-Anchored :
      (s : State category_of) (res : A) (grp : Group)
      → lookup (category_of res) s.positions ≡ some grp
      → Anchored s
      → Anchored (join_group category_of s res grp)
  unfolding join_group
  join_group-Anchored s res grp at_res anchored c g h =
      let own = anchored (category_of res) grp at_res in
      elim (Bool-cases (category_of res == c)) [
        | inl e ↦ record {
          before = grp.index;
          last = res;
          index_eq = joined_index s res grp at_res c g e h;
          found =
              get_elem?-insert_at_self s.gresults grp.index res
                (omega (arith, own.index_eq, get_elem?-lt s.gresults own.before own.found));
          same = (==_iff (category_of res) c).0 e;
        }
        | inr e ↦
            let (g0, at_c, g_eq) = other_group s res grp c g e h in
            rw g_eq
              (shift-IsLast s.gresults res grp.index c g0.index own (anchored c g0 at_c) e g0 refl)
      ]

  place-Anchored :
      (s : State category_of) (res : A) → Anchored s → Anchored (place category_of s res)
  place-Anchored s res anchored = elim (place_cases category_of s res) [
    | inl e ↦ rw e (append_group-Anchored s res anchored)
    | inr (grp, at_res, e) ↦ rw e (join_group-Anchored s res grp at_res anchored)
  ]

  pub place_all-Anchored :
      (s : State category_of) (results : List A)
      → Anchored s
      → Anchored (place_all category_of s results)
  unfolding place_all
  place_all-Anchored s [] anchored = anchored
  place_all-Anchored s (res ∷ rest) anchored =
      place_all-Anchored (place category_of s res) rest (place-Anchored s res anchored)
