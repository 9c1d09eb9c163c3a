-- ===== src/Results/Grouping/Adjacent.antt =====
-- A result that joins a group stands directly behind a result of its own category.
use opencode_optimised_tooli.Prelude.{
  List, String, [], ap, arith, get_elem?, get_elem?-insert_at_lt, get_elem?-insert_at_self,
  get_elem?-lt, insert_at, lookup, some, suc, true, ℕ, ◌∙◌, ◌≡◌, list_eq, nat_eq, pair_eq,
  string_eq,
}
use opencode_optimised_tooli.Results.Grouping.{Group, State, join_group, place, place_all, accepts}
use opencode_optimised_tooli.Results.Grouping.Anchored.{place_all-Anchored}

module _ {A : Type 0} (category_of : A → String) where
  joined_gresults :
      (s : State category_of) (res : A) (grp : Group)
      → lookup (category_of res) s.positions ≡ some grp
      → accepts category_of s grp ≡ true
      → (place category_of s res).gresults ≡ insert_at s.gresults grp.index res
  unfolding place join_group
  joined_gresults s res grp at_res ok = ground arith

  -- The state of the loop after some results.
  abbrev pub grouped : List A → State category_of
  grouped results = place_all category_of (record { gresults = []; positions = [] }) results

  -- Whatever results were placed before: when a group accepts a result, the result is put directly
  -- behind a result of its own category.
  pub place_joins_behind_same :
      (results : List A) (res : A) (grp : Group)
      → lookup (category_of res) (grouped results).positions ≡ some grp
      → accepts category_of (grouped results) grp ≡ true
      → (i : ℕ) × (r : A) × (category_of r ≡ category_of res)
        × (get_elem? (place category_of (grouped results) res).gresults i ≡ some r)
        × (get_elem? (place category_of (grouped results) res).gresults (suc i) ≡ some res)
  unfolding lookup
  place_joins_behind_same results res grp at_res ok =
      let s = grouped results in
      let own =
        place_all-Anchored category_of (record { gresults = []; positions = [] }) results
          (λ c g h. absurd (ground arith)) (category_of res) grp at_res in
      let bound = get_elem?-lt s.gresults own.before own.found in
      let joined : (place category_of s res).gresults ≡ insert_at s.gresults (suc own.before) res =
        joined_gresults s res grp at_res ok ∙ ap (λ i. insert_at s.gresults i res) own.index_eq in
      (
        own.before,
        own.last,
        own.same,
        rw joined (
            get_elem?-insert_at_lt s.gresults (suc own.before) own.before res (omega arith)
              own.found),
        rw joined (get_elem?-insert_at_self s.gresults (suc own.before) res (omega arith)),
      )
