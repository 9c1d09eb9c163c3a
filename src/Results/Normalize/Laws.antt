-- ===== src/Results/Normalize/Laws.antt =====
-- Collapsing white space.
use opencode_optimised_tooli.Prelude.{
  Bool, Text, [], arith, false, refl, true, ◌∷◌, ◌≡◌, list_eq, nat_eq, pair_eq, string_eq,
}
use opencode_optimised_tooli.Results.Normalize.{squeeze}

-- White space that was collapsed stays as it is when it is collapsed again.
pub squeeze-squeeze : (after : Bool) (s : Text) → squeeze after (squeeze after s) ≡ squeeze after s
unfolding squeeze
squeeze-squeeze after [] = refl
squeeze-squeeze after (c ∷ s) = ground (arith, squeeze-squeeze true s, squeeze-squeeze false s)
