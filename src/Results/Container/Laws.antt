-- ===== src/Results/Container/Laws.antt =====
-- What every merging of a main result keeps, `extend` keeps.
use mathlib.Core.Path.{subst}
use opencode_optimised_tooli.Prelude.{
  Bool-cases, Dict, List, Option, Option-cases, String, [], ap, arith, inl, inr, none, refl, some,
  sym, ℕ, ◌+◌, ◌∙◌, ◌∷◌, ◌≡◌, ◌⊎◌, list_eq, nat_eq, pair_eq, string_eq,
}
use opencode_optimised_tooli.Results.Types.{MainResult}
use opencode_optimised_tooli.Results.Merge.{merge_main_result}
use opencode_optimised_tooli.Results.Container.{
  Env, Incoming, answer_result, main_result, other_result, legacy_result, Legacy, ResultContainer,
  Outcome, done, raised, Step, take_main, take_infobox, take_answer, take_data, extend_legacy,
  extend_one, extend_all, note_paging, extend, Infobox, Answer, or_name, normalize_main,
}

-- The state after an operation, whether it raised an exception or not.
abbrev pub state_of {ℓ} : {S : Type ℓ} → Outcome S → S
state_of (done s) = s
state_of (raised s) = s

pub Outcome-cases {ℓ} :
    {S : Type ℓ} (o : Outcome S) → ((s : S) × (o ≡ done s)) ⊎ ((s : S) × (o ≡ raised s))
Outcome-cases (done s) = inl (s, refl)
Outcome-cases (raised s) = inr (s, refl)

module _ (env : Env) where
  abbrev pub Results : Type 0
  Results = Dict ℕ (MainResult env.floats.F)

  abbrev pub map_of : Step env → Results
  map_of s = (state_of s).0.main_results_map

  abbrev pub results_of : Outcome (ResultContainer env.floats.F) → Results
  results_of o = (state_of o).main_results_map

  -- What every merging keeps, `extend` keeps, also when it raises.
  module _ (P : Results → Type 0)
      (keeps : (m m' : Results) (r : MainResult env.floats.F) (n : ℕ)
        → merge_main_result env.urls.geturl env.hash m r n ≡ some m'
        → P m
        → P m') where
    take_main-keeps :
        (c : ResultContainer env.floats.F) (n : ℕ) (r : Option (MainResult env.floats.F))
        → P c.main_results_map
        → P (map_of (take_main env c n r))
    unfolding take_main
    take_main-keeps c n none h = h
    take_main-keeps c n (some r) h =
        elim (Option-cases
          (merge_main_result env.urls.geturl env.hash c.main_results_map r (n + 1))) [
            | inl e ↦
                let p : map_of (take_main env c n (some r)) ≡ c.main_results_map = ground arith in
                subst P (sym p) h
            | inr (m', e) ↦
                let p : map_of (take_main env c n (some r)) ≡ m' = ground arith in
                subst P (sym p) (keeps c.main_results_map m' r (n + 1) e h)
          ]

    take_infobox-map :
        (c : ResultContainer env.floats.F) (n : ℕ) (b : Option Infobox)
        → map_of (take_infobox env c n b) ≡ c.main_results_map
    unfolding take_infobox
    take_infobox-map c n none = refl
    take_infobox-map c n (some b) = ground arith

    take_answer-map :
        (c : ResultContainer env.floats.F) (a : Option Answer)
        → (take_answer env c a).main_results_map ≡ c.main_results_map
    unfolding take_answer
    take_answer-map c none = refl
    take_answer-map c (some a) = refl

    take_data-map :
        (c : ResultContainer env.floats.F) (n : ℕ) (l : Legacy env.floats.F) (d : Option String)
        → map_of (take_data env c n l d) ≡ c.main_results_map
    unfolding take_data
    take_data-map c n l none = refl
    take_data-map c n l (some d) = ground arith

    -- The branches of a legacy result leave the map alone, but for the last one.
    extend_legacy-keeps :
        (c : ResultContainer env.floats.F) (n : ℕ) (l : Legacy env.floats.F)
        → P c.main_results_map
        → P (map_of (extend_legacy env c n l))
    unfolding extend_legacy
    extend_legacy-keeps c n l h = elim (legacy_cases c n l) [
      | inl p ↦ subst P (sym p) h
      | inr (r, p) ↦ subst P (sym (ap map_of p)) (take_main-keeps c n r h)
    ]
      where
        legacy_cases :
            (c : ResultContainer env.floats.F) (n : ℕ) (l : Legacy env.floats.F)
            → (map_of (extend_legacy env c n l) ≡ c.main_results_map)
              ⊎ ((r : Option (MainResult env.floats.F)) × (extend_legacy env c n l
                    ≡ take_main env c n r))
        legacy_cases c n l = elim (Option-cases l.suggestion) [
          | inr (s, e) ↦ inl (ground arith)
          | inl e1 ↦ elim (Option-cases l.answer) [
            | inr (a, e) ↦ inl (ground (arith, take_answer-map c (env.on_answer a)))
            | inl e2 ↦ elim (Option-cases l.correction) [
              | inr (s, e) ↦ inl (ground arith)
              | inl e3 ↦ elim (Option-cases l.infobox) [
                | inr (b, e) ↦ inl (ground (arith, take_infobox-map c n))
                | inl e4 ↦ elim (Option-cases l.engine_data) [
                  | inr (d, e) ↦ inl (ground (arith, take_data-map c n l (env.on_text d)))
                  | inl e5 ↦ inr (env.on_main l.main, ground arith)
                ]
              ]
            ]
          ]
        ]

    extend_one-keeps :
        (engine_name : Option String) (c : ResultContainer env.floats.F) (n : ℕ)
        (r : Incoming env.floats.F)
        → P c.main_results_map
        → P (map_of (extend_one env engine_name c n r))
    unfolding extend_one
    extend_one-keeps engine_name c n (answer_result a) h =
        subst P
          (sym (
            take_answer-map c (env.on_answer (record a { engine = or_name a.engine engine_name }))))
          h
    extend_one-keeps engine_name c n (main_result r) h =
        elim (Option-cases
          (normalize_main env.urls (record r { engine = or_name r.engine engine_name }))) [
            | inl e ↦
                let p : map_of (extend_one env engine_name c n (main_result r))
                    ≡ c.main_results_map =
                  ground arith in
                subst P (sym p) h
            | inr (r', e) ↦
                let p : extend_one env engine_name c n (main_result r)
                    ≡ take_main env c n (env.on_main r') =
                  ground arith in
                subst P (sym (ap map_of p)) (take_main-keeps c n (env.on_main r') h)
          ]
    extend_one-keeps engine_name c n other_result h = h
    extend_one-keeps engine_name c n (legacy_result l) h =
        elim (Option-cases (
          normalize_main env.urls (record l.main { engine = or_name l.main.engine engine_name }))) [
            | inl e ↦
                let p : map_of (extend_one env engine_name c n (legacy_result l))
                    ≡ c.main_results_map =
                  ground arith in
                subst P (sym p) h
            | inr (r', e) ↦
                let p : extend_one env engine_name c n (legacy_result l)
                    ≡ extend_legacy env c n (record l { main = r' }) =
                  ground arith in
                subst P (sym (ap map_of p)) (extend_legacy-keeps c n (record l { main = r' }) h)
          ]

    extend_all-keeps :
        (engine_name : Option String) (c : ResultContainer env.floats.F) (n : ℕ)
        (results : List (Incoming env.floats.F))
        → P c.main_results_map
        → P (map_of (extend_all env engine_name c n results))
    unfolding extend_all
    extend_all-keeps engine_name c n [] h = h
    extend_all-keeps engine_name c n (r ∷ rest) h =
        elim (Outcome-cases (extend_one env engine_name c n r)) [
          | inl (s, e) ↦
              let p : extend_all env engine_name c n (r ∷ rest)
                  ≡ extend_all env engine_name s.0 s.1 rest =
                ground arith in
              subst P (sym (ap map_of p)) (
                extend_all-keeps engine_name s.0 s.1 rest
                  (subst P (ap map_of e) (extend_one-keeps engine_name c n r h)))
          | inr (s, e) ↦
              let p : extend_all env engine_name c n (r ∷ rest) ≡ raised s = ground arith in
              subst P (sym (ap map_of p))
                (subst P (ap map_of e) (extend_one-keeps engine_name c n r h))
        ]

    note_paging-map :
        (engine_name : Option String) (c : ResultContainer env.floats.F)
        → (note_paging env engine_name c).main_results_map ≡ c.main_results_map
    unfolding note_paging
    note_paging-map none c = refl
    note_paging-map (some engine_name) c = ground arith

    pub extend-keeps :
        (engine_name : Option String) (results : List (Incoming env.floats.F))
        (c : ResultContainer env.floats.F)
        → P c.main_results_map
        → P (results_of (extend env engine_name results c))
    unfolding extend
    extend-keeps engine_name results c h = elim (Bool-cases c.closed) [
      | inl e ↦
          let p : extend env engine_name results c ≡ done c = ground arith in
          subst P (sym (ap results_of p)) h
      | inr open' ↦ elim (Outcome-cases (extend_all env engine_name c 0 results)) [
        | inl (s, e) ↦
            let p : extend env engine_name results c ≡ done (note_paging env engine_name s.0) =
              ground arith in
            subst P (sym (ap results_of p ∙ note_paging-map engine_name s.0))
              (subst P (ap map_of e) (extend_all-keeps engine_name c 0 results h))
        | inr (s, e) ↦
            let p : extend env engine_name results c ≡ raised s.0 = ground arith in
            subst P (sym (ap results_of p))
              (subst P (ap map_of e) (extend_all-keeps engine_name c 0 results h))
      ]
    ]
