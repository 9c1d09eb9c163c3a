-- ===== src/Search/Processor/Laws.antt =====
-- When an engine is banned and when it is asked.
use mathlib.Core.Path.{subst}
use opencode_optimised_tooli.Prelude.{
  Bool, min, sym, ◌⊎◌, if◌then◌else◌, List, Option, String, arith, false, inl, inr, leb, none, refl,
  some, true, ℕ, ◌+◌, ◌<◌, ◌≡◌, ◌≤◌, list_eq, nat_eq, pair_eq, string_eq,
}
use opencode_optimised_tooli.Search.Suspended.{BanTimes, is_suspended, suspend, resume, ban_time}
use opencode_optimised_tooli.Search.Processor.{
  Processor, EngineInfo, SearchQuery, RequestParams, Problem, exception, message, Container,
  error_message, suspended_time_of, is_set, page_limit, get_params, handle_exception,
  extend_container, extend_container_basic,
}
use opencode_optimised_tooli.Results.Container.{Env, Incoming, done}
use opencode_optimised_tooli.Results.Container.Laws.{Outcome-cases}
use opencode_optimised_tooli.Results.Ordered.{add_unresponsive_engine}

-- An engine gets parameters only for what it supports: a later page if it has pages and within its
-- limit (or that of the settings), a time range if it has one. They carry the query, its
-- page and the category unchanged.
pub get_params_supported :
    (max_page : ℕ) (q : SearchQuery) (category : String) (engine : EngineInfo)
    (params : RequestParams)
    → get_params max_page q category engine ≡ some params
    → ((1 < q.pageno) → engine.paging ≡ true)
      × ((0 < page_limit max_page engine) → q.pageno ≤ page_limit max_page engine)
      × (is_set q.time_range ≡ true → engine.time_range_support ≡ true)
      × (params.query ≡ q.query)
      × (params.pageno ≡ q.pageno)
      × (params.category ≡ category)
unfolding get_params
get_params_supported max_page q category engine params h = (
  λ later. ground arith,
  λ limited. ground arith,
  λ ranged. ground arith,
  ground arith,
  ground arith,
  ground arith,
)

-- The lesser of the two times of the settings.
abbrev pub IsLesser : BanTimes → ℕ → Type 0
IsLesser times n =
    (n ≤ times.max_ban) × (n ≤ times.ban_fail) × ((n ≡ times.max_ban) ⊎ (n ≡ times.ban_fail))

-- How long a failure bans an engine.
abbrev pub Bans : BanTimes → Problem → ℕ → Type 0
Bans times (exception module_name qualname (some asked_for)) n = n ≡ asked_for
Bans times (exception module_name qualname none) n = IsLesser times n
Bans times (message text) n = IsLesser times n

min-IsLesser : (times : BanTimes) → IsLesser times (min times.max_ban times.ban_fail)
min-IsLesser times = (omega arith, omega arith, min_is times.max_ban times.ban_fail)
  where
    min_is : (a b : ℕ) → (min a b ≡ a) ⊎ (min a b ≡ b)
    min_is a b = omega arith

ban_time-Bans :
    (times : BanTimes) (problem : Problem)
    → Bans times problem (ban_time times (suspended_time_of problem))
ban_time-Bans times (exception module_name qualname (some asked_for)) = refl
ban_time-Bans times (exception module_name qualname none) = min-IsLesser times
ban_time-Bans times (message text) = min-IsLesser times

module _ (env : Env) (times : BanTimes) where
  -- What a failure leaves of the processor, by whether it suspends the engine.
  unfoldable pub Treats : Bool → ℕ → Problem → Processor → Processor → Type 0
  Treats true now problem p p' =
      (n : ℕ) × Bans times problem n
      × ((t : ℕ) → is_suspended t p'.suspended_status ≡ leb t (now + n))
      × (p'.suspended_status.suspend_reason ≡ error_message problem)
      × (p'.suspended_status.continuous_errors ≡ p.suspended_status.continuous_errors + 1)
      × (p'.engine ≡ p.engine)
  Treats false now problem p p' = p' ≡ p

  suspend-Treats :
      (now : ℕ) (problem : Problem) (p : Processor)
      → Treats true now problem p (record p {
        suspended_status =
            suspend times now
              (suspended_time_of problem)
              (error_message problem)
              p.suspended_status;
      })
  unfolding Treats suspend is_suspended
  suspend-Treats now problem p = (
    ban_time times (suspended_time_of problem),
    ban_time-Bans times problem,
    λ t. refl,
    refl,
    refl,
    refl,
  )

  -- When a failure is handled without an exception: if it is not to suspend the engine, the processor
  -- stays as it is. If it is, the engine counts as suspended up to the end of its ban and no longer.
  -- The ban is as long as an exception for a denied access asks for, and else as the lesser of the two
  -- times of the settings; the reason is the error, and the count of errors goes up by one.
  pub handle_exception_bans :
      (now : ℕ) (c c' : Container env times) (problem : Problem) (suspends : Bool)
      (p p' : Processor)
      → handle_exception env times now c problem suspends p ≡ done (c', p')
      → Treats suspends now problem p p'
  unfolding handle_exception
  handle_exception_bans now c c' problem suspends p p' h =
      elim (Outcome-cases
        (add_unresponsive_engine env p.engine.name (error_message problem) false c)) [
          | inr (s, e) ↦ absurd (ground arith)
          | inl (s, e) ↦ handled suspends (ground arith)
        ]
    where
      handled :
          (b : Bool)
          → (if b
              then record p {
                suspended_status =
                    suspend times now
                      (suspended_time_of problem)
                      (error_message problem)
                      p.suspended_status;
              }
              else p)
            ≡ p'
          → Treats b now problem p p'
      handled true same = subst (Treats true now problem p) same (suspend-Treats now problem p)
      handled false same = unfold Treats in sym same

  resumed :
      (t : ℕ) (p p' : Processor)
      → record p { suspended_status = resume p.suspended_status } ≡ p'
      → 0 < t
      → (is_suspended t p'.suspended_status ≡ false) × (p'.suspended_status.continuous_errors ≡ 0)
  unfolding is_suspended resume
  resumed t p p' p'_eq later =
      subst
        (λ (x : Processor).
          (is_suspended t x.suspended_status ≡ false) × (x.suspended_status.continuous_errors ≡ 0))
        p'_eq (ground arith, refl)

  -- An engine that answers in time is not suspended afterwards, at no time after the clock's start.
  pub extend_container_resumes :
      (now t : ℕ) (c c' : Container env times) (engine_time page_load_time : env.floats.F)
      (results : Option (List (Incoming env.floats.F))) (p p' : Processor)
      → extend_container env times now false c engine_time page_load_time results p ≡ done (c', p')
      → 0 < t
      → (is_suspended t p'.suspended_status ≡ false) × (p'.suspended_status.continuous_errors ≡ 0)
  unfolding extend_container
  extend_container_resumes now t c c' engine_time page_load_time none p p' h later =
      let p'_eq : record p { suspended_status = resume p.suspended_status } ≡ p' = ground arith in
      resumed t p p' p'_eq later
  extend_container_resumes now t c c' engine_time page_load_time (some results) p p' h later =
      let answered =
        extend_container_basic env times c engine_time page_load_time results p.engine in
      elim (Outcome-cases answered) [
        | inl (s, e) ↦
            let p'_eq : record p { suspended_status = resume p.suspended_status } ≡ p' =
              ground arith in
            resumed t p p' p'_eq later
        | inr (s, e) ↦ absurd (ground arith)
      ]
