-- ===== src/Search/Requests/Laws.antt =====
-- Who is asked, and for how long the search waits.
use mathlib.Core.Path.{subst}
use opencode_optimised_tooli.Prelude.{
  All, All-append, Bool, Bool-cases, Dict, List, Option, Option-cases, String, [], ap, arith, false,
  inl, inr, lookup, max, none, snoc, some, sym, true, ℕ, ◌∷◌, ◌≡◌, ◌≤◌, list_eq, nat_eq, pair_eq,
  string_eq,
}
use opencode_optimised_tooli.Search.Suspended.{BanTimes, is_suspended}
use opencode_optimised_tooli.Search.Processor.{
  Processor, SearchQuery, Container, get_params, extend_container_if_suspended,
}
use opencode_optimised_tooli.Search.Requests.{
  Request, Gathered, adjust_timeout, add_request, visit, visit_all, get_requests,
}
use opencode_optimised_tooli.Results.Container.{Env, done, raised, Outcome}
use opencode_optimised_tooli.Results.Ordered.{add_unresponsive_engine}
use opencode_optimised_tooli.Results.Container.Laws.{state_of, Outcome-cases}

-- The timeout that the adjustment gives is at most the limit of the settings, if there is one, and at
-- most the timeout of the query, if it has one; without a limit of the settings it is at most the
-- default timeout that is handed in.
pub adjust_timeout_bounds :
    (default_timeout : ℕ) (max_request_timeout query_timeout : Option ℕ)
    → ((m : ℕ)
        → max_request_timeout ≡ some m
        → adjust_timeout default_timeout max_request_timeout query_timeout ≤ m)
      × ((t : ℕ)
          → query_timeout ≡ some t
          → adjust_timeout default_timeout max_request_timeout query_timeout ≤ t)
      × (max_request_timeout ≡ none
          → adjust_timeout default_timeout max_request_timeout query_timeout ≤ default_timeout)
unfolding adjust_timeout
adjust_timeout_bounds d none none =
    (λ m h. absurd (ground arith), λ t h. absurd (ground arith), λ h. omega arith)
adjust_timeout_bounds d none (some q) =
    (λ m h. absurd (ground arith), λ t h. ground arith, λ h. omega arith)
adjust_timeout_bounds d (some n) none =
    (λ m h. ground arith, λ t h. absurd (ground arith), λ h. absurd (ground arith))
adjust_timeout_bounds d (some n) (some q) =
    (λ m h. ground arith, λ t h. ground arith, λ h. absurd (ground arith))

module _ (env : Env) (times : BanTimes) (max_page now : ℕ) (processors : Dict String Processor)
    (q : SearchQuery) where
  -- A request that may be sent: its engine is registered, not suspended, supports the query, and
  -- takes at most `bound`.
  pub record IsSent (bound : ℕ) (r : Request) : Type 0 where
    pub category : String
    pub processor : Processor
    pub registered : lookup r.engine_name processors ≡ some processor
    pub free : is_suspended now processor.suspended_status ≡ false
    pub supported : get_params max_page q category processor.engine ≡ some r.params
    pub in_time : processor.engine.timeout ≤ bound

  IsSent-le : (b c : ℕ) → b ≤ c → (rs : List Request) → All (IsSent b) rs → All (IsSent c) rs
  IsSent-le b c h [] all = tt
  IsSent-le b c h (r ∷ rs) (s, all) = (
    record {
      category = s.category;
      processor = s.processor;
      registered = s.registered;
      free = s.free;
      supported = s.supported;
      in_time = ground (arith, s.in_time);
    },
    IsSent-le b c h rs all,
  )

  abbrev pub Sound : Gathered env times → Type 0
  Sound g = All (IsSent g.default_timeout) g.requests

  add_request-Sound :
      (name category : String) (p : Processor) (g : Gathered env times)
      → lookup name processors ≡ some p
      → is_suspended now p.suspended_status ≡ false
      → Sound g
      → Sound (add_request env times max_page now processors q (name, category) p g)
  unfolding add_request
  add_request-Sound name category p g at_name free h =
      elim (Option-cases (get_params max_page q category p.engine)) [
        | inl e ↦
            let same : add_request env times max_page now processors q (name, category) p g ≡ g =
              ground arith in
            subst Sound (sym same) h
        | inr (params, e) ↦
            let request : Request = record {
              engine_name = name;
              query = q.query;
              params = params;
            } in
            let more : Gathered env times = record g {
              requests = snoc g.requests request;
              default_timeout = max g.default_timeout p.engine.timeout;
            } in
            let grown : add_request env times max_page now processors q (name, category) p g
                ≡ more =
              ground arith in
            let sent : IsSent more.default_timeout request = record {
              category = category;
              processor = p;
              registered = at_name;
              free = free;
              supported = e;
              in_time = omega arith;
            } in
            subst Sound (sym grown) (
              All-append (IsSent more.default_timeout) g.requests (request ∷ [])
                (IsSent-le g.default_timeout more.default_timeout (omega arith) g.requests h)
                (sent, tt))
      ]

  not_told :
      (c : Container env times) (p : Processor) (s : Container env times × Bool)
      → extend_container_if_suspended env times now c p ≡ done s
      → s.1 ≡ false
      → is_suspended now p.suspended_status ≡ false
  unfolding extend_container_if_suspended
  not_told c p s e silent = elim (Bool-cases (is_suspended now p.suspended_status)) [
    | inr free ↦ free
    | inl banned ↦
        let why = p.suspended_status.suspend_reason in
        elim (Outcome-cases (add_unresponsive_engine env p.engine.name why true c)) [
          | inl (c', e2) ↦ absurd (ground arith)
          | inr (c', e2) ↦ absurd (ground arith)
        ]
  ]

  visit-Sound :
      (ref : String × String) (g : Gathered env times)
      → Sound g
      → Sound (state_of (visit env times max_page now processors q ref g))
  unfolding visit
  visit-Sound (name, category) g h = elim (Option-cases (lookup name processors)) [
    | inl e ↦
        let same : visit env times max_page now processors q (name, category) g ≡ done g =
          ground arith in
        subst Sound (sym (ap state_of same)) h
    | inr (p, e) ↦
        elim (Outcome-cases (extend_container_if_suspended env times now g.container p)) [
          | inr (s, e2) ↦
              let failed : visit env times max_page now processors q (name, category) g
                  ≡ raised (record g { container = s.0 }) =
                ground arith in
              subst Sound (sym (ap state_of failed)) h
          | inl (s, e2) ↦ elim (Bool-cases s.1) [
            | inl told ↦
                let skipped : visit env times max_page now processors q (name, category) g
                    ≡ done (record g { container = s.0 }) =
                  ground arith in
                subst Sound (sym (ap state_of skipped)) h
            | inr silent ↦
                let here : Gathered env times = record g { container = s.0 } in
                let asked : visit env times max_page now processors q (name, category) g
                    ≡ done
                        (add_request env times max_page now processors q (name, category) p here) =
                  ground arith in
                subst Sound (sym (ap state_of asked))
                  (add_request-Sound name category p here e (not_told g.container p s e2 silent) h)
          ]
        ]
  ]

  visit_all-Sound :
      (refs : List (String × String)) (g : Gathered env times)
      → Sound g
      → Sound (state_of (visit_all env times max_page now processors q refs g))
  unfolding visit_all
  visit_all-Sound [] g h = h
  visit_all-Sound (ref ∷ rest) g h =
      elim (Outcome-cases (visit env times max_page now processors q ref g)) [
        | inl (s, e) ↦
            let p : visit_all env times max_page now processors q (ref ∷ rest) g
                ≡ visit_all env times max_page now processors q rest s =
              ground arith in
            subst Sound (sym (ap state_of p))
              (visit_all-Sound rest s (subst Sound (ap state_of e) (visit-Sound ref g h)))
        | inr (s, e) ↦
            let p : visit_all env times max_page now processors q (ref ∷ rest) g ≡ raised s =
              ground arith in
            subst Sound (sym (ap state_of p)) (subst Sound (ap state_of e) (visit-Sound ref g h))
      ]

  -- Also when the choice raises: every request goes to a registered engine that is not suspended and supports the query, with
  -- the parameters made for it, and the timeout before the adjustment covers that engine's.
  pub get_requests-Sound :
      (max_request_timeout : Option ℕ) (c : Container env times)
      → Sound (state_of (get_requests env times max_page now processors max_request_timeout q c)).0
  unfolding get_requests
  get_requests-Sound max_request_timeout c =
      let start : Gathered env times = record {
        requests = [];
        default_timeout = 0;
        container = c;
      } in
      let sound = visit_all-Sound q.engineref_list start tt in
      elim (Outcome-cases (visit_all env times max_page now processors q q.engineref_list start)) [
        | inl (g, e) ↦
            let limit = adjust_timeout g.default_timeout max_request_timeout q.timeout_limit in
            let ends : get_requests env times max_page now processors max_request_timeout q c
                ≡ done (g, limit) =
              ground arith in
            subst (λ (o : Outcome (Gathered env times × ℕ)). Sound (state_of o).0) (sym ends)
              (subst Sound (ap state_of e) sound)
        | inr (g, e) ↦
            let ends : get_requests env times max_page now processors max_request_timeout q c
                ≡ raised (g, 0) =
              ground arith in
            subst (λ (o : Outcome (Gathered env times × ℕ)). Sound (state_of o).0) (sym ends)
              (subst Sound (ap state_of e) sound)
      ]
