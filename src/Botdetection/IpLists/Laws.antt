-- ===== src/Botdetection/IpLists/Laws.antt =====
-- What a lookup in the lists of ip_lists.py decides.
use opencode_optimised_tooli.Prelude.{
  Bool, Bool-cases, List, Option-cases, String, [], arith, false, inl, inr, none, refl, some, true,
  ◌&&◌, ◌||◌, ◌↔◌, ◌∷◌, ◌≡◌, ◌⊎◌, list_eq, nat_eq, pair_eq, string_eq,
}
use opencode_optimised_tooli.Botdetection.Net.{IpAddress, Cfg}
use opencode_optimised_tooli.Botdetection.IpLists.{searxng_org, in_net, find_net, pass_ip, block_ip}

or_iff :
    {P Q : Type 0} (a b c : Bool)
    → (b ≡ true) ↔ P
    → (c ≡ true) ↔ Q
    → (((a && b) || c) ≡ true) ↔ (((a ≡ true) × P) ⊎ Q)
or_iff true true c p q = (λ _. inl (refl, p.0 refl), λ _. refl)
or_iff true false c p q =
    (λ h. inr (q.0 h), elim [ inl (_, x) ↦ absurd (ground (arith, p.1 x)) | inr y ↦ q.1 y ])
or_iff false b c p q = (λ h. inr (q.0 h), elim [ inl (e, _) ↦ ground arith | inr y ↦ q.1 y ])

module _ (ip : IpAddress) where
  open ip use {Addr, parse_net}

  -- Some entry of the list is a network that the address is in.
  abbrev pub Listed : Addr → List String → Type 0
  Listed a [] = ⊥
  Listed a (s ∷ rest) =
      ((net : ip.Net) × (parse_net s ≡ some net) × (in_net ip a net ≡ true)) ⊎ Listed a rest

  pub find_net-Listed :
      (a : Addr) (list : List String) (net : ip.Net) → find_net ip a list ≡ some net → Listed a list
  unfolding find_net
  find_net-Listed a [] net h = ground arith
  find_net-Listed a (s ∷ rest) net h = elim (Option-cases (parse_net s)) [
    | inl e ↦ inr (find_net-Listed a rest net (ground arith))
    | inr (n, e) ↦ elim (Bool-cases (in_net ip a n)) [
      | inl p ↦ inl (n, e, p)
      | inr p ↦ inr (find_net-Listed a rest net (ground arith))
    ]
  ]

  pub Listed-find_net :
      (a : Addr) (list : List String)
      → Listed a list
      → (net : ip.Net) × (find_net ip a list ≡ some net)
  unfolding find_net
  Listed-find_net a [] h = absurd h
  Listed-find_net a (s ∷ rest) (inl (n, e, p)) = (n, ground arith)
  Listed-find_net a (s ∷ rest) (inr h) =
      let (m, later) = Listed-find_net a rest h in
      elim (Option-cases (parse_net s)) [
        | inl e ↦ (m, ground arith)
        | inr (n, e) ↦ elim (Bool-cases (in_net ip a n)) [
          | inl p ↦ (n, ground arith)
          | inr p ↦ (m, ground arith)
        ]
      ]

  found : Addr → List String → Bool
  found a list = elim (find_net ip a list) [ none ↦ false | some _ ↦ true ]

  found-Listed : (a : Addr) (list : List String) → (found a list ≡ true) ↔ Listed a list
  unfolding found
  found-Listed a list = elim (Option-cases (find_net ip a list)) [
    | inl e ↦
        (λ h. absurd (ground arith), λ h. let (n, q) = Listed-find_net a list h in ground arith)
    | inr (n, e) ↦ (λ h. find_net-Listed a list n e, λ h. ground arith)
  ]

  block_ip-found : (a : Addr) (cfg : Cfg) → (block_ip ip a cfg).0 ≡ found a cfg.block_list
  unfolding block_ip found
  block_ip-found a cfg = ground arith

  -- The block list matches exactly when one of the configured networks contains the address:
  -- entries that are no networks never match.
  pub block_ip-Listed :
      (a : Addr) (cfg : Cfg) → ((block_ip ip a cfg).0 ≡ true) ↔ Listed a cfg.block_list
  block_ip-Listed a cfg = rw (block_ip-found a cfg) (found-Listed a cfg.block_list)

  pass_ip-found :
      (a : Addr) (cfg : Cfg)
      → (pass_ip ip a cfg).0
        ≡ ((cfg.pass_searxng_org && found a searxng_org) || found a cfg.pass_list)
  unfolding pass_ip found
  pass_ip-found a cfg = ground arith

  -- The pass list matches exactly when a configured network contains the address, or a network of
  -- the SearXNG organisation does and that list is switched on.
  pub pass_ip-Listed :
      (a : Addr) (cfg : Cfg)
      → ((pass_ip ip a cfg).0 ≡ true)
        ↔ (((cfg.pass_searxng_org ≡ true) × Listed a searxng_org) ⊎ Listed a cfg.pass_list)
  pass_ip-Listed a cfg =
      rw (pass_ip-found a cfg) (
        or_iff cfg.pass_searxng_org _ _ (found-Listed a searxng_org) (found-Listed a cfg.pass_list))
