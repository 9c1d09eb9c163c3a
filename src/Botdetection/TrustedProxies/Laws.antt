-- ===== src/Botdetection/TrustedProxies/Laws.antt =====
-- Which address the middleware decides on.
use mathlib.Core.List.{reverse, reverse-append, reverse-cons}
use opencode_optimised_tooli.Prelude.{
  All, List, Option, Option-cases, String, [], ap, append_assoc, arith, false, inl, inr, some, true,
  ◌++◌, ◌∙◌, ◌∷◌, ◌≡◌, list_eq, nat_eq, pair_eq, string_eq,
}
use opencode_optimised_tooli.Botdetection.Net.{IpAddress}
use opencode_optimised_tooli.Botdetection.TrustedProxies.{
  Environ, wsgi_app, call, last_check, usable_forwarded, trusted_proxies, trusted_remote_addr,
  first_untrusted, is_trusted, set_remote_addr, real_ip, validated,
}

reverse_split {ℓ} :
    {A : Type ℓ} (xs : List A) (y : A) (zs : List A)
    → reverse (xs ++ y ∷ zs) ≡ reverse zs ++ y ∷ reverse xs
reverse_split xs y zs = simp (reverse-append, reverse-cons, append_assoc)

module _ (ip : IpAddress) (parse_list_header : String → List String) where
  open ip use {Addr, Net, parse_addr, addr_text}

  -- All of the list are trusted proxies.
  abbrev pub AllTrusted : List Addr → List Net → Type 0
  AllTrusted addrs nets = All (λ addr. is_trusted ip parse_list_header addr nets ≡ true) addrs

  first_untrusted-append :
      (trusted : List Addr) (client : Addr) (rest : List Addr) (nets : List Net)
      → AllTrusted trusted nets
      → is_trusted ip parse_list_header client nets ≡ false
      → first_untrusted ip parse_list_header (trusted ++ client ∷ rest) nets ≡ some client
  unfolding first_untrusted
  first_untrusted-append [] client rest nets all no_client = rw no_client
  first_untrusted-append (a ∷ trusted) client rest nets (h, all) no_client =
      rw h (first_untrusted-append trusted client rest nets all no_client)

  -- If an X-Forwarded-For list ends with a client that is no trusted proxy, followed by trusted
  -- proxies only, the client's address is taken: what stands before it, which the client can
  -- forge, does not matter.
  pub trusted_remote_addr_last_untrusted :
      (head : Addr) (rest forged : List Addr) (client : Addr) (proxies : List Addr)
      (nets : List Net)
      → head ∷ rest ≡ forged ++ client ∷ proxies
      → AllTrusted (reverse proxies) nets
      → is_trusted ip parse_list_header client nets ≡ false
      → trusted_remote_addr ip parse_list_header head rest nets ≡ addr_text client
  unfolding trusted_remote_addr
  trusted_remote_addr_last_untrusted head rest forged client proxies nets shape all no_client =
      let found =
        first_untrusted-append (reverse proxies) client (reverse forged) nets all no_client in
      let at_head : first_untrusted ip parse_list_header (reverse (head ∷ rest)) nets
          ≡ some client =
        ap (λ l. first_untrusted ip parse_list_header (reverse l) nets) shape
        ∙ rw (reverse_split forged client proxies) found in
      rw (at_head, trusted_remote_addr)

  last_check_parses :
      (s : String) (black_hole : Addr)
      → parse_addr "100::" ≡ some black_hole
      → (a : Addr) × (parse_addr (last_check ip parse_list_header s) ≡ some a)
  unfolding last_check
  last_check_parses s black_hole h = elim (Option-cases (parse_addr s)) [
    | inl e ↦ (black_hole, rw (e, last_check) h)
    | inr (a, e) ↦ (a, rw (e, last_check) e)
  ]

  call_checks :
      (proxy_list logged : List String) (env env' : Environ)
      → (call ip parse_list_header proxy_list logged env).0 ≡ wsgi_app env'
      → (s : String) × (env'.remote_addr ≡ some (last_check ip parse_list_header s))
  unfolding call set_remote_addr
  call_checks proxy_list logged env env' h =
      elim (Option-cases (trusted_proxies ip parse_list_header proxy_list)) [
        | inl e ↦ absurd (ground arith)
        | inr (nets, e) ↦ elim (Option-cases env.remote_addr) [
          | inl n ↦ absurd (ground arith)
          | inr (remote, n) ↦ (
            real_ip ip parse_list_header nets env (validated ip parse_list_header (some remote)),
            ground arith,
          )
        ]
      ]

  -- Whenever the application is called, REMOTE_ADDR is an address that parses, if the black hole
  -- address does.
  call_remote_addr_parses :
      (proxy_list logged : List String) (env env' : Environ) (black_hole : Addr)
      → parse_addr "100::" ≡ some black_hole
      → (call ip parse_list_header proxy_list logged env).0 ≡ wsgi_app env'
      → (s : String) × (a : Addr) × (env'.remote_addr ≡ some s) × (parse_addr s ≡ some a)
  call_remote_addr_parses proxy_list logged env env' black_hole parsed h =
      let (s, set) = call_checks proxy_list logged env env' h in
      let (a, checked) = last_check_parses s black_hole parsed in
      (last_check ip parse_list_header s, a, set, checked)

  -- Without trusted proxies X-Forwarded-For has no influence on REMOTE_ADDR: whatever value or
  -- absence of the header is put in, the application gets the same REMOTE_ADDR.
  pub call_no_proxies :
      (logged : List String) (env env' : Environ) (header : Option String)
      → (call ip parse_list_header [] logged env).0 ≡ wsgi_app env'
      → (env'' : Environ) × ((call ip parse_list_header [] logged
            (record env { x_forwarded_for = header })).0
          ≡ wsgi_app env'')
        × (env''.remote_addr ≡ env'.remote_addr)
  unfolding call set_remote_addr trusted_proxies real_ip usable_forwarded
  call_no_proxies logged env env' header h = elim (Option-cases env.remote_addr) [
    | inl n ↦ absurd (ground arith)
    | inr (remote, n) ↦ (
      set_remote_addr ip parse_list_header [] (record env { x_forwarded_for = header }) remote,
      ground arith,
      ground arith,
    )
  ]
