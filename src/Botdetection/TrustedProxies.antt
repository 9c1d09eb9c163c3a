-- ===== src/Botdetection/TrustedProxies.antt =====
-- botdetection/trusted_proxies.py: the WSGI middleware that sets REMOTE_ADDR.
pub mod Laws
use mathlib.Core.Option
use mathlib.Core.List.{reverse}
use opencode_optimised_tooli.Prelude.{
  Bool, List, Option, String, [], any, contains, false, if◌then◌else◌, is_empty, map, none, not,
  snoc, some, true, ◌&&◌, ◌==◌, ◌∷◌, list_eq, nat_eq, pair_eq, string_eq,
}
use opencode_optimised_tooli.Botdetection.Net.{IpAddress}
use opencode_optimised_tooli.Botdetection.IpLists.{in_net}

-- The variables of the WSGI environment that the middleware reads and writes; `orig` is
-- "botdetection.trusted_proxies.orig".
pub record Environ : Type 0 where
  pub remote_addr : Option String
  pub x_real_ip : Option String
  pub x_forwarded_for : Option String
  pub orig : Option (Option String)

-- `value_error`: the configured proxy list holds an entry that is no network. `key_error`: the
-- server gave no REMOTE_ADDR. Otherwise the application is called with the environment.
pub data Outcome : Type 0 where
  value_error key_error : Outcome
  wsgi_app : Environ → Outcome

-- A WSGI value counts as set if it is there and not empty.
abbrev pub non_empty : Option String → Option String
non_empty none = none
non_empty (some s) = if s == "" then none else some s

abbrev pub is_empty_opt : Option String → Bool
is_empty_opt none = true
is_empty_opt (some s) = false

-- The log of the messages that are written once.
unfoldable pub log_error_only_once : String → List String → List String
log_error_only_once msg logged = if contains msg logged then logged else snoc logged msg

-- `parse_list_header` is werkzeug's.
module _ (ip : IpAddress) (parse_list_header : String → List String) where
  open ip use {Addr, Net, parse_addr, parse_net, addr_text, version, ipv4_mapped}

  unfoldable pub trusted_proxies : List String → Option (List Net)
  trusted_proxies [] = some []
  trusted_proxies (s ∷ rest) = elim (parse_net s) [
    | none ↦ none
    | some net ↦ Option.map (λ nets. net ∷ nets) (trusted_proxies rest)
  ]

  -- `if addr.version == 6 and addr.ipv4_mapped: addr = addr.ipv4_mapped`
  unfoldable pub unmapped : Addr → Addr
  unmapped addr =
      if version addr == 6 then elim (ipv4_mapped addr) [ none ↦ addr | some v4 ↦ v4 ] else addr

  -- The validation of REMOTE_ADDR and of X-Real-IP: an invalid address is discarded.
  unfoldable pub validated : Option String → Option String
  unfolding unmapped
  validated none = none
  validated (some s) =
      if s == "" then some s else Option.map (λ addr. addr_text (unmapped addr)) (parse_addr s)

  -- The loop over X-Forwarded-For: one invalid address discards the header.
  unfoldable pub forwarded_addrs : List String → Option (List Addr)
  unfolding unmapped
  forwarded_addrs [] = some []
  forwarded_addrs (s ∷ rest) = elim (parse_addr s) [
    | none ↦ none
    | some addr ↦ Option.map (λ addrs. unmapped addr ∷ addrs) (forwarded_addrs rest)
  ]

  unfoldable pub is_trusted : Addr → List Net → Bool
  is_trusted addr nets = any (λ net. in_net ip addr net) nets

  -- The loop over the reversed list.
  unfoldable pub first_untrusted : List Addr → List Net → Option Addr
  unfolding is_trusted
  first_untrusted [] nets = none
  first_untrusted (addr ∷ rest) nets =
      let later = first_untrusted rest nets in if is_trusted addr nets then later else some addr

  -- Of a list that is not empty: its first address if every one is trusted.
  unfoldable pub trusted_remote_addr : Addr → List Addr → List Net → String
  unfolding first_untrusted
  trusted_remote_addr head rest nets = elim (first_untrusted (reverse (head ∷ rest)) nets) [
    | none ↦ addr_text head
    | some addr ↦ addr_text addr
  ]

  -- X-Forwarded-For, and whether the header stays in the environment.
  unfoldable pub read_forwarded : Option String → List Addr × Option String
  unfolding forwarded_addrs
  read_forwarded raw = elim (non_empty raw) [
    | none ↦ ([], raw)
    | some s ↦ elim (forwarded_addrs (parse_list_header s)) [
      | none ↦ ([], none)
      | some addrs ↦ (addrs, raw)
    ]
  ]

  -- The choice of the address, before the last check.
  unfoldable pub choose_addr : List Addr → List Net → Option String → Option String → String
  unfolding trusted_remote_addr
  choose_addr (head ∷ rest) nets x_real_ip orig = trusted_remote_addr head rest nets
  choose_addr [] nets x_real_ip orig = elim (non_empty x_real_ip) [
    | some s ↦ s
    | none ↦ elim (non_empty orig) [ some s ↦ s | none ↦ "100::" ]
  ]

  unfoldable pub last_check : String → String
  last_check s = elim (parse_addr s) [ none ↦ "100::" | some _ ↦ s ]

  -- The addresses of the header count only where some proxy is trusted.
  unfoldable pub usable_forwarded : List Addr → List Net → List Addr
  usable_forwarded addrs [] = []
  usable_forwarded addrs (net ∷ nets) = addrs

  -- *The real IP*, from the headers and the validated REMOTE_ADDR.
  unfoldable pub real_ip : List Net → Environ → Option String → String
  real_ip nets env orig =
      choose_addr (usable_forwarded (read_forwarded env.x_forwarded_for).0 nets) nets
        (validated env.x_real_ip) orig

  -- The messages about questionable environments.
  unfoldable pub log_environ : List Net → Environ → List String → List String
  unfolding log_error_only_once
  log_environ nets env logged =
      let addrs = (read_forwarded env.x_forwarded_for).0 in
      let logged' =
        if is_empty addrs && is_empty_opt (non_empty (validated env.x_real_ip))
        then log_error_only_once "X-Forwarded-For nor X-Real-IP header is set!" logged
        else logged in
      if not (is_empty addrs) && is_empty nets
      then log_error_only_once "missing botdetection.trusted_proxies config" logged'
      else logged'

  -- The environment that the application sees.
  unfoldable pub set_remote_addr : List Net → Environ → String → Environ
  set_remote_addr nets env remote =
      let orig = validated (some remote) in
      record {
        remote_addr = some (last_check (real_ip nets env orig));
        x_real_ip = elim (validated env.x_real_ip) [ none ↦ none | some _ ↦ env.x_real_ip ];
        x_forwarded_for = (read_forwarded env.x_forwarded_for).1;
        orig = some orig;
      }

  unfoldable pub call : List String → List String → Environ → Outcome × List String
  call proxy_list logged env = elim (trusted_proxies proxy_list) [
    | none ↦ (value_error, logged)
    | some nets ↦ elim env.remote_addr [
      | none ↦ (key_error, logged)
      | some remote ↦ (wsgi_app (set_remote_addr nets env remote), log_environ nets env logged)
    ]
  ]
