-- ===== src/Limiter.antt =====
-- limiter.py: the request filter, composed of the methods of botdetection.
pub mod Order
use opencode_optimised_tooli.Prelude.{
  Option, [], concat, if◌then◌else◌, none, some, ◌==◌, ◌∷◌, list_eq, nat_eq, pair_eq, string_eq,
}
use opencode_optimised_tooli.Botdetection.Net.{
  IpAddress, Request, Cfg, Response, make_response, get_network,
}
use opencode_optimised_tooli.Botdetection.IpLists.{pass_ip, block_ip}
use opencode_optimised_tooli.Botdetection.Headers.{
  http_accept, http_accept_encoding, http_accept_language, http_user_agent,
}
use opencode_optimised_tooli.Botdetection.Headers.SecFetch.{http_sec_fetch}
use opencode_optimised_tooli.Botdetection.Valkey.{Valkey}
use opencode_optimised_tooli.Botdetection.IpLimit

-- The answer to a request, or the ValueError of an address that does not parse.
pub data Verdict : Type 0 where
  invalid_address : Verdict
  answered : Option Response → Verdict

-- The methods that only read the request, in the order of their list.
unfoldable pub header_methods : Request → Option Response
header_methods r = elim (http_accept r) [
  | some v ↦ some v
  | none ↦ elim (http_accept_encoding r) [
    | some v ↦ some v
    | none ↦ elim (http_accept_language r) [
      | some v ↦ some v
      | none ↦ elim (http_user_agent r) [ some v ↦ some v | none ↦ http_sec_fetch r ]
    ]
  ]
]

module _ (ip : IpAddress) (valkey : Valkey) where
  open ip use {Addr, Net, parse_addr, is_link_local}
  open valkey use {Db}

  -- The methods applied on /search requests.
  unfoldable pub search_methods : Db → Net → Request → Cfg → Option Response × Db
  search_methods db network r cfg = elim (header_methods r) [
    | some v ↦ (some v, db)
    | none ↦ IpLimit.filter_request ip valkey db network r cfg
  ]

  -- The methods applied on all requests, then those on /search.
  unfoldable pub all_methods : Db → Net → Request → Cfg → Option Response × Db
  unfolding search_methods
  all_methods db network r cfg = elim (http_user_agent r) [
    | some v ↦ (some v, db)
    | none ↦ if r.path == "/search" then search_methods db network r cfg else (none, db)
  ]

  unfoldable pub filter_addr : Db → Addr → Request → Cfg → Option Response × Db
  unfolding all_methods
  filter_addr db real_ip r cfg =
      let network = get_network ip real_ip cfg in
      if r.path == "/healthz"
      then (none, db)
      else if is_link_local network
      then (none, db)
      else if (pass_ip ip real_ip cfg).0
      then (none, db)
      else if (block_ip ip real_ip cfg).0
      then (
        some (
            make_response (concat ("IP is on BLOCKLIST - " ∷ (block_ip ip real_ip cfg).1 ∷ []))
              429),
        db,
      )
      else all_methods db network r cfg

  unfoldable pub filter_request : Db → Request → Cfg → Verdict × Db
  unfolding filter_addr
  filter_request db r cfg = elim (parse_addr r.remote_addr) [
    | none ↦ (invalid_address, db)
    | some real_ip ↦ let (answer, db') = filter_addr db real_ip r cfg in (answered answer, db')
  ]
