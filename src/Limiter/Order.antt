-- ===== src/Limiter/Order.antt =====
-- The order of the limiter's checks.
use opencode_optimised_tooli.Prelude.{
  String, [], arith, concat, false, inr, none, some, true, ◌==◌, ◌∷◌, ◌≡◌, list_eq, nat_eq, pair_eq,
  string_eq,
}
use opencode_optimised_tooli.Botdetection.Net.{IpAddress, Request, Cfg, make_response, get_network}
use opencode_optimised_tooli.Botdetection.IpLists.{pass_ip, block_ip}
use opencode_optimised_tooli.Botdetection.IpLists.Laws.{Listed, pass_ip-Listed, block_ip-Listed}
use opencode_optimised_tooli.Botdetection.Valkey.{Valkey}
use opencode_optimised_tooli.Limiter.{answered, filter_request}

module _ (ip : IpAddress) (valkey : Valkey) where
  open ip use {Addr, parse_addr, is_link_local}
  open valkey use {Db}

  -- The pass list goes before the block list and every method: a request from an address on it is
  -- never blocked, and nothing is counted.
  pass_list_first :
      (db : Db) (r : Request) (cfg : Cfg) (a : Addr)
      → parse_addr r.remote_addr ≡ some a
      → Listed ip a cfg.pass_list
      → filter_request ip valkey db r cfg ≡ (answered none, db)
  unfolding filter_request
  pass_list_first db r cfg a parsed listed =
      let passed : (pass_ip ip a cfg).0 ≡ true = (pass_ip-Listed ip a cfg).1 (inr listed) in
      ground arith

  -- A request from an address on the block list and not on the pass list, that is no health check
  -- and not link-local, gets 429, whatever its headers are; nothing is counted.
  block_list_blocks :
      (db : Db) (r : Request) (cfg : Cfg) (a : Addr)
      → parse_addr r.remote_addr ≡ some a
      → (r.path == "/healthz") ≡ false
      → is_link_local (get_network ip a cfg) ≡ false
      → (pass_ip ip a cfg).0 ≡ false
      → Listed ip a cfg.block_list
      → (body : String) × (filter_request ip valkey db r cfg
          ≡ (answered (some (make_response body 429)), db))
  unfolding filter_request
  block_list_blocks db r cfg a parsed health local pass listed =
      let blocked : (block_ip ip a cfg).0 ≡ true = (block_ip-Listed ip a cfg).1 listed in
      (concat ("IP is on BLOCKLIST - " ∷ (block_ip ip a cfg).1 ∷ []), ground arith)

  -- Only requests to /search are counted: any other request leaves the database as it is.
  pub only_search_counts :
      (db : Db) (r : Request) (cfg : Cfg)
      → (r.path == "/search") ≡ false
      → (filter_request ip valkey db r cfg).1 ≡ db
  unfolding filter_request
  only_search_counts db r cfg h = ground arith
