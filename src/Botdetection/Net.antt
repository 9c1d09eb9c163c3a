-- ===== src/Botdetection/Net.antt =====
-- What the bot detection takes from its surroundings: the `ipaddress` module, the HTTP request,
-- the response, and the values of `limiter.toml` that it reads.
use opencode_optimised_tooli.Prelude.{
  Bool, Dict, List, Option, String, Text, if◌then◌else◌, lookup, none, some, ℕ, ◌==◌, ◌≡◌, list_eq,
  nat_eq, pair_eq, string_eq,
}

-- The standard module `ipaddress`. Parsing answers `none` where Python raises ValueError.
pub record IpAddress : Type 1 where
  pub Addr : Type 0
  pub Net : Type 0
  pub parse_addr : String → Option Addr
  pub parse_net : String → Option Net
  pub addr_text : Addr → String
  pub net_text : Net → String
  pub version : Addr → ℕ
  pub net_version : Net → ℕ
  pub ipv4_mapped : Addr → Option Addr
  pub is_member : Addr → Net → Bool
  pub is_link_local : Net → Bool
  -- `ip_network(f"{addr}/{prefix}", strict=False)` of an address
  pub network_of : Addr → ℕ → Net
  -- The compressed spelling of an address is an address again.
  pub parse_addr-addr_text : (a : Addr) → parse_addr (addr_text a) ≡ some a

-- `flask.Request`, as far as the filters read it. `accepts_html` is werkzeug's answer to
-- `'text/html' in request.accept_mimetypes`.
pub record Request : Type 0 where
  pub path : String
  pub remote_addr : String
  pub headers : Dict String Text
  pub args : Dict String String
  pub is_secure : Bool
  pub accepts_html : Bool

-- The responses that a filter can return; `redirect_index` carries its extra headers.
pub data Response : Type 0 where
  make_response : String → ℕ → Response
  redirect_index : ℕ → Dict String String → Response

pub record Cfg : Type 0 where
  pub ipv4_prefix : ℕ
  pub ipv6_prefix : ℕ
  pub filter_link_local : Bool
  pub link_token : Bool
  pub pass_searxng_org : Bool
  pub pass_list : List String
  pub block_list : List String

-- `request.headers.get(name, default)`
abbrev pub header : Request → String → Text → Text
header r name default = elim (lookup name r.headers) [ none ↦ default | some v ↦ v ]

-- `too_many_requests` (the log message does not reach the client)
abbrev pub too_many_requests : Response
too_many_requests = make_response "Too Many Requests" 429

module _ (ip : IpAddress) where
  open ip use {Addr, Net, version, network_of}

  unfoldable pub get_network : Addr → Cfg → Net
  get_network real_ip cfg =
      network_of real_ip (if version real_ip == 6 then cfg.ipv6_prefix else cfg.ipv4_prefix)
