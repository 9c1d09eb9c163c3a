-- ===== src/Tests/Samples.antt =====
-- Concrete addresses, requests and databases.
use opencode_optimised_tooli.Prelude.{
  Bool, Option, String, [], codes, false, if◌then◌else◌, none, refl, some, true, ◌==◌, ◌∷◌, ◌≡◌,
  list_eq, nat_eq, pair_eq, string_eq,
}
use opencode_optimised_tooli.Botdetection.Net.{IpAddress, Request, Cfg}
use opencode_optimised_tooli.Botdetection.Valkey.Memory.{Store}

pub data Host : Type 0 where
  proxy client black_hole : Host

abbrev pub host_text : Host → String
host_text proxy = "10.0.0.1"
host_text client = "192.0.2.7"
host_text black_hole = "100::"

abbrev pub parse_host : String → Option Host
parse_host s =
    if s == "10.0.0.1"
    then some proxy
    else if s == "192.0.2.7"
    then some client
    else if s == "100::"
    then some black_hole
    else none

abbrev pub same_host : Host → Host → Bool
same_host proxy proxy = true
same_host client client = true
same_host black_hole black_hole = true
same_host _ _ = false

pub parse_host-host_text : (a : Host) → parse_host (host_text a) ≡ some a
parse_host-host_text proxy = refl
parse_host-host_text client = refl
parse_host-host_text black_hole = refl

-- Three hosts, each a network of its own.
abbrev pub hosts : IpAddress
hosts = record {
  Addr = Host;
  Net = Host;
  parse_addr = parse_host;
  parse_net = parse_host;
  addr_text = host_text;
  net_text = host_text;
  version = λ a. elim a [ black_hole ↦ 6 | _ ↦ 4 ];
  net_version = λ a. elim a [ black_hole ↦ 6 | _ ↦ 4 ];
  ipv4_mapped = λ a. none;
  is_member = same_host;
  is_link_local = λ n. false;
  network_of = λ a n. a;
  parse_addr-addr_text = parse_host-host_text;
}

abbrev pub cfg : Cfg
cfg = record {
  ipv4_prefix = 32;
  ipv6_prefix = 48;
  filter_link_local = false;
  link_token = false;
  pass_searxng_org = false;
  pass_list = [];
  block_list = "bogus" ∷ "192.0.2.7" ∷ [];
}

abbrev pub search_request : Request
search_request = record {
  path = "/search";
  remote_addr = "192.0.2.7";
  headers =
      ("Accept-Encoding", codes "br, gzip")
      ∷ ("User-Agent", codes "Mozilla/5.0 (X11) Firefox/120.0")
      ∷ ("Sec-Fetch-Mode", codes "navigate")
      ∷ ("Sec-Fetch-Site", codes "cross-site")
      ∷ [];
  args = [];
  is_secure = true;
  accepts_html = true;
}

abbrev pub empty_store : Store
empty_store = record { clock = (3000000, 17); sets = λ k. []; texts = λ k. none }
