-- ===== src/Tests/Botdetection.antt =====
-- Examples of the bot detection's theorems, and runs of its filters.
use opencode_optimised_tooli.Botdetection.Net.{get_network}
use opencode_optimised_tooli.Prelude.{
  Text, [], any, arith, codes, contains, false, has_key, insert, keep, lookup, none, refl, some,
  true, ℕ, ◌++◌, ◌<◌, ◌∷◌, ◌≡◌, ◌≤◌, list_eq, nat_eq, pair_eq, string_eq,
}
use opencode_optimised_tooli.Botdetection.IpLists.{in_net}
use opencode_optimised_tooli.Botdetection.Headers.{http_user_agent, is_bot_agent}
use opencode_optimised_tooli.Botdetection.Valkey.{incr_sliding_window, trim}
use opencode_optimised_tooli.Botdetection.Valkey.Window.{incr_sliding_window_counts, IsTimely}
use opencode_optimised_tooli.Botdetection.Valkey.Memory.{memory, Store}
use opencode_optimised_tooli.Botdetection.LinkToken.{ping, is_suspicious}
use opencode_optimised_tooli.Botdetection.LinkToken.Laws.{is_suspicious-ping}
use opencode_optimised_tooli.Botdetection.IpLimit
use opencode_optimised_tooli.Botdetection.IpLimit.Laws.{filter_request_rate}
use opencode_optimised_tooli.Botdetection.TrustedProxies.{
  Environ, wsgi_app, call, trusted_remote_addr, is_trusted, trusted_proxies, set_remote_addr,
  last_check, validated, read_forwarded, real_ip, choose_addr, usable_forwarded,
}
use opencode_optimised_tooli.Botdetection.TrustedProxies.Laws.{trusted_remote_addr_last_untrusted}
use opencode_optimised_tooli.Tests.Samples.{
  proxy, client, black_hole, hosts, cfg, search_request, empty_store,
}

curl_is_bot : is_bot_agent (codes "cURL/8.0") ≡ true
unfolding is_bot_agent any contains
curl_is_bot = refl

petal_is_bot : is_bot_agent (codes "Mozilla/5.0 PetalBot") ≡ true
unfolding is_bot_agent any contains
petal_is_bot = refl

firefox_is_no_bot : http_user_agent search_request ≡ none
unfolding http_user_agent any lookup contains
firefox_is_no_bot = refl

trusted_remote_addr_last_untrusted_example :
    trusted_remote_addr hosts (λ s. []) black_hole (client ∷ proxy ∷ []) (proxy ∷ []) ≡ "192.0.2.7"
unfolding is_trusted any in_net
trusted_remote_addr_last_untrusted_example =
    trusted_remote_addr_last_untrusted hosts (λ s. []) black_hole (client ∷ proxy ∷ [])
      (black_hole ∷ []) client (proxy ∷ []) (proxy ∷ []) refl (refl, tt) refl

abbrev environ : Environ
environ = record {
  remote_addr = some "10.0.0.1";
  x_real_ip = none;
  x_forwarded_for = some "192.0.2.7";
  orig = none;
}

abbrev served : Environ
served = record {
  remote_addr = some "192.0.2.7";
  x_real_ip = none;
  x_forwarded_for = some "192.0.2.7";
  orig = some (some "10.0.0.1");
}

call_run : (call hosts (λ s. s ∷ []) ("10.0.0.1" ∷ []) [] environ).0 ≡ wsgi_app served
unfolding call trusted_proxies set_remote_addr last_check validated read_forwarded real_ip
    choose_addr usable_forwarded any in_net
call_run = refl

call_no_proxies_run :
    (call hosts (λ s. s ∷ []) [] [] environ).0
    ≡ wsgi_app (record served { remote_addr = some "10.0.0.1" })
unfolding call trusted_proxies set_remote_addr last_check validated read_forwarded real_ip
    choose_addr usable_forwarded
call_no_proxies_run = refl

abbrev net : Text
net = codes "192.0.2.7"

IsTimely-empty :
    (name : Text) (window : ℕ)
    → window ≤ 3000000
    → 0 < window
    → IsTimely memory empty_store name window
unfolding keep has_key
IsTimely-empty name window h pos = record { started = h; positive = pos; past = tt; fresh = refl }

incr_sliding_window_counts_example : (incr_sliding_window memory empty_store net 20).0 ≡ 1
unfolding keep
incr_sliding_window_counts_example =
    incr_sliding_window_counts memory empty_store net 20
      (IsTimely-empty net 20 (omega arith) (omega arith))

IsTimely-long :
    IsTimely memory
      (incr_sliding_window memory empty_store (codes "ip_limit.BURST_WINDOW" ++ net) 20).1
      (codes "ip_limit.LONG_WINDOW" ++ net)
      600
unfolding incr_sliding_window keep has_key insert trim
IsTimely-long = record { started = omega arith; positive = omega arith; past = tt; fresh = refl }

filter_request_rate_example :
    (IpLimit.filter_request hosts memory empty_store client search_request cfg).0 ≡ none
unfolding keep incr_sliding_window insert lookup trim
filter_request_rate_example =
    filter_request_rate hosts memory empty_store client search_request cfg refl refl refl
      (IsTimely-empty _ 20 (omega arith) (omega arith)) IsTimely-long

abbrev token_store : Store
token_store = record empty_store { texts = λ k. some (codes "token") }

is_suspicious-ping_example :
    (db : Store) × (ping hosts memory (some token_store) search_request cfg (codes "token") []
      ≡ some db)
    × ((is_suspicious hosts memory db client search_request true).0 ≡ false)
unfolding get_network
is_suspicious-ping_example =
    is_suspicious-ping hosts memory token_store search_request cfg client b't' (codes "oken") []
      true refl refl
