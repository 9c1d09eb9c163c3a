-- ===== src/Botdetection/IpLimit.antt =====
-- botdetection/ip_limit.py: the request rates of one network, in sliding windows.
pub mod Laws
use opencode_optimised_tooli.Prelude.{
  Bool, Option, Text, [], codes, false, if◌then◌else◌, lookup, ltb, none, not, some, true, ℕ, ◌&&◌,
  ◌*◌, ◌++◌, ◌==◌, ◌∷◌, list_eq, nat_eq, pair_eq, string_eq,
}
use opencode_optimised_tooli.Botdetection.Net.{
  IpAddress, Request, Cfg, Response, redirect_index, too_many_requests,
}
use opencode_optimised_tooli.Botdetection.Valkey.{Valkey, incr_sliding_window, drop_counter}
use opencode_optimised_tooli.Botdetection.LinkToken.{is_suspicious}

abbrev pub burst_window : ℕ
burst_window = 20

abbrev pub burst_max : ℕ
burst_max = 15

abbrev pub burst_max_suspicious : ℕ
burst_max_suspicious = 2

abbrev pub long_window : ℕ
long_window = 600

abbrev pub long_max : ℕ
long_max = 150

abbrev pub long_max_suspicious : ℕ
long_max_suspicious = 10

abbrev pub api_window : ℕ
api_window = 3600

abbrev pub api_max : ℕ
api_max = 4

abbrev pub suspicious_ip_window : ℕ
suspicious_ip_window = 3600 * 24 * 30

abbrev pub suspicious_ip_max : ℕ
suspicious_ip_max = 3

-- The names of the four counters of a network.
abbrev pub api_name : Text → Text
api_name net = codes "ip_limit.API_WINDOW:" ++ net

abbrev pub suspicious_name : Text → Text
suspicious_name net = codes "ip_limit.SUSPICIOUS_IP_WINDOW" ++ net

abbrev pub burst_name : Text → Text
burst_name net = codes "ip_limit.BURST_WINDOW" ++ net

abbrev pub long_name : Text → Text
long_name net = codes "ip_limit.LONG_WINDOW" ++ net

-- `request.args.get('format', 'html') != 'html'`
abbrev pub is_api : Request → Bool
is_api r = elim (lookup "format" r.args) [ none ↦ false | some f ↦ not (f == "html") ]

abbrev pub redirect_no_store : Response
redirect_no_store = redirect_index 302 (("Cache-Control", "no-store, max-age=0") ∷ [])

module _ (ip : IpAddress) (valkey : Valkey) where
  open ip use {Net, net_text, is_link_local}
  open valkey use {Db}

  -- One counter: `blocked` if it passes `limit`, or else the rest of the function.
  unfoldable pub limited :
      Db → Text → ℕ → ℕ → Response → (Db → Option Response × Db) → Option Response × Db
  limited db name window limit blocked rest =
      let (c, db') = incr_sliding_window valkey db name window in
      if ltb limit c then (some blocked, db') else rest db'

  -- The rates of a burst and of the long window.
  unfoldable pub burst_and_long : Db → Text → ℕ → ℕ → Option Response × Db
  burst_and_long db net max_burst max_long =
      limited db (burst_name net) burst_window max_burst too_many_requests λ db'.
        limited db' (long_name net) long_window max_long too_many_requests λ db''. (none, db'')

  -- The requests of a client without a ping.
  unfoldable pub suspicious_request : Db → Text → Option Response × Db
  unfolding burst_and_long
  suspicious_request db net =
      limited db (suspicious_name net) suspicious_ip_window suspicious_ip_max redirect_no_store
        λ db'. burst_and_long db' net burst_max_suspicious long_max_suspicious

  unfoldable pub with_link_token : Db → Net → Request → Cfg → Option Response × Db
  unfolding suspicious_request
  with_link_token db network r cfg =
      let net = codes (net_text network) in
      if cfg.link_token
      then (let (suspicious, db') = is_suspicious ip valkey db network r true in
          if not suspicious
          then (none, drop_counter valkey db' (suspicious_name net))
          else suspicious_request db' net)
      else burst_and_long db net burst_max long_max

  unfoldable pub filter_request : Db → Net → Request → Cfg → Option Response × Db
  unfolding with_link_token
  filter_request db network r cfg =
      if is_link_local network && not cfg.filter_link_local
      then (none, db)
      else if is_api r
      then limited db (api_name (codes (net_text network))) api_window api_max too_many_requests
          (λ db'. with_link_token db' network r cfg)
      else with_link_token db network r cfg
