-- ===== src/Botdetection/IpLimit/Laws.antt =====
-- The request rates that one network may have, told by the calls in its windows.
use opencode_optimised_tooli.Prelude.{
  Option, Text, arith, codes, false, if◌then◌else◌, leb, length, none, some, true, ℕ, ◌||◌, ◌≡◌,
  list_eq, nat_eq, pair_eq, string_eq,
}
use opencode_optimised_tooli.Botdetection.Net.{IpAddress, Request, Cfg, Response, too_many_requests}
use opencode_optimised_tooli.Botdetection.Valkey.{Valkey, incr_sliding_window}
use opencode_optimised_tooli.Botdetection.Valkey.Window.{
  recent, IsTimely, incr_sliding_window_counts,
}
use opencode_optimised_tooli.Botdetection.IpLimit.{
  limited, burst_and_long, suspicious_request, filter_request, burst_name, long_name,
  suspicious_name, burst_window, long_window, suspicious_ip_window, is_api, redirect_no_store,
}

module _ (ip : IpAddress) (valkey : Valkey) where
  open ip use {Net, net_text, is_link_local}
  open valkey use {Db, scores}

  -- The database after one increment.
  abbrev pub after : Db → Text → ℕ → Db
  after db name window = (incr_sliding_window valkey db name window).1

  -- A counter stops a request once its window holds `limit` calls.
  limited_lem :
      (db : Db) (name : Text) (window limit : ℕ) (blocked : Response)
      (rest : Db → Option Response × Db)
      → IsTimely valkey db name window
      → limited ip valkey db name window limit blocked rest ≡ (
          if leb limit (length (recent valkey db name window))
          then (some blocked, after db name window)
          else rest (after db name window))
  unfolding limited
  limited_lem db name window limit blocked rest t =
      rw (incr_sliding_window_counts valkey db name window t) (ground arith)

  -- Both windows of an unsuspicious request.
  burst_and_long_lem :
      (db : Db) (net : Text) (max_burst max_long : ℕ)
      → IsTimely valkey db (burst_name net) burst_window
      → IsTimely valkey (after db (burst_name net) burst_window) (long_name net) long_window
      → (burst_and_long ip valkey db net max_burst max_long).0 ≡ (
          if leb max_burst (length (recent valkey db (burst_name net) burst_window))
            || leb max_long (
                length (
                  recent valkey
                    (after db (burst_name net) burst_window)
                    (long_name net)
                    long_window))
          then some too_many_requests
          else none)
  unfolding burst_and_long
  burst_and_long_lem db net max_burst max_long t u =
      let db' = after db (burst_name net) burst_window in
      let second =
        limited_lem db' (long_name net) long_window max_long too_many_requests
          (λ db''. (none, db'')) u in
      rw (limited_lem db (burst_name net) burst_window max_burst too_many_requests _ t)
        (ground (arith, second))

  -- For a network that is not link-local, a request that is no API request, and a configuration
  -- without the link token method: if at both increments the clock is past one duration, no recorded
  -- call is more than a second after the clock, and the window holds no call of the clock's
  -- microsecond, then the request is answered with 429 exactly when at least 15 requests of its
  -- network are recorded in the last 20 seconds, or 150 in the last 600 seconds; else it passes.
  pub filter_request_rate :
      (db : Db) (network : Net) (r : Request) (cfg : Cfg)
      → is_link_local network ≡ false
      → is_api r ≡ false
      → cfg.link_token ≡ false
      → IsTimely valkey db (burst_name (codes (net_text network))) burst_window
      → IsTimely valkey
          (after db (burst_name (codes (net_text network))) burst_window)
          (long_name (codes (net_text network)))
          long_window
      → (filter_request ip valkey db network r cfg).0 ≡ (
          if leb 15 (length (recent valkey db (burst_name (codes (net_text network))) burst_window))
            || leb 150 (
                length (
                  recent valkey
                    (after db (burst_name (codes (net_text network))) burst_window)
                    (long_name (codes (net_text network)))
                    long_window))
          then some too_many_requests
          else none)
  unfolding filter_request
  filter_request_rate db network r cfg local api token t u =
      rw (local, api, token) (burst_and_long_lem db (codes (net_text network)) 15 150 t u)

  -- A client without a ping is sent to the index once its network made 3 such requests within the
  -- window of the suspicious addresses.
  pub suspicious_request_rate :
      (db : Db) (net : Text)
      → IsTimely valkey db (suspicious_name net) suspicious_ip_window
      → (leb 3 (length (recent valkey db (suspicious_name net) suspicious_ip_window)) ≡ true)
      → (suspicious_request ip valkey db net).0 ≡ some redirect_no_store
  unfolding suspicious_request
  suspicious_request_rate db net t h =
      rw (limited_lem db (suspicious_name net) suspicious_ip_window 3 redirect_no_store _ t, h)
