-- ===== src/Botdetection/LinkToken.antt =====
-- botdetection/link_token.py: a client that has loaded the page's style sheet leaves a ping.
pub mod Laws
use mathlib.Core.Option
use opencode_optimised_tooli.Prelude.{
  Bool, Option, String, Text, [], codes, false, if◌then◌else◌, is_empty, map, none, not, some, true,
  ℕ, ◌++◌, ◌==◌, ◌∷◌, list_eq, nat_eq, pair_eq, string_eq,
}
use Prim.Native.String.{◌++◌ as text_append}
use opencode_optimised_tooli.Botdetection.Net.{IpAddress, Request, Cfg, header, get_network}
use opencode_optimised_tooli.Botdetection.Valkey.{Valkey}

abbrev pub token_live_time : ℕ
token_live_time = 600

abbrev pub ping_live_time : ℕ
ping_live_time = 3600

abbrev pub token_key : String
token_key = "SearXNG_limiter.token"

-- The truth value of what `client.get` answers.
abbrev pub is_set : Option Text → Bool
is_set none = false
is_set (some []) = false
is_set (some (c ∷ s)) = true

module _ (ip : IpAddress) (valkey : Valkey) where
  open ip use {Net, parse_addr, net_text}
  open valkey use {Db, text_at, set_ex, secret_hash}

  unfoldable pub get_ping_key : Net → Request → String
  get_ping_key network r = text_append "SearXNG_limiter.ping[" (
      text_append
        (secret_hash
          (codes (net_text network) ++ (header r "Accept-Language" [] ++ header r "User-Agent" [])))
        "]")

  unfoldable pub is_suspicious : Db → Net → Request → Bool → Bool × Db
  is_suspicious db network r renew =
      let ping_key = get_ping_key network r in
      if not (is_set (text_at db ping_key))
      then (true, db)
      else (false, if renew then set_ex db ping_key (codes "1") ping_live_time else db)

  -- `new` is the token that the random generator would give. Without a database the token is fixed.
  unfoldable pub get_token : Option Db → Text → Text × Option Db
  get_token none new = (codes "12345678", none)
  get_token (some db) new = elim (text_at db token_key) [
    | none ↦ (new, some (set_ex db token_key new token_live_time))
    | some token ↦
        if is_empty token
        then (new, some (set_ex db token_key new token_live_time))
        else (token, some db)
  ]

  unfoldable pub token_is_valid : Option Db → Text → Text → Bool × Option Db
  token_is_valid db token new = let (current, db') = get_token db new in (token == current, db')

  -- `none`: no database (ValueError), or an address that does not parse.
  unfoldable pub ping : Option Db → Request → Cfg → Text → Text → Option Db
  ping none r cfg token new = none
  ping (some db) r cfg token new =
      let (valid, db') = token_is_valid (some db) token new in
      if not valid then db' else elim (parse_addr r.remote_addr) [
        | none ↦ none
        | some real_ip ↦
            Option.map
              (λ d.
                set_ex d (get_ping_key (get_network ip real_ip cfg) r) (codes "1") ping_live_time)
              db'
      ]
