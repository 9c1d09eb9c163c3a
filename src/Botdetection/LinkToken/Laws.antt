-- ===== src/Botdetection/LinkToken/Laws.antt =====
-- A ping makes a client trusted, and only with the current token.
use opencode_optimised_tooli.Prelude.{
  ==_self, Bool, Text, arith, codes, false, refl, some, ℕ, ◌==◌, ◌∷◌, ◌≡◌, list_eq, nat_eq, pair_eq,
  string_eq,
}
use opencode_optimised_tooli.Botdetection.Net.{IpAddress, Request, Cfg, get_network}
use opencode_optimised_tooli.Botdetection.Valkey.{Valkey}
use opencode_optimised_tooli.Botdetection.LinkToken.{
  is_suspicious, ping, get_ping_key, token_is_valid, token_key, get_token,
}

module _ (ip : IpAddress) (valkey : Valkey) where
  open ip use {Addr, parse_addr}
  open valkey use {Db, text_at}

  get_token-held :
      (db : Db) (c : ℕ) (s new : Text)
      → text_at db token_key ≡ some (c ∷ s)
      → get_token ip valkey (some db) new ≡ (c ∷ s, some db)
  unfolding get_token
  get_token-held db c s new h = ground arith

  token_is_valid-held :
      (db : Db) (c : ℕ) (s token new : Text)
      → text_at db token_key ≡ some (c ∷ s)
      → token_is_valid ip valkey (some db) token new ≡ (token == (c ∷ s), some db)
  unfolding token_is_valid
  token_is_valid-held db c s token new h = rw (get_token-held db c s new h)

  -- After a ping with the token that the database holds, a request with the same address and
  -- headers is not suspicious.
  pub is_suspicious-ping :
      (db : Db) (r : Request) (cfg : Cfg) (a : Addr) (c : ℕ) (s new : Text) (renew : Bool)
      → parse_addr r.remote_addr ≡ some a
      → text_at db token_key ≡ some (c ∷ s)
      → (db' : Db) × (ping ip valkey (some db) r cfg (c ∷ s) new ≡ some db')
        × ((is_suspicious ip valkey db' (get_network ip a cfg) r renew).0 ≡ false)
  unfolding ping is_suspicious
  is_suspicious-ping db r cfg a c s new renew parsed held =
      let key = get_ping_key ip valkey (get_network ip a cfg) r in
      (
        valkey.set_ex db key (codes "1") 3600,
        let valid = token_is_valid-held db c s (c ∷ s) new held in
            rw (valid, ==_self (c ∷ s), parsed, valid),
        rw (valkey.text_at-set_ex db key key (codes "1") 3600 (omega arith), ==_self key) refl,
      )

  -- A ping with another token than the one that the database holds changes nothing.
  pub ping_invalid :
      (db : Db) (r : Request) (cfg : Cfg) (token : Text) (c : ℕ) (s new : Text)
      → text_at db token_key ≡ some (c ∷ s)
      → (token == (c ∷ s)) ≡ false
      → ping ip valkey (some db) r cfg token new ≡ some db
  unfolding ping
  ping_invalid db r cfg token c s new held ne = rw (token_is_valid-held db c s token new held, ne)
