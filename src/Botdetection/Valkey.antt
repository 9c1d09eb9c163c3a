-- ===== src/Botdetection/Valkey.antt =====
-- valkeylib.py: counters in sliding windows over the sorted sets of a Valkey server, and the
-- server's commands that the bot detection uses, as an interface with their documented laws.
pub mod Window
pub mod Memory
use opencode_optimised_tooli.Prelude.{
  Bool, Dict, Option, String, Text, [], if◌then◌else◌, insert, keep, leb, length, not, some, ℕ,
  ◌&&◌, ◌+◌, ◌-◌, ◌<◌, ◌==◌, ◌≡◌, list_eq, nat_eq, pair_eq, string_eq,
}
use Prim.Native.String.{◌++◌ as text_append}

-- A member of a sorted set and its score.
abbrev pub in_range : ℕ → ℕ → String × ℕ → Bool
in_range lo hi e = leb lo e.1 && leb e.1 hi

-- The server as its clients see it: a sorted set (`scores`) and a text (`text_at`) at each key.
-- `time` answers seconds and microseconds; `tostring` is Lua's; `secret_hash` is an HMAC, of which
-- the program needs that it keeps keys apart.
pub record Valkey : Type 1 where
  pub Db : Type 0
  pub time : Db → ℕ × ℕ
  pub tostring : ℕ → String
  pub secret_hash : Text → String
  pub scores : Db → String → Dict String ℕ
  pub text_at : Db → String → Option Text
  pub zremrangebyscore : Db → String → ℕ → ℕ → Db
  pub zadd : Db → String → ℕ → String → Db
  pub zcount : Db → String → ℕ → ℕ → ℕ
  pub expire : Db → String → ℕ → Db
  pub delete : Db → String → Db
  pub set_ex : Db → String → Text → ℕ → Db
  pub secret_hash_injective : (s t : Text) → secret_hash s ≡ secret_hash t → s ≡ t
  pub scores-zremrangebyscore :
      (db : Db) (k j : String) (lo hi : ℕ)
      → scores (zremrangebyscore db k lo hi) j
        ≡ (if k == j then keep (λ e. not (in_range lo hi e)) (scores db k) else scores db j)
  pub scores-zadd :
      (db : Db) (k j : String) (score : ℕ) (m : String)
      → scores (zadd db k score m) j
        ≡ (if k == j then insert m score (scores db k) else scores db j)
  pub zcount_lem :
      (db : Db) (k : String) (lo hi : ℕ)
      → zcount db k lo hi ≡ length (keep (in_range lo hi) (scores db k))
  pub scores-expire :
      (db : Db) (k j : String) (seconds : ℕ)
      → 0 < seconds
      → scores (expire db k seconds) j ≡ scores db j
  pub scores-delete :
      (db : Db) (k j : String) → scores (delete db k) j ≡ (if k == j then [] else scores db j)
  pub text_at-set_ex :
      (db : Db) (k j : String) (v : Text) (seconds : ℕ)
      → 0 < seconds
      → text_at (set_ex db k v seconds) j ≡ (if k == j then some v else text_at db j)

module _ (valkey : Valkey) where
  open valkey use {Db, time, tostring, secret_hash, zremrangebyscore, zadd, zcount, expire, delete}

  -- The key of a counter.
  unfoldable pub counter_key : Text → String
  counter_key name = text_append "SearXNG_counter_" (secret_hash name)

  -- ZREMRANGEBYSCORE of the script: a negative upper bound removes nothing.
  unfoldable pub trim : Db → String → ℕ → Db
  trim db name duration =
      let now = (time db).0 in
      if leb duration now then zremrangebyscore db name 0 (now - duration) else db

  -- The script INCR_SLIDING_WINDOW.
  unfoldable pub sliding_window_script : Db → String → ℕ → ℕ × Db
  sliding_window_script db name duration =
      let (seconds, micros) = time db in
      let added =
        zadd (trim db name duration) name seconds
          (text_append (tostring seconds) (tostring micros)) in
      (zcount added name 0 (seconds + 1), expire added name duration)

  unfoldable pub incr_sliding_window : Db → Text → ℕ → ℕ × Db
  unfolding sliding_window_script counter_key
  incr_sliding_window db name duration = sliding_window_script db (counter_key name) duration

  unfoldable pub drop_counter : Db → Text → Db
  unfolding counter_key
  drop_counter db name = delete db (counter_key name)
