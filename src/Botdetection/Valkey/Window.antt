-- ===== src/Botdetection/Valkey/Window.antt =====
-- What a sliding window counts.
use opencode_optimised_tooli.Prelude.{
  ==_iff, ==_self, All, Bool, Bool-cases, Bool-eq_of_iff, Dict, String, Text, [], ap, arith, false,
  has_key, if◌then◌else◌, inl, inr, insert, keep, leb, length, not, refl, snoc, suc, true, ℕ, ◌+◌,
  ◌-◌, ◌<◌, ◌==◌, ◌∙◌, ◌∷◌, ◌≡◌, ◌≤◌, list_eq, nat_eq, pair_eq, string_eq,
}
use Prim.Native.String.{◌++◌ as text_append}
use text.Mathlib.TextLemmas.{append_cancel_left}
use opencode_optimised_tooli.Botdetection.Valkey.{
  Valkey, in_range, counter_key, incr_sliding_window, drop_counter, trim,
}

module _ (valkey : Valkey) where
  open valkey use {Db, time, tostring, scores, secret_hash_injective}

  -- The calls of the last `duration` seconds that the window holds.
  abbrev pub recent : Db → Text → ℕ → Dict String ℕ
  recent db name duration =
      keep (λ e. not (in_range 0 ((time db).0 - duration) e)) (scores db (counter_key valkey name))

  -- The name under which the script records a call.
  abbrev pub stamp : Db → String
  stamp db = text_append (tostring (time db).0) (tostring (time db).1)

  -- The server's clock is past every recorded call, past one duration, and at a new microsecond.
  pub record IsTimely (db : Db) (name : Text) (duration : ℕ) : Type 0 where
    pub started : duration ≤ (time db).0
    pub positive : 0 < duration
    pub past : All (λ e. e.1 ≤ (time db).0 + 1) (scores db (counter_key valkey name))
    pub fresh : has_key (stamp db) (recent db name duration) ≡ false

  pub counter_key_injective : (s t : Text) → counter_key valkey s ≡ counter_key valkey t → s ≡ t
  unfolding counter_key
  counter_key_injective s t e =
      secret_hash_injective s t (append_cancel_left "SearXNG_counter_" _ _ e)

  counter_key-== : (s t : Text) → (counter_key valkey s == counter_key valkey t) ≡ (s == t)
  counter_key-== s t = Bool-eq_of_iff _ _ (
    λ h. (==_iff s t).1 (counter_key_injective s t ((==_iff _ _).0 h)),
    λ h. (==_iff _ _).1 (ap (counter_key valkey) ((==_iff s t).0 h)),
  )

insert_fresh :
    (k : String) (v : ℕ) (m : Dict String ℕ) → has_key k m ≡ false → insert k v m ≡ snoc m (k, v)
unfolding insert has_key
insert_fresh k v [] h = refl
insert_fresh k v ((j, w) ∷ m) h = ground (arith, insert_fresh k v m)

-- A list whose scores are all at most the bound counts whole, after any trimming.
count-All :
    (p : String × ℕ → Bool) (hi : ℕ) (m : Dict String ℕ)
    → All (λ e. e.1 ≤ hi) m
    → length (keep (in_range 0 hi) (keep p m)) ≡ length (keep p m)
unfolding keep
count-All p hi [] h = refl
count-All p hi (e ∷ m) (q, h) = ground (arith, count-All p hi m h)

count_snoc :
    (p : String × ℕ → Bool) (m : Dict String ℕ) (e : String × ℕ)
    → p e ≡ true
    → length (keep p (snoc m e)) ≡ suc (length (keep p m))
unfolding keep
count_snoc p [] e h = ground arith
count_snoc p (x ∷ m) e h = ground (arith, count_snoc p m e h)

module _ (valkey : Valkey) where
  open valkey use {Db, time, scores}

  scores-trim_self :
      (db : Db) (name : Text) (duration : ℕ)
      → duration ≤ (time db).0
      → scores (trim valkey db (counter_key valkey name) duration) (counter_key valkey name)
        ≡ recent valkey db name duration
  unfolding trim
  scores-trim_self db name duration h =
      let started : leb duration (time db).0 ≡ true = ground arith in
      rw (started, valkey.scores-zremrangebyscore, ==_self (counter_key valkey name))

  scores-trim_ne :
      (db : Db) (name other : Text) (duration : ℕ)
      → (name == other) ≡ false
      → scores (trim valkey db (counter_key valkey name) duration) (counter_key valkey other)
        ≡ scores db (counter_key valkey other)
  unfolding trim
  scores-trim_ne db name other duration ne = elim (Bool-cases (leb duration (time db).0)) [
    | inl e ↦ rw (e, valkey.scores-zremrangebyscore, counter_key-== valkey name other, ne)
    | inr e ↦ rw e
  ]

  -- If `duration` is positive and not past the clock, no recorded call is more than a second after
  -- the clock, and the window holds no call of the clock's microsecond: an increment answers the
  -- number of calls recorded in the last `duration` seconds, this one included.
  pub incr_sliding_window_counts :
      (db : Db) (name : Text) (duration : ℕ)
      → IsTimely valkey db name duration
      → (incr_sliding_window valkey db name duration).0
        ≡ suc (length (recent valkey db name duration))
  unfolding incr_sliding_window
  incr_sliding_window_counts db name duration t =
      rw
        (
          valkey.zcount_lem,
          valkey.scores-zadd,
          ==_self (counter_key valkey name),
          scores-trim_self db name duration t.started,
          insert_fresh _ (time db).0 (recent valkey db name duration) t.fresh,
          count_snoc (in_range 0 ((time db).0 + 1)) (recent valkey db name duration)
              (stamp valkey db, (time db).0) (ground arith),
        )
        (ap suc (count-All _ _ _ t.past))

  -- An increment leaves the windows of all other names as they are.
  pub incr_sliding_window_frame :
      (db : Db) (name other : Text) (duration : ℕ)
      → (name == other) ≡ false
      → 0 < duration
      → scores (incr_sliding_window valkey db name duration).1 (counter_key valkey other)
        ≡ scores db (counter_key valkey other)
  unfolding incr_sliding_window
  incr_sliding_window_frame db name other duration ne pos =
      let key = counter_key valkey name in
      let apart : (key == counter_key valkey other) ≡ false =
        counter_key-== valkey name other ∙ ne in
      rw (valkey.scores-expire _ key _ duration pos, valkey.scores-zadd, apart)
        (scores-trim_ne db name other duration ne)

  pub drop_counter_lem :
      (db : Db) (name other : Text)
      → scores (drop_counter valkey db name) (counter_key valkey other)
        ≡ (if name == other then [] else scores db (counter_key valkey other))
  unfolding drop_counter
  drop_counter_lem db name other = rw (valkey.scores-delete, counter_key-== valkey name other)
