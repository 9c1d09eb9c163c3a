-- ===== src/Botdetection/Valkey/Memory.antt =====
-- A Valkey server in memory: it shows that the laws of the interface can hold.
use Prim.Native.Char.{Char, code}
use mathlib.Core.Path.{ap₂}
use text.Mathlib.TextLemmas.{cons-eq-cons, nil≢cons, cons≢nil}
use opencode_optimised_tooli.Prelude.{
  Dict, Option, String, Text, [], ap, arith, if◌then◌else◌, insert, keep, length, none, not, refl,
  some, suc, sym, zero, ℕ, ◌%◌, ◌/◌, ◌==◌, ◌∷◌, ◌≡◌, list_eq, nat_eq, pair_eq, string_eq,
}
use opencode_optimised_tooli.Botdetection.Valkey.{Valkey, in_range}

pub record Store : Type 0 where
  pub clock : ℕ × ℕ
  pub sets : String → Dict String ℕ
  pub texts : String → Option Text

-- A number in tally marks, before the rest of a text.
abbrev tally : ℕ → String → String
tally zero rest = String.◌∷◌ "b" rest
tally (suc n) rest = String.◌∷◌ "a" (tally n rest)

-- The decimal digits, in tally marks, the lowest first.
abbrev digit_marks : ℕ → ℕ → String
digit_marks zero n = ""
digit_marks (suc k) n = tally (n % 10) (digit_marks k (n / 10))

abbrev hash : Text → String
hash [] = String.[]
hash (n ∷ s) = tally n (hash s)

abbrev put {ℓ} : {A : Type ℓ} → (String → A) → String → A → String → A
put f k v j = if k == j then v else f j

char_ab : ◌≡◌ {A = Char} "a" "b" → ⊥
char_ab h = absurd (omega (arith, ap code h))

tally_inj : (m n : ℕ) (s t : String) → tally m s ≡ tally n t → (m ≡ n) × (s ≡ t)
tally_inj zero zero s t h = (refl, (cons-eq-cons.0 h).1)
tally_inj zero (suc n) s t h = absurd (char_ab (sym (cons-eq-cons.0 h).0))
tally_inj (suc m) zero s t h = absurd (char_ab (cons-eq-cons.0 h).0)
tally_inj (suc m) (suc n) s t h =
    let (p, q) = tally_inj m n s t (cons-eq-cons.0 h).1 in (ap suc p, q)

pub hash_injective : (s t : Text) → hash s ≡ hash t → s ≡ t
hash_injective [] [] h = refl
hash_injective [] (zero ∷ t) h = absurd (nil≢cons h)
hash_injective [] (suc n ∷ t) h = absurd (nil≢cons h)
hash_injective (zero ∷ s) [] h = absurd (cons≢nil h)
hash_injective (suc n ∷ s) [] h = absurd (cons≢nil h)
hash_injective (m ∷ s) (n ∷ t) h =
    let (p, q) = tally_inj m n (hash s) (hash t) h in ap₂ ◌∷◌ p (hash_injective s t q)

abbrev pub memory : Valkey
memory = record {
  Db = Store;
  time = λ db. db.clock;
  tostring = digit_marks 20;
  secret_hash = hash;
  scores = λ db k. db.sets k;
  text_at = λ db k. db.texts k;
  zremrangebyscore = λ db k lo hi. record db {
    sets = put db.sets k (keep (λ e. not (in_range lo hi e)) (db.sets k));
  };
  zadd = λ db k score m. record db { sets = put db.sets k (insert m score (db.sets k)) };
  zcount = λ db k lo hi. length (keep (in_range lo hi) (db.sets k));
  expire = λ db k seconds. db;
  delete = λ db k. record db { sets = put db.sets k []; texts = put db.texts k none };
  set_ex = λ db k v seconds. record db { texts = put db.texts k (some v) };
  secret_hash_injective = hash_injective;
  scores-zremrangebyscore = λ db k j lo hi. refl;
  scores-zadd = λ db k j score m. refl;
  zcount_lem = λ db k lo hi. refl;
  scores-expire = λ db k j seconds pos. refl;
  scores-delete = λ db k j. refl;
  text_at-set_ex = λ db k j v seconds pos. refl;
}
