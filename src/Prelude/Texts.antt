-- ===== src/Prelude/Texts.antt =====
-- Texts: the native `String` where the program compares whole texts, and code points where it
-- walks them.
use Prim.Native.Nat.{ℕ, ◌+◌}
use Prim.Native.Char.{code}
use Prim.Native.String.{String}
use Prim.Native.String.{◌++◌ as text_append}
use mathlib.Core.Path.{◌≡◌, refl, ap, ◌∙◌}
use mathlib.Core.Bool.{Bool, true, false, ◌&&◌, ◌||◌}
use mathlib.Core.List.{List, [], ◌∷◌, ◌++◌, reverse}
use native.Mathlib.Omega.{arith}
use opencode_optimised_tooli.Prelude.Tests.{leb, if◌then◌else◌, ◌==◌, nat_eq}
use opencode_optimised_tooli.Prelude.Lists.{All, contains}

abbrev pub codes : String → List ℕ
codes String.[] = []
codes (String.◌∷◌ first rest) = code first ∷ codes rest

-- `"".join(l)`, an f-string or a chain of `+`
unfoldable pub concat : List String → String
concat [] = ""
concat (s ∷ ss) = text_append s (concat ss)

-- `sep.join(l)`
unfoldable pub join : String → List String → String
join sep [] = ""
join sep (s ∷ []) = s
join sep (s ∷ t ∷ ss) = text_append s (text_append sep (join sep (t ∷ ss)))

abbrev pub is_digit : ℕ → Bool
is_digit c = leb b'0' c && leb c b'9'

-- `c.lower()` on ASCII
abbrev pub to_lower : ℕ → ℕ
to_lower c = if leb b'A' c && leb c b'Z' then c + 32 else c

-- A text as its code points.
abbrev pub Text : Type 0
Text = List ℕ

-- The characters for which `str.isspace` holds.
abbrev pub is_space : ℕ → Bool
is_space c =
    (leb 9 c && leb c 13)
    || (leb 28 c && leb c 32)
    || (c == 0x85)
    || (c == 0xA0)
    || (c == 0x1680)
    || (leb 0x2000 c && leb c 0x200A)
    || (c == 0x2028)
    || (c == 0x2029)
    || (c == 0x202F)
    || (c == 0x205F)
    || (c == 0x3000)

unfoldable pub drop_spaces : Text → Text
drop_spaces [] = []
drop_spaces (c ∷ s) = let rest = drop_spaces s in if is_space c then rest else c ∷ s

-- `s.strip()`
unfoldable pub strip : Text → Text
unfolding drop_spaces
strip s = reverse (drop_spaces (reverse (drop_spaces s)))

-- Puts a character before the first part.
abbrev pub cons_first : ℕ → List Text → List Text
cons_first c [] = (c ∷ []) ∷ []
cons_first c (p ∷ ps) = (c ∷ p) ∷ ps

-- `s.split(sep)` for a separator of one character
unfoldable pub split_on : ℕ → Text → List Text
split_on sep [] = [] ∷ []
split_on sep (c ∷ s) =
    let rest = split_on sep s in if c == sep then [] ∷ rest else cons_first c rest

-- `sep.join(l)`
unfoldable pub join_on : ℕ → List Text → Text
join_on sep [] = []
join_on sep (p ∷ []) = p
join_on sep (p ∷ q ∷ ps) = p ++ sep ∷ join_on sep (q ∷ ps)

-- `s.startswith(p)`
unfoldable pub has_prefix : Text → Text → Bool
has_prefix [] s = true
has_prefix (c ∷ p) [] = false
has_prefix (c ∷ p) (d ∷ s) = (c == d) && has_prefix p s

split_on-free : (sep : ℕ) (p : Text) → contains sep p ≡ false → split_on sep p ≡ p ∷ []
unfolding split_on contains
split_on-free sep [] h = refl
split_on-free sep (c ∷ p) h = ground (arith, split_on-free sep p)

split_on-append :
    (sep : ℕ) (p s : Text)
    → contains sep p ≡ false
    → split_on sep (p ++ sep ∷ s) ≡ p ∷ split_on sep s
unfolding split_on contains
split_on-append sep [] s h = ground arith
split_on-append sep (c ∷ p) s h = ground (arith, split_on-append sep p s)

-- Parts that do not hold the separator come back from their join.
pub split_on-join_on :
    (sep : ℕ) (p : Text) (ps : List Text)
    → All (λ q. contains sep q ≡ false) (p ∷ ps)
    → split_on sep (join_on sep (p ∷ ps)) ≡ p ∷ ps
unfolding join_on
split_on-join_on sep p [] (h, _) = split_on-free sep p h
split_on-join_on sep p (q ∷ ps) (h, k) =
    split_on-append sep p _ h ∙ ap (◌∷◌ p) (split_on-join_on sep q ps k)
