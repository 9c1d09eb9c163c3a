-- ===== src/Preferences/SetSetting/Laws.antt =====
-- The cookie of a set gives back its elements.
use opencode_optimised_tooli.Prelude.{
  All, List, Text, [], add_new, arith, contains, contains-add_new, false, is_empty, join_on, refl,
  split_on-join_on, values, ◌||◌, ◌∙◌, ◌∷◌, ◌≡◌, list_eq, nat_eq, pair_eq, string_eq,
}
use opencode_optimised_tooli.Preferences.SetSetting.{State, add_all, parse, save}

contains-add_all :
    (k : Text) (values elements : List Text)
    → contains k (add_all values elements) ≡ (contains k values || contains k elements)
unfolding add_all contains
contains-add_all k values [] = ground arith
contains-add_all k values (e ∷ rest) =
    ground (arith, contains-add_all k (add_new e values) rest, contains-add_new e k values)

abbrev pub IsCookieText : Text → Type 0
IsCookieText t = (contains b',' t ≡ false) × (is_empty t ≡ false)

no_commas : (ps : List Text) → All IsCookieText ps → All (λ q. contains b',' q ≡ false) ps
no_commas [] h = tt
no_commas (p ∷ ps) ((free, _), h) = (free, no_commas ps h)

is_empty-join_on :
    (p : Text) (ps : List Text) → is_empty p ≡ false → is_empty (join_on b',' (p ∷ ps)) ≡ false
unfolding join_on
is_empty-join_on [] ps h = absurd (ground arith)
is_empty-join_on (c ∷ p) [] h = refl
is_empty-join_on (c ∷ p) (q ∷ ps) h = refl

nothing_before : (k : Text) (l : List Text) → (contains k [] || contains k l) ≡ contains k l
unfolding contains
nothing_before k l = refl

members_nothing :
    (fresh : State) (k : Text) → contains k (parse (join_on b',' []) fresh).values ≡ contains k []
unfolding parse join_on
members_nothing fresh k = refl

members :
    (values : List Text) (fresh : State)
    → fresh.values ≡ []
    → All IsCookieText values
    → (k : Text) → contains k (parse (join_on b',' values) fresh).values ≡ contains k values
unfolding parse
members [] fresh start texts k = members_nothing fresh k
members (p ∷ ps) fresh start texts k =
    rw
      (
        is_empty-join_on p ps texts.0.1,
        split_on-join_on b',' p ps (no_commas (p ∷ ps) texts),
        start,
      )
      (contains-add_all k [] (p ∷ ps) ∙ nothing_before k (p ∷ ps))

-- Parsing the cookie of a set into an empty one gives a set with exactly the same elements, if no
-- element is empty or holds a comma.
pub members_parse-save :
    (s fresh : State)
    → fresh.values ≡ []
    → All IsCookieText s.values
    → (k : Text) → contains k (parse (save s) fresh).values ≡ contains k s.values
unfolding save
members_parse-save s fresh start texts k = members s.values fresh start texts k
