-- ===== src/Botdetection/Headers/SecFetch.antt =====
-- botdetection/http_sec_fetch.py: the browsers that send Sec-Fetch headers, and the check.
use opencode_optimised_tooli.Prelude.{
  Bool, Option, Text, [], codes, false, if◌then◌else◌, is_digit, leb, ltb, map, none, not, some,
  to_lower, ℕ, ◌&&◌, ◌*◌, ◌+◌, ◌-◌, ◌==◌, ◌||◌, ◌∷◌, list_eq, nat_eq, pair_eq, string_eq,
}
use opencode_optimised_tooli.Botdetection.Net.{Request, Response, redirect_index, header}

-- The number that a run of digits at the start spells, after `n`, and what follows the run.
unfoldable pub read_digits : ℕ → Text → ℕ × Text
read_digits n [] = (n, [])
read_digits n (c ∷ s) =
    let rest = read_digits (n * 10 + (c - 48)) s in if is_digit c then rest else (n, c ∷ s)

-- `(\d+)` at the start
unfoldable pub digits_at : Text → Option (ℕ × Text)
unfolding read_digits
digits_at [] = none
digits_at (c ∷ s) = if is_digit c then some (read_digits 0 (c ∷ s)) else none

unfoldable pub after_prefix : Text → Text → Option Text
after_prefix [] s = some s
after_prefix (c ∷ p) [] = none
after_prefix (c ∷ p) (d ∷ s) = if c == d then after_prefix p s else none

-- `re.search(name + r'(\d+)', s)`: the leftmost match
unfoldable pub search_version : Text → Text → Option (ℕ × Text)
unfolding digits_at after_prefix
search_version name [] = none
search_version name (c ∷ s) =
    let later = search_version name s in
    elim (after_prefix name (c ∷ s)) [
      | none ↦ later
      | some rest ↦ elim (digits_at rest) [ none ↦ later | some v ↦ some v ]
    ]

-- `re.search(r'version/(\d+)\.(\d+)', s)`
unfoldable pub search_safari : Text → Option (ℕ × ℕ)
unfolding digits_at after_prefix
search_safari [] = none
search_safari (c ∷ s) =
    let later = search_safari s in
    elim (after_prefix (codes "version/") (c ∷ s)) [
      | none ↦ later
      | some rest ↦ elim (digits_at rest) [
        | none ↦ later
        | some (major, tail) ↦ elim (after_prefix (codes ".") tail) [
          | none ↦ later
          | some minor_at ↦ elim (digits_at minor_at) [
            | none ↦ later
            | some (minor, _) ↦ some (major, minor)
          ]
        ]
      ]
    ]

unfoldable pub is_browser_supported : Text → Bool
unfolding search_version search_safari
is_browser_supported user_agent =
    let agent = map to_lower user_agent in
    elim (search_version (codes "chrome/") agent) [
      | some (version, _) ↦ leb 80 version
      | none ↦ elim (search_version (codes "firefox/") agent) [
        | some (version, _) ↦ leb 90 version
        | none ↦ elim (search_safari agent) [
          | some (major, minor) ↦ ltb 16 major || ((major == 16) && leb 4 minor)
          | none ↦ false
        ]
      ]
    ]

-- The checks of Sec-Fetch-Site and Sec-Fetch-Dest build a redirect and do not return it.
unfoldable pub http_sec_fetch : Request → Option Response
http_sec_fetch r =
    if not r.is_secure
    then none
    else if is_browser_supported (header r "User-Agent" [])
    then (let mode = header r "Sec-Fetch-Mode" [] in
        if not ((mode == codes "navigate") || (mode == codes "cors"))
        then some (redirect_index 302 [])
        else let site = header r "Sec-Fetch-Site" [] in
          let unused_site =
            if not (
              (site == codes "same-origin")
              || (site == codes "same-site")
              || (site == codes "none"))
            then some (redirect_index 302 [])
            else none in
          let dest = header r "Sec-Fetch-Dest" [] in
          let unused_dest =
            if not ((dest == codes "document") || (dest == codes "empty"))
            then some (redirect_index 302 [])
            else none in
          none)
    else none
