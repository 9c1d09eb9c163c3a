-- ===== src/Botdetection/Headers.antt =====
-- botdetection/http_accept.py, http_accept_encoding.py, http_accept_language.py,
-- http_connection.py and http_user_agent.py: filters on one header each.
pub mod SecFetch
pub mod Laws
use opencode_optimised_tooli.Prelude.{
  Bool, List, Option, String, Text, [], any, codes, contains, false, if◌then◌else◌, is_empty, map,
  none, not, some, split_on, strip, true, ℕ, ◌&&◌, ◌++◌, ◌==◌, ◌||◌, ◌∷◌, list_eq, nat_eq, pair_eq,
  string_eq,
}
use opencode_optimised_tooli.Botdetection.Net.{Request, Response, header, too_many_requests}

unfoldable pub http_accept : Request → Option Response
http_accept r = if r.accepts_html then none else some too_many_requests

-- The parts of `Accept-Encoding`, stripped.
unfoldable pub accept_list : Request → List Text
accept_list r = map strip (split_on b',' (header r "Accept-Encoding" []))

unfoldable pub http_accept_encoding : Request → Option Response
unfolding accept_list
http_accept_encoding r =
    if contains (codes "gzip") (accept_list r) || contains (codes "deflate") (accept_list r)
    then none
    else some too_many_requests

unfoldable pub http_accept_language : Request → Option Response
http_accept_language r =
    if is_empty (strip (header r "Accept-Language" [])) then some too_many_requests else none

unfoldable pub http_connection : Request → Option Response
http_connection r =
    if strip (header r "Connection" []) == codes "close" then some too_many_requests else none

-- A regular expression without repetition: the characters allowed at each place, where no
-- character stands for `.`.
abbrev pub Pattern : Type 0
Pattern = List (List ℕ)

abbrev pub literal : String → Pattern
literal s = map (λ c. c ∷ []) (codes s)

-- A match at the start of the text.
unfoldable pub match_prefix : Pattern → Text → Bool
match_prefix [] s = true
match_prefix (p ∷ ps) [] = false
match_prefix (p ∷ ps) (c ∷ s) =
    (if is_empty p then not (c == 10) else contains c p) && match_prefix ps s

-- `.*p`: a match at some place of the first line.
unfoldable pub match_line : Pattern → Text → Bool
unfolding match_prefix
match_line p [] = match_prefix p []
match_line p (c ∷ s) = match_prefix p (c ∷ s) || (not (c == 10) && match_line p s)

-- `USER_AGENT`, one entry for each alternative up to `.*PetalBot.*`
abbrev pub bot_patterns : List Pattern
bot_patterns =
    literal "unknown"
      ∷ map codes ("Cc" ∷ "Uu" ∷ "Rr" ∷ "Ll" ∷ [])
      ∷ map codes ("wW" ∷ "g" ∷ "e" ∷ "t" ∷ [])
      ∷ map literal (
          "Scrapy" ∷ "splash" ∷ "JavaFX" ∷ "FeedFetcher" ∷ "python-requests" ∷ "Go-http-client"
          ∷ "Java" ∷ "Jakarta" ∷ "okhttp" ∷ "HttpClient" ∷ "Jersey" ∷ "Python" ∷ "libwww-perl"
          ∷ "Ruby" ∷ "SynHttpClient" ∷ "UniversalFeedParser" ∷ "Googlebot" ∷ "GoogleImageProxy"
          ∷ "bingbot" ∷ "Baiduspider" ∷ "yacybot" ∷ "YandexMobileBot" ∷ "YandexBot" ∷ "Yahoo! Slurp"
          ∷ "MJ12bot" ∷ "AhrefsBot" ∷ "msnbot" ∷ "MJ12bot" ∷ "SeznamBot" ∷ "linkdexbot" ∷ "Netvibes"
          ∷ "SMTBot" ∷ "zgrab" ∷ "James BOT" ∷ "Sogou" ∷ "Abonti" ∷ "Pixray" ∷ "Spinn3r"
          ∷ "SemrushBot" ∷ "Exabot" ∷ "ZmEu" ∷ "BLEXBot" ∷ "bitlybot" ∷ "HeadlessChrome"
          ∷ "Mozilla/5.0 (compatible; Farside/0.1.0; +https://farside.link)" ∷ [])
    ++ (literal "archive" ++ [] ∷ literal "org_bot") ∷ []

unfoldable pub is_bot_agent : Text → Bool
unfolding match_prefix match_line
is_bot_agent agent =
    any (λ p. match_prefix p agent) bot_patterns || match_line (literal "PetalBot") agent

unfoldable pub http_user_agent : Request → Option Response
unfolding is_bot_agent
http_user_agent r =
    if is_bot_agent (header r "User-Agent" (codes "unknown")) then some too_many_requests else none
