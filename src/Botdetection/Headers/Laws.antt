-- ===== src/Botdetection/Headers/Laws.antt =====
-- What the header filters decide.
use opencode_optimised_tooli.Prelude.{
  All, List, String, Text, [], any, ap, arith, codes, contains, false, if◌then◌else◌, join_on,
  lookup, map, none, refl, some, split_on, split_on-join_on, strip, ◌==◌, ◌||◌, ◌∙◌, ◌∷◌, ◌≡◌,
  list_eq, nat_eq, pair_eq, string_eq,
}
use opencode_optimised_tooli.Botdetection.Net.{Request, header, too_many_requests}
use opencode_optimised_tooli.Botdetection.Headers.{accept_list, http_accept_encoding}
use opencode_optimised_tooli.Botdetection.Headers.SecFetch.{http_sec_fetch}

contains-map-any :
    (f : Text → Text) (a b : Text) (ps : List Text)
    → (contains a (map f ps) || contains b (map f ps)) ≡ any (λ q. (f q == a) || (f q == b)) ps
unfolding contains any
contains-map-any f a b [] = refl
contains-map-any f a b (p ∷ ps) = ground (arith, contains-map-any f a b ps)

header-some :
    (r : Request) (name : String) (default v : Text)
    → lookup name r.headers ≡ some v
    → header r name default ≡ v
header-some r name default v h = ground arith

accept_list-join :
    (r : Request) (p : Text) (ps : List Text)
    → lookup "Accept-Encoding" r.headers ≡ some (join_on b',' (p ∷ ps))
    → All (λ q. contains b',' q ≡ false) (p ∷ ps)
    → accept_list r ≡ map strip (p ∷ ps)
unfolding accept_list
accept_list-join r p ps h free =
    ap (map strip) (
      ap (split_on b',') (header-some r "Accept-Encoding" [] _ h) ∙ split_on-join_on b',' p ps free)

-- Of a request over TLS from a supported browser only Sec-Fetch-Mode decides: requests that agree
-- in the scheme, the user agent and Sec-Fetch-Mode get the same answer, whatever their
-- Sec-Fetch-Site and Sec-Fetch-Dest headers are.
sec_fetch_mode_decides :
    (r s : Request)
    → r.is_secure ≡ s.is_secure
    → header r "User-Agent" [] ≡ header s "User-Agent" []
    → header r "Sec-Fetch-Mode" [] ≡ header s "Sec-Fetch-Mode" []
    → http_sec_fetch r ≡ http_sec_fetch s
unfolding http_sec_fetch
sec_fetch_mode_decides r s p q m = rw (p, q, m)

-- An `Accept-Encoding` header that is a comma separated list of parts passes exactly when some part
-- is `gzip` or `deflate` after stripping, and a request without such a part gets 429.
pub accept_encoding_parts :
    (r : Request) (p : Text) (ps : List Text)
    → lookup "Accept-Encoding" r.headers ≡ some (join_on b',' (p ∷ ps))
    → All (λ q. contains b',' q ≡ false) (p ∷ ps)
    → http_accept_encoding r ≡ (
        if any (λ q. (strip q == codes "gzip") || (strip q == codes "deflate")) (p ∷ ps)
        then none
        else some too_many_requests)
unfolding http_accept_encoding
accept_encoding_parts r p ps h free = rw (
  accept_list-join r p ps h free,
  contains-map-any strip (codes "gzip") (codes "deflate") (p ∷ ps),
)
