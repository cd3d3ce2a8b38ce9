-- ===== src/Rotator/Selector/Ignored.antt =====
-- `ProxyRotator.parseProxyHeader`: which headers are read.
use node_proxybroker.Prelude.{
  ◌≡◌, ap, refl, Bool, true, false, not, ◌&&◌, ◌||◌, List, [], ◌∷◌, Str, codes, str_eq,
  strip_prefix, any, all, is_some, arith, ◌==◌,
}
use node_proxybroker.Rotator.Selector.{
  Fields, Value, select_of, to_selector, parse_proxy_header, parse_headers, parse_header,
  select_prefix,
}

-- The key has no backslash and is neither `ssl` nor `targetSSL`.
abbrev pub is_plain_key : Str → Bool
is_plain_key k =
    all (λ c. not (c == 92)) k && not (str_eq k (codes "ssl") || str_eq k (codes "targetSSL"))

strip_prefix-foreign :
    (p k : Str)
    → any (λ c. c == 92) p ≡ true
    → all (λ c. not (c == 92)) k ≡ true
    → is_some (strip_prefix p k) ≡ false
unfolding strip_prefix
strip_prefix-foreign [] k h e = ground arith
strip_prefix-foreign (x ∷ p) [] h e = refl
strip_prefix-foreign (x ∷ p) (c ∷ k) h e = ground (arith, strip_prefix-foreign p k)

no_prefix :
    (k : Str) → all (λ c. not (c == 92)) k ≡ true → is_some (strip_prefix select_prefix k) ≡ false
unfolding strip_prefix
no_prefix k e = strip_prefix-foreign select_prefix k refl e

parse_headers-ignored :
    (fs : Fields) (hs : List (Str × Value))
    → all (λ h. is_plain_key h.0) hs ≡ true
    → parse_headers fs hs ≡ fs
unfolding parse_headers parse_header
parse_headers-ignored fs [] e = refl
parse_headers-ignored fs ((k, v) ∷ hs) e = ground (arith, no_prefix k, parse_headers-ignored fs hs)

-- Headers whose keys have no backslash, such as `proxy-select-level`, ask for nothing, but for `ssl`
-- and `targetSSL`: the request gets the selector of a request without headers.
pub select_of-ignored :
    (hs : List (Str × Value)) → all (λ h. is_plain_key h.0) hs ≡ true → select_of hs ≡ select_of []
unfolding select_of parse_proxy_header
select_of-ignored hs e = ap to_selector (parse_headers-ignored [] hs e)
