-- ===== src/Broker/Asked.antt =====
-- What the server asks the rotator for: a proxy for the target protocol of the request.
use node_proxybroker.Prelude.{
  ◌≡◌, refl, ap, ◌∙◌, Bool, some, List, [], ◌∷◌, ◌++◌, Str, codes, str_eq, str_eq_refl,
  strip_prefix, arith,
}
use node_proxybroker.Rotator.Selector.{
  Fields, Value, flag, to_selector, parse_proxy_header, parse_headers, parse_header, assign, field,
  truth_of,
}
use node_proxybroker.Broker.{next_selector}

parse_headers-append :
    (fs : Fields) (hs ks : List (Str × Value))
    → parse_headers fs (hs ++ ks) ≡ parse_headers (parse_headers fs hs) ks
unfolding parse_headers
parse_headers-append fs [] ks = refl
parse_headers-append fs (h ∷ hs) ks = parse_headers-append (parse_header fs h) hs ks

field-assign : (k : Str) (v : Value) (fs : Fields) → field k (assign k v fs) ≡ some v
unfolding field assign
field-assign k v [] = ground (arith, str_eq_refl k)
field-assign k v ((j, w) ∷ fs) = ground (arith, field-assign k v fs, str_eq_refl k)

parse_header-target_ssl :
    (fs : Fields) (ssl : Bool)
    → parse_header fs (codes "targetSSL", flag ssl) ≡ assign (codes "targetSSL") (flag ssl) fs
unfolding parse_header strip_prefix str_eq
parse_header-target_ssl fs ssl = refl

pub next_selector-target_ssl :
    (ssl : Bool) (headers : List (Str × Value)) → (next_selector ssl headers).target_ssl ≡ ssl
unfolding next_selector to_selector parse_proxy_header parse_headers
next_selector-target_ssl ssl headers =
    let key = codes "targetSSL" in
    let fs = parse_headers [] headers in
    ap (λ f. (to_selector f).target_ssl) (parse_headers-append [] headers ((key, flag ssl) ∷ []))
    ∙ ap (λ f. (to_selector f).target_ssl) (parse_header-target_ssl fs ssl)
    ∙ ap truth_of (field-assign key (flag ssl) fs)
