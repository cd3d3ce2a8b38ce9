-- ===== src/Provider/Fetched.antt =====
-- src/libs/provider, src/providers/proxy/ProxyListenDe.ts and src/tasks/ProxyFetchTask.ts: the
-- proxies that are brought.
use node_proxybroker.Prelude.{
  any-append, str_sym, ℕ, ◌+◌, ◌≤◌, ◌≡◌, refl, Bool, true, false, not, ◌&&◌, none, some, List, [],
  ◌∷◌, ◌++◌, map, Str, str_eq, is_empty, any, all, all-append, all-filter, filter, find, length,
  arith, Bool-cases, inl, inr, ◌==◌, leb, ltb,
}
use node_proxybroker.Address.{ProxyData}
use node_proxybroker.Provider.{
  Variant, ProviderDef, Instance, all_providers, add_provider_class, get, same_proxy, push,
  push_all, fetch_pages, is_valid, fetch_defs, fetch_proxies, find_all, variant_def,
}

-- No proxy is listed twice.
abbrev pub Distinct : List ProxyData → Type 0
Distinct [] = Unit
Distinct (p ∷ ps) = (any (λ q. same_proxy q p) ps ≡ false) × Distinct ps

same_sym : (a b : ProxyData) → same_proxy a b ≡ true → same_proxy b a ≡ true
unfolding same_proxy
same_sym a b e = ground (arith, str_sym a.ip b.ip)

Distinct-append :
    (ps : List ProxyData) (d : ProxyData)
    → any (λ p. same_proxy p d) ps ≡ false
    → Distinct ps
    → Distinct (ps ++ (d ∷ []))
Distinct-append [] d e h = (refl, tt)
Distinct-append (p ∷ ps) d e h = (
  ground (arith, h.0, same_sym d p, any-append (λ q. same_proxy q p) ps (d ∷ [])),
  Distinct-append ps d (ground arith) h.1,
)

push-Distinct : (ps : List ProxyData) (d : ProxyData) → Distinct ps → Distinct (push ps d)
unfolding push
push-Distinct ps d h = elim (Bool-cases (any (λ p. same_proxy p d) ps)) [
  | inl there ↦ rw (there, push) h
  | inr new ↦ rw (new, push) (Distinct-append ps d new h)
]

pub push_all-Distinct : (ds ps : List ProxyData) → Distinct ps → Distinct (push_all ps ds)
unfolding push_all
push_all-Distinct [] ps h = h
push_all-Distinct (d ∷ ds) ps h = push_all-Distinct ds (push ps d) (push-Distinct ps d h)

-- However many pages there are and whatever is on them, `get` of the provider reads at most five and
-- keeps no proxy twice.
pub fetch_pages-Distinct :
    (pages : List (List ProxyData)) (round : ℕ) (ps : List ProxyData)
    → Distinct ps
    → round ≤ 5
    → Distinct (fetch_pages round ps pages).0 × ((fetch_pages round ps pages).1 ≤ 5)
unfolding fetch_pages
fetch_pages-Distinct [] round ps h le = (h, le)
fetch_pages-Distinct (page ∷ pages) round ps h le =
    let after = push_all ps page in
    let k : Distinct after = push_all-Distinct page ps h in
    elim (Bool-cases (leb 5 round)) [
      | inl last ↦ rw (last, fetch_pages) (h, le)
      | inr early ↦ elim (Bool-cases (length ps == length after)) [
        | inl same ↦ rw (early, same, fetch_pages) (k, ground (arith, early))
        | inr more ↦
            rw (early, more, fetch_pages)
              (fetch_pages-Distinct pages (round + 1) after k (ground (arith, early)))
      ]
    ]

valid-all :
    (ip_regex : Str → Bool) (l : List ProxyData)
    → all (is_valid ip_regex) l ≡ true
    → all (λ x. ip_regex x.ip && (not (is_empty x.ip) && (ltb 0 x.port && leb x.port 65536))) l
      ≡ true
unfolding is_valid
valid-all ip_regex [] e = refl
valid-all ip_regex (x ∷ l) e = ground (arith, valid-all ip_regex l)

fetch_defs-is_valid :
    (ip_regex : Str → Bool) (fetch : ProviderDef → List ProxyData) (wanted : List Str)
    (defs : List ProviderDef)
    → all (is_valid ip_regex) (fetch_defs ip_regex fetch wanted defs) ≡ true
unfolding fetch_defs
fetch_defs-is_valid ip_regex fetch wanted [] = refl
fetch_defs-is_valid ip_regex fetch wanted (d ∷ ds) = ground (
  arith,
  fetch_defs-is_valid ip_regex fetch wanted ds,
  all-filter (is_valid ip_regex) (fetch d),
  all-append (is_valid ip_regex) (filter (is_valid ip_regex) (fetch d))
      (fetch_defs ip_regex fetch wanted ds),
)

-- What a fetch brings is valid, whatever the workers found and whichever types are asked for: the ip
-- is there and passes the test, and the port is from 1 to 65536.
pub fetch_proxies-is_valid :
    (ip_regex : Str → Bool) (fetch : ProviderDef → List ProxyData) (provider : Str)
    (wanted : List Str) (defs : List ProviderDef)
    → all
        (λ x. ip_regex x.ip && (not (is_empty x.ip) && (ltb 0 x.port && leb x.port 65536)))
        (fetch_proxies ip_regex fetch provider wanted defs)
      ≡ true
unfolding fetch_proxies
fetch_proxies-is_valid ip_regex fetch provider wanted defs =
    valid-all ip_regex _
      (fetch_defs-is_valid ip_regex fetch wanted (find_all (some provider) none defs))

find-no_type :
    (name : Str) (clazz : ℕ) (p : Instance) (vs : List Variant)
    → any (λ (v : Variant). str_eq v.type all_providers) vs ≡ false
    → find
        (λ (d : ProviderDef). str_eq d.name name && str_eq d.type all_providers)
        (map (variant_def clazz p) vs)
      ≡ none
find-no_type name clazz p [] n = refl
find-no_type name clazz p (v ∷ vs) n = ground (arith, find-no_type name clazz p vs)

-- A definition that `addProviderClass` makes of an instance whose variants all have another type than
-- '__all__' is never found by `get` without a type.
pub get-no_type :
    (name : Str) (clazz : ℕ) (p : Instance) (vs : List Variant)
    → p.variants ≡ some vs
    → any (λ (v : Variant). str_eq v.type all_providers) vs ≡ false
    → get name none (add_provider_class clazz p []) ≡ none
unfolding get add_provider_class
get-no_type name clazz p vs e n = rw e (find-no_type name clazz p vs n)
