-- ===== src/Provider.antt =====
-- src/libs/provider and src/tasks/ProxyFetchTask.ts: where proxies are fetched from.
pub mod Fetched
pub mod Scan
pub mod Page
pub mod FreeLists
pub mod Worker
use node_proxybroker.Prelude.{
  ℕ, suc, ◌+◌, ◌≤◌, ◌≡◌, Bool, true, false, not, ◌&&◌, ◌||◌, Option, none, some, List, [], ◌∷◌,
  ◌++◌, map, Str, codes, str_eq, is_empty, find, filter, any, is_some, length, if◌then◌else◌, ◌==◌,
  ltb, leb,
}
use node_proxybroker.Address.{ProxyData}

pub record Variant : Type 0 where
  pub type : Str

-- `clazz` stands for the class of the provider.
pub record ProviderDef : Type 0 where
  pub name : Str
  pub url : Str
  pub type : Str
  pub clazz : ℕ

abbrev pub all_providers : Str
all_providers = codes "__all__"

-- What `addProviderClass` reads of a new instance; `variants` may be missing.
pub record Instance : Type 0 where
  pub name : Str
  pub url : Str
  pub variants : Option (List Variant)

abbrev variant_def : ℕ → Instance → Variant → ProviderDef
variant_def clazz p v = record { name = p.name; url = p.url; type = v.type; clazz = clazz }

unfoldable pub add_provider_class : ℕ → Instance → List ProviderDef → List ProviderDef
add_provider_class clazz p defs = defs ++ elim p.variants [
  | some vs ↦ map (variant_def clazz p) vs
  | none ↦ variant_def clazz p (record { type = codes "all" }) ∷ []
]

-- `get`: a query with no type asks for the type '__all__'.
unfoldable pub get : Str → Option Str → List ProviderDef → Option ProviderDef
get name type defs =
    let wanted : Str = elim type as (λ _. Str) [
      | none ↦ all_providers
      | some t ↦ if is_empty t then all_providers else t
    ] in
    find (λ (d : ProviderDef). str_eq d.name name && str_eq d.type wanted) defs

-- The test of one key of the query: a missing or empty value passes nothing.
unfoldable pub matches_key : Str → Str → Bool
matches_key value wanted =
    not (is_empty value)
    && (not (is_empty wanted) && (str_eq value wanted || str_eq wanted all_providers))

-- A key that the query does not have asks nothing.
unfoldable pub passes : Option Str → Str → Bool
unfolding matches_key
passes none value = true
passes (some wanted) value = matches_key value wanted

unfoldable pub find_all : Option Str → Option Str → List ProviderDef → List ProviderDef
unfolding passes
find_all name type defs =
    filter (λ (d : ProviderDef). passes name d.name && passes type d.type) defs

-- `_.find(this._proxyies, def)`
unfoldable pub same_proxy : ProxyData → ProxyData → Bool
same_proxy a b = str_eq a.ip b.ip && a.port == b.port

-- `AbstractProvider.push`: a proxy is kept once.
unfoldable pub push : List ProxyData → ProxyData → List ProxyData
unfolding same_proxy
push proxies d = if any (λ p. same_proxy p d) proxies then proxies else proxies ++ (d ∷ [])

unfoldable pub push_all : List ProxyData → List ProxyData → List ProxyData
unfolding push
push_all proxies [] = proxies
push_all proxies (d ∷ ds) = push_all (push proxies d) ds

-- The loop of `ProxyListenDe.get`: at most five pages, and no further than a page that adds nothing.
-- `pages` holds what the expression finds on each page.
unfoldable pub fetch_pages : ℕ → List ProxyData → List (List ProxyData) → List ProxyData × ℕ
unfolding push_all
fetch_pages round proxies [] = (proxies, round)
fetch_pages round proxies (page ∷ pages) =
    let after = push_all proxies page in
    let rest = fetch_pages (round + 1) after pages in
    if leb 5 round
    then (proxies, round)
    else if length proxies == length after
    then (after, round + 1)
    else rest

-- The filter of `ProxyFetchTask.exec`, with `DomainUtils.IP_REGEX`.
unfoldable pub is_valid : (Str → Bool) → ProxyData → Bool
is_valid ip_regex x =
    not (is_empty x.ip)
    && (not (x.port == 0) && (ip_regex x.ip && (ltb 0 x.port && leb x.port 65536)))

abbrev pub is_selected : List Str → ProviderDef → Bool
is_selected wanted d = any (λ v. str_eq v all_providers) wanted || any (λ v. str_eq v d.type) wanted

-- The loop of `exec`: `fetch` is what the worker of a definition brings.
unfoldable pub fetch_defs :
    (Str → Bool) → (ProviderDef → List ProxyData) → List Str → List ProviderDef → List ProxyData
unfolding is_valid
fetch_defs ip_regex fetch wanted [] = []
fetch_defs ip_regex fetch wanted (d ∷ ds) =
    let rest = fetch_defs ip_regex fetch wanted ds in
    if is_selected wanted d then filter (is_valid ip_regex) (fetch d) ++ rest else rest

-- `exec`, for the definitions of one provider.
unfoldable pub fetch_proxies :
    (Str → Bool)
    → (ProviderDef → List ProxyData)
    → Str
    → List Str
    → List ProviderDef
    → List ProxyData
unfolding fetch_defs find_all
fetch_proxies ip_regex fetch provider wanted defs =
    fetch_defs ip_regex fetch wanted (find_all (some provider) none defs)
