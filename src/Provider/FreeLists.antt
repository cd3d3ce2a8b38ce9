-- ===== src/Provider/FreeLists.antt =====
-- src/providers/proxy/FreeProxyListsCom.ts: a page names the lists of a variant, and each list is
-- loaded and scanned.
pub mod Loaded
use node_proxybroker.Prelude.{
  ◌||◌, Option, none, some, List, [], ◌∷◌, ◌++◌, Str, codes, is_digit, strip_prefix, parse_int,
  if◌then◌else◌, ◌==◌,
}
use node_proxybroker.Address.{ProxyData}
use node_proxybroker.Provider.{push_all}
use node_proxybroker.Provider.Page.{some_of, number_dot}
use node_proxybroker.Provider.Scan.{scan}

pub data ProxyType : Type 0 where
  http_anon https_anon : ProxyType

-- A variant; its pattern is that of the numbered links below `path_load`.
pub record ListVariant : Type 0 where
  pub type : Str
  pub path : Str
  pub path_load : Str
  pub flags : ProxyType

infixl 5 ◌>>=◌
abbrev ◌>>=◌ {ℓ κ} : {A : Type ℓ} {B : Type κ} → Option A → (A → Option B) → Option B
none >>= f = none
some a >>= f = f a

-- (\"|\')
unfoldable pub quote : Str → Option Str
quote [] = none
quote (c ∷ s) = if c == 34 || c == 39 then some s else none

-- `pattern` at the start of a text: the number of the list.
unfoldable pub id_at : Str → Str → Option (Str × Str)
unfolding quote some_of strip_prefix
id_at path_load s = do
  a ← strip_prefix (codes "href=") s
  b ← quote a
  c ← strip_prefix path_load b
  d ← strip_prefix (codes "/d") c
  n ← some_of is_digit d
  e ← strip_prefix (codes ".html") n.1
  r ← quote e
  some (n.0, r)

-- `ip_regex` at the start of a text.
unfoldable pub entry_at : Str → Option (ProxyData × Str)
unfolding number_dot some_of strip_prefix
entry_at s = do
  r ← strip_prefix (codes "&gt;") s
  a ← number_dot r
  b ← number_dot a.1
  c ← number_dot b.1
  d ← some_of is_digit c.1
  g ← strip_prefix (codes "&lt;/td&gt;&lt;td&gt;") d.1
  p ← some_of is_digit g
  t ← strip_prefix (codes "&lt;") p.1
  some (record { ip = a.0 ++ (b.0 ++ (c.0 ++ d.0)); port = parse_int p.0 }, t)

unfoldable pub matched_ids : ListVariant → Str → List Str
unfolding scan id_at
matched_ids v html = scan (id_at v.path_load) 0 html

unfoldable pub list_url : Str → ListVariant → Str → Str
list_url url v id =
    url ++ (codes "/load_" ++ (v.path_load ++ (codes "_d" ++ (id ++ codes ".html"))))

-- The loop over the numbers: the lists are read one after the other. `fetch` is the text that an
-- address of the web has.
unfoldable pub read_lists :
    Str → ListVariant → (Str → Str) → List Str → List ProxyData → List ProxyData
unfolding push_all scan entry_at list_url
read_lists url v fetch [] proxies = proxies
read_lists url v fetch (id ∷ ids) proxies =
    let html = fetch (list_url url v id) in
    read_lists url v fetch ids (push_all proxies (scan entry_at 0 html))

-- `get` of a variant.
unfoldable pub get_lists : Str → ListVariant → (Str → Str) → List ProxyData
unfolding matched_ids read_lists
get_lists url v fetch =
    let html = fetch (url ++ (codes "/" ++ v.path)) in
    read_lists url v fetch (matched_ids v html) []

abbrev list_variant : Str → Str → Str → ProxyType → ListVariant
list_variant t p l f = record { type = t; path = p; path_load = l; flags = f }

abbrev pub list_variants : List ListVariant
list_variants =
    list_variant (codes "anonym") (codes "anonymous.html") (codes "anon") http_anon
    ∷ list_variant (codes "transparent") (codes "non-anonymous.html") (codes "nonanon") http_anon
    ∷ list_variant (codes "elite") (codes "elite.html") (codes "elite") http_anon
    ∷ list_variant (codes "https") (codes "https.html") (codes "https") https_anon
    ∷ list_variant (codes "standard") (codes "standard.html") (codes "standard") https_anon
    ∷ list_variant (codes "us") (codes "us.html") (codes "us") http_anon
    ∷ list_variant (codes "uk") (codes "uk.html") (codes "uk") http_anon
    ∷ list_variant (codes "ca") (codes "ca.html") (codes "ca") http_anon
    ∷ list_variant (codes "fr") (codes "fr.html") (codes "fr") http_anon
    ∷ []
