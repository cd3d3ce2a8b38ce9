-- ===== src/Rotator/Trial.antt =====
-- src/libs/proxy/ProxyRotator.ts: fetched addresses get a record of their uses, and enter the active
-- list by a test request: `attachRotateEntriesToIpAddr`, `do` and `doRequest`.
pub mod Accepted
use node_proxybroker.Prelude.{
  ℕ, ◌≡◌, Bool, true, false, not, ◌&&◌, ◌||◌, Option, none, some, List, [], ◌∷◌, ◌++◌, map, Str,
  codes, show_nat, if◌then◌else◌, ltb, leb,
}
use node_proxybroker.Entities.{ProtocolType, http, https, IpRotate, new_rotate}
use node_proxybroker.Http.{Headers}
use node_proxybroker.Rotator.Pool.{ActiveAddr, activate}

-- A row of the query: an address, with its record of uses if it has one.
pub record FetchedAddr : Type 0 where
  pub id : ℕ
  pub addr : ActiveAddr
  pub rotate : Option IpRotate

unfoldable pub rotate_of : FetchedAddr → IpRotate
rotate_of a = elim a.rotate [ some r ↦ r | none ↦ new_rotate a.addr.protocol_src a.id ]

-- `attachRotateEntriesToIpAddr`: the records to save, and the addresses with them.
unfoldable pub attach_rotate : List FetchedAddr → List IpRotate × List FetchedAddr
unfolding rotate_of
attach_rotate [] = ([], [])
attach_rotate (a ∷ more) =
    let (rotates, rest) = attach_rotate more in
    (rotate_of a ∷ rotates, record a { rotate = some (rotate_of a) } ∷ rest)

abbrev scheme : ProtocolType → Str
scheme http = codes "http"
scheme https = codes "https"

-- The proxy that is tested.
unfoldable pub proxy_url_of : ActiveAddr → Str
proxy_url_of a = scheme a.protocol_src ++ (codes "://" ++ (a.ip ++ (codes ":" ++ show_nat a.port)))

-- What `doRequest` asks the HTTP client for: the proxy, and the headers for it. Over the own proxy
-- server the tested proxy is named in a header.
unfoldable pub request_over : (proxy_server_uri : Option Str) → Str → Str × Option Headers
request_over none proxy_url = (proxy_url, none)
request_over (some uri) proxy_url = (uri, some ((codes "Proxy-Select-Proxy", proxy_url) ∷ []))

-- The status of the answer; `none` is an exception of the HTTP client.
unfoldable pub succeeds : Option ℕ → Bool
succeeds none = false
succeeds (some status) = not (ltb status 200 || leb 400 status)

-- `do` of an address.
unfoldable pub try_addr : ℕ → FetchedAddr × Option ℕ → List ActiveAddr → List ActiveAddr
unfolding succeeds activate
try_addr now (a, status) l = activate (succeeds status) now a.rotate a.addr l

-- The addresses of a queue, in the order in which their tests end.
unfoldable pub try_all : ℕ → List (FetchedAddr × Option ℕ) → List ActiveAddr → List ActiveAddr
unfolding try_addr
try_all now [] l = l
try_all now (t ∷ ts) l = try_all now ts (try_addr now t l)
