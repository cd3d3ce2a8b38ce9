-- ===== src/Server/Target.antt =====
-- src/libs/server/ProxyServer.ts: a request, and the proxy or server that `getTarget` chooses for it.
use mathlib.Core.Option
use node_proxybroker.Prelude.{
  ℕ, Bool, Option, none, some, [], ◌∷◌, Str, codes, str_eq, parse_int, find, is_some, if◌then◌else◌,
  ◌==◌,
}
use node_proxybroker.Address.{match_address}
use node_proxybroker.Http.{Error, Headers}

pub record Request : Type 0 where
  pub url : Str
  pub http_version : Str
  pub headers : Headers
  pub remote_address : Str
  pub local_address : Str
  pub local_port : ℕ

-- `options.target`: absent, a url, or a function such as the rotator's `next`.
pub data Target : Type 0 where
  no_target : Target
  fixed : Str → Target
  chooser : Target

pub record Options : Type 0 where
  pub level : ℕ
  pub repeat_limit : ℕ
  pub to_proxy : Bool
  pub target : Target
  pub proxy_log : Bool
  pub forward_timeout : ℕ
  pub incoming_timeout : ℕ

-- What `url.parse` gives, as far as it is read.
pub record Url : Type 0 where
  pub protocol : Option Str
  pub hostname : Str
  pub port : Option Str

-- A port that is NaN is `none`.
pub record UrlBase : Type 0 where
  pub protocol : Str
  pub hostname : Str
  pub port : Option ℕ

-- What the target function answers: an exception, an `IpAddr` with its state, an url with its three
-- parts set, or something else.
pub data Choice : Type 0 where
  refuses : Error → Choice
  ip_addr : Bool → Str → ℕ → Choice
  url_base : UrlBase → Choice
  other : Choice

pub data Found : Type 0 where
  threw : Error → Found
  at_url : UrlBase → Found
  no_url : Found

abbrev pub get_header : Str → Headers → Option Str
get_header k h = Option.map (λ p. p.1) (find (λ (p : Str × Str). str_eq p.0 k) h)

abbrev pub select_proxy : Str
select_proxy = codes "proxy-select-proxy"

-- `protocol.replace(':', '')`
unfoldable pub without_colon : Str → Str
without_colon [] = []
without_colon (c ∷ s) = let rest = without_colon s in if c == b':' then s else c ∷ rest

abbrev pub null_protocol : Error
null_protocol = record { message = codes "Cannot read property 'replace' of null"; code = [] }

unfoldable pub parsed_url : Url → Found
unfolding without_colon
parsed_url u = elim u.protocol [
  | none ↦ threw null_protocol
  | some p ↦ at_url (record {
    protocol = without_colon p;
    hostname = u.hostname;
    port = Option.map parse_int u.port;
  })
]

unfoldable pub chosen_url : Choice → Found
chosen_url (refuses e) = threw e
chosen_url (ip_addr is_http ip port) = at_url (record {
  protocol = if is_http then codes "http" else codes "https";
  hostname = ip;
  port = some port;
})
chosen_url (url_base u) = at_url u
chosen_url other = no_url

unfoldable pub target_url : (Str → Url) → Target → Choice → Found
unfolding parsed_url chosen_url
target_url url_parse no_target c = no_url
target_url url_parse (fixed t) c = parsed_url (url_parse t)
target_url url_parse chooser c = chosen_url c

-- `getTarget`, with Node's `url.parse`.
unfoldable pub get_target : (Str → Url) → Options → Headers → Choice → Found
unfolding target_url parsed_url
get_target url_parse o headers c = elim (get_header select_proxy headers) [
  | none ↦ target_url url_parse o.target c
  | some v ↦
      if is_some (match_address v)
      then parsed_url (url_parse v)
      else target_url url_parse o.target c
]
