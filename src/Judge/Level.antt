-- ===== src/Judge/Level.antt =====
-- src/libs/judge/LevelDetection.ts: how anonymous a proxy is, by the headers that arrive.
-- A pattern is the list of its alternatives `escapeRegExp(host) + (\s|$|:)`; `match_escaped host s`
-- is what `Utils.escapeRegExp(host)` leaves of `s` when it matches there, without regard to case.
pub mod Detect
use node_proxybroker.Prelude.{
  ℕ, suc, ◌+◌, ◌-◌, ◌<◌, ◌≡◌, Bool, true, false, not, ◌&&◌, ◌||◌, Option, none, some, List, [], ◌∷◌,
  ◌++◌, map, Str, codes, str_eq, is_space, to_lower, length, drop, any, filter, is_some,
  if◌then◌else◌, ◌==◌, ltb, ℤ, pos, negsuc,
}

http_forward_header : List Str
http_forward_header =
    codes "forwarded-for"
    ∷ codes "http-x-forwarded-for"
    ∷ codes "http-client-ip"
    ∷ codes "x-client-ip"
    ∷ codes "x-http-forwarded-for"
    ∷ codes "forwarded"
    ∷ codes "http-forwarded"
    ∷ codes "accproxyws"
    ∷ codes "cdn-src-ip"
    ∷ codes "client-ip"
    ∷ codes "cuda_cliip"
    ∷ codes "forwarded"
    ∷ codes "forwarded-for"
    ∷ codes "remote-host"
    ∷ codes "x-client-ip"
    ∷ codes "x-coming-from"
    ∷ codes "x-forwarded"
    ∷ codes "x-forwarded-for"
    ∷ codes "x-forwarded-for-ip"
    ∷ codes "x-forwarded-host"
    ∷ codes "x-forwarded-server"
    ∷ codes "x-host"
    ∷ codes "x-network-info"
    ∷ codes "x-nokia-remotesocket"
    ∷ codes "x-proxyuser-ip"
    ∷ codes "x-qihoo-ip"
    ∷ codes "x-real-ip"
    ∷ codes "xcnool_forwarded_for"
    ∷ codes "xcnool_remote_addr"
    ∷ []

http_via_header : List Str
http_via_header =
    codes "http-via"
    ∷ codes "proxy-connection"
    ∷ codes "mt-proxy-id"
    ∷ codes "proxy-agent"
    ∷ codes "surrogate-capability"
    ∷ codes "via"
    ∷ codes "x-authenticated-user"
    ∷ codes "x-bluecoat-via"
    ∷ codes "x-cache"
    ∷ codes "x-cid-hash"
    ∷ codes "x-content-opt"
    ∷ codes "x-d-forwarder"
    ∷ codes "x-fikker"
    ∷ codes "x-forwarded-proto"
    ∷ codes "x-imforwards"
    ∷ codes "x-loop-control"
    ∷ codes "x-mato-param"
    ∷ codes "x-nai-id"
    ∷ codes "x-nokia-gateway-id"
    ∷ codes "x-nokia-localsocket"
    ∷ codes "x-proxy-id"
    ∷ codes "x-roaming"
    ∷ codes "x-turbopage"
    ∷ codes "x-varnish"
    ∷ codes "x-via"
    ∷ codes "x-wap-profile"
    ∷ codes "x-wrproxy-id"
    ∷ codes "x-xff-0"
    ∷ codes "xroxy-connection"
    ∷ []

pub is_forward_header : Str → Bool
unfolding http_forward_header
is_forward_header key = any (str_eq (to_lower key)) http_forward_header

pub is_via_header : Str → Bool
unfolding http_via_header
is_via_header key = any (str_eq (to_lower key)) http_via_header

pub record IHeader : Type 0 where
  pub key : Str
  pub value : Str
  pub has_local_ip : Bool
  pub has_proxy_ip : Bool
  pub is_forward : Bool
  pub is_via : Bool

pub record Stats : Type 0 where
  pub has_local_ip : ℕ
  pub has_proxy_ip : ℕ
  pub is_via : ℕ
  pub is_forward : ℕ

-- A global regular expression keeps the place where its last match ended: `lastIndex`.
pub record RegExp : Type 0 where
  pub hosts : List Str
  pub last_index : ℕ

pub record LevelDetection : Type 0 where
  pub local_regex : RegExp
  pub proxy_regex : RegExp
  pub stats : Stats
  pub recv_headers : List IHeader
  pub level : ℤ

-- `createAddrRegex`: the address, what it resolves to if that differs, and the names of that.
unfoldable pub create_addr_regex : (Str → Option Str) → (Str → List Str) → Str → List Str
create_addr_regex domain_lookup reverse ip = ip ∷ elim (domain_lookup ip) [
  | none ↦ []
  | some addr ↦ (if str_eq addr ip then [] else addr ∷ []) ++ reverse addr
]

abbrev pub no_stats : Stats
no_stats = record { has_local_ip = 0; has_proxy_ip = 0; is_via = 0; is_forward = 0 }

-- The constructor and `prepare`.
unfoldable pub new_detection :
    (Str → Option Str) → (Str → List Str) → (proxy_ip local_ip : Str) → LevelDetection
unfolding create_addr_regex
new_detection domain_lookup reverse proxy_ip local_ip = record {
  local_regex = record { hosts = create_addr_regex domain_lookup reverse local_ip; last_index = 0 };
  proxy_regex = record { hosts = create_addr_regex domain_lookup reverse proxy_ip; last_index = 0 };
  stats = no_stats;
  recv_headers = [];
  level = negsuc 0;
}

unfoldable pub new_header : Str × Str → IHeader
new_header (k, v) = record {
  key = k;
  value = v;
  has_local_ip = false;
  has_proxy_ip = false;
  is_forward = false;
  is_via = false;
}

unfoldable pub is_ignored : Str × Str → Bool
is_ignored (k, _) = str_eq k (codes "host")

-- `addRecvHeader`
unfoldable pub add_recv_header : LevelDetection → List (Str × Str) → LevelDetection
unfolding new_header is_ignored
add_recv_header d headers = record d {
  recv_headers = d.recv_headers ++ map new_header (filter (λ h. not (is_ignored h)) headers);
}

abbrev count : Bool → ℕ → ℕ
count true n = n + 1
count false n = n

-- The sub-pattern (\s|$|:).
unfoldable pub boundary : Str → Option Str
boundary [] = some []
boundary (c ∷ s) = if is_space c || c == b':' then some s else none

module _ (match_escaped : Str → Str → Option Str) where
  unfoldable pub match_host : Str → Str → Option Str
  unfolding boundary
  match_host host s = elim (match_escaped host s) [ none ↦ none | some r ↦ boundary r ]

  -- The alternatives in their order, at the start of a text.
  unfoldable pub match_here : List Str → Str → Option Str
  unfolding match_host
  match_here [] s = none
  match_here (h ∷ hs) s = elim (match_host h s) [ none ↦ match_here hs s | some r ↦ some r ]

  -- The first match in a text: what follows it.
  unfoldable pub search_host : List Str → Str → Option Str
  unfolding match_here
  search_host hs [] = match_here hs []
  search_host hs (c ∷ s) = elim (match_here hs (c ∷ s)) [
    | none ↦ search_host hs s
    | some r ↦ some r
  ]

  -- `test` of a global expression: the search goes on from `lastIndex`, which then is the end of
  -- the match, or 0.
  unfoldable pub test : RegExp → Str → Bool × RegExp
  unfolding search_host
  test x s =
      if ltb (length s) x.last_index
      then (false, record x { last_index = 0 })
      else elim (search_host x.hosts (drop x.last_index s)) [
        | none ↦ (false, record x { last_index = 0 })
        | some r ↦ (true, record x { last_index = length s - length r })
      ]

  -- The body of the loop in `detect`.
  unfoldable pub detect_header : LevelDetection → IHeader → LevelDetection × IHeader
  unfolding test
  detect_header d h =
      let (has_local, local_regex) = test d.local_regex h.value in
      let (has_proxy, proxy_regex) = test d.proxy_regex h.value in
      let h' = record h {
        has_local_ip = h.has_local_ip || has_local;
        has_proxy_ip = h.has_proxy_ip || has_proxy;
        is_forward = h.is_forward || is_forward_header h.key;
        is_via = h.is_via || is_via_header h.key;
      } in
      let t = d.stats in
      (
        record d {
          local_regex = local_regex;
          proxy_regex = proxy_regex;
          stats = record {
            has_local_ip = count h'.has_local_ip t.has_local_ip;
            has_proxy_ip = count h'.has_proxy_ip t.has_proxy_ip;
            is_via = count h'.is_via t.is_via;
            is_forward = count h'.is_forward t.is_forward;
          };
        },
        h',
      )

  unfoldable pub detect_headers : LevelDetection → List IHeader → LevelDetection × List IHeader
  unfolding detect_header
  detect_headers d [] = (d, [])
  detect_headers d (h ∷ hs) =
      let (d', h') = detect_header d h in let (e, rest) = detect_headers d' hs in (e, h' ∷ rest)

  -- Elite 1, anonymous 2, transparent 3.
  unfoldable pub level_of : Stats → ℕ
  level_of t =
      if not (ltb 0 t.has_local_ip)
        && (not (ltb 0 t.has_proxy_ip) && (not (ltb 0 t.is_via) && not (ltb 0 t.is_forward)))
      then 1
      else if not (ltb 0 t.has_local_ip)
      then 2
      else 3

  unfoldable pub detect : LevelDetection → LevelDetection
  unfolding detect_headers level_of
  detect d =
      let (e, headers) = detect_headers d d.recv_headers in
      record e { recv_headers = headers; level = pos (level_of e.stats) }
