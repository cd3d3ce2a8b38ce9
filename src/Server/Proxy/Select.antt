-- ===== src/Server/Proxy/Select.antt =====
-- src/libs/server/ProxyServer.ts: the headers that steer the proxy, in `onProxyRequest`.
use node_proxybroker.Prelude.{
  and_true, ◌≡◌, refl, Bool, not, none, List, [], ◌∷◌, Str, codes, str_eq, find, filter, all,
  all-filter, all-append, arith, to_lower, ◌++◌, map, join, crlf, ◌⊎◌, true, false,
}
use node_proxybroker.Http.{header_line}
use node_proxybroker.Server.Socket.{SocketHandle, Header, remove_header, set_header}
use node_proxybroker.Server.Target.{Options, Request}
use node_proxybroker.Server.Handlers.{
  on_proxy_request, has_fallback_header, via_text, without_select,
}

-- The headers that the server reads for itself, in the order it removes them.
abbrev pub select_headers : List Str
select_headers =
    codes "Proxy-Select-Level"
    ∷ codes "Proxy-Select-Speed-Limit"
    ∷ codes "Proxy-Select-SSL"
    ∷ codes "Proxy-Select-Fallback"
    ∷ codes "Proxy-Select-Country"
    ∷ codes "Proxy-Select-Proxy"
    ∷ []

-- No header of the handle has the key `k`.
abbrev pub lacks : Str → SocketHandle → Bool
lacks k s = all (λ h. not (str_eq h.key k)) s.headers_list

filter-all {ℓ} :
    {A : Type ℓ} (p q : A → Bool) (l : List A) → all q l ≡ true → all q (filter p l) ≡ true
filter-all p q [] e = refl
filter-all p q (x ∷ l) e = ground (arith, filter-all p q l)

remove_header-other :
    (k j : Str) (s : SocketHandle) → lacks k s ≡ true → lacks k (remove_header s j) ≡ true
unfolding remove_header
remove_header-other k j s e = filter-all _ _ s.headers_list e

remove_header-lacks : (j : Str) (s : SocketHandle) → lacks (to_lower j) (remove_header s j) ≡ true
unfolding remove_header
remove_header-lacks j s = all-filter _ s.headers_list

set_header-other :
    (k j v : Str) (s : SocketHandle)
    → str_eq (to_lower j) k ≡ false
    → lacks k s ≡ true
    → lacks k (set_header s j v) ≡ true
unfolding set_header
set_header-other k j v s ne e = ground (
  arith,
  ne,
  remove_header-other k j s e,
  all-append (λ (h : Header). not (str_eq h.key k)) (remove_header s j).headers_list
      (record { key = to_lower j; org_key = j; value = v } ∷ []),
)

abbrev remove_all : List Str → SocketHandle → SocketHandle
remove_all [] s = s
remove_all (j ∷ js) s = remove_all js (remove_header s j)

remove_all-other :
    (k : Str) (js : List Str) (s : SocketHandle)
    → lacks k s ≡ true
    → lacks k (remove_all js s) ≡ true
remove_all-other k [] s e = e
remove_all-other k (j ∷ js) s e = remove_all-other k js _ (remove_header-other k j s e)

-- None of these keys is left.
abbrev pub lacks_all : List Str → SocketHandle → Bool
lacks_all js s = all (λ j. lacks (to_lower j) s) js

remove_all-lacks : (js : List Str) (s : SocketHandle) → lacks_all js (remove_all js s) ≡ true
remove_all-lacks [] s = refl
remove_all-lacks (j ∷ js) s =
    and_true (remove_all-other (to_lower j) js _ (remove_header-lacks j s))
      (remove_all-lacks js (remove_header s j))

set_header-lacks :
    (js : List Str) (j v : Str) (s : SocketHandle)
    → all (λ k. not (str_eq (to_lower j) (to_lower k))) js ≡ true
    → lacks_all js s ≡ true
    → lacks_all js (set_header s j v) ≡ true
set_header-lacks [] j v s ne e = refl
set_header-lacks (k ∷ js) j v s ne e =
    ground (arith, set_header-other (to_lower k) j v s, set_header-lacks js j v s)

-- The handle has none of the six `Proxy-Select` headers, at any level.
pub on_proxy_request-lacks_all :
    (o : Options) (r : Request) (s : SocketHandle)
    → lacks_all select_headers (on_proxy_request o r s) ≡ true
unfolding on_proxy_request to_lower str_eq
on_proxy_request-lacks_all o r s =
    let bare : lacks_all select_headers (without_select s) ≡ true =
      remove_all-lacks select_headers s in
    ground (
      arith,
      bare,
      set_header-lacks select_headers (codes "Via") (via_text r) (without_select s) refl bare,
      set_header-lacks select_headers (codes "Via") (via_text r)
          (set_header (without_select s) (codes "X-Forwarded-For") r.remote_address) refl
          (set_header-lacks select_headers (codes "X-Forwarded-For") r.remote_address
            (without_select s) refl bare),
    )

-- A list of headers that has none of the six.
abbrev pub are_bare : List Header → Bool
are_bare hs = all (λ j. all (λ h. not (str_eq h.key (to_lower j))) hs) select_headers

-- A message with a first line, these headers and a body.
abbrev pub message_of : Str → List Header → Str → Str
message_of q hs body =
    q
    ++ (crlf
        ++ (join crlf (map (λ h. header_line (h.org_key, h.value)) hs) ++ (crlf ++ (crlf ++ body))))

-- No head was read from the data of the handle, or it is that of a TLS connection.
abbrev pub IsRaw : SocketHandle → Type 0
IsRaw s = (s.query ≡ none) ⊎ (s.ssl_detect ≡ true)

lacks-find :
    (k : Str) (l : List Header)
    → all (λ h. not (str_eq h.key k)) l ≡ true
    → find (λ h. str_eq h.key k) l ≡ none
lacks-find k [] e = refl
lacks-find k (h ∷ l) e = ground (arith, lacks-find k l)

pub on_proxy_request-no_fallback :
    (o : Options) (r : Request) (s : SocketHandle)
    → has_fallback_header (on_proxy_request o r s) ≡ false
unfolding has_fallback_header to_lower
on_proxy_request-no_fallback o r s = ground (
  arith,
  lacks-find (codes "proxy-select-fallback") (on_proxy_request o r s).headers_list,
  on_proxy_request-lacks_all o r s,
)
