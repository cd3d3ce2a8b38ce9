-- ===== src/Agent/Message.antt =====
-- https_proxy_agent.ts: the CONNECT request that is sent to the proxy. A header object is an
-- association list in the order of its keys.
use node_proxybroker.Prelude.{
  ℕ, ◌+◌, ◌*◌, ◌/◌, ◌%◌, ◌≡◌, refl, ap, ◌∙◌, Bool, not, ◌&&◌, ◌||◌, Option, none, some, [], ◌∷◌,
  ◌++◌, Str, codes, str_eq, str_eq_iff, show_nat, crlf, drop, if◌then◌else◌, ◌==◌, arith,
}
use node_proxybroker.Http.{Headers, header_line}
use node_proxybroker.Server.Socket.{assign}

-- `proxy` of the agent.
pub record Proxy : Type 0 where
  pub headers : Headers
  pub auth : Option Str

-- What of `opts` goes into the request.
pub record Target : Type 0 where
  pub host : Str
  pub port : ℕ
  pub secure_endpoint : Bool
  pub proxy_headers : Option Headers

unfoldable pub is_default_port : ℕ → Bool → Bool
is_default_port port secure = (not secure && port == 80) || (secure && port == 443)

abbrev pub base64_alphabet : Str
base64_alphabet = codes "ABCDEFGHIJKLMNOPQRSTUVWXYZabcdefghijklmnopqrstuvwxyz0123456789+/"

abbrev pub first_of : Str → ℕ
first_of [] = 0
first_of (c ∷ _) = c

abbrev pub sextet : ℕ → ℕ
sextet n = first_of (drop (n % 64) base64_alphabet)

-- `Buffer.toString('base64')`: three bytes to four characters.
unfoldable pub base64 : Str → Str
base64 [] = []
base64 (a ∷ []) = sextet (a / 4) ∷ sextet (a * 16) ∷ b'=' ∷ b'=' ∷ []
base64 (a ∷ b ∷ []) = sextet (a / 4) ∷ sextet (a * 16 + b / 16) ∷ sextet (b * 4) ∷ b'=' ∷ []
base64 (a ∷ b ∷ c ∷ s) =
    sextet (a / 4) ∷ sextet (a * 16 + b / 16) ∷ sextet (b * 4 + c / 64) ∷ sextet c ∷ base64 s

-- `Object.assign(m, xs)`
unfoldable pub assign_pairs : Headers → Headers → Headers
unfolding assign
assign_pairs m [] = m
assign_pairs m (x ∷ xs) = assign_pairs (assign m x) xs

abbrev pub with_auth : Option Str → Headers → Headers
with_auth none m = m
with_auth (some []) m = m
with_auth (some (c ∷ a)) m =
    assign m (codes "Proxy-Authorization", codes "Basic " ++ base64 (c ∷ a))

unfoldable pub host_header : Target → Str
unfolding is_default_port
host_header t =
    if is_default_port t.port t.secure_endpoint
    then t.host
    else t.host ++ (codes ":" ++ show_nat t.port)

abbrev pub opt_headers : Option Headers → Headers
opt_headers none = []
opt_headers (some h) = h

-- The copy of the proxy's headers, with the given ones over it.
unfoldable pub merged_headers : Proxy → Target → Headers
unfolding assign_pairs
merged_headers p t = assign_pairs (assign_pairs [] p.headers) (opt_headers t.proxy_headers)

unfoldable pub named_headers : Proxy → Target → Headers
unfolding merged_headers assign host_header base64
named_headers p t = assign (with_auth p.auth (merged_headers p t)) (codes "Host", host_header t)

unfoldable pub connect_headers : Proxy → Target → Headers
unfolding named_headers
connect_headers p t = assign (named_headers p t) (codes "Connection", codes "close")

abbrev pub header_lines : Headers → Str
header_lines [] = []
header_lines (h ∷ hs) = header_line h ++ (crlf ++ header_lines hs)

-- What `connect` writes to the socket.
unfoldable pub connect_message : Proxy → Target → Str
unfolding connect_headers
connect_message p t =
    codes "CONNECT "
    ++ (t.host
        ++ (codes ":"
            ++ (show_nat t.port
                ++ (codes " HTTP/1.1\r\n" ++ (header_lines (connect_headers p t) ++ crlf)))))

-- The value of a key.
abbrev pub value_of : Str → Headers → Option Str
value_of k [] = none
value_of k ((j, v) ∷ m) = if str_eq j k then some v else value_of k m

-- Of two values, the first that is there.
abbrev pub either_of : Option Str → Option Str → Option Str
either_of none b = b
either_of (some v) b = some v

-- The value that a key was given last.
abbrev pub latest : Str → Headers → Option Str
latest k [] = none
latest k ((j, v) ∷ m) = either_of (latest k m) (if str_eq j k then some v else none)

value_of-assign :
    (k j v : Str) (m : Headers)
    → value_of k (assign m (j, v)) ≡ (if str_eq j k then some v else value_of k m)
unfolding assign
value_of-assign k j v [] = refl
value_of-assign k j v ((i, w) ∷ m) =
    ground (arith, str_eq_iff i j, str_eq_iff j k, str_eq_iff i k, value_of-assign k j v m)

either_of_assoc : (a b c : Option Str) → either_of (either_of a b) c ≡ either_of a (either_of b c)
either_of_assoc none b c = refl
either_of_assoc (some v) b c = refl

value_of-assign_pairs :
    (k : Str) (m xs : Headers)
    → value_of k (assign_pairs m xs) ≡ either_of (latest k xs) (value_of k m)
unfolding assign_pairs
value_of-assign_pairs k m [] = refl
value_of-assign_pairs k m ((j, v) ∷ xs) =
    value_of-assign_pairs k (assign m (j, v)) xs
    ∙ ap (either_of (latest k xs)) (value_of-assign k j v m)
    ∙ ground
        (arith, either_of_assoc (latest k xs) (if str_eq j k then some v else none) (value_of k m))

either_of-none : (a : Option Str) → either_of a none ≡ a
either_of-none none = refl
either_of-none (some v) = refl

value_of-merged_headers :
    (p : Proxy) (t : Target) (k : Str)
    → value_of k (merged_headers p t)
      ≡ either_of (latest k (opt_headers t.proxy_headers)) (latest k p.headers)
unfolding merged_headers
value_of-merged_headers p t k =
    value_of-assign_pairs k (assign_pairs [] p.headers) (opt_headers t.proxy_headers)
    ∙ ap (either_of (latest k (opt_headers t.proxy_headers)))
        (value_of-assign_pairs k [] p.headers ∙ either_of-none (latest k p.headers))

-- The value that `proxy.auth` stands for.
abbrev pub authorization : Option Str → Option Str
authorization none = none
authorization (some []) = none
authorization (some (c ∷ a)) = some (codes "Basic " ++ base64 (c ∷ a))

value_of-with_auth :
    (k : Str) (auth : Option Str) (m : Headers)
    → value_of k (with_auth auth m) ≡ (
        if str_eq (codes "Proxy-Authorization") k
        then either_of (authorization auth) (value_of k m)
        else value_of k m)
value_of-with_auth k none m = ground arith
value_of-with_auth k (some []) m = ground arith
value_of-with_auth k (some (c ∷ a)) m = value_of-assign k _ _ m ∙ ground arith

-- The headers of the CONNECT request, whatever the proxy and the options carry: 'Connection' is
-- 'close'; 'Host' is the host, with the port unless it is the default one of the scheme;
-- 'Proxy-Authorization' is the Basic credentials of the proxy, if it has any; and every other key
-- has the value it was given last in `proxyHeaders`, or else in the headers of the proxy.
pub value_of-connect_headers :
    (p : Proxy) (t : Target) (k : Str)
    → value_of k (connect_headers p t) ≡ (
        if str_eq (codes "Connection") k
        then some (codes "close")
        else if str_eq (codes "Host") k
        then some (
            if (not t.secure_endpoint && t.port == 80) || (t.secure_endpoint && t.port == 443)
            then t.host
            else t.host ++ (codes ":" ++ show_nat t.port))
        else let given = either_of (latest k (opt_headers t.proxy_headers)) (latest k p.headers) in
          if str_eq (codes "Proxy-Authorization") k
          then either_of (authorization p.auth) given
          else given)
unfolding connect_headers named_headers host_header is_default_port
value_of-connect_headers p t k = ground (
  arith,
  value_of-assign k (codes "Connection") (codes "close") (named_headers p t),
  value_of-assign k (codes "Host") (host_header t) (with_auth p.auth (merged_headers p t)),
  value_of-with_auth k p.auth (merged_headers p t),
  value_of-merged_headers p t k,
)
