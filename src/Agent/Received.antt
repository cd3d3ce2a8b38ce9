-- ===== src/Agent/Received.antt =====
-- The CONNECT request of https_proxy_agent.ts as RequestHelper.ts reads it.
use mathlib.Core.Path.{subst}
use node_proxybroker.Prelude.{
  ℕ, zero, suc, ◌+◌, ◌*◌, ◌/◌, ◌%◌, ◌≡◌, refl, sym, ap, ◌∙◌, Bool, true, false, not, ◌&&◌, Option,
  none, some, [], ◌∷◌, ◌++◌, map, Str, codes, str_eq, show_nat, crlf, crlf_crlf, join, drop,
  is_empty, is_digit, all, All, all-append, append_assoc, has_no, digits-show_nat, ◌==◌, arith,
  Bool-cases, inl, inr,
}
use node_proxybroker.Http.{
  Headers, header_line, Error, is_secured, split_head, status_at, status_match, status_error,
  parse_data,
}
use node_proxybroker.Http.Lines.{IsHeadLine, split_head-lines}
use node_proxybroker.Server.Replies.{status_match-append}
use node_proxybroker.Server.Socket.{assign}
use node_proxybroker.Agent.Message.{
  Proxy, Target, base64, assign_pairs, opt_headers, merged_headers, named_headers, connect_headers,
  connect_message, header_lines, host_header, sextet, first_of, base64_alphabet, with_auth,
}

-- A header with no carriage return in it.
abbrev pub is_plain : Str × Str → Bool
is_plain h = has_no 13 h.0 && has_no 13 h.1

assign-is_plain :
    (m : Headers) (x : Str × Str)
    → all is_plain m ≡ true
    → is_plain x ≡ true
    → all is_plain (assign m x) ≡ true
unfolding assign
assign-is_plain [] x h k = ground (arith, k)
assign-is_plain ((j, v) ∷ m) (i, w) h k = ground (arith, h, k, assign-is_plain m (i, w))

assign_pairs-is_plain :
    (m xs : Headers)
    → all is_plain m ≡ true
    → all is_plain xs ≡ true
    → all is_plain (assign_pairs m xs) ≡ true
unfolding assign_pairs
assign_pairs-is_plain m [] h k = h
assign_pairs-is_plain m (x ∷ xs) h k =
    assign_pairs-is_plain (assign m x) xs (assign-is_plain m x h (ground (arith, k)))
      (ground (arith, k))

has_no-join : (a b : Str) → has_no 13 a ≡ true → has_no 13 b ≡ true → has_no 13 (a ++ b) ≡ true
has_no-join a b h k = ground (arith, all-append (λ c. not (c == 13)) a b, h, k)

has_no-digits :
    (sep : ℕ) (s : Str) → is_digit sep ≡ false → all is_digit s ≡ true → has_no sep s ≡ true
has_no-digits sep [] e h = refl
has_no-digits sep (c ∷ s) e h = ground (arith, e, h, has_no-digits sep s e)

lines-IsHeadLine : (hs : Headers) → all is_plain hs ≡ true → All IsHeadLine (map header_line hs)
lines-IsHeadLine [] h = tt
lines-IsHeadLine ((k, v) ∷ hs) h = (
  (has_no-join k (codes ": " ++ v) (ground (arith, h)) (ground (arith, h)), filled k),
  lines-IsHeadLine hs (ground (arith, h)),
)
  where
    filled : (k : Str) → is_empty (k ++ (codes ": " ++ v)) ≡ false
    filled [] = refl
    filled (c ∷ k) = refl

-- Lines that each end are lines with breaks between, and a last break.
header_lines-join :
    (h : Str × Str) (hs : Headers)
    → header_lines (h ∷ hs) ++ crlf ≡ join crlf (map header_line (h ∷ hs)) ++ crlf_crlf
header_lines-join h [] = append_assoc (header_line h) (crlf ++ []) crlf
header_lines-join h (k ∷ hs) =
    append_assoc (header_line h) (crlf ++ header_lines (k ∷ hs)) crlf
    ∙ ap (λ s. header_line h ++ (crlf ++ s)) (header_lines-join k hs)
    ∙ sym (append_assoc (header_line h) (crlf ++ join crlf (map header_line (k ∷ hs))) crlf_crlf)

-- A host before a colon is no status.
status_at-host : (a s : Str) → has_no 32 a ≡ true → status_at (32 ∷ (a ++ (58 ∷ s))) ≡ none
unfolding status_at
status_at-host [] [] h = refl
status_at-host [] (_ ∷ []) h = refl
status_at-host [] (_ ∷ _ ∷ []) h = refl
status_at-host [] (_ ∷ _ ∷ _ ∷ s) h = ground arith
status_at-host (a ∷ []) [] h = refl
status_at-host (a ∷ []) (_ ∷ []) h = refl
status_at-host (a ∷ []) (_ ∷ _ ∷ s) h = ground arith
status_at-host (a ∷ b ∷ []) [] h = refl
status_at-host (a ∷ b ∷ []) (_ ∷ s) h = ground arith
status_at-host (a ∷ b ∷ c ∷ []) s h = ground arith
status_at-host (a ∷ b ∷ c ∷ d ∷ r) s h = ground (arith, h)

-- The first line of the request.
abbrev pub connect_line : Target → Str
connect_line t =
    codes "CONNECT " ++ (t.host ++ (codes ":" ++ (show_nat t.port ++ codes " HTTP/1.1")))

status_match-version : status_match (codes " HTTP/1.1") ≡ none
unfolding status_match status_at
status_match-version = refl

status_match-skip :
    (c : ℕ) (s : Str) → status_at (c ∷ s) ≡ none → status_match (c ∷ s) ≡ status_match s
unfolding status_match
status_match-skip c s h = ground (arith, h)

-- A request line has no status.
status_match-connect_line :
    (t : Target) → has_no 32 t.host ≡ true → status_match (connect_line t) ≡ none
status_match-connect_line t h =
    let port = show_nat t.port ++ codes " HTTP/1.1" in
    let rest = t.host ++ (codes ":" ++ port) in
    status_match-append (codes "CONNECT") (32 ∷ rest) refl
    ∙ status_match-skip 32 rest (status_at-host t.host port h)
    ∙ status_match-append t.host (codes ":" ++ port) h
    ∙ status_match-append (codes ":") port refl
    ∙ status_match-append (show_nat t.port) (codes " HTTP/1.1")
        (has_no-digits 32 (show_nat t.port) refl (digits-show_nat t.port))
    ∙ status_match-version

has_no-cons : (c : ℕ) (s : Str) → (c == 13) ≡ false → has_no 13 s ≡ true → has_no 13 (c ∷ s) ≡ true
has_no-cons c s h k = ground (arith, h, k)

first_of-drop : (n : ℕ) (s : Str) → has_no 13 s ≡ true → (first_of (drop n s) == 13) ≡ false
first_of-drop n [] h = drop_nothing n
  where
    drop_nothing : (n : ℕ) → (first_of (drop n []) == 13) ≡ false
    drop_nothing zero = refl
    drop_nothing (suc n) = refl
first_of-drop zero (c ∷ s) h = ground (arith, h)
first_of-drop (suc n) (c ∷ s) h = first_of-drop n s (ground (arith, h))

sextet_plain : (n : ℕ) → (sextet n == 13) ≡ false
sextet_plain n = first_of-drop (n % 64) base64_alphabet refl

base64-has_no : (s : Str) → has_no 13 (base64 s) ≡ true
unfolding base64
base64-has_no [] = refl
base64-has_no (a ∷ []) =
    has_no-cons (sextet (a / 4)) (sextet (a * 16) ∷ b'=' ∷ b'=' ∷ []) (sextet_plain (a / 4))
      (has_no-cons (sextet (a * 16)) (b'=' ∷ b'=' ∷ []) (sextet_plain (a * 16)) refl)
base64-has_no (a ∷ b ∷ []) =
    let x = a * 16 + b / 16 in
    has_no-cons (sextet (a / 4)) (sextet x ∷ sextet (b * 4) ∷ b'=' ∷ []) (sextet_plain (a / 4)) (
      has_no-cons (sextet x) (sextet (b * 4) ∷ b'=' ∷ []) (sextet_plain x)
        (has_no-cons (sextet (b * 4)) (b'=' ∷ []) (sextet_plain (b * 4)) refl))
base64-has_no (a ∷ b ∷ c ∷ s) =
    let x = a * 16 + b / 16 in
    let y = b * 4 + c / 64 in
    let rest = base64 s in
    has_no-cons (sextet (a / 4)) (sextet x ∷ sextet y ∷ sextet c ∷ rest) (sextet_plain (a / 4)) (
      has_no-cons (sextet x) (sextet y ∷ sextet c ∷ rest) (sextet_plain x) (
        has_no-cons (sextet y) (sextet c ∷ rest) (sextet_plain y)
          (has_no-cons (sextet c) rest (sextet_plain c) (base64-has_no s))))

with_auth-is_plain :
    (a : Option Str) (m : Headers) → all is_plain m ≡ true → all is_plain (with_auth a m) ≡ true
with_auth-is_plain none m h = h
with_auth-is_plain (some []) m h = h
with_auth-is_plain (some (c ∷ a)) m h =
    assign-is_plain m (codes "Proxy-Authorization", codes "Basic " ++ base64 (c ∷ a)) h
      (has_no-join (codes "Basic ") (base64 (c ∷ a)) refl (base64-has_no (c ∷ a)))

-- Neither the proxy's headers nor those of the request nor the host have a carriage return.
abbrev pub is_plain_request : Proxy → Target → Bool
is_plain_request p t =
    all is_plain p.headers && (all is_plain (opt_headers t.proxy_headers) && has_no 13 t.host)

host_header-has_no : (t : Target) → has_no 13 t.host ≡ true → has_no 13 (host_header t) ≡ true
unfolding host_header
host_header-has_no t h =
    let long : has_no 13 (t.host ++ (codes ":" ++ show_nat t.port)) ≡ true =
      has_no-join t.host (codes ":" ++ show_nat t.port) h
        (has_no-digits 13 (show_nat t.port) refl (digits-show_nat t.port)) in
    ground (arith, h, long)

connect_headers-is_plain :
    (p : Proxy) (t : Target)
    → is_plain_request p t ≡ true
    → all is_plain (connect_headers p t) ≡ true
unfolding connect_headers named_headers merged_headers
connect_headers-is_plain p t h =
    let own = assign_pairs-is_plain [] p.headers refl (ground (arith, h)) in
    let merged =
      assign_pairs-is_plain (assign_pairs [] p.headers) (opt_headers t.proxy_headers) own
        (ground (arith, h)) in
    assign-is_plain (named_headers p t) (codes "Connection", codes "close")
      (assign-is_plain (with_auth p.auth (merged_headers p t)) (codes "Host", host_header t)
        (with_auth-is_plain p.auth (merged_headers p t) merged)
        (host_header-has_no t (ground (arith, h))))
      refl

-- The headers are never empty.
assign-cons :
    (m : Headers) (x : Str × Str) → (h : Str × Str) × (hs : Headers) × (assign m x ≡ h ∷ hs)
unfolding assign
assign-cons [] x = (x, [], refl)
assign-cons ((j, v) ∷ m) (i, w) = elim (Bool-cases (str_eq j i)) [
  | inl e ↦ ((j, w), m, ground (arith, e))
  | inr e ↦ ((j, v), assign m (i, w), ground (arith, e))
]

connect_line-append :
    (t : Target) (s : Str)
    → connect_line t ++ s
      ≡ codes "CONNECT " ++ (t.host ++ (codes ":" ++ (show_nat t.port ++ (codes " HTTP/1.1" ++ s))))
connect_line-append t s =
    let port = show_nat t.port ++ codes " HTTP/1.1" in
    ap (◌++◌ (codes "CONNECT ")) (
      append_assoc t.host (codes ":" ++ port) s
      ∙ ap (λ r. t.host ++ (codes ":" ++ r)) (append_assoc (show_nat t.port) (codes " HTTP/1.1") s))

connect_line-has_no : (t : Target) → has_no 13 t.host ≡ true → has_no 13 (connect_line t) ≡ true
connect_line-has_no t h =
    let port = show_nat t.port ++ codes " HTTP/1.1" in
    has_no-join (codes "CONNECT ") (t.host ++ (codes ":" ++ port)) refl (
      has_no-join t.host (codes ":" ++ port) h (
        has_no-join (codes ":") port refl (
          has_no-join (show_nat t.port) (codes " HTTP/1.1")
            (has_no-digits 13 (show_nat t.port) refl (digits-show_nat t.port)) refl)))

split_head-message :
    (t : Target) (h : Str × Str) (hs : Headers)
    → has_no 13 t.host ≡ true
    → all is_plain (h ∷ hs) ≡ true
    → split_head (connect_line t ++ (crlf ++ (header_lines (h ∷ hs) ++ crlf)))
      ≡ some (connect_line t, join crlf (map header_line (h ∷ hs)), [])
split_head-message t h hs host plain =
    ap (λ s. split_head (connect_line t ++ (crlf ++ s))) (header_lines-join h hs)
    ∙ split_head-lines (connect_line t) (header_line h) (map header_line hs) []
        ((connect_line-has_no t host, refl), lines-IsHeadLine (h ∷ hs) plain)

split-connect_message :
    (p : Proxy) (t : Target)
    → is_plain_request p t ≡ true
    → split_head (connect_message p t)
      ≡ some (connect_line t, join crlf (map header_line (connect_headers p t)), [])
unfolding connect_message connect_headers
split-connect_message p t h =
    let (x, xs, e) = assign-cons (named_headers p t) (codes "Connection", codes "close") in
    let plain = connect_headers-is_plain p t h in
    let Splits : Headers → Type 0 = λ m.
      split_head (connect_line t ++ (crlf ++ (header_lines m ++ crlf)))
      ≡ some (connect_line t, join crlf (map header_line m), []) in
    ap split_head
      (sym (connect_line-append t (crlf ++ (header_lines (connect_headers p t) ++ crlf))))
    ∙ subst Splits (sym e)
        (split_head-message t x xs (ground (arith, h)) (sym (ap (all is_plain) e) ∙ plain))

-- The CONNECT request is read by `parse` as a request: the line names the host and the port, the
-- headers are those that the agent has put together and no body is left, with no status and no error,
-- if neither the configured headers nor the host have a carriage return and the host has no space.
pub parse_data-connect_message :
    (x : Error → Error) (p : Proxy) (t : Target)
    → is_plain_request p t ≡ true
    → has_no 32 t.host ≡ true
    → parse_data x (connect_message p t) ≡ record {
      secured = false;
      body = some [];
      headers = some (join crlf (map header_line (connect_headers p t)));
      query = some (connect_line t);
      status_code = none;
      error = none;
    }
unfolding parse_data is_secured connect_message status_error
parse_data-connect_message x p t h k =
    rw (split-connect_message p t h) (rw (status_match-connect_line t k) refl)
