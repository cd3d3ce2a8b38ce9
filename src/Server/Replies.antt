-- ===== src/Server/Replies.antt =====
-- The replies of src/libs/server/ProxyServer.ts to a request that failed: `packErrorMessage`,
-- `errorResponse` and `errorUpstream`.
use node_proxybroker.Prelude.{
  ℕ, ◌+◌, ◌-◌, ◌/◌, ◌%◌, ◌≡◌, refl, ◌∙◌, Bool, true, false, not, ◌&&◌, none, some, List, [], ◌∷◌,
  ◌++◌, map, Str, codes, join, crlf, all-append, All, has_no, if◌then◌else◌, ◌==◌, ltb, arith,
  parse_int,
}
use node_proxybroker.Http.{
  Error, Headers, header_line, is_secured, status_at, status_match, parse_data, split_head,
}
use node_proxybroker.Http.Lines.{IsHeadLine, split_head-lines, parse_data-failed}

abbrev hex_digit : ℕ → ℕ
hex_digit n = if ltb n 10 then b'0' + n else b'a' + (n - 10)

-- A character of a JSON text.
unfoldable pub json_char : ℕ → Str
json_char c =
    if c == 34
    then codes "\\\""
    else if c == 92
    then codes "\\\\"
    else if c == 8
    then codes "\\b"
    else if c == 12
    then codes "\\f"
    else if c == 10
    then codes "\\n"
    else if c == 13
    then codes "\\r"
    else if c == 9
    then codes "\\t"
    else if ltb c 32
    then codes "\\u00" ++ (hex_digit (c / 16) ∷ hex_digit (c % 16) ∷ [])
    else c ∷ []

unfoldable pub json_chars : Str → Str
unfolding json_char
json_chars [] = []
json_chars (c ∷ s) = json_char c ++ json_chars s

abbrev pub reply_line : Str → Str
reply_line http_version = codes "HTTP/" ++ (http_version ++ codes " 504 Gateway Time-out")

-- `error_json` is the JSON text of an error object, which has the fields that its class gives it.
module _ (error_json : Error → Str) where
  unfoldable pub pack_error_message : Error → Str
  unfolding json_chars
  pack_error_message e =
      codes "{\"error\":"
      ++ (error_json e ++ (codes ",\"message\":\"" ++ (json_chars e.message ++ codes "\"}")))

  unfoldable pub reply_headers : Error → Headers
  unfolding pack_error_message
  reply_headers e =
      (codes "Proxy-Broker", codes "Failed")
      ∷ (codes "Proxy-Broker-Error", pack_error_message e)
      ∷ (codes "Proxy-agent", codes "Proxy-Broker")
      ∷ []

  -- What `errorResponse` hands to the response of Node.
  unfoldable pub error_response : Error → ℕ × Str × Headers
  unfolding reply_headers
  error_response e = (504, codes "Gateway Time-out", reply_headers e)

  abbrev pub reply_lines : Error → List Str
  reply_lines e = map header_line (reply_headers e)

  -- What `errorUpstream` writes to the socket.
  unfoldable pub error_upstream : Error → Str → Str
  unfolding reply_headers
  error_upstream e http_version =
      reply_line http_version ++ (crlf ++ (join crlf (reply_lines e) ++ (crlf ++ crlf)))

json_char-has_no : (c : ℕ) → has_no 13 (json_char c) ≡ true
unfolding json_char
json_char-has_no c = ground arith

json_chars-has_no : (s : Str) → has_no 13 (json_chars s) ≡ true
unfolding json_chars
json_chars-has_no [] = refl
json_chars-has_no (c ∷ s) = ground (
  arith,
  all-append (λ d. not (d == 13)) (json_char c) (json_chars s),
  json_char-has_no c,
  json_chars-has_no s,
)

has_no-append : (a b : Str) → has_no 13 a ≡ true → has_no 13 b ≡ true → has_no 13 (a ++ b) ≡ true
has_no-append a b h k = ground (arith, all-append (λ d. not (d == 13)) a b, h, k)

status_at-other : (c : ℕ) (s : Str) → (c == 32) ≡ false → status_at (c ∷ s) ≡ none
unfolding status_at
status_at-other c [] h = refl
status_at-other c (_ ∷ []) h = refl
status_at-other c (_ ∷ _ ∷ []) h = refl
status_at-other c (_ ∷ _ ∷ _ ∷ []) h = refl
status_at-other c (_ ∷ _ ∷ _ ∷ _ ∷ s) h = ground (arith, h)

-- No status begins before the first space.
pub status_match-append : (a s : Str) → has_no 32 a ≡ true → status_match (a ++ s) ≡ status_match s
unfolding status_match
status_match-append [] s h = refl
status_match-append (c ∷ a) s h =
    ground (arith, h, status_at-other c (a ++ s), status_match-append a s)

status_504 : status_match (codes " 504 Gateway Time-out") ≡ some 504
unfolding status_match status_at parse_int
status_504 = refl

status_match-reply_line : (v : Str) → has_no 32 v ≡ true → status_match (reply_line v) ≡ some 504
status_match-reply_line v h =
    status_match-append (codes "HTTP/") (v ++ codes " 504 Gateway Time-out") refl
    ∙ status_match-append v (codes " 504 Gateway Time-out") h
    ∙ status_504

-- An HTTP version: it has no space and no carriage return.
abbrev pub is_version : Str → Bool
is_version v = has_no 32 v && has_no 13 v

module _ (error_json : Error → Str) where
  pack_error_message-has_no :
      (e : Error)
      → has_no 13 (error_json e) ≡ true
      → has_no 13 (pack_error_message error_json e) ≡ true
  unfolding pack_error_message
  pack_error_message-has_no e h =
      let ending = json_chars e.message ++ codes "\"}" in
      let message = codes ",\"message\":\"" ++ ending in
      has_no-append (codes "{\"error\":") (error_json e ++ message) refl (
        has_no-append (error_json e) message h (
          has_no-append (codes ",\"message\":\"") ending refl (
            has_no-append (json_chars e.message) (codes "\"}") (json_chars-has_no e.message) refl)))

  reply-IsHeadLine :
      (e : Error) (v : Str)
      → has_no 13 (error_json e) ≡ true
      → is_version v ≡ true
      → All IsHeadLine (reply_line v ∷ reply_lines error_json e)
  unfolding reply_headers
  reply-IsHeadLine e v h k = (
    (
      has_no-append (codes "HTTP/") (v ++ codes " 504 Gateway Time-out") refl
          (has_no-append v (codes " 504 Gateway Time-out") (ground (arith, k)) refl),
      refl,
    ),
    (
      (refl, refl),
      (
        (
          has_no-append (codes "Proxy-Broker-Error: ") (pack_error_message error_json e) refl
              (pack_error_message-has_no e h),
          refl,
        ),
        ((refl, refl), tt),
      ),
    ),
  )

  split-error_upstream :
      (e : Error) (v : Str)
      → has_no 13 (error_json e) ≡ true
      → is_version v ≡ true
      → split_head (error_upstream error_json e v)
        ≡ some (reply_line v, join crlf (reply_lines error_json e), [])
  unfolding error_upstream reply_headers
  split-error_upstream e v h k =
      split_head-lines (reply_line v) (codes "Proxy-Broker: Failed")
        ((codes "Proxy-Broker-Error: " ++ pack_error_message error_json e)
          ∷ codes "Proxy-agent: Proxy-Broker"
          ∷ [])
        [] (reply-IsHeadLine e v h k)

  -- What `error_upstream` writes is read by `parse` as a reply with the status 504, which counts as
  -- an error; its headers are the three lines and it has no body, if the JSON text of the error has no
  -- carriage return and the HTTP version neither a carriage return nor a space.
  pub parse_data-error_upstream :
      (x : Error → Error) (e : Error) (v : Str)
      → has_no 13 (error_json e) ≡ true
      → is_version v ≡ true
      → parse_data x (error_upstream error_json e v) ≡ record {
        secured = false;
        body = some [];
        headers = some (join crlf (reply_lines error_json e));
        query = some (reply_line v);
        status_code = some 504;
        error = some (x (record { message = reply_line v; code = [] }));
      }
  unfolding is_secured error_upstream
  parse_data-error_upstream x e v h k =
      parse_data-failed x (error_upstream error_json e v) (reply_line v)
        (join crlf (reply_lines error_json e)) [] 504 refl (split-error_upstream e v h k) refl
        (status_match-reply_line v (ground (arith, k))) refl
