-- ===== src/Http.antt =====
-- src/libs/http/RequestHelper.ts: the head of an HTTP message taken apart and put together.
pub mod Split
pub mod RoundTrip
pub mod Lines
use node_proxybroker.Prelude.{
  ℕ, suc, ◌+◌, ◌-◌, ◌≡◌, Bool, true, false, not, ◌&&◌, ◌||◌, Option, none, some, List, [], ◌∷◌,
  ◌++◌, map, Str, codes, str_eq, is_empty, is_digit, is_space, to_lower, trim, trim_start,
  strip_prefix, index_of, split_on, split_crlf, crlf, crlf_crlf, join, parse_int, length, take,
  drop, any, filter, is_some, if◌then◌else◌, ◌==◌, ltb, leb,
}

-- What the program reads of an exception.
pub record Error : Type 0 where
  pub message : Str
  pub code : Str

abbrev pub Headers : Type 0
Headers = List (Str × Str)

pub record RequestData : Type 0 where
  pub secured : Bool
  pub body : Option Str
  pub headers : Option Str
  pub query : Option Str
  pub status_code : Option ℕ
  pub error : Option Error

-- A TLS record, or no text.
unfoldable pub is_secured : Str → Bool
is_secured [] = false
is_secured (c ∷ _) = c == 0x16 || (c == 0x80 || c == 0x00)

-- The test `headerEnd < headersEnd && headersEnd > 0` on two results of `indexOf`.
unfoldable pub has_head : Option ℕ → Option ℕ → Bool
has_head (some h) (some e) = ltb h e && ltb 0 e
has_head none (some e) = ltb 0 e
has_head _ none = false

abbrev pub position : Option ℕ → ℕ
position none = 0
position (some n) = n

-- The query line, the header block and the body of a message, where it has a whole head.
unfoldable pub split_head : Str → Option (Str × Str × Str)
unfolding has_head
split_head d =
    let header_end = index_of crlf d in
    let headers_end = index_of crlf_crlf d in
    let h = position header_end in
    let e = position headers_end in
    if has_head header_end headers_end
    then some (take h d, take (e - h - 2) (drop (h + 2) d), drop (e + 4) d)
    else none

-- The regular expression / (\d{3}) /, at the start of a text.
unfoldable pub status_at : Str → Option ℕ
status_at (s ∷ a ∷ b ∷ c ∷ t ∷ _) =
    if s == 32 && (is_digit a && (is_digit b && (is_digit c && t == 32)))
    then some (parse_int (a ∷ b ∷ c ∷ []))
    else none
status_at _ = none

-- Its first match.
unfoldable pub status_match : Str → Option ℕ
unfolding status_at
status_match [] = none
status_match (c ∷ s) =
    let rest = status_match s in if is_some (status_at (c ∷ s)) then status_at (c ∷ s) else rest

abbrev pub no_data : RequestData
no_data = record {
  secured = false;
  body = none;
  headers = none;
  query = none;
  status_code = none;
  error = none;
}

-- `Exceptions.handle` of the server package wraps an exception.
module _ (handle_exception : Error → Error) where
  -- The error that a first line with this status stands for.
  unfoldable pub status_error : Str → Option ℕ → Option Error
  status_error first none = none
  status_error first (some n) =
      if leb 400 n then some (handle_exception (record { message = first; code = [] })) else none

  unfoldable pub parse_data : Str → RequestData
  unfolding is_secured split_head status_match status_error
  parse_data d = if is_secured d then record no_data { secured = true } else elim (split_head d) [
    | none ↦ no_data
    | some (q, h, b) ↦
        let status = if is_empty q then none else status_match q in
        record {
          secured = false;
          body = some b;
          headers = some h;
          query = some q;
          status_code = status;
          error = status_error q status;
        }
  ]

  -- `parse`: a missing chunk gives null.
  unfoldable pub parse : Option Str → Option RequestData
  unfolding parse_data
  parse none = none
  parse (some d) = some (parse_data d)

abbrev header_part : Option Str → Str
header_part none = []
header_part (some h) = h ++ crlf_crlf

abbrev body_part : Option Str → Str
body_part none = []
body_part (some b) = b

-- `build`: `none` is the exception 'empty query'.
unfoldable pub build : RequestData → Option Str
build req = elim req.query [
  | none ↦ none
  | some q ↦ some (q ++ (crlf ++ (header_part req.headers ++ body_part req.body)))
]

-- The key of a header line: what stands before the first colon.
unfoldable pub line_key : Str → Str
line_key line = elim (split_on b':' line) [ [] ↦ [] | k ∷ _ ↦ trim k ]

-- `line.replace(new RegExp('^' + key + '\\s*:'), '').trim()`, for a key whose characters stand for
-- themselves in a regular expression.
unfoldable pub line_value : Str → Str → Str
line_value key line = elim (strip_prefix key line) [
  | none ↦ trim line
  | some r ↦ elim (strip_prefix (b':' ∷ []) (trim_start r)) [ none ↦ trim line | some v ↦ trim v ]
]

unfoldable pub same_key : Str → Str × Str → Bool
same_key k (j, _) = str_eq (to_lower j) (to_lower k)

-- One round of the loop over the lines of the old head.
unfoldable pub add_line : Headers → Str → Headers
unfolding same_key line_key line_value
add_line x line =
    let k = line_key line in if any (same_key k) x then x else x ++ ((k, line_value k line) ∷ [])

unfoldable pub add_lines : Headers → List Str → Headers
unfolding add_line
add_lines x [] = x
add_lines x (line ∷ lines) = add_lines (add_line x line) lines

-- 'host' and 'connection' are never forced on a request.
unfoldable pub is_forced : Str × Str → Bool
is_forced (k, _) =
    not (str_eq (to_lower k) (codes "host") || str_eq (to_lower k) (codes "connection"))

abbrev pub header_line : Str × Str → Str
header_line (k, v) = k ++ (codes ": " ++ v)

-- The headers that `add_headers` writes.
unfoldable pub merged_headers : Option Str → Headers → Headers
unfolding is_forced add_lines
merged_headers none forced = filter is_forced forced
merged_headers (some head) forced = add_lines (filter is_forced forced) (split_crlf head)

unfoldable pub add_headers : RequestData → Headers → RequestData
unfolding merged_headers
add_headers req forced = record req {
  headers = some (join crlf (map header_line (merged_headers req.headers forced)));
}
