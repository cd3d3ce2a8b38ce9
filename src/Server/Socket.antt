-- ===== src/Server/Socket.antt =====
-- src/libs/server/SocketHandle.ts: what the proxy server keeps of a socket, and its listeners.
-- Times are milliseconds, as arguments of the events. `finish` removes its listeners by fresh
-- bound functions, which removes none: every listener still runs after it.
pub mod Flow
pub mod Tls
pub mod Kept
use node_proxybroker.Prelude.{
  ℕ, suc, ◌+◌, ◌-◌, ◌≡◌, Bool, true, false, not, ◌&&◌, ◌||◌, Option, none, some, List, [], ◌∷◌,
  ◌++◌, map, Str, codes, str_eq, is_empty, to_lower, trim, split_on, split_crlf, crlf, join, filter,
  is_some, if◌then◌else◌, ◌==◌, leb,
}
use node_proxybroker.Http.{
  Error, Headers, is_secured, split_head, status_match, status_error, header_line,
}

pub record Header : Type 0 where
  pub key : Str
  pub org_key : Str
  pub value : Str

-- `destroyed` is the flag of the socket below the handle.
pub record SocketHandle : Type 0 where
  pub id : ℕ
  pub start : ℕ
  pub repeat : ℕ
  pub stop : Option ℕ
  pub duration : Option ℕ
  pub finished : Bool
  pub buffer : Option Str
  pub error : Option Error
  pub socket_error : Bool
  pub status_code : Option ℕ
  pub ssl_detect : Bool
  pub query : Option Str
  pub headers_list : List Header
  pub body : Option Str
  pub ssl : Bool
  pub timeout : ℕ
  pub url : Option Str
  pub destroyed : Bool

-- The constructor, with `meta.repeat = 0` of `createSocketHandle`.
unfoldable pub new_handle : ℕ → ℕ → Bool → ℕ → Option Str → SocketHandle
new_handle id now ssl timeout url = record {
  id = id;
  start = now;
  repeat = 0;
  stop = none;
  duration = none;
  finished = false;
  buffer = none;
  error = none;
  socket_error = false;
  status_code = none;
  ssl_detect = false;
  query = none;
  headers_list = [];
  body = none;
  ssl = ssl;
  timeout = timeout;
  url = url;
  destroyed = false;
}

-- `_x.split(':', 2)` and the trimming of its two parts; `none` is the TypeError of a line with no
-- colon, where there is no second part.
unfoldable pub header_of_line : Str → Option Header
header_of_line line = elim (split_on b':' line) [
  | k ∷ v ∷ _ ↦ some (record { key = to_lower (trim k); org_key = trim k; value = trim v })
  | _ ↦ none
]

-- The loop over the lines: what is pushed, and whether it ends by that exception.
unfoldable pub header_lines : List Str → List Header × Bool
unfolding header_of_line
header_lines [] = ([], false)
header_lines (line ∷ lines) =
    let rest = header_lines lines in
    elim (header_of_line line) [ none ↦ ([], true) | some h ↦ (h ∷ rest.0, rest.1) ]

abbrev append_body : Option Str → Str → Option Str
append_body none d = none
append_body (some b) d = some (b ++ d)

module _ (handle_exception : Error → Error) where
  abbrev new_error : Option Error → Option Error → Option Error
  new_error old none = old
  new_error old (some e) = some e

  -- The status line, after the header lines went through.
  unfoldable pub read_status : SocketHandle → Str → SocketHandle
  read_status s q = if is_empty q then s else elim (status_match q) [
    | none ↦ s
    | some n ↦ record s {
      status_code = some n;
      error = new_error s.error (status_error handle_exception q (some n));
    }
  ]

  -- The first chunk: the head is taken apart if it is whole.
  unfoldable pub first_data : SocketHandle → Str → SocketHandle × Bool
  unfolding split_head header_lines read_status
  first_data s d = elim (split_head d) [
    | none ↦ (record s { buffer = some d }, false)
    | some (q, h, b) ↦
        let (pushed, threw) = header_lines (split_crlf h) in
        let t = record s {
          buffer = some d;
          query = some q;
          body = some b;
          headers_list = s.headers_list ++ pushed;
        } in
        (if threw then t else read_status t q, threw)
  ]

  -- `onData`; the second part says that it ended by an exception.
  unfoldable pub on_data : SocketHandle → Option Str → SocketHandle × Bool
  unfolding is_secured first_data
  on_data s none = (s, false)
  on_data s (some d) =
      if s.ssl_detect || is_secured d
      then (record s { ssl_detect = true }, false)
      else elim s.buffer [
        | some old ↦ (record s { buffer = some (old ++ d); body = append_body s.body d }, false)
        | none ↦ first_data s d
      ]

unfoldable pub remove_header : SocketHandle → Str → SocketHandle
remove_header s k = record s {
  headers_list = filter (λ h. not (str_eq h.key (to_lower k))) s.headers_list;
}

unfoldable pub set_header : SocketHandle → Str → Str → SocketHandle
unfolding remove_header
set_header s k v =
    let t = remove_header s k in
    record t {
      headers_list = t.headers_list ++ (record { key = to_lower k; org_key = k; value = v } ∷ []);
    }

abbrev pub header_pair : Header → Str × Str
header_pair h = (h.org_key, h.value)

-- An assignment `h[key] = value`: a known key keeps its place.
unfoldable pub assign : Headers → Str × Str → Headers
assign [] kv = kv ∷ []
assign ((k, v) ∷ m) (j, w) = if str_eq k j then (k, w) ∷ m else (k, v) ∷ assign m (j, w)

unfoldable pub assign_all : Headers → List Header → Headers
unfolding assign
assign_all m [] = m
assign_all m (h ∷ hs) = assign_all (assign m (header_pair h)) hs

unfoldable pub get_headers : SocketHandle → Headers
unfolding assign_all
get_headers s = assign_all [] s.headers_list

abbrev pub opt_str : Option Str → Str
opt_str none = []
opt_str (some b) = b

-- `build`: the request as it goes on to the next hop; `none` is null.
unfoldable pub build : SocketHandle → Option Str
build s = elim s.query [
  | none ↦ s.buffer
  | some q ↦
      if s.ssl_detect
      then s.buffer
      else some (
          q
          ++ (crlf
              ++ (join crlf (map (λ h. header_line (header_pair h)) s.headers_list)
                  ++ (crlf ++ (crlf ++ opt_str s.body)))))
]

unfoldable pub has_error : SocketHandle → Bool
has_error s = is_some s.error

unfoldable pub has_socket_error : SocketHandle → Bool
has_socket_error s = s.socket_error

-- `finish`; the second part says that `socket_finished` was emitted.
unfoldable pub finish : ℕ → SocketHandle → SocketHandle × Bool
finish now s =
    if s.finished
    then (s, false)
    else (record s { finished = true; stop = some now; duration = some (now - s.start) }, true)

unfoldable pub on_error : (Error → Error) → ℕ → SocketHandle → Error → SocketHandle × Bool
unfolding finish
on_error handle_exception now s e =
    finish now (record s { socket_error = true; error = some (handle_exception e) })

unfoldable pub on_timeout : ℕ → SocketHandle → SocketHandle × Bool
unfolding finish
on_timeout now s = finish now (record s { destroyed = true })

-- The test `!this.duration`.
abbrev unset : Option ℕ → Bool
unset none = true
unset (some n) = n == 0

unfoldable pub on_close : ℕ → SocketHandle → SocketHandle × Bool
unfolding finish
on_close now s =
    finish now (
      if unset s.duration then record s { stop = some now; duration = some (now - s.start) } else s)

-- What can happen on the socket, with the time of it.
pub data SocketEvent : Type 0 where
  chunk : Str → SocketEvent
  timed_out : SocketEvent
  failed : Error → SocketEvent
  closed : SocketEvent

-- One listener call; an exception in `onData` leaves the handle as far as it came.
unfoldable pub on_event : (Error → Error) → SocketHandle → ℕ × SocketEvent → SocketHandle × Bool
unfolding on_data on_error on_timeout on_close
on_event x s (now, chunk d) = ((on_data x s (some d)).0, false)
on_event x s (now, timed_out) = on_timeout now s
on_event x s (now, failed e) = on_error x now s e
on_event x s (now, closed) = on_close now s

unfoldable pub on_events : (Error → Error) → SocketHandle → List (ℕ × SocketEvent) → SocketHandle
unfolding on_event
on_events x s [] = s
on_events x s (e ∷ es) = on_events x (on_event x s e).0 es
