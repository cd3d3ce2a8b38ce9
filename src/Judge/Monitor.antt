-- ===== src/Judge/Monitor.antt =====
-- src/libs/judge/RequestResponseMonitor.ts: the protocol of one request over a proxy. Each handler
-- is a function of the state; the time at which it runs is an argument where it is read.
-- `removeListener` with a fresh bound function removes nothing, so the listeners stay.
pub mod Invariant
use node_proxybroker.Prelude.{
  ℕ, suc, ◌+◌, ◌-◌, ◌≡◌, Bool, true, false, not, ◌&&◌, ◌||◌, Option, none, some, List, [], ◌∷◌,
  ◌++◌, map, Str, codes, str_eq, is_empty, is_digit, trim, index_of, split_on, crlf_crlf, parse_int,
  length, take, any, is_some, if◌then◌else◌, ◌==◌, ltb, leb,
}
use node_proxybroker.Http.{Error, is_secured}

-- The keys of src/libs/specific/Messages.ts that the judge logs, with the parameters that the
-- message shows.
pub data Message : Type 0 where
  orq01 orq02 orq03 orq04 err01 err03 err04 err05 cne01 osc01 osc02 osc03 ose01 : Message
  prx01 prx02 prx03 prx10 : Message
  rcl01 rcc01 jdg01 ost01 ots01 : Option ℕ → Message
  err02 hed01 : Str → Message
  lvl01 lvl02 lvl03 lvl04 : Str → Str → Message

pub record ReqResEvent : Type 0 where
  pub nr : ℕ
  pub message : Message
  pub prefix : Str

-- `end` and `duration` are null and Infinity until `stop`; `destroyed_by` is the error that the
-- monitor ended its socket with; `emitted` counts the 'finished' events.
pub record Monitor : Type 0 where
  pub proxy : Bool
  pub inc : ℕ
  pub log_arr : List ReqResEvent
  pub received : ℕ
  pub errors : List Error
  pub start : ℕ
  pub stopped : Option ℕ
  pub duration : Option ℕ
  pub secured : Bool
  pub connected : Bool
  pub timeouted : Bool
  pub aborted : Bool
  pub finished : Bool
  pub emitted : ℕ
  pub sended_head : Str
  pub received_head : Str
  pub received_head_done : Bool
  pub destroyed_by : Option Str

unfoldable pub new_monitor : Bool → ℕ → Monitor
new_monitor proxy now = record {
  proxy = proxy;
  inc = 0;
  log_arr = [];
  received = 0;
  errors = [];
  start = now;
  stopped = none;
  duration = none;
  secured = false;
  connected = false;
  timeouted = false;
  aborted = false;
  finished = false;
  emitted = 0;
  sended_head = [];
  received_head = [];
  received_head_done = false;
  destroyed_by = none;
}

unfoldable pub add_log : Message → Str → Monitor → Monitor
add_log m prefix s = record s {
  inc = s.inc + 1;
  log_arr = s.log_arr ++ (record { nr = s.inc; message = m; prefix = prefix } ∷ []);
}

abbrev info : Message → Monitor → Monitor
info m = add_log m (codes "*")

-- `addClientLog`, `addServerLog`
abbrev client_log : Message → Monitor → Monitor
client_log m = add_log m (codes ">")

abbrev server_log : Message → Monitor → Monitor
server_log m = add_log m (codes "<")

abbrev when : Bool → (Monitor → Monitor) → Monitor → Monitor
when true f s = f s
when false f s = s

abbrev log_each : (Str → Monitor → Monitor) → List Str → Monitor → Monitor
log_each f [] s = s
log_each f (x ∷ xs) s = log_each f xs (f x s)

abbrev shown : Str → Str
shown x = if is_empty x then codes "_UNKNOWN_" else x

unfoldable pub on_request : Monitor → Monitor
unfolding add_log
on_request s = info orq03 (if s.proxy then info orq01 s else info orq02 s)

unfoldable pub stop : ℕ → Monitor → Monitor
stop now s = record s { stopped = some now; duration = some (now - s.start) }

abbrev contains : Str → Str → Bool
contains part s = is_some (index_of part s)

-- What an error of this text says of the connection.
unfoldable pub classify : Str → Monitor → Monitor
unfolding add_log
classify message s =
    if contains (codes "ECONNREFUSED") message
    then add_log err03 (codes "#") (record s { connected = false })
    else if contains (codes "ESOCKETTIMEDOUT") message
        || contains (codes "Timeout awaiting") message
    then add_log err04 (codes "#") (record s { timeouted = true })
    else if contains (codes "socket hang up") message
    then add_log err05 (codes "#") (record s { aborted = true })
    else s

abbrev known : Str → List Error → Bool
known m = any (λ e. str_eq e.message m)

unfoldable pub handle_error : (Error → Error) → Option Error → Monitor → Monitor
unfolding classify
handle_error x none s = s
handle_error x (some e) s =
    let error = x e in
    if known error.message s.errors
    then s
    else let t = classify error.message s in record t { errors = t.errors ++ (error ∷ []) }

abbrev has_errors : Monitor → Bool
has_errors s = elim s.errors [ [] ↦ false | _ ∷ _ ↦ true ]

unfoldable pub last_error : List Error → Option Error
last_error [] = none
last_error (e ∷ []) = some e
last_error (e ∷ f ∷ es) = last_error (f ∷ es)

unfoldable pub finished : ℕ → Monitor → Monitor
unfolding add_log stop
finished now s =
    let t = stop now s in
    let u =
      if has_errors t
      then info cne01 (
          log_each (λ m. client_log (err02 m)) (map (λ e. e.message) t.errors) (client_log err01 t))
      else info (rcc01 t.duration) (info (rcl01 (some t.received)) t) in
    record u { finished = true; emitted = u.emitted + 1 }

unfoldable pub on_error : (Error → Error) → ℕ → Error → Monitor → Monitor
unfolding handle_error finished
on_error x now e s = finished now (handle_error x (some e) s)

-- `split(sep).shift()`: what stands before the first blank line.
unfoldable pub before_blank : Str → Str
before_blank s = elim (index_of crlf_crlf s) [ none ↦ s | some i ↦ take i s ]

-- The socket is there; `tls` says that it is a TLSSocket, `pending` is its `_pendingData`.
unfoldable pub on_socket : Bool → Option Str → Monitor → Monitor
unfolding before_blank
on_socket tls pending s =
    let t = record s { secured = s.secured || tls } in
    elim pending [ none ↦ t | some p ↦ record t { sended_head = before_blank p } ]

unfoldable pub on_socket_connect : Monitor → Monitor
unfolding add_log
on_socket_connect s =
    let t = record s { errors = []; connected = true } in
    let u = if t.proxy then info osc01 t else info osc02 t in
    let v = when u.secured (info osc03) u in
    if is_empty v.sended_head
    then v
    else log_each (λ x. client_log (hed01 (shown x))) (split_on 10 v.sended_head) v

-- The text of a status of three digits: `/^\d{3}$/`.
unfoldable pub status_code : Str → Option ℕ
status_code (a ∷ b ∷ c ∷ []) =
    if is_digit a && (is_digit b && is_digit c) then some (parse_int (a ∷ b ∷ c ∷ [])) else none
status_code _ = none

-- The second of the first three words of the status line, if there are three.
unfoldable pub head_status : Str → Option ℕ
unfolding status_code
head_status line = elim (split_on 32 line) [ _ ∷ w ∷ _ ∷ _ ↦ status_code w | _ ↦ none ]

abbrev is_success : ℕ → Bool
is_success n = leb 200 n && ltb n 300

-- A proxy that answers with another status than success is cut off.
unfoldable pub check_head : Monitor → Monitor
unfolding head_status
check_head s = elim (split_on 10 s.received_head) [
  | [] ↦ s
  | line ∷ _ ↦ elim (head_status line) [
    | none ↦ s
    | some n ↦ if is_success n then s else record s { destroyed_by = some line }
  ]
]

unfoldable pub on_head : Monitor → Monitor
unfolding check_head add_log
on_head s =
    check_head (log_each (λ x. server_log (hed01 (shown x))) (split_on 10 s.received_head) s)

unfoldable pub on_socket_data : Str → Monitor → Monitor
unfolding is_secured on_head before_blank
on_socket_data d s =
    let t = record s { received = s.received + length d } in
    if is_secured d || t.received_head_done
    then t
    else let head = t.received_head ++ d in
      if contains crlf_crlf head
      then on_head (record t { received_head = before_blank head; received_head_done = true })
      else record t { received_head = head }

unfoldable pub on_socket_end : Monitor → Monitor
unfolding add_log
on_socket_end = client_log ose01

unfoldable pub on_socket_timeout : ℕ → Monitor → Monitor
unfolding stop add_log
on_socket_timeout now s = let t = stop now s in info (ost01 t.duration) t

unfoldable pub on_secure_connect : ℕ → Monitor → Monitor
unfolding stop add_log
on_secure_connect now s = let t = stop now s in info (ots01 t.duration) t

-- What the stream, the request and the socket report.
pub data MonitorEvent : Type 0 where
  requested connected_ ended : MonitorEvent
  socketed : Bool → Option Str → MonitorEvent
  errored : ℕ → Error → MonitorEvent
  socket_errored : Error → MonitorEvent
  looked_up : Option Error → MonitorEvent
  received_ : Str → MonitorEvent
  closed timed_out secure_connected : ℕ → MonitorEvent

unfoldable pub step : (Error → Error) → Monitor → MonitorEvent → Monitor
unfolding on_request on_socket_connect on_socket_end on_socket on_error handle_error on_socket_data
    finished on_socket_timeout on_secure_connect
step x s requested = on_request s
step x s connected_ = on_socket_connect s
step x s ended = on_socket_end s
step x s (socketed tls pending) = on_socket tls pending s
step x s (errored now e) = on_error x now e s
step x s (socket_errored e) = handle_error x (some e) s
step x s (looked_up e) = handle_error x e s
step x s (received_ d) = on_socket_data d s
step x s (closed now) = finished now s
step x s (timed_out now) = on_socket_timeout now s
step x s (secure_connected now) = on_secure_connect now s

unfoldable pub run : (Error → Error) → Monitor → List MonitorEvent → Monitor
run x s [] = s
run x s (e ∷ es) = run x (step x s e) es

-- The loop of `logToString`: of several empty lines in a row one is kept.
unfoldable pub collapse : Bool → List Str → List Str
collapse ignore_empty [] = []
collapse ignore_empty (x ∷ xs) =
    let rest = collapse (is_empty x) xs in if is_empty x && ignore_empty then rest else x ∷ rest

-- `logToString`, over what `Messages.get` says of an entry. The entries are in the order of `nr`.
unfoldable pub log_lines : (Message → Str) → List ReqResEvent → List Str
unfolding collapse
log_lines text es = collapse false (map (λ e. trim (e.prefix ++ (codes " " ++ text e.message))) es)
