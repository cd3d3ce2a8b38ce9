-- ===== src/Judge/Request.antt =====
-- src/libs/judge/JudgeRequest.ts: one test of a proxy, from the request to its result. An exception
-- object is a number with its content, for the code compares the objects.
pub mod Outcome
use node_proxybroker.Prelude.{
  ℕ, suc, ◌+◌, ◌≡◌, Bool, true, false, not, ◌&&◌, ◌||◌, Option, none, some, List, [], ◌∷◌, ◌++◌,
  map, Str, codes, any, if◌then◌else◌, ◌==◌, ℤ, pos, negsuc,
}
use node_proxybroker.Entities.{ProtocolType}
use node_proxybroker.Http.{Error}
use node_proxybroker.Judge.Level.{LevelDetection, IHeader, add_recv_header, detect}
use node_proxybroker.Judge.Monitor as Monitor
use node_proxybroker.Judge.Monitor.{
  Monitor, Message, prx01, prx02, prx03, prx10, jdg01, lvl01, lvl02, lvl03, lvl04, add_log, stop,
  last_error,
}
use node_proxybroker.Judge.Results.{JudgeResult, set_error}

-- `sockets` holds the `destroyed` flag of each socket on the stack; `aborts` counts the calls of
-- `request.abort`.
pub record JudgeRequest : Type 0 where
  pub id : Str
  pub active : Bool
  pub aborted : Bool
  pub judge_connected : Bool
  pub level_detector : Option LevelDetection
  pub monitor : Monitor
  pub has_request : Bool
  pub has_socket : Bool
  pub sockets : List Bool
  pub errors : List (ℕ × Error)
  pub aborts : ℕ

-- `get level`
unfoldable pub level : JudgeRequest → ℤ
level q = elim q.level_detector [ none ↦ negsuc 0 | some d ↦ d.level ]

unfoldable pub on_request : JudgeRequest → JudgeRequest
on_request q = record q { has_request = true }

unfoldable pub on_socket : JudgeRequest → JudgeRequest
on_socket q = record q { sockets = q.sockets ++ (false ∷ []); has_socket = true }

unfoldable pub abort : JudgeRequest → JudgeRequest
abort q = if q.aborted then q else record q { aborted = true; aborts = q.aborts + 1 }

unfoldable pub handle_error : ℕ × Error → JudgeRequest → JudgeRequest
unfolding abort
handle_error (n, e) q =
    if any (λ (p : ℕ × Error). p.0 == n) q.errors
    then q
    else abort (record q { errors = q.errors ++ ((n, e) ∷ []) })

-- A timeout counts only while the judge was not reached.
unfoldable pub on_socket_timeout : ℕ × Error → JudgeRequest → JudgeRequest
unfolding handle_error
on_socket_timeout e q = if q.judge_connected then q else handle_error e q

-- A timeout of the socket: the monitor's listener and that of the request.
unfoldable pub socket_timeout : ℕ → ℕ × Error → JudgeRequest → JudgeRequest
unfolding on_socket_timeout Monitor.on_socket_timeout
socket_timeout now e q =
    on_socket_timeout e (record q { monitor = Monitor.on_socket_timeout now q.monitor })

-- Several of them, the last one first.
unfoldable pub socket_timeouts : List (ℕ × ℕ × Error) → JudgeRequest → JudgeRequest
unfolding socket_timeout
socket_timeouts [] q = q
socket_timeouts ((now, n, e) ∷ ts) q = socket_timeout now (n, e) (socket_timeouts ts q)

-- `freeSockets` destroys what is left open.
unfoldable pub free_sockets : List Bool → List Bool
free_sockets [] = []
free_sockets (_ ∷ ds) = true ∷ free_sockets ds

unfoldable pub clear : JudgeRequest → JudgeRequest
unfolding free_sockets
clear q =
    if q.active
    then record q {
      active = false;
      has_request = false;
      has_socket = false;
      sockets = free_sockets q.sockets;
    }
    else q

-- The message for a level; the switch has a default.
unfoldable pub level_message : ℤ → Message
level_message (pos n) =
    if n == 1 then prx01 else if n == 2 then prx02 else if n == 3 then prx03 else prx10
level_message (negsuc n) = prx10

abbrev info : Message → Monitor → Monitor
info m = add_log m (codes "*")

abbrev when : Bool → (Monitor → Monitor) → Monitor → Monitor
when true f s = f s
when false f s = s

unfoldable pub log_header : IHeader → Monitor → Monitor
log_header h s =
    if h.has_proxy_ip || h.has_local_ip
    then when h.is_forward (info (lvl02 h.key h.value))
        (when h.is_via (info (lvl01 h.key h.value)) s)
    else when h.is_forward (info (lvl04 h.key h.value))
        (when h.is_via (info (lvl03 h.key h.value)) s)

unfoldable pub log_headers : List IHeader → Monitor → Monitor
unfolding log_header
log_headers [] s = s
log_headers (h ∷ hs) s = log_headers hs (log_header h s)

-- `onJudge`, once `performRequest` has set a level detector; without one it throws.
unfoldable pub on_judge :
    (Str → Str → Option Str) → ℕ → List (Str × Str) → JudgeRequest → Option JudgeRequest
unfolding add_recv_header detect stop level_message log_headers
on_judge match_escaped now headers q = elim q.level_detector [
  | none ↦ none
  | some d ↦
      let m = stop now q.monitor in
      let d' = detect match_escaped (add_recv_header d headers) in
      some (record q {
        judge_connected = true;
        level_detector = some d';
        monitor =
            log_headers d'.recv_headers (info (level_message d'.level) (info (jdg01 m.duration) m));
      })
]

-- `result`
unfoldable pub result : ProtocolType → ProtocolType → JudgeRequest → JudgeResult
unfolding set_error last_error level
result from to q = set_error (last_error q.monitor.errors) (record {
  error = none;
  has_error = false;
  protocol_from = from;
  protocol_to = to;
  start = q.monitor.start;
  stop = q.monitor.stopped;
  duration = q.monitor.duration;
  level = level q;
  log = q.monitor.log_arr;
})
