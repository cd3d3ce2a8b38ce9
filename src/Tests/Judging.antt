-- ===== src/Tests/Judging.antt =====
-- src/libs/judge and ProxyValidator.ts at concrete inputs.
use node_proxybroker.Prelude.{
  ℕ, ◌*◌, ◌/◌, ◌≤◌, ◌≡◌, refl, Bool, true, false, Option, none, some, List, [], ◌∷◌, ◌++◌, Str,
  codes, length, arith, strip_prefix, pos, negsuc, str_eq, map, show_nat, split_crlf, index_of,
}
use node_proxybroker.Entities.{
  ProtocolType, http, https, IpAddr, new_addr, supports_protocol, supports_source_protocol,
  add_protocol, remove_protocol, add_source_protocol, remove_source_protocol,
}
use node_proxybroker.Entities.Flags.{supports_protocol-add_remove}
use node_proxybroker.Validator.Protocols.{build_states-supports}
use node_proxybroker.Http.{Error, is_secured}
use node_proxybroker.Judge.Level.{LevelDetection, add_recv_header, detect, no_stats}
use node_proxybroker.Judge.Level.Detect.{level_by, detect-level_by}
use node_proxybroker.Judge.Monitor.{
  MonitorEvent, new_monitor, requested, connected_, received_, errored, closed, run,
}
use node_proxybroker.Judge.Monitor.Invariant.{IsSound, run-IsSound, new_monitor-IsSound}
use node_proxybroker.Judge.Results.{JudgeResult}
use node_proxybroker.Judge.Request.{JudgeRequest}
use node_proxybroker.Judge.Request.Outcome.{Judged, on_judge-level}
use node_proxybroker.Judge.Service.{Judge, Answer, cached, create_request, judge, delete, variants}
use node_proxybroker.Judge.Connection.{
  logged_by, on_data, split_spaces, received_head, on_data-judge,
}
use node_proxybroker.Judge.Validation.{Proxy, validate, new_request, begin_test, end_test}
use node_proxybroker.Judge.Validation.Entries.{pairs}
use node_proxybroker.Judge.Validation.Interleaved.{validate-ended}
use node_proxybroker.Validator.{is_due, store, build_states}
use node_proxybroker.Validator.Counting.{counted, streak, time_of, counted-streak, store-is_due}

-- A host that matches as it is written.
abbrev literal : Str → Str → Option Str
literal host s = strip_prefix host s

abbrev detector : LevelDetection
detector = record {
  local_regex = record { hosts = codes "10.0.0.7" ∷ []; last_index = 0 };
  proxy_regex = record { hosts = codes "10.1.1.1" ∷ []; last_index = 0 };
  stats = no_stats;
  recv_headers = [];
  level = negsuc 0;
}

abbrev call_headers : List (Str × Str)
call_headers =
    (codes "Via", codes "1.1 10.1.1.1") ∷ (codes "X-Forwarded-For", codes "10.0.0.7") ∷ []

detect-level_by_example :
    (detect literal (add_recv_header detector call_headers)).level
    ≡ pos (
        level_by literal
          (add_recv_header detector call_headers)
          (add_recv_header detector call_headers).recv_headers)
unfolding add_recv_header
detect-level_by_example =
    detect-level_by literal (add_recv_header detector call_headers) (refl, refl) refl

abbrev request : JudgeRequest
request = record {
  id = codes "abc";
  active = true;
  aborted = false;
  judge_connected = false;
  level_detector = some detector;
  monitor = new_monitor true 0;
  has_request = true;
  has_socket = true;
  sockets = false ∷ [];
  errors = [];
  aborts = 0;
}

abbrev refusal : Error
refusal = record { message = codes "ECONNREFUSED"; code = [] }

-- Two timeouts of the socket after the call, the later one first.
abbrev late_timeouts : List (ℕ × ℕ × Error)
late_timeouts = (20, 2, refusal) ∷ (15, 1, refusal) ∷ []

on_judge-level_example : Judged literal 9 call_headers detector http http late_timeouts request
on_judge-level_example =
    on_judge-level literal 9 call_headers request detector http http late_timeouts refl (refl, refl)
      refl

abbrev same_error : Error → Error
same_error e = e

abbrev monitor_events : List MonitorEvent
monitor_events =
    requested
    ∷ connected_
    ∷ received_ (codes "HTTP/1.1 500 No\r\n\r\n")
    ∷ errored 7 refusal
    ∷ closed 8
    ∷ []

run-IsSound_example : IsSound (run same_error (new_monitor true 0) monitor_events)
run-IsSound_example =
    run-IsSound same_error monitor_events (new_monitor true 0) (new_monitor-IsSound true 0)

abbrev result_of : ProtocolType → ProtocolType → JudgeResult
result_of from to = record {
  error = none;
  has_error = false;
  protocol_from = from;
  protocol_to = to;
  start = 0;
  stop = some 5;
  duration = some 5;
  level = pos 1;
  log = [];
}

abbrev results : List JudgeResult
results = result_of https http ∷ result_of http https ∷ result_of http http ∷ []

abbrev service : Judge ℕ
service = record {
  cache = (codes "ab", 1) ∷ [];
  cache_sum = 1;
  inc = 1;
  enabled = true;
  runnable = true;
}

abbrev asleep : Judge ℕ
asleep = record service { enabled = false }

abbrev hash : Str → Str
hash s = codes "f00"

abbrev make : Str → Str → ℕ
make id url = length url

-- A head of two lines that names the one request in the cache.
abbrev noticed : Str
noticed =
    codes "GET /judge/ab HTTP/1.1"
    ++ (13 ∷ 10 ∷ codes "via: x")
    ++ (13 ∷ 10 ∷ 13 ∷ 10 ∷ codes "body")

on_data-judge_example :
    (a : Answer ℕ) × (judge (λ target. some target) service (codes "/judge/ab") ≡ some a)
    × (on_data service noticed ≡ logged_by a (codes "GET /judge/ab HTTP/1.1" ∷ codes "via: x" ∷ []))
unfolding is_secured split_spaces split_crlf received_head index_of
on_data-judge_example =
    on_data-judge (λ target. some target) service noticed (codes "GET") (codes "/judge/ab")
      (codes "HTTP/1.1" ∷ []) refl refl refl

abbrev history : List (Bool × ℕ)
history = (true, 30) ∷ (true, 20) ∷ (false, 10) ∷ []

counted-streak_example :
    ((counted history new_addr).count_success ≡ streak true history)
    × ((counted history new_addr).count_errors ≡ streak false history)
    × ((counted history new_addr).success_since_at ≡ time_of (streak true history) history)
    × ((counted history new_addr).errors_since_at ≡ time_of (streak false history) history)
counted-streak_example = counted-streak history

abbrev no_text : JudgeResult → Str
no_text r = []

abbrev save : IpAddr → IpAddr
save a = record a { id = 7 }

-- A date cut to seconds.
abbrev to_seconds : ℕ → ℕ
to_seconds t = t / 1000 * 1000

to_seconds_le : (t : ℕ) → to_seconds t ≤ t
to_seconds_le t = grind arith

store-is_due_example :
    is_due to_seconds 9500 1
      (store no_text save 9000 (codes "10.1.1.1") 80 (some results) none).addr
    ≡ false
store-is_due_example =
    store-is_due to_seconds no_text save 9000 (codes "10.1.1.1") 80 (some results) none 9500 1
      to_seconds_le (λ a. refl) (omega arith)

abbrev empty_judge : Judge Str
empty_judge = record { cache = []; cache_sum = 0; inc = 7; enabled = true; runnable = true }

abbrev tested_proxy : Proxy Str
tested_proxy = record {
  ip = codes "9.9.9.9";
  port = 80;
  remote = record { remote_ip = codes "1.1.1.1"; http_port = 81; https_port = 82 };
  shorthash = λ s. s;
  make = λ id url. url;
}

-- The tests end in the other order than they began in.
abbrev test_ends : List (Str × Option ℕ)
test_ends =
    (codes "https://1.1.1.1:82-http://9.9.9.9:80-5-8", some 2)
    ∷ (codes "http://1.1.1.1:81-http://9.9.9.9:80-5-7", some 1)
    ∷ []

validate-ended_example :
    ((validate tested_proxy 5 true false test_ends empty_judge).judge.cache ≡ [])
    × ((validate tested_proxy 5 true false test_ends empty_judge).judge.cache_sum ≡ 0)
    × (pairs
          (http, https)
          (map
            (λ (r : (ProtocolType × ProtocolType) × ℕ). r.0)
            (validate tested_proxy 5 true false test_ends empty_judge).results)
        ≡ 1)
unfolding validate new_request begin_test end_test create_request cached delete str_eq show_nat
    variants
validate-ended_example =
    validate-ended tested_proxy 5 true false test_ends empty_judge (http, https) (refl, tt)
      (refl, (refl, tt)) refl refl

supports_protocol-add_remove_example :
    (supports_protocol (add_protocol new_addr http) https ≡ false)
    × (supports_protocol (remove_protocol new_addr http) https ≡ false)
    × (supports_source_protocol (add_source_protocol new_addr http) https ≡ false)
    × (supports_source_protocol (remove_source_protocol new_addr http) https ≡ false)
unfolding supports_protocol supports_source_protocol new_addr
supports_protocol-add_remove_example = supports_protocol-add_remove new_addr http https

abbrev no_log : JudgeResult → Str
no_log r = []

build_states-supports_example :
    (supports_protocol (build_states no_log new_addr (result_of http https ∷ [])).2 https ≡ true)
    × (supports_source_protocol (build_states no_log new_addr (result_of http https ∷ [])).2 https
        ≡ false)
unfolding supports_protocol supports_source_protocol new_addr
build_states-supports_example =
    build_states-supports no_log new_addr (result_of http https ∷ []) https
