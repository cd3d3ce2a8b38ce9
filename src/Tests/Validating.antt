-- ===== src/Tests/Validating.antt =====
-- The work of ProxyValidator.ts and ProxyValidateTask.ts, and the bootstrap of the judge and of a server,
-- at concrete inputs.
use mathlib.Core.List.{Perm}
use node_proxybroker.Prelude.{
  ℕ, ◌≤◌, ◌≡◌, refl, true, false, none, some, List, [], ◌∷◌, ◌++◌, Str, codes, length, All,
  strip_prefix, str_eq, arith, pos, map, join, trim, parse_int, if◌then◌else◌,
}
use node_proxybroker.Entities.{http}
use node_proxybroker.Judge.Results.{JudgeResult}
use node_proxybroker.Judge.Monitor.{Message, ReqResEvent, osc03, orq03}
use node_proxybroker.Judge.Messages.{template, log_to_string}
use node_proxybroker.Judge.Messages.Written.{InOrder, NoGap, gaps, written, log_to_string-written}
use node_proxybroker.Judge.Selftest.{Bootstrap, Answers, prepare_judge, prepare_judge-enabled}
use node_proxybroker.Provider.FreeLists.{
  ProxyType, ListVariant, entry_at, get_lists, matched_ids, list_url,
}
use node_proxybroker.Provider.FreeLists.Loaded.{IsListed, IsKept, get_lists-IsListed}
use node_proxybroker.Provider.Fetched.{Distinct}
use node_proxybroker.Provider.Page.{span}
use node_proxybroker.Provider.Scan.{scan}
use node_proxybroker.Server.Target.{Target, chooser}
use node_proxybroker.Server.Handlers.{over_proxy}
use node_proxybroker.Server.Setup.{Given, initialize, initialize-over_proxy}
use node_proxybroker.Validator.{is_stored}
use node_proxybroker.Validator.Task.{Exec, ExecEvent, judge_results, exec}
use node_proxybroker.Validator.Task.Rows.{all_rows, proxies, exec-rows}
use node_proxybroker.Validator.Work.{WorkEvent, new_work, on_empty, work, works, without, end_do}
use node_proxybroker.Validator.Work.Alone.{IsIdle, awaits, on_empty-works}
use node_proxybroker.Validator.Work.Opened.{on_empty-connects}

abbrev elite : JudgeResult
elite = record {
  error = none;
  has_error = false;
  protocol_from = http;
  protocol_to = http;
  start = 10;
  stop = some 30;
  duration = some 20;
  level = pos 1;
  log = [];
}

new_work-IsIdle : IsIdle new_work
new_work-IsIdle = record { none_waking = refl; none_connecting = refl; none_testing = refl }

on_empty-works_example :
    let v = on_empty (
      works true new_work (awaits true ((1, true, some (elite ∷ [])) ∷ (2, true, some []) ∷ []))) in
    (v.stored ≡ 1 ∷ [])
    × (v.opened ≡ 1)
    × (v.closed ≡ 1)
    × (v.enabled ≡ false)
    × (v.connection ≡ false)
    × (v.is_empty ≡ true)
    × IsIdle v
unfolding is_stored
on_empty-works_example =
    on_empty-works true new_work 1 true (some (elite ∷ [])) ((2, true, some []) ∷ [])
      new_work-IsIdle refl refl

abbrev crossed : List WorkEvent
crossed =
    WorkEvent.pushed 1
    ∷ WorkEvent.begun 1
    ∷ WorkEvent.begun 2
    ∷ WorkEvent.woken 2
    ∷ WorkEvent.woken 1
    ∷ WorkEvent.connected 2 true
    ∷ WorkEvent.validated 2 (some (elite ∷ []))
    ∷ WorkEvent.connected 1 false
    ∷ WorkEvent.emptied
    ∷ WorkEvent.closed_connection
    ∷ WorkEvent.rested
    ∷ []

-- Two jobs that begin before either has woken the judge.
abbrev begun_twice : List WorkEvent
begun_twice =
    WorkEvent.begun 1
    ∷ WorkEvent.begun 2
    ∷ WorkEvent.woken 1
    ∷ WorkEvent.woken 2
    ∷ WorkEvent.connected 1 true
    ∷ WorkEvent.connected 2 true
    ∷ WorkEvent.validated 1 none
    ∷ WorkEvent.validated 2 none
    ∷ []

on_empty-connects_example :
    let v = on_empty (works true new_work begun_twice) in
    (v.opened ≡ 2) × (v.closed ≡ 1) × (v.connection ≡ false)
unfolding works work without end_do
on_empty-connects_example = on_empty-connects true new_work begun_twice refl refl

abbrev elite_lists : ListVariant
elite_lists = record {
  type = codes "elite";
  path = codes "elite.html";
  path_load = codes "elite";
  flags = ProxyType.http_anon;
}

abbrev site : Str → Str
site u =
    if str_eq u (codes "http://l/elite.html")
    then codes "<a href='elite/d17.html'>new</a>"
    else codes "&gt;10.0.0.1&lt;/td&gt;&lt;td&gt;3128&lt;"

get_lists-IsListed_example :
    All
      (IsListed (codes "http://l") elite_lists site)
      (record { ip = codes "10.0.0.1"; port = 3128 } ∷ [])
    × Distinct (record { ip = codes "10.0.0.1"; port = 3128 } ∷ [])
    × All
        (λ id.
          All
            (IsKept (record { ip = codes "10.0.0.1"; port = 3128 } ∷ []))
            (scan entry_at 0 (site (list_url (codes "http://l") elite_lists id))))
        (codes "17" ∷ [])
unfolding get_lists matched_ids scan strip_prefix span str_eq parse_int
get_lists-IsListed_example = get_lists-IsListed (codes "http://l") elite_lists site

abbrev given_options : Given
given_options = record {
  level = none;
  repeat_limit = some 5;
  to_proxy = some true;
  target = Target.no_target;
  proxy_log = false;
  forward_timeout = none;
  incoming_timeout = none;
}

initialize-over_proxy_example :
    let o = initialize true given_options in
    (over_proxy o false ≡ true)
    × (o.to_proxy ≡ true)
    × (o.target ≡ chooser)
    × (o.level ≡ 3)
    × (o.repeat_limit ≡ 5)
    × (o.forward_timeout ≡ 1000)
    × (o.incoming_timeout ≡ 30000)
unfolding initialize
initialize-over_proxy_example = initialize-over_proxy true false given_options

abbrev resting : Bootstrap ℕ
resting = record {
  judge = record { cache = []; cache_sum = 0; inc = 0; enabled = false; runnable = false };
  remote_ip = codes "127.0.0.1";
}

abbrev environment : Answers
environment = record {
  looked_up = some (codes "10.0.0.7");
  starts = true;
  stops = true;
  ping_http = true;
  ping_https = false;
}

prepare_judge-enabled_example :
    ((prepare_judge true true environment resting).1.judge.enabled ≡ false)
    × ((prepare_judge true true environment resting).0 ≡ some false)
    × ((prepare_judge true true environment resting).1.remote_ip ≡ codes "10.0.0.7")
prepare_judge-enabled_example = prepare_judge-enabled true true environment resting refl

abbrev two_proxies : Exec
two_proxies = record {
  waiting =
      record { ip = codes "10.0.0.1"; port = 80 }
      ∷ record { ip = codes "10.0.0.2"; port = 80 }
      ∷ [];
  running = [];
  ended = [];
  results = [];
}

abbrev one_at_a_time : List ExecEvent
one_at_a_time =
    ExecEvent.acquired
    ∷ ExecEvent.acquired
    ∷ ExecEvent.released 0 (some (judge_results (codes "10.0.0.1") 80 (elite ∷ [])))
    ∷ ExecEvent.acquired
    ∷ ExecEvent.released 0 none
    ∷ []

exec-rows_example :
    let f = exec 1 two_proxies one_at_a_time in
    (length f.running ≤ 1)
    × (f.results ≡ all_rows one_at_a_time)
    × Perm (proxies f) (proxies two_proxies)
unfolding exec
exec-rows_example =
    exec-rows 1 two_proxies one_at_a_time (omega arith) (tt, (tt, (refl, (tt, (refl, tt)))))

abbrev shown : Message → Str
shown m = template m

abbrev entries : List ReqResEvent
entries =
    record { nr = 1; message = osc03; prefix = codes "*" }
    ∷ record { nr = 0; message = orq03; prefix = codes "*" }
    ∷ []

log_to_string-written_example :
    (lines : List Str) × (sorted : List ReqResEvent) × (log_to_string shown (codes "|") entries
      ≡ join (codes "|") lines)
    × InOrder sorted
    × Perm sorted entries
    × (written lines
        ≡ written (map (λ e. trim (e.prefix ++ (codes " " ++ shown e.message))) sorted))
    × (gaps false lines
        ≡ gaps false (map (λ e. trim (e.prefix ++ (codes " " ++ shown e.message))) sorted))
    × NoGap false lines
log_to_string-written_example = log_to_string-written shown (codes "|") entries
