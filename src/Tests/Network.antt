-- ===== src/Tests/Network.antt =====
-- src/libs/server and RequestHelper.ts at concrete inputs.
use node_proxybroker.Prelude.{
  ℕ, ◌+◌, ◌≤◌, ◌≡◌, refl, true, false, none, some, List, [], ◌∷◌, Str, codes, length, is_some, all,
  arith, index_of, strip_prefix,
}
use node_proxybroker.Http.{Error, parse_data, is_secured, split_head}
use node_proxybroker.Http as Http
use node_proxybroker.Http.RoundTrip.{build-parse_data}
use node_proxybroker.Server.Socket.{
  SocketHandle, Header, SocketEvent, chunk, timed_out, failed, closed, on_events, build,
}
use node_proxybroker.Server.Socket.Flow.{received}
use node_proxybroker.Server.Socket.Tls.{on_events-kept}
use node_proxybroker.Server.Replies.{
  error_upstream, reply_headers, json_chars, parse_data-error_upstream,
}
use node_proxybroker.Server.Target.{Options, Request, Url, chooser, ip_addr}
use node_proxybroker.Server.Proxy.{Attempt, serve}
use node_proxybroker.Server.Proxy.Outcome.{start-no_fallback}
use node_proxybroker.Server.Proxy.Potential.{start}
use node_proxybroker.Server.Proxy.Termination.{start-bounded, start-answered}
use node_proxybroker.Server.Handles.{Server}

abbrev same_error : Error → Error
same_error e = e

abbrev request_text : Str
request_text = codes "GET / HTTP/1.1\r\nHost: example.org\r\n\r\nbody"

build-parse_data_example : Http.build (parse_data same_error request_text) ≡ some request_text
unfolding is_secured split_head index_of strip_prefix
build-parse_data_example = build-parse_data same_error request_text refl (ground arith)

abbrev host_header : Header
host_header = record { key = codes "host"; org_key = codes "Host"; value = codes "example.org" }

abbrev fallback_header : Header
fallback_header = record {
  key = codes "proxy-select-fallback";
  org_key = codes "Proxy-Select-Fallback";
  value = codes "true";
}

abbrev read_handle : SocketHandle
read_handle = record {
  id = 0;
  start = 5;
  repeat = 0;
  stop = none;
  duration = none;
  finished = false;
  buffer = some (codes "x");
  error = none;
  socket_error = false;
  status_code = none;
  ssl_detect = false;
  query = some (codes "GET / HTTP/1.1");
  headers_list = host_header ∷ fallback_header ∷ [];
  body = some (codes "b");
  ssl = false;
  timeout = 1000;
  url = none;
  destroyed = false;
}

abbrev socket_events : List (ℕ × SocketEvent)
socket_events = (6, chunk (codes "more")) ∷ (7, timed_out) ∷ (8, closed) ∷ []

-- The last chunk begins like a TLS record.
abbrev broken_body : List (ℕ × SocketEvent)
broken_body = (6, chunk (codes "more")) ∷ (7, chunk (0 ∷ 1 ∷ [])) ∷ (8, chunk (codes "z")) ∷ []

on_events-kept_example :
    let v = on_events same_error read_handle broken_body in
    (v.buffer ≡ some (codes "xmore"))
    × (v.query ≡ some (codes "GET / HTTP/1.1"))
    × (v.body ≡ some (codes "bmore"))
    × (v.headers_list ≡ host_header ∷ fallback_header ∷ [])
    × (v.ssl_detect ≡ true)
unfolding received
on_events-kept_example =
    on_events-kept same_error broken_body read_handle (codes "x") (codes "GET / HTTP/1.1")
      (codes "b") (host_header ∷ fallback_header ∷ []) (refl, refl, refl, refl, refl)

abbrev request : Request
request = record {
  url = codes "/";
  http_version = codes "1.1";
  headers = [];
  remote_address = codes "10.0.0.1";
  local_address = codes "10.0.0.2";
  local_port = 3128;
}

abbrev options : Options
options = record {
  level = 3;
  repeat_limit = 1;
  to_proxy = true;
  target = chooser;
  proxy_log = true;
  forward_timeout = 1000;
  incoming_timeout = 1000;
}

abbrev parse_url : Str → Url
parse_url s = record { protocol = some (codes "http:"); hostname = s; port = some (codes "80") }

abbrev refused : Attempt
refused = record {
  choice = ip_addr true (codes "10.1.1.1") 8080;
  client_before = [];
  client_during = [];
  id = 1;
  opened = 10;
  downstream = (11, failed (record { message = codes "ECONNREFUSED"; code = [] })) ∷ [];
  log_fails = false;
}

start-bounded_example :
    length
      (serve same_error parse_url options request
        (start options request false read_handle)
        (refused ∷ refused ∷ refused ∷ [])).openings
    ≤ 1 + 2
start-bounded_example =
    start-bounded same_error parse_url options request false read_handle
      (refused ∷ refused ∷ refused ∷ []) refl

start-answered_example :
    is_some
      (serve same_error parse_url options request
        (start options request false read_handle)
        (refused ∷ refused ∷ refused ∷ [])).reply
    ≡ true
start-answered_example =
    start-answered same_error parse_url options request false read_handle
      (refused ∷ refused ∷ refused ∷ []) refl refl (omega arith)

start-no_fallback_example :
    all
      (λ w. w.over_proxy)
      (serve same_error parse_url options request
        (start options request false read_handle)
        (refused ∷ refused ∷ [])).openings
    ≡ true
start-no_fallback_example =
    start-no_fallback same_error parse_url options request false read_handle
      (refused ∷ refused ∷ []) refl refl

abbrev server : Server
server = record { handles = read_handle ∷ []; inc = 1; emptied = 0 }

abbrev object_json : Error → Str
object_json e = codes "{}"

parse_data-error_upstream_example :
    parse_data same_error
      (error_upstream object_json (record { message = codes "a\r\nb"; code = [] }) (codes "1.1"))
    ≡ record {
      secured = false;
      body = some [];
      headers = some (
          codes
            "Proxy-Broker: Failed\r\nProxy-Broker-Error: {\"error\":{},\"message\":\"a\\r\\nb\"}\r\nProxy-agent: Proxy-Broker");
      query = some (codes "HTTP/1.1 504 Gateway Time-out");
      status_code = some 504;
      error = some (record { message = codes "HTTP/1.1 504 Gateway Time-out"; code = [] });
    }
unfolding reply_headers json_chars
parse_data-error_upstream_example =
    parse_data-error_upstream object_json same_error
      (record { message = codes "a\r\nb"; code = [] }) (codes "1.1") refl refl
