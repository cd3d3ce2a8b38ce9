-- ===== src/Tests/Agents.antt =====
-- https_proxy_agent.ts and HttpHeaderTransform.ts at concrete inputs.
use node_proxybroker.Prelude.{
  ◌≤◌, ◌≡◌, refl, true, false, none, some, List, [], ◌∷◌, map, Str, codes, length, str_eq, to_lower,
  index_of, strip_prefix, split_on, trim, parse_int, show_nat,
}
use node_proxybroker.Http.{Error, Headers, parse_data}
use node_proxybroker.Agent.{Options, Call, Event, opened, concat, run, upgrade, status_is_200}
use node_proxybroker.Agent.Numeric.{number_is}
use node_proxybroker.Agent.Chunks.{decision, decision-run-data}
use node_proxybroker.Agent.Calls.{length-calls-run}
use node_proxybroker.Agent.Message.{Proxy, Target, connect_headers, connect_message}
use node_proxybroker.Agent.Received.{parse_data-connect_message}

abbrev endpoint : Options
endpoint = record {
  host = some (codes "example.org");
  hostname = none;
  port = some 443;
  servername = none;
  secure_endpoint = true;
  has_socket = false;
}

abbrev accepted : List Str
accepted = codes "HTTP/1.1 200 OK\r" ∷ codes "\n\r" ∷ codes "\nrest" ∷ []

decision-run-data_example :
    decision (run (map Event.data_event accepted) (opened endpoint))
    ≡ (Call.connected true ∷ [], upgrade endpoint, false, false)
unfolding index_of strip_prefix concat status_is_200 split_on number_is trim parse_int to_lower
decision-run-data_example = decision-run-data endpoint accepted

abbrev denied : List Str
denied = codes "HTTP/1.1 407 Auth\r\n" ∷ codes "\r\nno" ∷ codes "body" ∷ []

abbrev events : List Event
events =
    Event.data_event (codes "HTTP/1.1 502 Bad\r\n\r\n")
    ∷ Event.socket_event false 1
    ∷ Event.error_event (record { message = codes "late"; code = [] })
    ∷ Event.abort_event none
    ∷ Event.abort_event none
    ∷ []

length-calls-run_example : length (run events (opened endpoint)).calls ≤ 2
length-calls-run_example = length-calls-run endpoint events

abbrev upper : Proxy
upper = record {
  headers = (codes "Connection", codes "keep-alive") ∷ (codes "X", codes "1") ∷ [];
  auth = some (codes "user:pw");
}

abbrev plain_target : Target
plain_target = record {
  host = codes "example.org";
  port = 8080;
  secure_endpoint = false;
  proxy_headers = some ((codes "X", codes "2") ∷ []);
}

abbrev unchanged : Error → Error
unchanged e = e

parse_data-connect_message_example :
    parse_data unchanged (connect_message upper plain_target) ≡ record {
      secured = false;
      body = some [];
      headers = some (
          codes
            "Connection: close\r\nX: 2\r\nProxy-Authorization: Basic dXNlcjpwdw==\r\nHost: example.org:8080");
      query = some (codes "CONNECT example.org:8080 HTTP/1.1");
      status_code = none;
      error = none;
    }
unfolding connect_headers str_eq show_nat
parse_data-connect_message_example =
    parse_data-connect_message unchanged upper plain_target refl refl

connect_text :
    connect_message upper plain_target
    ≡ codes
        "CONNECT example.org:8080 HTTP/1.1\r\nConnection: close\r\nX: 2\r\nProxy-Authorization: Basic dXNlcjpwdw==\r\nHost: example.org:8080\r\n\r\n"
unfolding connect_message str_eq show_nat
connect_text = refl

hex_200 : number_is 200 (codes " 0xC8 ") ≡ true
unfolding number_is trim strip_prefix to_lower
hex_200 = refl

exponent_200 : number_is 200 (codes "2.00e+2") ≡ true
unfolding number_is trim strip_prefix to_lower split_on parse_int
exponent_200 = refl

not_200 : number_is 200 (codes "200x") ≡ false
unfolding number_is trim strip_prefix to_lower split_on parse_int
not_200 = refl

abbrev no_change : Error → Error
no_change e = e

abbrev added : Headers
added = (codes "Via", codes "broker") ∷ []
