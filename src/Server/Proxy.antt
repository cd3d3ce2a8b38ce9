-- ===== src/Server/Proxy.antt =====
-- src/libs/server/ProxyServer.ts: how a request is passed on, over proxies that are tried one after
-- the other or directly. What the outside does in one connection attempt (the proxy chosen, what
-- happens on the two sockets, whether the log fails) is an `Attempt`; a request is served against a
-- list of them. An `await` that is never answered leaves the request waiting.
pub mod Select
pub mod Potential
pub mod Termination
pub mod Outcome
use mathlib.Core.Option
use node_proxybroker.Prelude.{
  ℕ, suc, ◌+◌, ◌≡◌, Bool, true, false, not, ◌&&◌, ◌||◌, Option, none, some, List, [], ◌∷◌, ◌++◌,
  Str, codes, str_eq, is_empty, to_lower, parse_int, find, is_some, if◌then◌else◌, ◌==◌, ltb, leb,
  show_nat, crlf,
}
use node_proxybroker.Address.{match_address}
use node_proxybroker.Http.{Error, Headers}
use node_proxybroker.Server.Socket.{
  SocketHandle, SocketEvent, new_handle, remove_header, set_header, get_headers, build, has_error,
  has_socket_error, on_events,
}
use node_proxybroker.Server.Target.{
  Request, Target, Options, Url, UrlBase, Choice, Found, get_header, select_proxy, without_colon,
  null_protocol, parsed_url, chosen_url, target_url, get_target, no_target, fixed, chooser, refuses,
  ip_addr, url_base, other, threw, at_url, no_url,
}
use node_proxybroker.Server.Handlers.{
  via_text, without_select, on_proxy_request, has_fallback_header, has_selected_proxy, Reply, Next,
  bump, get_socket_handle, has_target, over_proxy, on_server_connect, no_connection, root,
  check_repeats, reply_error, handle_upstream_after_finished_request,
  handle_response_after_finished_request, after_finished, error_upstream, error_response, ended,
  unanswered, extern, direct, done,
}

-- One connection: what the target function answers, the events on the client's socket before the
-- connection is opened and while it is used, those on the new socket, and whether the log fails.
pub record Attempt : Type 0 where
  pub choice : Choice
  pub client_before : List (ℕ × SocketEvent)
  pub client_during : List (ℕ × SocketEvent)
  pub id : ℕ
  pub opened : ℕ
  pub downstream : List (ℕ × SocketEvent)
  pub log_fails : Bool

-- A direct connection is opened with no wait before.
abbrev client_events : Attempt → List (ℕ × SocketEvent)
client_events a = a.client_before ++ a.client_during

-- A socket that is opened: where to, what is written first, and the headers forced on a tunnel.
pub record Opening : Type 0 where
  pub over_proxy : Bool
  pub hostname : Str
  pub port : ℕ
  pub head : Option Str
  pub forced : Headers

-- `none` as next step: the new socket has not finished.
pub record Turn : Type 0 where
  pub opening : Option Opening
  pub next : Option Next

abbrev stops : Reply → Turn
stops reply = record { opening = none; next = some (done reply) }

abbrev connect_text : Request → Str
connect_text r =
    codes "CONNECT "
    ++ (r.url
        ++ (codes " HTTP/"
            ++ (r.http_version ++ (crlf ++ (codes "Host: " ++ (r.url ++ (crlf ++ crlf)))))))

-- `request.url.replace(/^\//, '')`
unfoldable pub without_slash : Str → Str
without_slash [] = []
without_slash (c ∷ s) = if c == b'/' then s else c ∷ s

abbrev is_https : Option Str → Bool
is_https none = false
is_https (some p) = str_eq p (codes "https:")

-- The port of a url that names none.
abbrev port_or_default : Url → ℕ
port_or_default u = elim u.port [
  | some p ↦ parse_int p
  | none ↦ if is_https u.protocol then 443 else 80
]

-- The sockets opened for a request, and what it ends with; `none` while it waits.
pub record Served : Type 0 where
  pub openings : List Opening
  pub reply : Option Reply

abbrev onto : Option Opening → List Opening → List Opening
onto none xs = xs
onto (some x) xs = x ∷ xs

abbrev waiting : Option Opening → Served
waiting x = record { openings = onto x []; reply = none }

abbrev opened_first : Option Opening → Served → Served
opened_first x s = record s { openings = onto x s.openings }

module _ (handle_exception : Error → Error) (url_parse : Str → Url) (o : Options)
    (r : Request) where
  -- The wait for the new socket, and the handler that follows it.
  unfoldable pub when_finished :
      Bool → Bool → SocketHandle → List (ℕ × SocketEvent) → Attempt → SocketHandle → Opening → Turn
  unfolding after_finished
  when_finished ssl logs rh during a fresh opening =
      let h = on_events handle_exception fresh a.downstream in
      let client = on_events handle_exception rh during in
      record {
        opening = some opening;
        next =
            if not h.finished
            then none
            else if logs && (o.proxy_log && a.log_fails)
            then some (done unanswered)
            else some (after_finished ssl o r client h);
      }

  -- `connectToExternProxy`
  unfoldable pub connect_to_extern_proxy : Bool → SocketHandle → Attempt → Turn
  unfolding get_target when_finished
  connect_to_extern_proxy ssl rh a =
      let client = on_events handle_exception rh a.client_before in
      elim (get_target url_parse o r.headers a.choice) [
        | threw e ↦ stops (if ssl then error_upstream e else error_response e)
        | no_url ↦ stops unanswered
        | at_url u ↦ elim u.port [
          | none ↦ stops unanswered
          | some port ↦
              when_finished ssl true client a.client_during a
                (new_handle a.id a.opened ssl o.forward_timeout (some r.url))
                (record {
                  over_proxy = true;
                  hostname = u.hostname;
                  port = port;
                  head = if ssl then some (connect_text r) else build client;
                  forced = [];
                })
        ]
      ]

  -- The rest of `onServerConnect`, with no proxy.
  unfoldable pub connect_tunnel : SocketHandle → Attempt → Turn
  unfolding when_finished
  connect_tunnel rh a =
      let u = url_parse (codes "http://" ++ r.url) in
      elim u.port [
        | none ↦ stops unanswered
        | some p ↦
            when_finished true false rh (client_events a) a
              (new_handle a.id a.opened true 10000 (some r.url))
              (record {
                over_proxy = false;
                hostname = u.hostname;
                port = parse_int p;
                head = none;
                forced = get_headers rh;
              })
      ]

  -- The rest of `root`, with no proxy.
  unfoldable pub connect_server : SocketHandle → Attempt → Turn
  unfolding when_finished without_slash
  connect_server rh a =
      let target = without_slash r.url in
      let u = url_parse target in
      when_finished false false rh (client_events a) a
        (new_handle a.id a.opened false o.incoming_timeout (some target))
        (record {
          over_proxy = false;
          hostname = u.hostname;
          port = port_or_default u;
          head = build rh;
          forced = [];
        })

  unfoldable pub connect : Bool → Bool → SocketHandle → Attempt → Turn
  unfolding connect_to_extern_proxy connect_tunnel connect_server
  connect false ssl rh a = connect_to_extern_proxy ssl rh a
  connect true true rh a = connect_tunnel rh a
  connect true false rh a = connect_server rh a

  -- The calls that follow one another until the request is done with.
  unfoldable pub serve : Next → List Attempt → Served
  unfolding connect
  serve (done reply) _ = record { openings = []; reply = some reply }
  serve (extern ssl rh) [] = waiting none
  serve (direct ssl rh) [] = waiting none
  serve (extern ssl rh) (a ∷ rest) =
      let t = connect false ssl rh a in
      elim t.next [ none ↦ waiting t.opening | some n ↦ opened_first t.opening (serve n rest) ]
  serve (direct ssl rh) (a ∷ rest) =
      let t = connect true ssl rh a in
      elim t.next [ none ↦ waiting t.opening | some n ↦ opened_first t.opening (serve n rest) ]
