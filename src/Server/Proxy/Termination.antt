-- ===== src/Server/Proxy/Termination.antt =====
-- src/libs/server/ProxyServer.ts: how long a request is tried, and whether it ends.
use node_proxybroker.Prelude.{
  ℕ, suc, ◌+◌, ◌≤◌, ◌≡◌, refl, Bool, true, false, Option, none, some, List, [], ◌∷◌, ◌++◌, Str,
  codes, parse_int, all, Option-cases, inl, inr, arith, if◌then◌else◌, is_some, length,
}
use node_proxybroker.Http.{Error}
use node_proxybroker.Server.Socket.{
  SocketHandle, SocketEvent, on_events, new_handle, build, get_headers,
}
use node_proxybroker.Server.Target.{Options, Request, Url, get_target, threw, no_url, at_url}
use node_proxybroker.Server.Handlers.{
  Next, extern, direct, done, root, on_server_connect, error_upstream, error_response, unanswered,
  get_socket_handle,
}
use node_proxybroker.Server.Proxy.{
  Attempt, Served, serve, connect, Turn, Opening, waiting, opened_first, without_slash,
  port_or_default, client_events, stops, connect_text, when_finished, connect_to_extern_proxy,
  connect_tunnel, connect_server,
}
use node_proxybroker.Server.Proxy.Select.{on_proxy_request-no_fallback}
use node_proxybroker.Server.Proxy.Potential.{
  potential, cost, start, on_proxy_request-repeat, on_events-potential, after_finished-cost, ends,
  next_cost, on_events-ends,
}

module _ (x : Error → Error) (url_parse : Str → Url) (o : Options) (r : Request) where
  -- The turn costs no more than what was left, and it is over where the new socket ended.
  abbrev IsPaid : SocketHandle → Attempt → Turn → Type 0
  IsPaid rh a t = (next_cost o t.next ≤ potential o rh) × (ends a ≡ true → is_some t.next ≡ true)

  when_finished-IsPaid :
      (ssl logs : Bool) (rh client : SocketHandle) (during : List (ℕ × SocketEvent)) (a : Attempt)
      (fresh : SocketHandle) (opening : Opening)
      → potential o client ≤ potential o rh
      → IsPaid rh a (when_finished x url_parse o r ssl logs client during a fresh opening)
  unfolding when_finished
  when_finished-IsPaid ssl logs rh client during a fresh opening le = (
    ground (
      arith,
      on_events-potential x o during client,
      after_finished-cost x o ssl r (on_events x client during) (on_events x fresh a.downstream),
    ),
    λ e. ground (arith, on_events-ends x a.downstream fresh e),
  )

  connect_to_extern_proxy-IsPaid :
      (ssl : Bool) (rh : SocketHandle) (a : Attempt)
      → IsPaid rh a (connect_to_extern_proxy x url_parse o r ssl rh a)
  unfolding connect_to_extern_proxy
  connect_to_extern_proxy-IsPaid ssl rh a =
      let client = on_events x rh a.client_before in
      elim (get_target url_parse o r.headers a.choice)
        as (λ f. IsPaid rh a (elim f as (λ _. Turn) [
          | threw e ↦ stops (if ssl then error_upstream e else error_response e)
          | no_url ↦ stops unanswered
          | at_url u ↦ elim u.port as (λ _. Turn) [
            | none ↦ stops unanswered
            | some port ↦
                when_finished x url_parse o r ssl true client a.client_during a
                  (new_handle a.id a.opened ssl o.forward_timeout (some r.url))
                  (record {
                    over_proxy = true;
                    hostname = u.hostname;
                    port = port;
                    head = if ssl then some (connect_text r) else build client;
                    forced = [];
                  })
          ]
        ])) [
          | threw e ↦ (omega arith, λ _. refl)
          | no_url ↦ (omega arith, λ _. refl)
          | at_url u ↦
              elim u.port
                as (λ (p : Option ℕ). IsPaid rh a (elim p as (λ _. Turn) [
                  | none ↦ stops unanswered
                  | some port ↦
                      when_finished x url_parse o r ssl true client a.client_during a
                        (new_handle a.id a.opened ssl o.forward_timeout (some r.url))
                        (record {
                          over_proxy = true;
                          hostname = u.hostname;
                          port = port;
                          head = if ssl then some (connect_text r) else build client;
                          forced = [];
                        })
                ])) [
                  | none ↦ (omega arith, λ _. refl)
                  | some port ↦
                      when_finished-IsPaid ssl true rh client a.client_during a _
                        (record {
                          over_proxy = true;
                          hostname = u.hostname;
                          port = port;
                          head = if ssl then some (connect_text r) else build client;
                          forced = [];
                        })
                        (on_events-potential x o a.client_before rh)
                ]
        ]

  connect_tunnel-IsPaid :
      (rh : SocketHandle) (a : Attempt) → IsPaid rh a (connect_tunnel x url_parse o r rh a)
  unfolding connect_tunnel
  connect_tunnel-IsPaid rh a =
      let u = url_parse (codes "http://" ++ r.url) in
      elim u.port
        as (λ (p : Option Str). IsPaid rh a (elim p as (λ _. Turn) [
          | none ↦ stops unanswered
          | some p ↦
              when_finished x url_parse o r true false rh (client_events a) a
                (new_handle a.id a.opened true 10000 (some r.url))
                (record {
                  over_proxy = false;
                  hostname = u.hostname;
                  port = parse_int p;
                  head = none;
                  forced = get_headers rh;
                })
        ])) [
          | none ↦ (omega arith, λ _. refl)
          | some p ↦
              when_finished-IsPaid true false rh rh (client_events a) a _
                (record {
                  over_proxy = false;
                  hostname = u.hostname;
                  port = parse_int p;
                  head = none;
                  forced = get_headers rh;
                })
                (omega arith)
        ]

  connect_server-IsPaid :
      (rh : SocketHandle) (a : Attempt) → IsPaid rh a (connect_server x url_parse o r rh a)
  unfolding connect_server without_slash
  connect_server-IsPaid rh a =
      when_finished-IsPaid false false rh rh (client_events a) a _
        (record {
          over_proxy = false;
          hostname = (url_parse (without_slash r.url)).hostname;
          port = port_or_default (url_parse (without_slash r.url));
          head = build rh;
          forced = [];
        })
        (omega arith)

  connect-IsPaid :
      (no_proxy ssl : Bool) (rh : SocketHandle) (a : Attempt)
      → IsPaid rh a (connect x url_parse o r no_proxy ssl rh a)
  unfolding connect
  connect-IsPaid false ssl rh a = connect_to_extern_proxy-IsPaid ssl rh a
  connect-IsPaid true true rh a = connect_tunnel-IsPaid rh a
  connect-IsPaid true false rh a = connect_server-IsPaid rh a

  -- What a turn leads to.
  abbrev after : Turn → List Attempt → Served
  after t rest = elim t.next [
    | none ↦ waiting t.opening
    | some n ↦ opened_first t.opening (serve x url_parse o r n rest)
  ]

  after-bounded :
      (t : Turn) (rest : List Attempt) (k : ℕ)
      → next_cost o t.next ≤ k
      → ((n : Next) → length (serve x url_parse o r n rest).openings ≤ cost o n)
      → length (after t rest).openings ≤ suc k
  after-bounded t rest k le h = elim (Option-cases t.next) [
    | inl e ↦ ground (arith, e)
    | inr (n, e) ↦ ground (arith, e, h n)
  ]

  serve-bounded :
      (n : Next) (rest : List Attempt) → length (serve x url_parse o r n rest).openings ≤ cost o n
  unfolding serve
  serve-bounded (done reply) rest = omega arith
  serve-bounded (extern ssl rh) [] = omega arith
  serve-bounded (direct ssl rh) [] = omega arith
  serve-bounded (extern ssl rh) (a ∷ rest) =
      after-bounded _ rest _ (connect-IsPaid false ssl rh a).0 (λ n. serve-bounded n rest)
  serve-bounded (direct ssl rh) (a ∷ rest) =
      after-bounded _ rest _ (connect-IsPaid true ssl rh a).0 (λ n. serve-bounded n rest)

  after-answered :
      (t : Turn) (rest : List Attempt) (k : ℕ)
      → next_cost o t.next ≤ k
      → is_some t.next ≡ true
      → k ≤ length rest
      → ((n : Next) → cost o n ≤ length rest → is_some (serve x url_parse o r n rest).reply ≡ true)
      → is_some (after t rest).reply ≡ true
  after-answered t rest k le over enough h = elim (Option-cases t.next) [
    | inl e ↦ ground (arith, e)
    | inr (n, e) ↦ ground (arith, e, h n)
  ]

  serve-answered :
      (n : Next) (rest : List Attempt)
      → all ends rest ≡ true
      → cost o n ≤ length rest
      → is_some (serve x url_parse o r n rest).reply ≡ true
  unfolding serve
  serve-answered (done reply) rest e le = refl
  serve-answered (extern ssl rh) [] e le = absurd (omega arith)
  serve-answered (direct ssl rh) [] e le = absurd (omega arith)
  serve-answered (extern ssl rh) (a ∷ rest) e le =
      let paid = connect-IsPaid false ssl rh a in
      after-answered _ rest (potential o rh) paid.0 (paid.1 (ground arith)) (omega arith)
        (λ n. serve-answered n rest (ground arith))
  serve-answered (direct ssl rh) (a ∷ rest) e le =
      let paid = connect-IsPaid true ssl rh a in
      after-answered _ rest (potential o rh) paid.0 (paid.1 (ground arith)) (omega arith)
        (λ n. serve-answered n rest (ground arith))

  started-cost :
      (ssl : Bool) (rh : SocketHandle)
      → rh.repeat ≡ 0
      → cost o (start o r ssl rh) ≤ o.repeat_limit + 2
  unfolding root on_server_connect get_socket_handle
  started-cost true rh z =
      ground (arith, on_proxy_request-repeat o r rh, on_proxy_request-no_fallback o r rh)
  started-cost false rh z =
      ground (arith, on_proxy_request-repeat o r rh, on_proxy_request-no_fallback o r rh)

  -- For a request that has not been repeated yet, a tunnel or not, whatever the target function, the
  -- sockets and the log do: at most `repeat_limit + 2` sockets are opened for it.
  pub start-bounded :
      (ssl : Bool) (rh : SocketHandle) (rest : List Attempt)
      → rh.repeat ≡ 0
      → length (serve x url_parse o r (start o r ssl rh) rest).openings ≤ o.repeat_limit + 2
  start-bounded ssl rh rest z =
      omega (arith, serve-bounded (start o r ssl rh) rest, started-cost ssl rh z)

  -- A request that has not been repeated yet is done with, by a reply or by an end without one, once `repeat_limit + 2`
  -- connection attempts in a row have ended by an error, a timeout or a close of the new socket.
  pub start-answered :
      (ssl : Bool) (rh : SocketHandle) (rest : List Attempt)
      → rh.repeat ≡ 0
      → all ends rest ≡ true
      → o.repeat_limit + 2 ≤ length rest
      → is_some (serve x url_parse o r (start o r ssl rh) rest).reply ≡ true
  start-answered ssl rh rest z e le =
      serve-answered (start o r ssl rh) rest e (omega (arith, started-cost ssl rh z))
