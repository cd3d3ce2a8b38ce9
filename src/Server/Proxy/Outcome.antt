-- ===== src/Server/Proxy/Outcome.antt =====
-- `ProxyServer`: which connections are opened for a request whose head has been read.
use node_proxybroker.Prelude.{
  ℕ, ◌≡◌, refl, Bool, true, false, Option, none, some, List, [], ◌∷◌, Str, all, Option-cases, inl,
  inr, arith, if◌then◌else◌, is_some,
}
use node_proxybroker.Http.{Error}
use node_proxybroker.Server.Socket.{
  SocketHandle, SocketEvent, chunk, timed_out, failed, closed, on_event, on_events, new_handle,
  on_data, finish, on_error, on_timeout, on_close, build,
}
use node_proxybroker.Server.Target.{get_target, threw, no_url, at_url, Options, Request, Url}
use node_proxybroker.Server.Handlers.{
  error_upstream, error_response, unanswered, Next, extern, direct, done, after_finished,
  has_fallback_header, root, on_server_connect, over_proxy, get_socket_handle,
  handle_upstream_after_finished_request, handle_response_after_finished_request,
}
use node_proxybroker.Server.Proxy.{
  Turn, Opening, stops, connect_text, waiting, opened_first, when_finished, connect_to_extern_proxy,
  connect, Attempt, Served, serve,
}
use node_proxybroker.Server.Proxy.Select.{on_proxy_request-no_fallback}
use node_proxybroker.Server.Proxy.Potential.{start, on_proxy_request-repeat}

-- The head has been read, and it has no fallback header.
abbrev IsSettled : SocketHandle → Type 0
IsSettled s = (is_some s.buffer ≡ true) × (has_fallback_header s ≡ false)

-- What follows goes over a proxy, with such a handle.
abbrev IsProxied : Next → Type 0
IsProxied (extern ssl s) = IsSettled s
IsProxied (direct ssl s) = ⊥
IsProxied (done reply) = Unit

module _ (x : Error → Error) where
  on_event-IsSettled :
      (e : ℕ × SocketEvent) (s : SocketHandle) → IsSettled s → IsSettled (on_event x s e).0
  unfolding on_event on_data on_error on_timeout on_close finish has_fallback_header
  on_event-IsSettled (now, chunk d) s h = ground arith
  on_event-IsSettled (now, timed_out) s h = ground arith
  on_event-IsSettled (now, failed e) s h = ground arith
  on_event-IsSettled (now, closed) s h = ground arith

  on_events-IsSettled :
      (es : List (ℕ × SocketEvent)) (s : SocketHandle) → IsSettled s → IsSettled (on_events x s es)
  unfolding on_events
  on_events-IsSettled [] s h = h
  on_events-IsSettled (e ∷ es) s h = on_events-IsSettled es _ (on_event-IsSettled e s h)

after_finished-IsProxied :
    (ssl : Bool) (o : Options) (r : Request) (rh h : SocketHandle)
    → IsSettled rh
    → IsProxied (after_finished ssl o r rh h)
unfolding after_finished handle_upstream_after_finished_request
    handle_response_after_finished_request has_fallback_header
after_finished-IsProxied true o r rh h k = ground arith
after_finished-IsProxied false o r rh h k = ground arith

-- The step after a turn, if there is one, is proxied, and so is the connection that it opens.
abbrev NextProxied : Option Next → Type 0
NextProxied none = Unit
NextProxied (some n) = IsProxied n

abbrev opening_proxied : Option Opening → Bool
opening_proxied none = true
opening_proxied (some w) = w.over_proxy

module _ (x : Error → Error) (url_parse : Str → Url) (o : Options) (r : Request) where
  abbrev TurnProxied : Turn → Type 0
  TurnProxied t = NextProxied t.next × (opening_proxied t.opening ≡ true)

  if_proxied :
      (b c : Bool) (n : Next)
      → IsProxied n
      → NextProxied (if b then none else if c then some (done unanswered) else some n)
  if_proxied true c n p = tt
  if_proxied false true n p = tt
  if_proxied false false n p = p

  when_finished-TurnProxied :
      (ssl logs : Bool) (client : SocketHandle) (during : List (ℕ × SocketEvent)) (a : Attempt)
      (fresh : SocketHandle) (opening : Opening)
      → IsSettled client
      → opening.over_proxy ≡ true
      → TurnProxied (when_finished x url_parse o r ssl logs client during a fresh opening)
  unfolding when_finished
  when_finished-TurnProxied ssl logs client during a fresh opening h over = (
    if_proxied _ _ _ (after_finished-IsProxied ssl o r _ _ (on_events-IsSettled x during client h)),
    over,
  )

  connect_to_extern_proxy-TurnProxied :
      (ssl : Bool) (rh : SocketHandle) (a : Attempt)
      → IsSettled rh
      → TurnProxied (connect_to_extern_proxy x url_parse o r ssl rh a)
  unfolding connect_to_extern_proxy
  connect_to_extern_proxy-TurnProxied ssl rh a h =
      let client = on_events x rh a.client_before in
      elim (get_target url_parse o r.headers a.choice)
        as (λ f. TurnProxied (elim f as (λ _. Turn) [
          | threw e ↦ stops (if ssl then error_upstream e else error_response e)
          | no_url ↦ stops unanswered
          | at_url u ↦ elim u.port as (λ _. Turn) [
            | none ↦ stops unanswered
            | some port ↦
                when_finished x url_parse o r ssl true client a.client_during a
                  (new_handle a.id a.opened ssl o.forward_timeout (some r.url))
                  (record {
                    over_proxy = true;
                    hostname = u.hostname;
                    port = port;
                    head = if ssl then some (connect_text r) else build client;
                    forced = [];
                  })
          ]
        ])) [
          | threw e ↦ (tt, refl)
          | no_url ↦ (tt, refl)
          | at_url u ↦
              elim u.port
                as (λ (p : Option ℕ). TurnProxied (elim p as (λ _. Turn) [
                  | none ↦ stops unanswered
                  | some port ↦
                      when_finished x url_parse o r ssl true client a.client_during a
                        (new_handle a.id a.opened ssl o.forward_timeout (some r.url))
                        (record {
                          over_proxy = true;
                          hostname = u.hostname;
                          port = port;
                          head = if ssl then some (connect_text r) else build client;
                          forced = [];
                        })
                ])) [
                  | none ↦ (tt, refl)
                  | some port ↦
                      when_finished-TurnProxied ssl true client a.client_during a _
                        (record {
                          over_proxy = true;
                          hostname = u.hostname;
                          port = port;
                          head = if ssl then some (connect_text r) else build client;
                          forced = [];
                        })
                        (on_events-IsSettled x a.client_before rh h) refl
                ]
        ]

  abbrev all_proxied : Served → Bool
  all_proxied s = all (λ w. w.over_proxy) s.openings

  abbrev after : Turn → List Attempt → Served
  after t rest = elim t.next [
    | none ↦ waiting t.opening
    | some n ↦ opened_first t.opening (serve x url_parse o r n rest)
  ]

  after-all_proxied :
      (t : Turn) (rest : List Attempt)
      → TurnProxied t
      → ((n : Next) → IsProxied n → all_proxied (serve x url_parse o r n rest) ≡ true)
      → all_proxied (after t rest) ≡ true
  after-all_proxied t rest h k = elim (Option-cases t.next) [
    | inl e ↦ ground (arith, e, h.1)
    | inr (n, e) ↦ ground (arith, e, h.1, k n (rw e at h.0))
  ]

  serve-all_proxied :
      (n : Next) (rest : List Attempt)
      → IsProxied n
      → all_proxied (serve x url_parse o r n rest) ≡ true
  unfolding serve connect
  serve-all_proxied (done reply) rest h = refl
  serve-all_proxied (direct ssl rh) rest h = absurd h
  serve-all_proxied (extern ssl rh) [] h = refl
  serve-all_proxied (extern ssl rh) (a ∷ rest) h =
      after-all_proxied _ rest (connect_to_extern_proxy-TurnProxied ssl rh a h)
        (λ n k. serve-all_proxied n rest k)

  start-IsProxied :
      (ssl : Bool) (rh : SocketHandle)
      → over_proxy o false ≡ true
      → is_some rh.buffer ≡ true
      → IsProxied (start o r ssl rh)
  unfolding root on_server_connect get_socket_handle
  start-IsProxied true rh over read =
      ground (arith, on_proxy_request-repeat o r rh, on_proxy_request-no_fallback o r rh)
  start-IsProxied false rh over read =
      ground (arith, on_proxy_request-repeat o r rh, on_proxy_request-no_fallback o r rh)

  -- Where the server forwards to proxies and something was read of the request before it is handled,
  -- every connection for it goes over a proxy, whatever fails: the direct fallback is never taken,
  -- whether or not its client asked for it by `Proxy-Select-Fallback`.
  pub start-no_fallback :
      (ssl : Bool) (rh : SocketHandle) (rest : List Attempt)
      → over_proxy o false ≡ true
      → is_some rh.buffer ≡ true
      → all (λ w. w.over_proxy) (serve x url_parse o r (start o r ssl rh) rest).openings ≡ true
  start-no_fallback ssl rh rest over read =
      serve-all_proxied (start o r ssl rh) rest (start-IsProxied ssl rh over read)
