-- ===== src/Server/Proxy/Potential.antt =====
-- src/libs/server/ProxyServer.ts: what is left for a request to be tried.
use node_proxybroker.Prelude.{
  ℕ, suc, ◌+◌, ◌-◌, ◌≤◌, ◌≡◌, Bool, true, false, Option, none, some, List, [], ◌∷◌, Str, any,
  Bool-cases, inl, inr, arith, if◌then◌else◌, is_some,
}
use node_proxybroker.Http.{Error}
use node_proxybroker.Server.Socket.{
  SocketHandle, SocketEvent, chunk, timed_out, failed, closed, on_event, on_events, on_data, finish,
  on_error, on_timeout, on_close, first_data, read_status, remove_header, set_header,
}
use node_proxybroker.Server.Target.{Options, Request}
use node_proxybroker.Server.Handlers.{
  Next, extern, direct, done, on_proxy_request, after_finished, has_fallback_header, root,
  on_server_connect, get_socket_handle, handle_upstream_after_finished_request,
  handle_response_after_finished_request,
}
use node_proxybroker.Server.Proxy.{Attempt}
use node_proxybroker.Server.Proxy.Select.{on_proxy_request-no_fallback}

-- What is left for a request: repeats, a head not read yet, the fallback that it may ask for.
abbrev pub potential : Options → SocketHandle → ℕ
potential o s =
    (o.repeat_limit - s.repeat)
    + ((if is_some s.buffer then 0 else 1) + (if has_fallback_header s then 1 else 0))

-- The connections that a next step may still open.
abbrev pub cost : Options → Next → ℕ
cost o (extern ssl s) = suc (potential o s)
cost o (direct ssl s) = suc (potential o s)
cost o (done reply) = 0

-- The two entry points: a tunnel, or a plain request.
abbrev pub start : Options → Request → Bool → SocketHandle → Next
start o r true = on_server_connect o r false
start o r false = root o r false

pub on_proxy_request-repeat :
    (o : Options) (r : Request) (s : SocketHandle)
    → ((on_proxy_request o r s).repeat ≡ s.repeat) × ((on_proxy_request o r s).buffer ≡ s.buffer)
unfolding on_proxy_request set_header remove_header
on_proxy_request-repeat o r s = ground arith

module _ (x : Error → Error) (o : Options) where
  pub on_data-potential :
      (d : Option Str) (s : SocketHandle) → potential o (on_data x s d).0 ≤ potential o s
  unfolding on_data first_data read_status has_fallback_header
  on_data-potential none s = omega arith
  on_data-potential (some d) s = ground arith

  pub on_event-potential :
      (e : ℕ × SocketEvent) (s : SocketHandle) → potential o (on_event x s e).0 ≤ potential o s
  unfolding on_event on_error on_timeout on_close finish has_fallback_header
  on_event-potential (now, chunk d) s = on_data-potential (some d) s
  on_event-potential (now, timed_out) s = ground arith
  on_event-potential (now, failed e) s = ground arith
  on_event-potential (now, closed) s = ground arith

  pub on_events-potential :
      (es : List (ℕ × SocketEvent)) (s : SocketHandle)
      → potential o (on_events x s es) ≤ potential o s
  unfolding on_events
  on_events-potential [] s = omega arith
  on_events-potential (e ∷ es) s =
      omega (arith, on_event-potential e s, on_events-potential es (on_event x s e).0)

  pub after_finished-cost :
      (ssl : Bool) (r : Request) (rh h : SocketHandle)
      → cost o (after_finished ssl o r rh h) ≤ potential o rh
  unfolding after_finished handle_upstream_after_finished_request
      handle_response_after_finished_request on_server_connect root get_socket_handle
  after_finished-cost true r rh h =
      ground (arith, on_proxy_request-repeat o r rh, on_proxy_request-no_fallback o r rh)
  after_finished-cost false r rh h =
      ground (arith, on_proxy_request-repeat o r rh, on_proxy_request-no_fallback o r rh)

-- What ends a connection: an error, a timeout or the close of its socket.
abbrev pub is_end : SocketEvent → Bool
is_end (chunk d) = false
is_end timed_out = true
is_end (failed e) = true
is_end closed = true

-- The new socket of the attempt ends.
abbrev pub ends : Attempt → Bool
ends a = any (λ e. is_end e.1) a.downstream

abbrev pub next_cost : Options → Option Next → ℕ
next_cost o none = 0
next_cost o (some n) = cost o n

module _ (x : Error → Error) where
  pub on_event-finished :
      (e : ℕ × SocketEvent) (s : SocketHandle)
      → s.finished ≡ true
      → (on_event x s e).0.finished ≡ true
  unfolding on_event on_error on_timeout on_close finish on_data first_data read_status
  on_event-finished (now, chunk d) s f = ground arith
  on_event-finished (now, timed_out) s f = ground arith
  on_event-finished (now, failed e) s f = ground arith
  on_event-finished (now, closed) s f = ground arith

  pub on_events-finished :
      (es : List (ℕ × SocketEvent)) (s : SocketHandle)
      → s.finished ≡ true
      → (on_events x s es).finished ≡ true
  unfolding on_events
  on_events-finished [] s f = f
  on_events-finished (e ∷ es) s f = on_events-finished es _ (on_event-finished e s f)

  pub on_event-is_end :
      (e : ℕ × SocketEvent) (s : SocketHandle)
      → is_end e.1 ≡ true
      → (on_event x s e).0.finished ≡ true
  unfolding on_event on_error on_timeout on_close finish
  on_event-is_end (now, chunk d) s f = ground arith
  on_event-is_end (now, timed_out) s f = ground arith
  on_event-is_end (now, failed e) s f = ground arith
  on_event-is_end (now, closed) s f = ground arith

  pub on_events-ends :
      (es : List (ℕ × SocketEvent)) (s : SocketHandle)
      → any (λ e. is_end e.1) es ≡ true
      → (on_events x s es).finished ≡ true
  unfolding on_events
  on_events-ends [] s f = ground arith
  on_events-ends (e ∷ es) s f = elim (Bool-cases (is_end e.1)) [
    | inl here ↦ on_events-finished es _ (on_event-is_end e s here)
    | inr later ↦ on_events-ends es _ (ground (arith, later))
  ]
