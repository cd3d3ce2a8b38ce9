-- ===== src/Server/Socket/Kept.antt =====
-- `SocketHandle`: the events on a socket leave its kind alone.
use node_proxybroker.Prelude.{
  ℕ, ◌≡◌, refl, ◌∙◌, Bool, true, false, some, List, [], ◌∷◌, ◌++◌, Str, split_crlf, Option-cases,
  inl, inr, arith, if◌then◌else◌,
}
use node_proxybroker.Http.{Error, split_head, status_match}
use node_proxybroker.Server.Socket.{
  SocketHandle, SocketEvent, on_event, on_events, read_status, first_data, header_lines,
}

read_status-ssl : (x : Error → Error) (t : SocketHandle) (q : Str) → (read_status x t q).ssl ≡ t.ssl
unfolding read_status
read_status-ssl x t q = elim (Option-cases (status_match q)) [
  | inl e ↦ ground (arith, e)
  | inr (n, e) ↦ ground (arith, e)
]

either-ssl : (b : Bool) (t u : SocketHandle) → u.ssl ≡ t.ssl → (if b then t else u).ssl ≡ t.ssl
either-ssl true t u h = refl
either-ssl false t u h = h

first_data-ssl : (x : Error → Error) (s : SocketHandle) (d : Str) → (first_data x s d).0.ssl ≡ s.ssl
unfolding first_data
first_data-ssl x s d = elim (Option-cases (split_head d)) [
  | inl e ↦ rw (e, first_data) refl
  | inr ((q, h, b), e) ↦
      let lines = header_lines (split_crlf h) in
      let t = record s {
        buffer = some d;
        query = some q;
        body = some b;
        headers_list = s.headers_list ++ lines.0;
      } in
      rw (e, first_data) (either-ssl lines.1 t (read_status x t q) (read_status-ssl x t q))
]

on_event-ssl :
    (x : Error → Error) (s : SocketHandle) (e : ℕ × SocketEvent) → (on_event x s e).0.ssl ≡ s.ssl
unfolding on_event
on_event-ssl x s (now, SocketEvent.chunk d) = ground (arith, first_data-ssl x s d)
on_event-ssl x s (now, SocketEvent.timed_out) = ground arith
on_event-ssl x s (now, SocketEvent.failed e) = ground arith
on_event-ssl x s (now, SocketEvent.closed) = ground arith

pub on_events-ssl :
    (x : Error → Error) (s : SocketHandle) (es : List (ℕ × SocketEvent))
    → (on_events x s es).ssl ≡ s.ssl
unfolding on_events
on_events-ssl x s [] = refl
on_events-ssl x s (e ∷ es) = on_events-ssl x (on_event x s e).0 es ∙ on_event-ssl x s e
