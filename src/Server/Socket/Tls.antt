-- ===== src/Server/Socket/Tls.antt =====
-- `SocketHandle.onData`, when a chunk begins like a TLS record.
use node_proxybroker.Prelude.{
  append_assoc, append_nil, ℕ, ◌≡◌, ◌∙◌, sym, ap, Bool, true, false, some, List, [], ◌∷◌, ◌++◌,
  ◌||◌, any, Bool-cases, inl, inr, Str, arith, if◌then◌else◌, ◌==◌,
}
use node_proxybroker.Http.{Error, is_secured}
use node_proxybroker.Server.Socket.{
  Header, SocketHandle, SocketEvent, chunk, timed_out, failed, closed, on_data, on_event, on_events,
  on_error, on_timeout, on_close, finish,
}
use node_proxybroker.Server.Socket.Flow.{received, Holds}

-- A chunk that begins like a TLS record.
abbrev pub begins_tls : ℕ × SocketEvent → Bool
begins_tls (now, chunk []) = false
begins_tls (now, chunk (c ∷ d)) = c == 22 || (c == 128 || c == 0)
begins_tls (now, timed_out) = false
begins_tls (now, failed e) = false
begins_tls (now, closed) = false

-- The text of the chunks before the first of those.
abbrev pub kept : List (ℕ × SocketEvent) → Str
kept [] = []
kept (e ∷ es) = let rest = kept es in if begins_tls e then [] else received (e ∷ []) ++ rest

module _ (x : Error → Error) where
  -- A handle that has seen the start of a TLS connection.
  abbrev IsClosed : SocketHandle → Str → Str → Str → List Header → Type 0
  IsClosed s b q c hs =
      (s.buffer ≡ some b)
      × (s.query ≡ some q)
      × (s.body ≡ some c)
      × (s.headers_list ≡ hs)
      × (s.ssl_detect ≡ true)

  on_event-IsClosed :
      (e : ℕ × SocketEvent) (s : SocketHandle) (b q c : Str) (hs : List Header)
      → IsClosed s b q c hs
      → IsClosed (on_event x s e).0 b q c hs
  unfolding on_event on_data on_error on_timeout on_close finish
  on_event-IsClosed (now, chunk d) s b q c hs h = ground (arith, h)
  on_event-IsClosed (now, timed_out) s b q c hs h = ground (arith, h)
  on_event-IsClosed (now, failed e) s b q c hs h = ground (arith, h)
  on_event-IsClosed (now, closed) s b q c hs h = ground (arith, h)

  on_events-IsClosed :
      (es : List (ℕ × SocketEvent)) (s : SocketHandle) (b q c : Str) (hs : List Header)
      → IsClosed s b q c hs
      → IsClosed (on_events x s es) b q c hs
  unfolding on_events
  on_events-IsClosed [] s b q c hs h = h
  on_events-IsClosed (e ∷ es) s b q c hs h =
      on_events-IsClosed es (on_event x s e).0 b q c hs (on_event-IsClosed e s b q c hs h)

  tls_event :
      (e : ℕ × SocketEvent) (s : SocketHandle) (b q c : Str) (hs : List Header)
      → begins_tls e ≡ true
      → Holds s b q c hs
      → IsClosed (on_event x s e).0 b q c hs
  unfolding on_event on_data is_secured
  tls_event (now, chunk []) s b q c hs t h = absurd (ground (arith, t))
  tls_event (now, chunk (k ∷ d)) s b q c hs t h = ground (arith, t, h)
  tls_event (now, timed_out) s b q c hs t h = absurd (ground (arith, t))
  tls_event (now, failed e) s b q c hs t h = absurd (ground (arith, t))
  tls_event (now, closed) s b q c hs t h = absurd (ground (arith, t))

  plain_event :
      (e : ℕ × SocketEvent) (s : SocketHandle) (b q c : Str) (hs : List Header)
      → begins_tls e ≡ false
      → Holds s b q c hs
      → Holds (on_event x s e).0 (b ++ received (e ∷ [])) q (c ++ received (e ∷ [])) hs
  unfolding on_event on_data is_secured on_error on_timeout on_close finish received
  plain_event (now, chunk []) s b q c hs t h = ground (arith, h, append_nil b, append_nil c)
  plain_event (now, chunk (k ∷ d)) s b q c hs t h = ground (arith, t, h, append_nil (k ∷ d))
  plain_event (now, timed_out) s b q c hs t h = ground (arith, h, append_nil b, append_nil c)
  plain_event (now, failed e) s b q c hs t h = ground (arith, h, append_nil b, append_nil c)
  plain_event (now, closed) s b q c hs t h = ground (arith, h, append_nil b, append_nil c)

  -- Once the head of a plain connection has been read, whatever then happens on the socket: the buffer
  -- and the body grow by the chunks up to the first one that begins like a TLS record, whose first
  -- byte is 0x16, 0x80 or 0x00. That one and all after it are dropped, the handle counts as one of a
  -- TLS connection exactly if there is one, and the head stays as it was read.
  pub on_events-kept :
      (es : List (ℕ × SocketEvent)) (s : SocketHandle) (b q c : Str) (hs : List Header)
      → Holds s b q c hs
      → let v = on_events x s es in
        (v.buffer ≡ some (b ++ kept es))
        × (v.query ≡ some q)
        × (v.body ≡ some (c ++ kept es))
        × (v.headers_list ≡ hs)
        × (v.ssl_detect ≡ any begins_tls es)
  unfolding on_events
  on_events-kept [] s b q c hs h =
      (h.0 ∙ ap some (sym (append_nil b)), h.1, h.2 ∙ ap some (sym (append_nil c)), h.3, h.4)
  on_events-kept (e ∷ es) s b q c hs h = elim (Bool-cases (begins_tls e)) [
    | inl tls ↦
        let (hb, hq, hc, hh, hn) =
          on_events-IsClosed es (on_event x s e).0 b q c hs (tls_event e s b q c hs tls h) in
        rw tls (hb ∙ ap some (sym (append_nil b)), hq, hc ∙ ap some (sym (append_nil c)), hh, hn)
    | inr plain ↦
        let (hb, hq, hc, hh, hn) =
          on_events-kept es (on_event x s e).0 _ q _ hs (plain_event e s b q c hs plain h) in
        rw plain (
          hb ∙ ap some (append_assoc b (received (e ∷ [])) (kept es)),
          hq,
          hc ∙ ap some (append_assoc c (received (e ∷ [])) (kept es)),
          hh,
          hn,
        )
  ]
