-- ===== src/Server/Socket/Flow.antt =====
-- `SocketHandle`: the chunks of a socket, its end, and the headers that are set.
use node_proxybroker.Prelude.{
  append_assoc, append_nil, ℕ, suc, ◌+◌, ◌≡◌, ◌∙◌, sym, ap, refl, Bool, true, false, not, some,
  List, [], ◌∷◌, ◌++◌, Str, str_eq, str_eq_iff, join, map, crlf, to_lower, trim, split_on, find,
  filter, all, arith, if◌then◌else◌, ◌==◌,
}
use node_proxybroker.Http.{Error, is_secured, header_line}
use node_proxybroker.Server.Socket.{
  Header, header_pair, SocketHandle, SocketEvent, chunk, timed_out, failed, closed, on_data,
  on_event, on_events, on_error, on_timeout, on_close, finish, build, header_of_line, set_header,
  remove_header, first_data, read_status,
}

-- The text of the chunks, one after the other.
unfoldable pub received : List (ℕ × SocketEvent) → Str
received [] = []
received ((now, chunk d) ∷ es) = d ++ received es
received ((now, timed_out) ∷ es) = received es
received ((now, failed e) ∷ es) = received es
received ((now, closed) ∷ es) = received es

-- No chunk of it is the start of a TLS connection.
abbrev pub is_plain : ℕ × SocketEvent → Bool
is_plain (now, chunk d) = not (is_secured d)
is_plain (now, timed_out) = true
is_plain (now, failed e) = true
is_plain (now, closed) = true

-- What a handle holds whose head has been read: the buffer and the parts of the message.
abbrev pub Holds : SocketHandle → Str → Str → Str → List Header → Type 0
Holds s b q c hs =
    (s.buffer ≡ some b)
    × (s.query ≡ some q)
    × (s.body ≡ some c)
    × (s.headers_list ≡ hs)
    × (s.ssl_detect ≡ false)

module _ (x : Error → Error) where
  plain_chunk :
      (d : Str) (s : SocketHandle) (b q c : Str) (hs : List Header) (es : List (ℕ × SocketEvent))
      (now : ℕ)
      → all is_plain ((now, chunk d) ∷ es) ≡ true
      → Holds s b q c hs
      → Holds (on_data x s (some d)).0 (b ++ d) q (c ++ d) hs × (all is_plain es ≡ true)
  unfolding on_data
  plain_chunk d s b q c hs es now plain h = ground arith

  -- Once the head of a plain connection has been read, whatever then happens on the socket, as long as
  -- no chunk begins like a TLS record: every chunk is added to the buffer and to the body, and the
  -- head stays as it was read.
  pub on_events-Holds :
      (es : List (ℕ × SocketEvent)) (s : SocketHandle) (b q c : Str) (hs : List Header)
      → all is_plain es ≡ true
      → Holds s b q c hs
      → Holds (on_events x s es) (b ++ received es) q (c ++ received es) hs
  unfolding on_events on_event on_data on_error on_timeout on_close finish received
  on_events-Holds [] s b q c hs plain h =
      (h.0 ∙ ap some (sym (append_nil b)), h.1, h.2 ∙ ap some (sym (append_nil c)), h.3, h.4)
  on_events-Holds ((now, chunk d) ∷ es) s b q c hs plain h =
      let (step, plain') : Holds (on_data x s (some d)).0 (b ++ d) q (c ++ d) hs
          × (all is_plain es ≡ true) =
        plain_chunk d s b q c hs es now plain h in
      let (hb, hq, hc, hh, hn) = on_events-Holds es _ (b ++ d) q (c ++ d) hs plain' step in
      (
        hb ∙ ap some (append_assoc b d (received es)),
        hq,
        hc ∙ ap some (append_assoc c d (received es)),
        hh,
        hn,
      )
  on_events-Holds ((now, timed_out) ∷ es) s b q c hs plain h =
      on_events-Holds es _ b q c hs (ground arith)
        (unfold on_timeout on_error on_close finish in ground arith)
  on_events-Holds ((now, failed e) ∷ es) s b q c hs plain h =
      on_events-Holds es _ b q c hs (ground arith)
        (unfold on_timeout on_error on_close finish in ground arith)
  on_events-Holds ((now, closed) ∷ es) s b q c hs plain h =
      on_events-Holds es _ b q c hs (ground arith)
        (unfold on_timeout on_error on_close finish in ground arith)

  -- How often `socket_finished` is emitted.
  pub emissions : SocketHandle → List (ℕ × SocketEvent) → ℕ
  emissions s [] = 0
  emissions s (e ∷ es) =
      let rest = emissions (on_event x s e).0 es in if (on_event x s e).1 then suc rest else rest

  one_emission :
      (e : ℕ × SocketEvent) (s : SocketHandle)
      → (if (on_event x s e).1 then 1 else 0) + (if s.finished then 1 else 0)
        ≡ (if (on_event x s e).0.finished then 1 else 0)
  unfolding on_event on_data first_data read_status on_error on_timeout on_close finish
  one_emission (now, chunk d) s = ground arith
  one_emission (now, timed_out) s = ground arith
  one_emission (now, failed e) s = ground arith
  one_emission (now, closed) s = ground arith

  -- A handle emits `socket_finished` at most once in its life, when it becomes finished: not at all if it
  -- has finished before or does not finish in these events.
  pub emissions-on_events :
      (es : List (ℕ × SocketEvent)) (s : SocketHandle)
      → emissions s es + (if s.finished then 1 else 0)
        ≡ (if (on_events x s es).finished then 1 else 0)
  unfolding emissions on_events
  emissions-on_events [] s = omega arith
  emissions-on_events (e ∷ es) s =
      ground (arith, emissions-on_events es (on_event x s e).0, one_emission e s)

-- What a handle holds whose head has been read goes on as it came: `build` of the later handle is
-- what `build` gave before, and then the chunks that have arrived since.
pub build-on_events :
    (x : Error → Error) (es : List (ℕ × SocketEvent)) (s : SocketHandle) (b q c : Str)
    (hs : List Header)
    → all is_plain es ≡ true
    → Holds s b q c hs
    → (d : Str) × (build s ≡ some d) × (build (on_events x s es) ≡ some (d ++ received es))
build-on_events x es s b q c hs plain h =
    let (hb, hq, hc, hh, hn) = h in
    let (_, hq', hc', hh', hn') = on_events-Holds x es s b q c hs plain h in
    let lines : Str = join crlf (map (λ k. header_line (header_pair k)) hs) in
    let e : build s ≡ some (q ++ (crlf ++ (lines ++ (crlf ++ (crlf ++ c))))) =
      unfold build in ground (arith, hq, hc, hh, hn) in
    let e' : build (on_events x s es)
        ≡ some (q ++ (crlf ++ (lines ++ (crlf ++ (crlf ++ (c ++ received es)))))) =
      unfold build in ground (arith, hq', hc', hh', hn') in
    (_, e, e' ∙ ap some (simp append_assoc))

abbrev pub no_colon : Str → Bool
no_colon = all (λ c. not (c == b':'))

split_on-colon :
    (k rest : Str) → no_colon k ≡ true → split_on b':' (k ++ (b':' ∷ rest)) ≡ k ∷ split_on b':' rest
unfolding split_on
split_on-colon [] rest e = refl
split_on-colon (c ∷ k) rest e = ground (arith, split_on-colon k rest)

-- A header line keeps what stands between its first and its second colon: the rest of a value that
-- has a colon itself, such as the port of a Host header, is lost.
pub header_of_line-second_colon :
    (k v w : Str)
    → no_colon k ≡ true
    → no_colon v ≡ true
    → header_of_line (k ++ (b':' ∷ (v ++ (b':' ∷ w))))
      ≡ some (record { key = to_lower (trim k); org_key = trim k; value = trim v })
unfolding header_of_line
header_of_line-second_colon k v w nk nv =
    ground (arith, split_on-colon k (v ++ (b':' ∷ w)) nk, split_on-colon v w nv)

str_eq-subst : (a b c : Str) → str_eq a b ≡ true → str_eq a c ≡ str_eq b c
str_eq-subst a b c e = ap (λ s. str_eq s c) ((str_eq_iff a b).0 e)

str_eq-joins : (a b c : Str) → str_eq a c ≡ true → str_eq b c ≡ true → str_eq a b ≡ true
str_eq-joins a b c e f = (str_eq_iff a b).1 ((str_eq_iff a c).0 e ∙ sym ((str_eq_iff b c).0 f))

set_find :
    (h : Header) (j : Str) (l : List Header)
    → find (λ g. str_eq g.key j) (filter (λ g. not (str_eq g.key h.key)) l ++ (h ∷ []))
      ≡ (if str_eq h.key j then some h else find (λ g. str_eq g.key j) l)
set_find h j [] = refl
set_find h j (g ∷ l) =
    ground (arith, set_find h j l, str_eq-subst g.key h.key j, str_eq-joins g.key h.key j)

-- A header that is set is found, with the value it was set to, and any header with another key is as
-- it was.
pub set_header-find :
    (s : SocketHandle) (k v j : Str)
    → find (λ h. str_eq h.key j) (set_header s k v).headers_list ≡ (
        if str_eq (to_lower k) j
        then some (record { key = to_lower k; org_key = k; value = v })
        else find (λ h. str_eq h.key j) s.headers_list)
unfolding set_header remove_header
set_header-find s k v j =
    set_find (record { key = to_lower k; org_key = k; value = v }) j s.headers_list
