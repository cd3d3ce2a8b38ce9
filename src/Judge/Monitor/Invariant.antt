-- ===== src/Judge/Monitor/Invariant.antt =====
-- src/libs/judge/RequestResponseMonitor.ts: an invariant of the monitor over all its listeners.
use node_proxybroker.Prelude.{
  ℕ, suc, ◌-◌, ◌+◌, ◌<◌, ◌≡◌, ◌↔◌, ◌∙◌, sym, ap, refl, Bool, true, false, ◌||◌, Option, none, some,
  List, [], ◌∷◌, ◌++◌, map, Str, str_eq, is_empty, arith, if◌then◌else◌, Bool-cases, inl, inr,
  codes, length, crlf_crlf, split_on,
}
use node_proxybroker.Http.{Error, is_secured}
use node_proxybroker.Judge.Monitor.{
  Message, ReqResEvent, Monitor, MonitorEvent, new_monitor, add_log, on_request, on_socket,
  on_socket_connect, stop, classify, known, contains, info, client_log, server_log, shown, err01,
  err02, cne01, rcc01, rcl01, osc01, osc02, osc03, hed01, err03, err04, err05, handle_error,
  finished, on_error, on_head, check_head, on_socket_data, on_socket_end, on_socket_timeout,
  on_secure_connect, step, run, log_each, when, before_blank, requested, connected_, ended,
  socketed, errored, socket_errored, looked_up, received_, closed, timed_out, secure_connected,
  has_errors,
}

-- The entries are numbered from `k` up to, but without, `n`.
abbrev pub Numbered : ℕ → ℕ → List ReqResEvent → Type 0
Numbered k n [] = k ≡ n
Numbered k n (e ∷ es) = (e.nr ≡ k) × Numbered (suc k) n es

-- No two errors have one message.
abbrev pub Unique : List Error → Type 0
Unique [] = Unit
Unique (e ∷ es) = (known e.message es ≡ false) × Unique es

-- The log is numbered from 0 to `inc`, the errors are unique, and `finished` is set exactly if the
-- event was emitted.
pub record IsSound (s : Monitor) : Type 0 where
  pub numbers : Numbered 0 s.inc s.log_arr
  pub unique : Unique s.errors
  pub emits : (s.finished ≡ true) ↔ (0 < s.emitted)

Numbered-append :
    (k n : ℕ) (es : List ReqResEvent) (e : ReqResEvent)
    → Numbered k n es
    → e.nr ≡ n
    → Numbered k (n + 1) (es ++ (e ∷ []))
Numbered-append k n [] e h q = (q ∙ sym h, ap suc h ∙ (omega arith))
Numbered-append k n (x ∷ es) e h q = (h.0, Numbered-append (suc k) n es e h.1 q)

str_sym : (a b : Str) → str_eq a b ≡ str_eq b a
unfolding str_eq
str_sym (x ∷ a) (y ∷ b) = ground (arith, str_sym a b)
str_sym _ _ = ground arith

known-append :
    (m : Str) (es : List Error) (e : Error)
    → known m es ≡ false
    → str_eq e.message m ≡ false
    → known m (es ++ (e ∷ [])) ≡ false
known-append m [] e k n = ground arith
known-append m (x ∷ es) e k n = ground (arith, known-append m es e)

Unique-append :
    (es : List Error) (e : Error) → Unique es → known e.message es ≡ false → Unique (es ++ (e ∷ []))
Unique-append [] e u k = (refl, tt)
Unique-append (x ∷ es) e u k = (
  known-append x.message es e u.0 (ground (arith, str_sym x.message e.message)),
  Unique-append es e u.1 (ground arith),
)

add_log-IsSound : (m : Message) (p : Str) (s : Monitor) → IsSound s → IsSound (add_log m p s)
unfolding add_log
add_log-IsSound m p s h = record {
  numbers = Numbered-append 0 s.inc s.log_arr _ h.numbers refl;
  unique = h.unique;
  emits = h.emits;
}

log_each-IsSound :
    (f : Str → Monitor → Monitor) (xs : List Str) (s : Monitor)
    → ((x : Str) (t : Monitor) → IsSound t → IsSound (f x t))
    → IsSound s
    → IsSound (log_each f xs s)
log_each-IsSound f [] s k h = h
log_each-IsSound f (x ∷ xs) s k h = log_each-IsSound f xs (f x s) k (k x s h)

if-IsSound : (b : Bool) (s t : Monitor) → IsSound s → IsSound t → IsSound (if b then s else t)
if-IsSound true s t h k = h
if-IsSound false s t h k = k

-- A change of the other fields.
same-IsSound :
    (s t : Monitor)
    → IsSound s
    → (t.inc ≡ s.inc)
      × (t.log_arr ≡ s.log_arr)
      × (t.finished ≡ s.finished)
      × (t.emitted ≡ s.emitted)
    → Unique t.errors
    → IsSound t
same-IsSound s t h e u = record {
  numbers = rw (e.0, e.1) h.numbers;
  unique = u;
  emits = rw (e.2, e.3) h.emits;
}

on_request-IsSound : (s : Monitor) → IsSound s → IsSound (on_request s)
unfolding on_request
on_request-IsSound s h =
    add_log-IsSound _ _ _
      (if-IsSound s.proxy _ _ (add_log-IsSound _ _ s h) (add_log-IsSound _ _ s h))

classify-IsSound : (m : Str) (s : Monitor) → IsSound s → IsSound (classify m s)
unfolding classify
classify-IsSound m s h =
    let refused = record s { connected = false } in
    let late = record s { timeouted = true } in
    let hung_up = record s { aborted = true } in
    if-IsSound (contains (codes "ECONNREFUSED") m) (add_log err03 (codes "#") refused) _
      (add_log-IsSound err03 (codes "#") refused
        (same-IsSound s refused h (refl, refl, refl, refl) h.unique))
      (if-IsSound (contains (codes "ESOCKETTIMEDOUT") m || contains (codes "Timeout awaiting") m)
        (add_log err04 (codes "#") late) _
        (add_log-IsSound err04 (codes "#") late
          (same-IsSound s late h (refl, refl, refl, refl) h.unique))
        (if-IsSound (contains (codes "socket hang up") m) (add_log err05 (codes "#") hung_up) s
          (add_log-IsSound err05 (codes "#") hung_up
            (same-IsSound s hung_up h (refl, refl, refl, refl) h.unique))
          h))

classify-errors : (m : Str) (s : Monitor) → (classify m s).errors ≡ s.errors
unfolding classify add_log
classify-errors m s = ground arith

handle_error-IsSound :
    (x : Error → Error) (e : Option Error) (s : Monitor) → IsSound s → IsSound (handle_error x e s)
unfolding handle_error
handle_error-IsSound x none s h = h
handle_error-IsSound x (some e) s h =
    let m = (x e).message in
    let t = classify m s in
    let c : IsSound t = classify-IsSound m s h in
    elim (Bool-cases (known m s.errors)) [
      | inl old ↦ rw (old, handle_error) h
      | inr new ↦
          rw (new, handle_error)
            (same-IsSound t (record t { errors = t.errors ++ (x e ∷ []) }) c
              (refl, refl, refl, refl)
              (Unique-append t.errors (x e) c.unique (ap (known m) (classify-errors m s) ∙ new)))
    ]

finish-IsSound :
    (s : Monitor) → IsSound s → IsSound (record s { finished = true; emitted = s.emitted + 1 })
finish-IsSound s h = record { numbers = h.numbers; unique = h.unique; emits = ground arith }

finished-IsSound : (now : ℕ) (s : Monitor) → IsSound s → IsSound (finished now s)
unfolding finished
finished-IsSound now s h =
    let t = stop now s in
    let k : IsSound t = unfold stop in same-IsSound s t h (refl, refl, refl, refl) h.unique in
    let first = client_log err01 t in
    let all = log_each (λ m. client_log (err02 m)) (map (λ e. e.message) t.errors) first in
    let good = info (rcl01 (some t.received)) t in
    let all_sound : IsSound all =
      log_each-IsSound (λ m. client_log (err02 m)) (map (λ e. e.message) t.errors) first
        (λ m u q. add_log-IsSound (err02 m) (codes ">") u q)
        (add_log-IsSound err01 (codes ">") t k) in
    let good_sound : IsSound good = add_log-IsSound (rcl01 (some t.received)) (codes "*") t k in
    finish-IsSound _ (
      if-IsSound (has_errors t) (info cne01 all) (info (rcc01 t.duration) good)
        (add_log-IsSound cne01 (codes "*") all all_sound)
        (add_log-IsSound (rcc01 t.duration) (codes "*") good good_sound))

when-IsSound :
    (b : Bool) (f : Monitor → Monitor) (s : Monitor)
    → (IsSound s → IsSound (f s))
    → IsSound s
    → IsSound (when b f s)
when-IsSound true f s k h = k h
when-IsSound false f s k h = h

on_socket_connect-IsSound : (s : Monitor) → IsSound s → IsSound (on_socket_connect s)
unfolding on_socket_connect
on_socket_connect-IsSound s h =
    let t = record s { errors = []; connected = true } in
    let k : IsSound t = same-IsSound s t h (refl, refl, refl, refl) tt in
    let u = if t.proxy then info osc01 t else info osc02 t in
    let u_sound : IsSound u =
      if-IsSound t.proxy (info osc01 t) (info osc02 t) (add_log-IsSound osc01 (codes "*") t k)
        (add_log-IsSound osc02 (codes "*") t k) in
    let v = when u.secured (info osc03) u in
    let v_sound : IsSound v =
      when-IsSound u.secured (info osc03) u (add_log-IsSound osc03 (codes "*") u) u_sound in
    if-IsSound (is_empty v.sended_head) v _ v_sound (
      log_each-IsSound (λ x. client_log (hed01 (shown x))) (split_on 10 v.sended_head) v
        (λ m u q. add_log-IsSound (hed01 (shown m)) (codes ">") u q) v_sound)

check_head-IsSound : (s : Monitor) → IsSound s → IsSound (check_head s)
unfolding check_head
check_head-IsSound s h =
    same-IsSound s (check_head s) h (ground arith, ground arith, ground arith, ground arith)
      (let e : (check_head s).errors ≡ s.errors = unfold check_head in ground arith in
        rw e h.unique)

on_head-IsSound : (s : Monitor) → IsSound s → IsSound (on_head s)
unfolding on_head
on_head-IsSound s h = check_head-IsSound _ (
    log_each-IsSound (λ x. server_log (hed01 (shown x))) (split_on 10 s.received_head) s
      (λ m u q. add_log-IsSound (hed01 (shown m)) (codes "<") u q) h)

on_socket_data-IsSound : (d : Str) (s : Monitor) → IsSound s → IsSound (on_socket_data d s)
unfolding on_socket_data
on_socket_data-IsSound d s h =
    let t = record s { received = s.received + length d } in
    let head = t.received_head ++ d in
    let whole = record t { received_head = before_blank head; received_head_done = true } in
    let part = record t { received_head = head } in
    if-IsSound (is_secured d || t.received_head_done) t _
      (same-IsSound s t h (refl, refl, refl, refl) h.unique)
      (if-IsSound (contains crlf_crlf head) (on_head whole) part
        (on_head-IsSound whole (same-IsSound s whole h (refl, refl, refl, refl) h.unique))
        (same-IsSound s part h (refl, refl, refl, refl) h.unique))

on_socket-IsSound :
    (tls : Bool) (p : Option Str) (s : Monitor) → IsSound s → IsSound (on_socket tls p s)
unfolding on_socket
on_socket-IsSound tls none s h = same-IsSound s _ h (refl, refl, refl, refl) h.unique
on_socket-IsSound tls (some p) s h = same-IsSound s _ h (refl, refl, refl, refl) h.unique

step-IsSound :
    (x : Error → Error) (e : MonitorEvent) (s : Monitor) → IsSound s → IsSound (step x s e)
unfolding step on_socket_end on_error on_socket_timeout on_secure_connect stop
step-IsSound x requested s h = on_request-IsSound s h
step-IsSound x connected_ s h = on_socket_connect-IsSound s h
step-IsSound x ended s h = add_log-IsSound _ _ s h
step-IsSound x (socketed tls p) s h = on_socket-IsSound tls p s h
step-IsSound x (errored now e) s h = finished-IsSound now _ (handle_error-IsSound x (some e) s h)
step-IsSound x (socket_errored e) s h = handle_error-IsSound x (some e) s h
step-IsSound x (looked_up e) s h = handle_error-IsSound x e s h
step-IsSound x (received_ d) s h = on_socket_data-IsSound d s h
step-IsSound x (closed now) s h = finished-IsSound now s h
step-IsSound x (timed_out now) s h = add_log-IsSound _ _ _ (
    same-IsSound s (record s { stopped = some now; duration = some (now - s.start) }) h
      (refl, refl, refl, refl) h.unique)
step-IsSound x (secure_connected now) s h = add_log-IsSound _ _ _ (
    same-IsSound s (record s { stopped = some now; duration = some (now - s.start) }) h
      (refl, refl, refl, refl) h.unique)

-- Whatever the request and its socket report, in whatever order: the entries of the log are numbered
-- from 0 to `inc` without a gap, no two of the errors kept have one message, and the monitor is
-- `finished` exactly if it has emitted 'finished'.
pub run-IsSound :
    (x : Error → Error) (es : List MonitorEvent) (s : Monitor) → IsSound s → IsSound (run x s es)
unfolding run
run-IsSound x [] s h = h
run-IsSound x (e ∷ es) s h = run-IsSound x es (step x s e) (step-IsSound x e s h)

pub new_monitor-IsSound : (proxy : Bool) (now : ℕ) → IsSound (new_monitor proxy now)
unfolding new_monitor
new_monitor-IsSound proxy now = record { numbers = refl; unique = tt; emits = ground arith }
