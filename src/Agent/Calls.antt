-- ===== src/Agent/Calls.antt =====
-- https_proxy_agent.ts: how often the callback is called, and what the buffers hold meanwhile.
use node_proxybroker.Prelude.{
  ℕ, ◌+◌, ◌≤◌, ◌≡◌, refl, ap, ◌∙◌, Bool, true, false, not, ◌&&◌, ◌||◌, Option, some, List, [], ◌∷◌,
  ◌++◌, any, all, length, length-append, if◌then◌else◌, ltb, arith, Str, Bool-cases, inl, inr,
}
use node_proxybroker.Http.{Error}
use node_proxybroker.Agent.Chunks.{is_whole, run-append}
use node_proxybroker.Agent.{
  Buffers, Options, Call, Connection, Event, opened, on_error, on_abort, call, cleanup, answer,
  concat, push, with_chunks, on_data, replay, step, run,
}

abbrev has_chunks : Buffers → Bool
has_chunks (Buffers.chunks _) = true
has_chunks _ = false

abbrev has_saved : Buffers → Bool
has_saved (Buffers.saved _) = true
has_saved _ = false

abbrev pub count : Bool → ℕ
count true = 1
count false = 0

-- What holds between two events.
record Inv (s : Connection) : Type 0 where
  calls_left : length s.calls + count s.listening + count s.on_abort ≤ 2
  collecting : (s.listening && not (has_chunks s.buffers)) ≡ false
  saving : (s.on_socket && not (has_saved s.buffers)) ≡ false
  apart : (s.on_socket && s.listening) ≡ false

opened-Inv : (o : Options) → Inv (opened o)
unfolding opened
opened-Inv o = record { calls_left = omega arith; collecting = refl; saving = refl; apart = refl }

length-call : (c : Call) (s : Connection) → length (call c s).calls ≡ length s.calls + 1
unfolding call
length-call c s = length-append s.calls (c ∷ [])

answer-Inv : (b : Str) (s : Connection) → s.listening ≡ true → Inv s → Inv (answer b s)
unfolding answer call cleanup
answer-Inv b s l i = record {
  calls_left = ground (
    arith,
    l,
    i.calls_left,
    length-append s.calls (Call.connected s.opts.secure_endpoint ∷ []),
    length-append s.calls (Call.connected false ∷ []),
  );
  collecting = ground (arith, l);
  saving = ground (arith, l, i.apart);
  apart = ground (arith, l);
}

with_chunks-Inv :
    (bs : List Str) (s : Connection) → s.listening ≡ true → Inv s → Inv (with_chunks bs s)
unfolding with_chunks
with_chunks-Inv bs s l i = elim (Bool-cases (is_whole (concat bs))) [
  | inl w ↦ rw w (answer-Inv (concat bs) s l i)
  | inr p ↦ rw p (record {
    calls_left = i.calls_left;
    collecting = ground arith;
    saving = ground (arith, l, i.apart);
    apart = i.apart;
  })
]

push-Inv :
    (x : Buffers) (b : Str) (s : Connection)
    → has_chunks x ≡ true
    → s.listening ≡ true
    → Inv s
    → Inv (push x b s)
unfolding push
push-Inv (Buffers.chunks bs) b s h l i = with_chunks-Inv (bs ++ (b ∷ [])) s l i
push-Inv (Buffers.saved _) b s h l i = absurd (ground (arith, h))
push-Inv Buffers.nothing b s h l i = absurd (ground (arith, h))

on_error-Inv : (e : Option Error) (s : Connection) → s.listening ≡ true → Inv s → Inv (on_error e s)
unfolding on_error call cleanup
on_error-Inv e s l i = record {
  calls_left = ground (arith, l, i.calls_left, length-append s.calls (Call.failed e ∷ []));
  collecting = refl;
  saving = i.saving;
  apart = ground (arith, i.apart);
}

on_abort-Inv : (e : Option Error) (s : Connection) → Inv s → Inv (on_abort e s)
unfolding on_abort call cleanup
on_abort-Inv e s i = record {
  calls_left = ground (arith, i.calls_left, length-append s.calls (Call.failed e ∷ []));
  collecting = ground (arith, i.collecting);
  saving = ground (arith, i.saving);
  apart = ground (arith, i.apart);
}

replay-Inv :
    (d : Bool) (n : ℕ) (s : Connection)
    → s.on_socket ≡ true
    → Inv s
    → Inv (replay d n (record s { on_socket = false }))
unfolding replay
replay-Inv d n s o i = record {
  calls_left = ground (arith, i.calls_left);
  collecting = ground (arith, o, i.apart, i.collecting);
  saving = ground (arith);
  apart = ground (arith, i.apart);
}

if-Inv :
    (b : Bool) (x y : Connection)
    → (b ≡ true → Inv x)
    → (b ≡ false → Inv y)
    → Inv (if b then x else y)
if-Inv true x y f g = f refl
if-Inv false x y f g = g refl

step-Inv : (e : Event) (s : Connection) → Inv s → Inv (step e s)
unfolding step on_data
step-Inv (Event.data_event b) s i =
    if-Inv s.listening _ s (λ l. push-Inv s.buffers b s (ground (arith, l, i.collecting)) l i)
      (λ _. i)
step-Inv (Event.error_event e) s i =
    if-Inv s.listening _ s (λ l. on_error-Inv (some e) s l i) (λ _. i)
step-Inv Event.end_event s i = i
step-Inv Event.close_event s i = i
step-Inv (Event.abort_event e) s i = on_abort-Inv e s i
step-Inv (Event.socket_event d n) s i = if-Inv s.on_socket _ s (λ o. replay-Inv d n s o i) (λ _. i)

armed : (o : Options) → (opened o).on_abort ≡ true
unfolding opened
armed o = refl

step-abort :
    (e : Option Error) (s : Connection)
    → s.on_abort ≡ true
    → (run (Event.abort_event e ∷ []) s).calls ≡ s.calls ++ (Call.failed e ∷ [])
unfolding run step on_abort call cleanup
step-abort e s h = ground (arith, h)

run-Inv : (es : List Event) (s : Connection) → Inv s → Inv (run es s)
unfolding run
run-Inv [] s i = i
run-Inv (e ∷ es) s i = run-Inv es (step e s) (step-Inv e s i)

abbrev pub is_abort : Event → Bool
is_abort (Event.abort_event _) = true
is_abort _ = false

-- The socket of the request has a listener for its data.
abbrev pub is_heard : Event → Bool
is_heard (Event.socket_event d n) = d || ltb 0 n
is_heard _ = true

push-on_abort : (x : Buffers) (b : Str) (s : Connection) → (push x b s).on_abort ≡ s.on_abort
unfolding push with_chunks answer cleanup call
push-on_abort (Buffers.chunks bs) b s = ground arith
push-on_abort (Buffers.saved _) b s = refl
push-on_abort Buffers.nothing b s = refl

step-on_abort : (e : Event) (s : Connection) → is_abort e ≡ false → (step e s).on_abort ≡ s.on_abort
unfolding step on_data on_error cleanup call replay
step-on_abort (Event.data_event b) s h = ground (arith, push-on_abort s.buffers b s)
step-on_abort (Event.error_event e) s h = ground arith
step-on_abort Event.end_event s h = refl
step-on_abort Event.close_event s h = refl
step-on_abort (Event.abort_event e) s h = absurd (ground (arith, h))
step-on_abort (Event.socket_event d n) s h = ground arith

run-on_abort :
    (es : List Event) (s : Connection) → any is_abort es ≡ false → (run es s).on_abort ≡ s.on_abort
unfolding run
run-on_abort [] s h = refl
run-on_abort (e ∷ es) s h =
    run-on_abort es (step e s) (ground (arith, h)) ∙ step-on_abort e s (ground (arith, h))

push-thrown :
    (x : Buffers) (b : Str) (s : Connection) → has_chunks x ≡ true → (push x b s).thrown ≡ s.thrown
unfolding push with_chunks answer cleanup call
push-thrown (Buffers.chunks bs) b s h = ground arith
push-thrown (Buffers.saved _) b s h = absurd (ground (arith, h))
push-thrown Buffers.nothing b s h = absurd (ground (arith, h))

step-thrown :
    (e : Event) (s : Connection) → Inv s → is_heard e ≡ true → (step e s).thrown ≡ s.thrown
unfolding step on_data on_error on_abort cleanup call replay
step-thrown (Event.data_event b) s i h = elim (Bool-cases s.listening) [
  | inl l ↦ ground (arith, l, push-thrown s.buffers b s (ground (arith, l, i.collecting)))
  | inr l ↦ ground (arith, l)
]
step-thrown (Event.error_event e) s i h = ground arith
step-thrown Event.end_event s i h = refl
step-thrown Event.close_event s i h = refl
step-thrown (Event.abort_event e) s i h = ground arith
step-thrown (Event.socket_event d n) s i h = ground (arith, h)

run-thrown :
    (es : List Event) (s : Connection)
    → Inv s
    → all is_heard es ≡ true
    → (run es s).thrown ≡ s.thrown
unfolding run
run-thrown [] s i h = refl
run-thrown (e ∷ es) s i h =
    run-thrown es (step e s) (step-Inv e s i) (ground (arith, h))
    ∙ step-thrown e s i (ground (arith, h))

-- On any events of the socket and of the request, in any order, the callback is called at most
-- once; if the request is aborted among them, at most twice.
pub length-calls-run :
    (o : Options) (es : List Event) → length (run es (opened o)).calls ≤ 1 + count (any is_abort es)
length-calls-run o es =
    let i = (run-Inv es (opened o) (opened-Inv o)).calls_left in
    elim (Bool-cases (any is_abort es)) [
      | inl a ↦ ground (arith, a, i)
      | inr a ↦ ground (arith, a, i, run-on_abort es (opened o) a, armed o)
    ]

-- On any events in any order, no listener throws, if the request's socket has a listener for its
-- data whenever it is handed over: the error 'should not happen...' does not, and no chunk is pushed
-- onto a buffer that is no array.
pub run-opened_thrown :
    (o : Options) (es : List Event) → all is_heard es ≡ true → (run es (opened o)).thrown ≡ false
unfolding opened
run-opened_thrown o es h = run-thrown es (opened o) (opened-Inv o) h

-- An abort after the answer calls back a second time.
pub abort-connected :
    (o : Options) (es : List Event) (e : Option Error)
    → any is_abort es ≡ false
    → (run (es ++ (Event.abort_event e ∷ [])) (opened o)).calls
      ≡ (run es (opened o)).calls ++ (Call.failed e ∷ [])
abort-connected o es e h =
    ap (λ s. s.calls) (run-append es (Event.abort_event e ∷ []) (opened o))
    ∙ step-abort e _ (run-on_abort es (opened o) h ∙ armed o)
