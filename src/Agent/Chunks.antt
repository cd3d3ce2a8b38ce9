-- ===== src/Agent/Chunks.antt =====
-- https_proxy_agent.ts: how the answer of the proxy is cut into chunks does not matter.
use mathlib.Core.List.{map-append}
use node_proxybroker.Prelude.{
  ℕ, ◌+◌, ◌≡◌, refl, sym, ap, ◌∙◌, Bool, true, false, some, List, [], ◌∷◌, ◌++◌, map, Str, is_some,
  index_of, crlf, crlf_crlf, take-append, append_assoc, append_nil, Bool-cases, Option-cases,
  if◌then◌else◌, inl, inr, ◌⊎◌, arith,
}
use node_proxybroker.Http.Split.{index_of-append, index_of-le-length}
use node_proxybroker.Http.RoundTrip.{break_of_blank}
use node_proxybroker.Agent.{
  Buffers, Options, Call, Connection, Event, opened, concat, ascii, status_is_200, answer,
  with_chunks, on_data, step, run, replay, first_line, line_is_200, upgrade,
}

-- The head of an answer is whole: its blank line has come.
abbrev pub is_whole : Str → Bool
is_whole t = is_some (index_of crlf_crlf (ascii t))

pub concat-append : (bs cs : List Str) → concat (bs ++ cs) ≡ concat bs ++ concat cs
unfolding concat
concat-append [] cs = refl
concat-append (b ∷ bs) cs =
    ap (◌++◌ b) (concat-append bs cs) ∙ sym (append_assoc b (concat bs) (concat cs))

-- What comes after a whole head changes neither that nor the status.
is_whole-append : (a b : Str) → is_whole a ≡ true → is_whole (a ++ b) ≡ true
is_whole-append a b h = elim (Option-cases (index_of crlf_crlf (ascii a))) [
  | inl e ↦ absurd (ground (arith, h, e))
  | inr (i, e) ↦ ap is_some (
      ap (index_of crlf_crlf) (map-append _ a b)
      ∙ index_of-append crlf_crlf (ascii a) (ascii b) i e)
]

first_line-append :
    (a b : Str) (i : ℕ) → index_of crlf a ≡ some i → first_line (a ++ b) ≡ first_line a
unfolding first_line
first_line-append a b i e =
    rw (index_of-append crlf a b i e)
      (rw e (take-append i a b (omega (arith, index_of-le-length crlf a i e))))

status_is_200-append :
    (a b : Str) → is_whole a ≡ true → status_is_200 (ascii (a ++ b)) ≡ status_is_200 (ascii a)
unfolding status_is_200
status_is_200-append a b h = elim (Option-cases (index_of crlf (ascii a))) [
  | inl e ↦ absurd (ground (arith, h, break_of_blank (ascii a) e))
  | inr (i, e) ↦
      ap status_is_200 (map-append _ a b)
      ∙ ap line_is_200 (first_line-append (ascii a) (ascii b) i e)
]

-- The state that has pushed these chunks.
abbrev pub holding : List Str → Connection → Connection
holding bs s = record s { buffers = Buffers.chunks bs }

pub run-append : (ds es : List Event) (s : Connection) → run (ds ++ es) s ≡ run es (run ds s)
unfolding run
run-append [] es s = refl
run-append (d ∷ ds) es s = run-append ds es (step d s)

-- Once its listeners are removed, more data changes nothing.
step-deaf : (c : Str) (s : Connection) → s.listening ≡ false → step (Event.data_event c) s ≡ s
unfolding step
step-deaf c s h = ground (arith, h)

run-deaf :
    (cs : List Str) (s : Connection) → s.listening ≡ false → run (map Event.data_event cs) s ≡ s
unfolding run
run-deaf [] s h = refl
run-deaf (c ∷ cs) s h = ap (run (map Event.data_event cs)) (step-deaf c s h) ∙ run-deaf cs s h

answer-deaf : (b : Str) (s : Connection) → (answer b s).listening ≡ false
unfolding answer
answer-deaf b s = ground arith

step-partial :
    (bs : List Str) (b : Str) (s : Connection)
    → s.listening ≡ true
    → is_whole (concat (bs ++ (b ∷ []))) ≡ false
    → step (Event.data_event b) (holding bs s) ≡ holding (bs ++ (b ∷ [])) s
unfolding step on_data with_chunks
step-partial bs b s h e = ground (arith, h, e)

step-whole :
    (bs : List Str) (b : Str) (s : Connection)
    → s.listening ≡ true
    → is_whole (concat (bs ++ (b ∷ []))) ≡ true
    → step (Event.data_event b) (holding bs s) ≡ answer (concat (bs ++ (b ∷ []))) s
unfolding step on_data with_chunks answer
step-whole bs b s h e = ground (arith, h, e)

-- The chunk with which the head becomes whole, and those before and after it.
pub record Cut (bs cs : List Str) : Type 0 where
  pub before : List Str
  pub last : Str
  pub after : List Str
  pub cs_eq : cs ≡ before ++ (last ∷ after)
  pub early : is_whole (concat (bs ++ before)) ≡ false
  pub whole : is_whole (concat (bs ++ (before ++ (last ∷ [])))) ≡ true

abbrev pub answered : {bs cs : List Str} → Cut bs cs → Str
answered {bs} k = concat (bs ++ (k.before ++ (k.last ∷ [])))

-- Data is kept until the head is whole, and then answered at once.
pub run-data :
    (bs cs : List Str) (s : Connection)
    → s.listening ≡ true
    → is_whole (concat bs) ≡ false
    → ((is_whole (concat (bs ++ cs)) ≡ false)
        × (run (map Event.data_event cs) (holding bs s) ≡ holding (bs ++ cs) s))
      ⊎ ((k : Cut bs cs) × (run (map Event.data_event cs) (holding bs s) ≡ answer (answered k) s))
unfolding run
run-data bs [] s h e =
    let same = append_nil bs in
    inl (ap (λ x. is_whole (concat x)) same ∙ e, ap (λ x. holding x s) (sym same))
run-data bs (c ∷ cs) s h e = elim (Bool-cases (is_whole (concat (bs ++ (c ∷ []))))) [
  | inl w ↦ inr (
    record {
      before = [];
      last = c;
      after = cs;
      cs_eq = refl;
      early = ap (λ x. is_whole (concat x)) (append_nil bs) ∙ e;
      whole = w;
    },
    ap (run (map Event.data_event cs)) (step-whole bs c s h w) ∙ run-deaf cs _ (answer-deaf _ s),
  )
  | inr p ↦
      let first = ap (run (map Event.data_event cs)) (step-partial bs c s h p) in
      elim (run-data (bs ++ (c ∷ [])) cs s h p) [
        | inl (q, r) ↦
            let same = append_assoc bs (c ∷ []) cs in
            inl
              (ap (λ x. is_whole (concat x)) (sym same) ∙ q, first ∙ r ∙ ap (λ x. holding x s) same)
        | inr (k, r) ↦
            let early = append_assoc bs (c ∷ []) k.before in
            let whole = append_assoc bs (c ∷ []) (k.before ++ (k.last ∷ [])) in
            inr (
              record {
                before = c ∷ k.before;
                last = k.last;
                after = k.after;
                cs_eq = ap (◌∷◌ c) k.cs_eq;
                early = ap (λ x. is_whole (concat x)) (sym early) ∙ k.early;
                whole = ap (λ x. is_whole (concat x)) (sym whole) ∙ k.whole;
              },
              first ∙ r ∙ ap (λ x. answer (concat x) s) whole,
            )
      ]
]

-- What is decided on an answer.
abbrev pub decision : Connection → List Call × Options × Bool × Bool
decision s = (s.calls, s.opts, s.listening, s.on_socket)

decision-answer :
    (a b : Str) (s : Connection)
    → is_whole a ≡ true
    → decision (answer (a ++ b) s) ≡ decision (answer a s)
unfolding answer
decision-answer a b s h = ground (arith, status_is_200-append a b h)

answered-concat : {cs : List Str} (k : Cut [] cs) → answered k ++ concat k.after ≡ concat cs
answered-concat {cs} k =
    sym (concat-append (k.before ++ (k.last ∷ [])) k.after)
    ∙ ap concat (append_assoc k.before (k.last ∷ []) k.after ∙ sym k.cs_eq)

-- The decision on a whole text.
abbrev pub decided : Options → Str → List Call × Options × Bool × Bool
decided o text =
    if is_whole text
    then if status_is_200 (ascii text)
      then (Call.connected o.secure_endpoint ∷ [], upgrade o, false, false)
      else (Call.connected false ∷ [], o, false, true)
    else ([], o, true, false)

decided-answer :
    (o : Options) (t : Str) → is_whole t ≡ true → decision (answer t (opened o)) ≡ decided o t
unfolding answer opened
decided-answer o t h = ground (arith, h)

nothing_yet : is_whole (concat []) ≡ false
unfolding index_of concat
nothing_yet = refl

nothing_decided :
    (o : Options) (cs : List Str)
    → is_whole (concat cs) ≡ false
    → decision (holding cs (opened o)) ≡ decided o (concat cs)
unfolding opened
nothing_decided o cs q = ground (arith, q)

replay-answer :
    (o : Options) (t : Str) (n : ℕ)
    → status_is_200 (ascii t) ≡ false
    → (run (Event.socket_event false (n + 1) ∷ []) (answer t (opened o))).replayed ≡ t ∷ []
unfolding run step replay answer opened
replay-answer o t n e = ground (arith, e)

-- However the answer of the proxy is cut into chunks, what is decided is a function of its bytes
-- alone: without a blank line the connection goes on listening and calls nothing back; with a
-- status of 200 it calls back once with the socket, upgraded to TLS if the endpoint is secure; with
-- another status it calls back once with the plain socket and waits for the request's socket.
pub decision-run-data :
    (o : Options) (cs : List Str)
    → decision (run (map Event.data_event cs) (opened o)) ≡ decided o (concat cs)
unfolding opened
decision-run-data o cs = elim (run-data [] cs (opened o) refl nothing_yet) [
  | inl (q, r) ↦ ap decision r ∙ nothing_decided o cs q
  | inr (k, r) ↦
      let all_of_it = answered-concat k in
      let whole =
        ap is_whole (sym all_of_it) ∙ is_whole-append (answered k) (concat k.after) k.whole in
      ap decision r
      ∙ sym (decision-answer (answered k) (concat k.after) (opened o) k.whole)
      ∙ ap (λ x. decision (answer x (opened o))) all_of_it
      ∙ decided-answer o (concat cs) whole
]

-- An answer with a whole head and another status than 200 is sent again on the request's socket,
-- from its first byte up to the end of the chunk that completed the head; with the chunks that
-- come after that one, it is all that the proxy sent, each byte once.
pub run-data_replay :
    (o : Options) (cs : List Str) (n : ℕ)
    → is_whole (concat cs) ≡ true
    → status_is_200 (ascii (concat cs)) ≡ false
    → (k : Cut [] cs) × ((run
          (map Event.data_event cs ++ (Event.socket_event false (n + 1) ∷ []))
          (opened o)).replayed
        ≡ answered k ∷ [])
      × (answered k ++ concat k.after ≡ concat cs)
unfolding opened
run-data_replay o cs n h e = elim (run-data [] cs (opened o) refl nothing_yet) [
  | inl (q, r) ↦ absurd (ground (arith, q, h))
  | inr (k, r) ↦ (
    k,
    ap (λ s. s.replayed) (run-append (map Event.data_event cs) _ (opened o) ∙ ap (run _) r)
        ∙ replay-answer o (answered k) n (
            sym (status_is_200-append (answered k) (concat k.after) k.whole)
            ∙ ap (λ x. status_is_200 (ascii x)) (answered-concat k)
            ∙ e),
    answered-concat k,
  )
]
