-- ===== src/Agent.antt =====
-- src/libs/overrides/https_proxy_agent.ts: the connection through a proxy by CONNECT. The events of
-- the socket and of the request are a data type, and each listener is a function on the state of one
-- call of `connect`.
pub mod Numeric
pub mod Message
pub mod Received
pub mod Chunks
pub mod Calls
use node_proxybroker.Prelude.{
  ℕ, ◌%◌, Bool, true, false, not, ◌||◌, Option, none, some, List, [], ◌∷◌, ◌++◌, map, Str, is_some,
  index_of, split_on, crlf, crlf_crlf, take, if◌then◌else◌, ltb,
}
use node_proxybroker.Http.{Error, position}
use node_proxybroker.Agent.Numeric.{number_is}

-- `buffers` is an array of chunks, then one buffer to send again, then null.
pub data Buffers : Type 0 where
  chunks : List Str → Buffers
  saved : Str → Buffers
  nothing : Buffers

-- What `opts` holds of the target.
pub record Options : Type 0 where
  pub host : Option Str
  pub hostname : Option Str
  pub port : Option ℕ
  pub servername : Option Str
  pub secure_endpoint : Bool
  pub has_socket : Bool

-- A call of `fn`: with an error, or with the socket or the TLS socket over it.
pub data Call : Type 0 where
  failed : Option Error → Call
  connected : (is_tls : Bool) → Call

-- `listening` holds while the listeners that `cleanup` removes stand; `thrown` is an exception.
pub record Connection : Type 0 where
  pub opts : Options
  pub listening : Bool
  pub on_abort : Bool
  pub on_socket : Bool
  pub buffers : Buffers
  pub calls : List Call
  pub destroyed : Bool
  pub replayed : List Str
  pub thrown : Bool

-- After `connect` has run.
unfoldable pub opened : Options → Connection
opened opts = record {
  opts = opts;
  listening = true;
  on_abort = true;
  on_socket = false;
  buffers = Buffers.chunks [];
  calls = [];
  destroyed = false;
  replayed = [];
  thrown = false;
}

unfoldable pub cleanup : Connection → Connection
cleanup s = record s { listening = false }

-- `fn`
unfoldable pub call : Call → Connection → Connection
call c s = record s { calls = s.calls ++ (c ∷ []) }

unfoldable pub on_error : Option Error → Connection → Connection
unfolding cleanup call
on_error e s = call (Call.failed e) (cleanup s)

-- The listener of 'abort', which runs once.
unfoldable pub on_abort : Option Error → Connection → Connection
unfolding cleanup call
on_abort e s =
    if s.on_abort
    then call (Call.failed e) (cleanup (record s { on_abort = false; destroyed = true }))
    else s

unfoldable pub concat : List Str → Str
concat [] = []
concat (b ∷ bs) = b ++ concat bs

-- `toString('ascii')` drops the high bit of each byte.
abbrev pub ascii_code : ℕ → ℕ
ascii_code c = c % 128

abbrev pub ascii : Str → Str
ascii = map ascii_code

abbrev second_is_200 : List Str → Bool
second_is_200 [] = false
second_is_200 (_ ∷ []) = false
second_is_200 (_ ∷ t ∷ _) = number_is 200 t

-- The text before the first line break.
unfoldable pub first_line : Str → Str
first_line str = take (position (index_of crlf str)) str

-- `200 === +firstLine.split(' ')[1]`
unfoldable pub line_is_200 : Str → Bool
line_is_200 line = second_is_200 (split_on 32 line)

unfoldable pub status_is_200 : Str → Bool
unfolding first_line line_is_200
status_is_200 str = line_is_200 (first_line str)

-- `opts.servername || opts.host`
abbrev name_or_host : Options → Option Str
name_or_host o = elim o.servername as (λ _. Option Str) [
  | none ↦ o.host
  | some [] ↦ o.host
  | some (c ∷ n) ↦ some (c ∷ n)
]

-- The options of `tls.connect` over the socket.
unfoldable pub upgrade : Options → Options
upgrade o =
    if o.secure_endpoint
    then record o {
      has_socket = true;
      servername = name_or_host o;
      host = none;
      hostname = none;
      port = none;
    }
    else o

-- The head of the answer is there.
unfoldable pub answer : Str → Connection → Connection
unfolding status_is_200 upgrade cleanup call
answer buffered s =
    if status_is_200 (ascii buffered)
    then call (Call.connected s.opts.secure_endpoint)
        (cleanup (record s { buffers = Buffers.nothing; opts = upgrade s.opts }))
    else call (Call.connected false)
        (record (cleanup s) { buffers = Buffers.saved buffered; on_socket = true })

-- `ondata` once a chunk is pushed: a head that is not complete is read on.
unfoldable pub with_chunks : List Str → Connection → Connection
unfolding concat answer
with_chunks bs s =
    if is_some (index_of crlf_crlf (ascii (concat bs)))
    then answer (concat bs) s
    else record s { buffers = Buffers.chunks bs }

-- `buffers.push(b)`, for an array only.
unfoldable pub push : Buffers → Str → Connection → Connection
unfolding with_chunks
push (Buffers.chunks bs) b s = with_chunks (bs ++ (b ∷ [])) s
push (Buffers.saved _) b s = record s { thrown = true }
push Buffers.nothing b s = record s { thrown = true }

unfoldable pub on_data : Str → Connection → Connection
unfolding push
on_data b s = push s.buffers b s

-- What is sent again: `onsocket` is only waiting when a buffer is saved.
abbrev sent_again : Buffers → List Str
sent_again (Buffers.saved b) = b ∷ []
sent_again (Buffers.chunks bs) = bs
sent_again Buffers.nothing = []

-- `onsocket`, for the number of 'data' listeners of the socket.
unfoldable pub replay : Bool → ℕ → Connection → Connection
replay has_ondata listeners s =
    if has_ondata || ltb 0 listeners
    then record s { replayed = s.replayed ++ sent_again s.buffers; buffers = Buffers.nothing }
    else record s { thrown = true }

pub data Event : Type 0 where
  data_event : Str → Event
  error_event : Error → Event
  end_event : Event
  close_event : Event
  abort_event : Option Error → Event
  socket_event : (has_ondata : Bool) → (listeners : ℕ) → Event

-- What runs on an event: a listener that was removed does not.
unfoldable pub step : Event → Connection → Connection
unfolding on_data on_error on_abort replay
step (Event.data_event b) s = if s.listening then on_data b s else s
step (Event.error_event e) s = if s.listening then on_error (some e) s else s
step Event.end_event s = s
step Event.close_event s = s
step (Event.abort_event e) s = on_abort e s
step (Event.socket_event d n) s =
    if s.on_socket then replay d n (record s { on_socket = false }) else s

unfoldable pub run : List Event → Connection → Connection
unfolding step
run [] s = s
run (e ∷ es) s = run es (step e s)
