-- ===== src/Judge/Messages.antt =====
-- src/libs/specific/Messages.ts, src/libs/judge/ReqResEvent.ts and `logToString` of JudgeResult.ts: the
-- log of a request as text.
pub mod Written
use node_proxybroker.Prelude.{
  ◌≡◌, refl, Bool, true, false, not, ◌&&◌, Option, none, some, List, [], ◌∷◌, ◌++◌, map, Str, codes,
  trim, is_empty, filter, ltb, join, if◌then◌else◌, Bool-cases, inl, inr, arith,
}
use node_proxybroker.Judge.Monitor.{
  Message, orq01, orq02, orq03, orq04, err01, err02, err03, err04, err05, cne01, osc01, osc02,
  osc03, ose01, prx01, prx02, prx03, prx10, rcl01, rcc01, jdg01, ost01, ots01, hed01, lvl01, lvl02,
  lvl03, lvl04, ReqResEvent, collapse, log_lines,
}

-- MESSAGE, by the keys that the judge logs.
abbrev pub template : Message → Str
template orq01 = codes "Try connect to ${uri} over proxy ${proxy_uri} ..."
template orq02 = codes "Try connect to ${uri} ..."
template orq03 = codes "set TCP_NODELAY"
template orq04 = codes "HTTP-Tunneling enabled."
template (rcl01 n) = codes "Received ${length} byte from sender."
template err01 = codes "Connection aborted through errors:"
template (err02 e) = codes "- ${error}"
template err03 = codes "Connection refused."
template err04 = codes "Connection timeout."
template err05 = codes "Connection aborted."
template cne01 = codes "Connection not established."
template (rcc01 n) = codes "Connection closed to ${uri} (${duration}ms)"
template (hed01 h) = codes "${header}"
template osc01 = codes "Connected to proxy ${uri}"
template osc02 = codes "Connected to ${addr}:${port}"
template osc03 = codes "Try handshake for secure connetion ..."
template ose01 = codes "Forced end of socket."
template (ost01 n) = codes "Socket timed out after ${duration}ms"
template (ots01 n) = codes "Secured connection established (${duration}ms)"
template (jdg01 n) = codes "Judge connected from ${addr}:${port}. (${duration}ms)"
template prx01 = codes "Proxy is L1 - elite (high anonymus):"
template prx02 = codes "Proxy is L2 - anonymus:"
template prx03 = codes "Proxy is L3 - transparent:"
template prx10 = codes "Proxy level is unknown:"
template (lvl01 k v) = codes "- Detected proxy ip in via header: ${key} = ${value}"
template (lvl02 k v) = codes "- Detected local ip in forward header: ${key} = ${value}"
template (lvl03 k v) = codes "- Has via header: ${key} = ${value}"
template (lvl04 k v) = codes "- Has forward header: ${key} = ${value}"

-- `interpolate` is InterpolationSupport.exec with the parameters of the message.
module _ (interpolate : Message → Str → Str) where
  -- `Messages.get`, which leaves the text alone without parameters.
  unfoldable pub get_message : Bool → Message → Str
  get_message has_params m = if has_params then interpolate m (template m) else template m

  -- `logMsg`
  unfoldable pub log_msg : Str → Bool → ReqResEvent → Str
  unfolding get_message
  log_msg conn_id has_params e =
      codes "req<>res:"
      ++ (conn_id ++ (codes " | " ++ (e.prefix ++ (codes " " ++ get_message has_params e.message))))

-- The sort of `logToString`; the numbers of the entries of a log differ.
unfoldable pub insert_entry : ReqResEvent → List ReqResEvent → List ReqResEvent
insert_entry e [] = e ∷ []
insert_entry e (f ∷ es) =
    let rest = insert_entry e es in if ltb e.nr f.nr then e ∷ f ∷ es else f ∷ rest

unfoldable pub sort_log : List ReqResEvent → List ReqResEvent
unfolding insert_entry
sort_log [] = []
sort_log (e ∷ es) = insert_entry e (sort_log es)

-- `logToString` of a result.
unfoldable pub log_to_string : (Message → Str) → Str → List ReqResEvent → Str
unfolding sort_log log_lines
log_to_string text sep es = join sep (log_lines text (sort_log es))
