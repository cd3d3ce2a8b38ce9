-- ===== src/Judge/Request/Outcome.antt =====
-- src/libs/judge/JudgeRequest.ts: how a test ends.
use mathlib.Core.Path.{subst}
use node_proxybroker.Prelude.{
  ℕ, ◌-◌, ◌≡◌, ◌∙◌, sym, ap, refl, Bool, true, false, Option, none, some, List, [], ◌∷◌, Str, all,
  arith, if◌then◌else◌, pos, codes, Option-cases, inl, inr,
}
use node_proxybroker.Entities.{ProtocolType}
use node_proxybroker.Http.{Error}
use node_proxybroker.Judge.Level.{LevelDetection, IHeader, add_recv_header, detect, no_stats}
use node_proxybroker.Judge.Level.Detect.{level_by, detect-level_by}
use node_proxybroker.Judge.Results.{JudgeResult, set_error}
use node_proxybroker.Judge.Request.{
  JudgeRequest, level, abort, handle_error, on_socket_timeout, on_judge, result, clear,
  free_sockets, log_header, log_headers, level_message, socket_timeout, socket_timeouts,
}
use node_proxybroker.Judge.Monitor as Monitor
use node_proxybroker.Judge.Monitor.{last_error}

-- Errors that come one after the other, those marked by `true` as a timeout of the socket.
pub errors_come : List (Bool × (ℕ × Error)) → JudgeRequest → JudgeRequest
errors_come [] q = q
errors_come ((true, e) ∷ es) q = errors_come es (on_socket_timeout e q)
errors_come ((false, e) ∷ es) q = errors_come es (handle_error e q)

-- The calls of `request.abort` are those that `aborted` tells of.
abbrev pub IsOnce : JudgeRequest → Type 0
IsOnce q = q.aborts ≡ (if q.aborted then 1 else 0)

handle_error-IsOnce : (e : ℕ × Error) (q : JudgeRequest) → IsOnce q → IsOnce (handle_error e q)
unfolding handle_error abort
handle_error-IsOnce (n, e) q h = ground arith

on_socket_timeout-IsOnce :
    (e : ℕ × Error) (q : JudgeRequest) → IsOnce q → IsOnce (on_socket_timeout e q)
unfolding on_socket_timeout
on_socket_timeout-IsOnce e q h = ground (arith, handle_error-IsOnce e q h)

-- However many errors and timeouts come, `request.abort` is called at most once, and exactly if the
-- request is then marked as aborted, if that was so before.
pub errors_come-IsOnce :
    (es : List (Bool × (ℕ × Error))) (q : JudgeRequest) → IsOnce q → IsOnce (errors_come es q)
unfolding errors_come
errors_come-IsOnce [] q h = h
errors_come-IsOnce ((true, e) ∷ es) q h = errors_come-IsOnce es _ (on_socket_timeout-IsOnce e q h)
errors_come-IsOnce ((false, e) ∷ es) q h = errors_come-IsOnce es _ (handle_error-IsOnce e q h)

set_error-level : (e : Option Error) (r : JudgeResult) → (set_error e r).level ≡ r.level
unfolding set_error
set_error-level none r = refl
set_error-level (some e) r = refl

-- The request after timeouts that came when the judge had been reached: what it is in.
record Settled (p v : JudgeRequest) : Type 0 where
  pub connected : v.judge_connected ≡ true
  pub same_detector : v.level_detector ≡ p.level_detector
  pub same_errors : v.errors ≡ p.errors
  pub same_aborted : v.aborted ≡ p.aborted
  pub same_aborts : v.aborts ≡ p.aborts
  pub same_sockets : v.sockets ≡ p.sockets
  pub same_seen : v.monitor.errors ≡ p.monitor.errors
  pub same_start : v.monitor.start ≡ p.monitor.start

socket_timeout-connected :
    (now : ℕ) (e : ℕ × Error) (q : JudgeRequest)
    → q.judge_connected ≡ true
    → socket_timeout now e q ≡ record q { monitor = Monitor.on_socket_timeout now q.monitor }
unfolding socket_timeout on_socket_timeout
socket_timeout-connected now e q c = ground (arith, c)

socket_timeouts-Settled :
    (ts : List (ℕ × ℕ × Error)) (p : JudgeRequest)
    → p.judge_connected ≡ true
    → Settled p (socket_timeouts ts p)
unfolding socket_timeouts
socket_timeouts-Settled [] p c = record {
  connected = c;
  same_detector = refl;
  same_errors = refl;
  same_aborted = refl;
  same_aborts = refl;
  same_sockets = refl;
  same_seen = refl;
  same_start = refl;
}
socket_timeouts-Settled ((now, n, e) ∷ ts) p c =
    let s = socket_timeouts-Settled ts p c in
    subst (Settled p) (sym (socket_timeout-connected now (n, e) (socket_timeouts ts p) s.connected))
      (unfold Monitor.on_socket_timeout Monitor.stop Monitor.add_log in
        record {
          connected = s.connected;
          same_detector = s.same_detector;
          same_errors = s.same_errors;
          same_aborted = s.same_aborted;
          same_aborts = s.same_aborts;
          same_sockets = s.same_sockets;
          same_seen = s.same_seen;
          same_start = s.same_start;
        })

-- A monitor whose times and errors are those of another.
abbrev SameTimes : Monitor.Monitor → Monitor.Monitor → Type 0
SameTimes m n = (n.start ≡ m.start) × (n.stopped ≡ m.stopped) × (n.duration ≡ m.duration)

log_header-SameTimes : (h : IHeader) (m : Monitor.Monitor) → SameTimes m (log_header h m)
unfolding log_header Monitor.add_log
log_header-SameTimes h m = ground arith

log_headers-SameTimes : (hs : List IHeader) (m : Monitor.Monitor) → SameTimes m (log_headers hs m)
unfolding log_headers
log_headers-SameTimes [] m = (refl, refl, refl)
log_headers-SameTimes (h ∷ hs) m =
    let (a, b, c) = log_headers-SameTimes hs (log_header h m) in
    let (a', b', c') = log_header-SameTimes h m in (a ∙ a', b ∙ b', c ∙ c')

-- The time of the last timeout, or of the call if there is none.
abbrev pub last_time : ℕ → List (ℕ × ℕ × Error) → ℕ
last_time now [] = now
last_time now ((late, n, e) ∷ ts) = late

abbrev IsTimed : ℕ → ℕ → JudgeRequest → Type 0
IsTimed start now q =
    (q.monitor.start ≡ start)
    × (q.monitor.stopped ≡ some now)
    × (q.monitor.duration ≡ some (now - start))

socket_timeouts-IsTimed :
    (start now : ℕ) (ts : List (ℕ × ℕ × Error)) (p : JudgeRequest)
    → p.judge_connected ≡ true
    → IsTimed start now p
    → IsTimed start (last_time now ts) (socket_timeouts ts p)
unfolding socket_timeouts
socket_timeouts-IsTimed start now [] p c h = h
socket_timeouts-IsTimed start now ((late, n, e) ∷ ts) p c h =
    let s = socket_timeouts-Settled ts p c in
    let same = s.same_start ∙ h.0 in
    subst (IsTimed start late)
      (sym (socket_timeout-connected late (n, e) (socket_timeouts ts p) s.connected))
      (unfold Monitor.on_socket_timeout Monitor.stop Monitor.add_log in
        (same, refl, ap (λ x. some (late - x)) same))

set_error-has_error :
    (e f : Option Error) (r s : JudgeResult)
    → e ≡ f
    → r.has_error ≡ s.has_error
    → (set_error e r).has_error ≡ (set_error f s).has_error
unfolding set_error
set_error-has_error e none r s p q = rw p q
set_error-has_error e (some x) r s p q = rw p refl

level_cong : (p v : JudgeRequest) → v.level_detector ≡ p.level_detector → level v ≡ level p
unfolding level
level_cong p v e = rw e refl

result-level : (from to : ProtocolType) (q : JudgeRequest) → (result from to q).level ≡ level q
unfolding result
result-level from to q = set_error-level _ _

result-times :
    (from to : ProtocolType) (q : JudgeRequest)
    → ((result from to q).stop ≡ q.monitor.stopped)
      × ((result from to q).duration ≡ q.monitor.duration)
unfolding result set_error
result-times from to q = elim (Option-cases (last_error q.monitor.errors)) [
  | inl n ↦ rw (n, result) (refl, refl)
  | inr (e, n) ↦ rw (n, result) (refl, refl)
]

-- What a test is at its end that the judge was reached for as `p`, with timeouts after that.
abbrev pub Ended :
    ProtocolType → ProtocolType → List (ℕ × ℕ × Error) → ℕ → ℕ → ℕ → JudgeRequest → Type 0
Ended from to ts start now n p =
    ((result from to (socket_timeouts ts p)).level ≡ pos n)
    × ((result from to (socket_timeouts ts p)).has_error ≡ (result from to p).has_error)
    × ((result from to (socket_timeouts ts p)).stop ≡ some (last_time now ts))
    × ((result from to (socket_timeouts ts p)).duration ≡ some (last_time now ts - start))
    × ((socket_timeouts ts p).errors ≡ p.errors)
    × ((socket_timeouts ts p).aborted ≡ p.aborted)
    × ((socket_timeouts ts p).aborts ≡ p.aborts)

connected-Ended :
    (from to : ProtocolType) (ts : List (ℕ × ℕ × Error)) (start now n : ℕ) (p : JudgeRequest)
    → p.judge_connected ≡ true
    → IsTimed start now p
    → level p ≡ pos n
    → Ended from to ts start now n p
unfolding result
connected-Ended from to ts start now n p c h l =
    let s = socket_timeouts-Settled ts p c in
    let v = socket_timeouts ts p in
    let timed = socket_timeouts-IsTimed start now ts p c h in
    (
      result-level from to v ∙ level_cong p v s.same_detector ∙ l,
      set_error-has_error _ _ _ _ (ap last_error s.same_seen) refl,
      (result-times from to v).0 ∙ timed.1,
      (result-times from to v).1 ∙ timed.2,
      s.same_errors,
      s.same_aborted,
      s.same_aborts,
    )

reached-SameTimes :
    (hs : List IHeader) (a b : Monitor.Message) (now : ℕ) (m : Monitor.Monitor)
    → SameTimes (Monitor.stop now m) (
        log_headers hs
          (Monitor.add_log a (codes "*") (Monitor.add_log b (codes "*") (Monitor.stop now m))))
unfolding Monitor.add_log
reached-SameTimes hs a b now m = log_headers-SameTimes hs _

-- The judge was reached: what the test then is.
abbrev pub Judged :
    (Str → Str → Option Str)
    → ℕ
    → List (Str × Str)
    → LevelDetection
    → ProtocolType
    → ProtocolType
    → List (ℕ × ℕ × Error)
    → JudgeRequest
    → Type 0
Judged match_escaped now headers d from to ts q =
    (p : JudgeRequest) × (on_judge match_escaped now headers q ≡ some p)
    × Ended from to ts q.monitor.start now
        (level_by match_escaped (add_recv_header d headers)
          (add_recv_header d headers).recv_headers)
        p

-- When the call of the judge arrives and the detector of the test is new, the test has the level that
-- the headers of the call give by themselves. Timeouts of the socket after that leave this level, add
-- no error to the result or the request and do not abort it; but each one takes the time of the test
-- anew, so that its end and duration are those of the last timeout.
pub on_judge-level :
    (match_escaped : Str → Str → Option Str) (now : ℕ) (headers : List (Str × Str))
    (q : JudgeRequest) (d : LevelDetection) (from to : ProtocolType) (ts : List (ℕ × ℕ × Error))
    → q.level_detector ≡ some d
    → (d.local_regex.last_index ≡ 0) × (d.proxy_regex.last_index ≡ 0)
    → d.stats ≡ no_stats
    → Judged match_escaped now headers d from to ts q
unfolding on_judge level
on_judge-level match_escaped now headers q d from to ts det z s =
    let lvl =
      detect-level_by match_escaped (add_recv_header d headers) (unfold add_recv_header in z)
        (unfold add_recv_header in s) in
    let same : record q { level_detector = some d } ≡ q =
      ap (λ o. record q { level_detector = o }) (sym det) in
    let found = detect match_escaped (add_recv_header d headers) in
    let m = Monitor.stop now q.monitor in
    subst (Judged match_escaped now headers d from to ts) same (
      _,
      refl,
      connected-Ended from to ts q.monitor.start now _ _ refl
          (unfold Monitor.stop in
            reached-SameTimes found.recv_headers (level_message found.level)
              (Monitor.jdg01 m.duration) now q.monitor)
          lvl,
    )

free_sockets-all : (ds : List Bool) → all (λ destroyed. destroyed) (free_sockets ds) ≡ true
unfolding free_sockets
free_sockets-all [] = refl
free_sockets-all (d ∷ ds) = free_sockets-all ds

-- An active request that is cleared has no request, no socket and nothing open, and clearing it again changes
-- nothing.
pub clear-clear :
    (q : JudgeRequest)
    → q.active ≡ true
    → ((clear q).has_request ≡ false)
      × (all (λ destroyed. destroyed) (clear q).sockets ≡ true)
      × (clear (clear q) ≡ clear q)
unfolding clear
clear-clear q a =
    (ground (arith, a), ground (arith, a, free_sockets-all q.sockets), ground (arith, a))
