-- ===== src/Validator/Task.antt =====
-- `exec` of src/tasks/ProxyValidateTask.ts: the results of a validation as rows. At most as many jobs
-- run at once as the semaphore lets through, and they end in any order.
pub mod Rows
use mathlib.Core.List.{Perm}
use mathlib.Core.List.Perm
use node_proxybroker.Prelude.{
  ℕ, zero, suc, ◌+◌, ◌-◌, ◌≤◌, ◌≡◌, refl, Bool, true, false, not, Option, none, some, List, [], ◌∷◌,
  ◌++◌, map, Str, codes, length, length-append, ℤ, All, All-append, if◌then◌else◌, ltb, ◌==◌, arith,
}
use node_proxybroker.Address.{ProxyData}
use node_proxybroker.Entities.{ProtocolType, http, https}
use node_proxybroker.Judge.Results.{JudgeResult, get_variants}

-- The fields of JudgeResults that are read. Nothing assigns `protocol`, so it stays at its default.
pub record JudgeResults : Type 0 where
  pub protocol : ProtocolType
  pub ip : Str
  pub port : ℕ
  pub variants : List JudgeResult

-- What `validate` of the judge gives for an address.
abbrev pub judge_results : Str → ℕ → List JudgeResult → JudgeResults
judge_results ip port variants = record {
  protocol = http;
  ip = ip;
  port = port;
  variants = variants;
}

-- IProxyResult; a duration that is Infinity is none.
pub record TaskResult : Type 0 where
  pub protocol : Str
  pub ip : Str
  pub port : ℕ
  pub enabled : Bool
  pub level : ℤ
  pub duration : Option ℕ

abbrev pub protocol_text : ProtocolType → Str
protocol_text http = codes "http"
protocol_text https = codes "https"

unfoldable pub result_row : JudgeResults → JudgeResult → TaskResult
result_row r x = record {
  protocol = protocol_text r.protocol;
  ip = r.ip;
  port = r.port;
  enabled = not x.has_error;
  level = x.level;
  duration = x.duration;
}

-- The rows of a job; one that failed is only logged.
unfoldable pub job_rows : Option JudgeResults → List TaskResult
unfolding result_row
job_rows none = []
job_rows (some r) = map (result_row r) (get_variants r.variants)

-- The proxies that are still to be pushed, those whose jobs are under way, those whose jobs have
-- ended, and the rows so far.
pub record Exec : Type 0 where
  pub waiting : List ProxyData
  pub running : List ProxyData
  pub ended : List ProxyData
  pub results : List TaskResult

-- `released k r`: the job at the place `k` of those under way ends, with its results or an error.
pub data ExecEvent : Type 0 where
  acquired : ExecEvent
  released : ℕ → Option JudgeResults → ExecEvent

-- The proxy at a place, and the others.
unfoldable pub take_out : ℕ → List ProxyData → Option (ProxyData × List ProxyData)
take_out k [] = none
take_out zero (p ∷ ps) = some (p, ps)
take_out (suc k) (p ∷ ps) = elim (take_out k ps) [ none ↦ none | some (q, qs) ↦ some (q, p ∷ qs) ]

-- The loop goes on when the semaphore lets it, and a job that ends releases it.
module _ (limit : ℕ) where
  unfoldable pub acquire : List ProxyData → Exec → Exec
  acquire [] e = e
  acquire (p ∷ ps) e =
      if ltb (length e.running) limit
      then record e { waiting = ps; running = e.running ++ (p ∷ []) }
      else e

  unfoldable pub exec_step : Exec → ExecEvent → Exec
  unfolding acquire job_rows take_out
  exec_step e acquired = acquire e.waiting e
  exec_step e (released k r) = elim (take_out k e.running) [
    | none ↦ e
    | some (p, ps) ↦ record e {
      running = ps;
      ended = e.ended ++ (p ∷ []);
      results = e.results ++ job_rows r;
    }
  ]

  unfoldable pub exec : Exec → List ExecEvent → Exec
  unfolding exec_step
  exec e [] = e
  exec e (v ∷ vs) = exec (exec_step e v) vs
