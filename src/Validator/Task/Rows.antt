-- ===== src/Validator/Task/Rows.antt =====
-- ProxyValidateTask.ts: the jobs of a validation and their rows.
use mathlib.Core.Path.{subst}
use mathlib.Core.List.{Perm}
use mathlib.Core.List.Perm
use node_proxybroker.Prelude.{
  ℕ, zero, suc, ◌+◌, ◌≤◌, ◌≡◌, refl, ap, ◌∙◌, sym, Bool, true, false, not, Option, none, some,
  is_some, List, [], ◌∷◌, ◌++◌, map, length, append_assoc, append_nil, length-append, codes,
  if◌then◌else◌, Option-cases, Bool-cases, ltb, inl, inr, arith,
}
use node_proxybroker.Address.{ProxyData}
use node_proxybroker.Entities.{ProtocolType, http, https}
use node_proxybroker.Judge.Results.{JudgeResult, get_variants}
use node_proxybroker.Validator.Task.{
  Exec, ExecEvent, TaskResult, JudgeResults, protocol_text, result_row, job_rows, take_out, acquire,
  exec_step, exec,
}

-- A job ends only if it is under way.
abbrev pub Fits : Exec → ExecEvent → Type 0
Fits e ExecEvent.acquired = Unit
Fits e (ExecEvent.released k r) = is_some (take_out k e.running) ≡ true

abbrev pub AllFit : ℕ → Exec → List ExecEvent → Type 0
AllFit limit e [] = Unit
AllFit limit e (v ∷ vs) = Fits e v × AllFit limit (exec_step limit e v) vs

-- The row of a result: it is enabled if the test had no error.
abbrev pub expected_row : JudgeResults → JudgeResult → TaskResult
expected_row r x = record {
  protocol = elim r.protocol [ http ↦ codes "http" | https ↦ codes "https" ];
  ip = r.ip;
  port = r.port;
  enabled = if x.has_error then false else true;
  level = x.level;
  duration = x.duration;
}

-- The rows of the jobs in the order in which they end; a job that fails has none.
abbrev pub all_rows : List ExecEvent → List TaskResult
all_rows [] = []
all_rows (ExecEvent.acquired ∷ vs) = all_rows vs
all_rows (ExecEvent.released k none ∷ vs) = all_rows vs
all_rows (ExecEvent.released k (some r) ∷ vs) =
    map (expected_row r) (get_variants r.variants) ++ all_rows vs

-- All the proxies of the task.
abbrev pub proxies : Exec → List ProxyData
proxies e = e.ended ++ (e.running ++ e.waiting)

not_if : (b : Bool) → not b ≡ (if b then false else true)
not_if true = refl
not_if false = refl

protocol_name :
    (p : ProtocolType) → protocol_text p ≡ elim p [ http ↦ codes "http" | https ↦ codes "https" ]
protocol_name http = refl
protocol_name https = refl

row_expected : (r : JudgeResults) (x : JudgeResult) → result_row r x ≡ expected_row r x
unfolding result_row
row_expected r x = rw (not_if x.has_error, protocol_name r.protocol) refl

rows_expected :
    (r : JudgeResults) (xs : List JudgeResult) → map (result_row r) xs ≡ map (expected_row r) xs
unfolding result_row
rows_expected r [] = refl
rows_expected r (x ∷ xs) = rw (row_expected r x, rows_expected r xs) refl

job_rows-all :
    (k : ℕ) (r : Option JudgeResults) (vs : List ExecEvent)
    → job_rows r ++ all_rows vs ≡ all_rows (ExecEvent.released k r ∷ vs)
unfolding job_rows
job_rows-all k none vs = refl
job_rows-all k (some r) vs = ap (λ x. x ++ all_rows vs) (rows_expected r (get_variants r.variants))

-- What is taken out of a list, and what is left of it.
abbrev IsTaken : List ProxyData → Option (ProxyData × List ProxyData) → Type 0
IsTaken l none = Unit
IsTaken l (some (p, ps)) = Perm l (p ∷ ps) × (length l ≡ length ps + 1)

IsTaken-cons :
    (q : ProxyData) (l : List ProxyData) (o : Option (ProxyData × List ProxyData))
    → IsTaken l o
    → IsTaken (q ∷ l) (elim o [ none ↦ none | some (p, ps) ↦ some (p, q ∷ ps) ])
IsTaken-cons q l none h = tt
IsTaken-cons q l (some (p, ps)) h =
    (Perm.trans (Perm.cons q h.0) (Perm.swap p q ps), omega (arith, h.1))

take_out-IsTaken : (k : ℕ) (l : List ProxyData) → IsTaken l (take_out k l)
unfolding take_out
take_out-IsTaken k [] = tt
take_out-IsTaken zero (p ∷ ps) = (Perm.refl _, omega arith)
take_out-IsTaken (suc k) (p ∷ ps) = IsTaken-cons p ps (take_out k ps) (take_out-IsTaken k ps)

taken-Perm :
    (ended running ps waiting : List ProxyData) (p : ProxyData)
    → Perm running (p ∷ ps)
    → Perm ((ended ++ (p ∷ [])) ++ (ps ++ waiting)) (ended ++ (running ++ waiting))
taken-Perm ended running ps waiting p h =
    subst (λ l. Perm l (ended ++ (running ++ waiting)))
      (sym (append_assoc ended (p ∷ []) (ps ++ waiting)))
      (Perm.append_left ended (Perm.append_right waiting (Perm.symm h)))

-- What a step does to the proxies and the rows, `added` to them.
abbrev IsStep : ℕ → Exec → Exec → List TaskResult → Type 0
IsStep limit e f added =
    (length f.running ≤ limit) × (f.results ≡ e.results ++ added) × Perm (proxies f) (proxies e)

acquire-IsStep :
    (limit : ℕ) (ps : List ProxyData) (e : Exec)
    → e.waiting ≡ ps
    → length e.running ≤ limit
    → IsStep limit e (acquire limit ps e) []
unfolding acquire
acquire-IsStep limit [] e q h = (h, sym (append_nil e.results), Perm.refl _)
acquire-IsStep limit (p ∷ ps) e q h = elim (Bool-cases (ltb (length e.running) limit)) [
  | inr full ↦ rw (full, acquire) (h, sym (append_nil e.results), Perm.refl _)
  | inl free ↦
      rw (free, acquire)
        (
          ground (arith, free, length-append e.running (p ∷ [])),
          sym (append_nil e.results),
          subst (λ l. Perm (e.ended ++ l) (proxies e))
              (ap (λ w. e.running ++ w) q ∙ sym (append_assoc e.running (p ∷ []) ps)) (Perm.refl _),
        )
]

release-IsStep :
    (limit k : ℕ) (r : Option JudgeResults) (e : Exec)
    → length e.running ≤ limit
    → is_some (take_out k e.running) ≡ true
    → IsStep limit e (exec_step limit e (ExecEvent.released k r)) (job_rows r)
unfolding exec_step
release-IsStep limit k r e h fits = elim (Option-cases (take_out k e.running)) [
  | inl n ↦ absurd (ground (arith, n, fits))
  | inr ((p, ps), q) ↦
      let (perm, len) = subst (IsTaken e.running) q (take_out-IsTaken k e.running) in
      rw (q, exec_step)
        (omega (arith, len, h), refl, taken-Perm e.ended e.running ps e.waiting p perm)
]

exec_step-IsStep :
    (limit : ℕ) (v : ExecEvent) (vs : List ExecEvent) (e : Exec)
    → length e.running ≤ limit
    → Fits e v
    → (added : List TaskResult) × IsStep limit e (exec_step limit e v) added
      × (added ++ all_rows vs ≡ all_rows (v ∷ vs))
exec_step-IsStep limit ExecEvent.acquired vs e h f =
    ([], unfold exec_step in acquire-IsStep limit e.waiting e refl h, refl)
exec_step-IsStep limit (ExecEvent.released k r) vs e h f =
    (job_rows r, release-IsStep limit k r e h f, job_rows-all k r vs)

-- However the jobs are started and end, never more are under way than the semaphore lets through; the
-- rows are, after those of before, those of the results of the jobs in the order in which they end,
-- enabled where there was no error; and the proxies that wait, are under way and have ended are
-- together those of before, each as often.
pub exec-rows :
    (limit : ℕ) (e : Exec) (vs : List ExecEvent)
    → length e.running ≤ limit
    → AllFit limit e vs
    → let f = exec limit e vs in
      (length f.running ≤ limit)
      × (f.results ≡ e.results ++ all_rows vs)
      × Perm (proxies f) (proxies e)
unfolding exec
exec-rows limit e [] h a = (h, sym (append_nil e.results), Perm.refl _)
exec-rows limit e (v ∷ vs) h a =
    let (added, (le, rows, perm), all) = exec_step-IsStep limit v vs e h a.0 in
    let (le', rows', perm') = exec-rows limit (exec_step limit e v) vs le a.1 in
    (
      le',
      rows'
          ∙ ap (λ x. x ++ all_rows vs) rows
          ∙ append_assoc e.results added (all_rows vs)
          ∙ ap (λ x. e.results ++ x) all,
      Perm.trans perm' perm,
    )
