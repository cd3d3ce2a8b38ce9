-- ===== src/Validator/Work.antt =====
-- The queue work of src/libs/proxy/ProxyValidator.ts: `push`, `do` and `onEmpty`. Jobs run side by
-- side, so a job is followed through the awaits of `do`: it wakes the judge up, connects to the
-- storage, and has its address tested.
pub mod Alone
pub mod Opened
pub mod Total
use node_proxybroker.Prelude.{
  ℕ, ◌+◌, ◌-◌, Bool, true, false, Option, none, some, List, [], ◌∷◌, ◌++◌, any, if◌then◌else◌, ◌==◌,
}
use node_proxybroker.Judge.Results.{JudgeResult}
use node_proxybroker.Validator.{is_stored}

-- `enabled` is that of the judge, `connection` says that there is one. The jobs that wait in `do` for
-- `wakeup`, `connect` and `validate`, the connections that were opened and closed, and what became
-- of the jobs: stored, left out by the options, or failed with an exception. `closing` and `resting`
-- are the calls of `onEmpty` that wait for `close` and for `pending`.
pub record Work : Type 0 where
  pub enabled : Bool
  pub connection : Bool
  pub is_empty : Bool
  pub waking : List ℕ
  pub connecting : List ℕ
  pub testing : List ℕ
  pub opened : ℕ
  pub closed : ℕ
  pub closing : ℕ
  pub resting : ℕ
  pub stored : List ℕ
  pub skipped : List ℕ
  pub failed : List ℕ

-- What an await of a job or of `onEmpty` comes to; a validation that throws gives no results.
pub data WorkEvent : Type 0 where
  pushed begun woken : ℕ → WorkEvent
  connected : ℕ → Bool → WorkEvent
  validated : ℕ → Option (List JudgeResult) → WorkEvent
  emptied closed_connection rested : WorkEvent

abbrev pub waits : ℕ → List ℕ → Bool
waits k = any (λ j. j == k)

unfoldable pub without : ℕ → List ℕ → List ℕ
without k [] = []
without k (j ∷ js) = let rest = without k js in if j == k then js else j ∷ rest

-- `do` from its start to the first await that takes time.
unfoldable pub begin_do : ℕ → Work → Work
begin_do k w =
    if w.enabled then record w { testing = k ∷ w.testing } else record w { waking = k ∷ w.waking }

-- After `wakeup`, which catches its errors: the judge is enabled either way.
unfoldable pub after_wakeup : ℕ → Work → Work
unfolding without
after_wakeup k w = record w {
  enabled = true;
  waking = without k w.waking;
  connecting = k ∷ w.connecting;
}

-- After `storage.connect`, whose exception ends the job.
unfoldable pub after_connect : ℕ → Bool → Work → Work
unfolding without
after_connect k true w = record w {
  connection = true;
  opened = w.opened + 1;
  connecting = without k w.connecting;
  testing = k ∷ w.testing;
}
after_connect k false w = record w {
  connecting = without k w.connecting;
  failed = w.failed ++ (k ∷ []);
}

module _ (skip_failed : Bool) where
  -- The end of a test: `store` throws where there is no connection.
  unfoldable pub end_do : ℕ → Option (List JudgeResult) → Work → Work
  unfolding is_stored
  end_do k none w = record w { failed = w.failed ++ (k ∷ []) }
  end_do k (some rs) w =
      if is_stored skip_failed rs
      then (if w.connection
          then record w { stored = w.stored ++ (k ∷ []) }
          else record w { failed = w.failed ++ (k ∷ []) })
      else record w { skipped = w.skipped ++ (k ∷ []) }

  unfoldable pub after_validate : ℕ → Option (List JudgeResult) → Work → Work
  unfolding end_do without
  after_validate k rs w = end_do k rs (record w { testing = without k w.testing })

-- `onEmpty` comes to the judge: at its end the work is empty.
unfoldable pub begin_rest : Work → Work
begin_rest w =
    if w.enabled then record w { resting = w.resting + 1 } else record w { is_empty = true }

-- `onEmpty` from its start to the first await.
unfoldable pub begin_empty : Work → Work
unfolding begin_rest
begin_empty w = if w.connection then record w { closing = w.closing + 1 } else begin_rest w

-- After `connection.close`: whatever connection there is by now is forgotten.
unfoldable pub after_close : Work → Work
unfolding begin_rest
after_close w =
    begin_rest (record w { closing = w.closing - 1; closed = w.closed + 1; connection = false })

-- After `pending`, which disables the judge and lets no job begin until its servers have stopped.
unfoldable pub after_pending : Work → Work
after_pending w = record w { resting = w.resting - 1; enabled = false; is_empty = true }

-- `onEmpty`, with nothing between its awaits.
unfoldable pub on_empty : Work → Work
on_empty w = record w {
  closed = if w.connection then w.closed + 1 else w.closed;
  connection = false;
  enabled = false;
  is_empty = true;
}

module _ (skip_failed : Bool) where
  -- An await that nothing waits for changes nothing.
  unfoldable pub work : Work → WorkEvent → Work
  unfolding begin_do after_wakeup after_connect after_validate begin_empty after_close after_pending
  work w (pushed k) = record w { is_empty = false }
  work w (begun k) = begin_do k w
  work w (woken k) = if waits k w.waking then after_wakeup k w else w
  work w (connected k ok) = if waits k w.connecting then after_connect k ok w else w
  work w (validated k rs) = if waits k w.testing then after_validate skip_failed k rs w else w
  work w emptied = begin_empty w
  work w closed_connection = if w.closing == 0 then w else after_close w
  work w rested = if w.resting == 0 then w else after_pending w

  unfoldable pub works : Work → List WorkEvent → Work
  unfolding work
  works w [] = w
  works w (e ∷ es) = works (work w e) es

abbrev pub new_work : Work
new_work = record {
  enabled = false;
  connection = false;
  is_empty = true;
  waking = [];
  connecting = [];
  testing = [];
  opened = 0;
  closed = 0;
  closing = 0;
  resting = 0;
  stored = [];
  skipped = [];
  failed = [];
}
