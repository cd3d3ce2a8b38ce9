-- ===== src/Validator/Work/Total.antt =====
-- ProxyValidator.ts: every job that begins comes to one end.
use node_proxybroker.Prelude.{ℕ, ◌+◌, List, [], ◌∷◌, if◌then◌else◌, ◌==◌}
use node_proxybroker.Validator.Work.{Work, WorkEvent}

-- How often a job stands in a list.
abbrev pub times : ℕ → List ℕ → ℕ
times k [] = 0
times k (j ∷ js) = (if j == k then 1 else 0) + times k js

-- How often a job has begun: it is under way, or it has come to an end.
abbrev pub total : ℕ → Work → ℕ
total k w =
    times k w.waking
    + times k w.connecting
    + times k w.testing
    + times k w.stored
    + times k w.skipped
    + times k w.failed

-- How often a job begins in these events.
abbrev pub begins : ℕ → List WorkEvent → ℕ
begins k [] = 0
begins k (WorkEvent.begun j ∷ es) = (if j == k then 1 else 0) + begins k es
begins k (_ ∷ es) = begins k es
