-- ===== src/Validator/Work/Opened.antt =====
-- ProxyValidator.ts: the connections that the jobs open.
use node_proxybroker.Prelude.{
  ℕ, ◌+◌, ◌≡◌, Bool, true, false, ◌||◌, if◌then◌else◌, Option, none, some, List, [], ◌∷◌, ◌==◌, ltb,
  all, arith,
}
use node_proxybroker.Judge.Results.{JudgeResult}
use node_proxybroker.Validator.Work.{
  Work, WorkEvent, waits, without, end_do, begin_empty, begin_rest, after_close, after_pending,
  on_empty, work, works,
}

-- The event is one of a job.
abbrev pub is_of_job : WorkEvent → Bool
is_of_job WorkEvent.emptied = false
is_of_job WorkEvent.closed_connection = false
is_of_job WorkEvent.rested = false
is_of_job _ = true

-- A job that waits for the storage reaches it.
abbrev pub reaches : Work → WorkEvent → ℕ
reaches w (WorkEvent.connected k true) = if waits k w.connecting then 1 else 0
reaches w _ = 0

-- How often a job reaches the storage in these events.
abbrev pub connects : Bool → Work → List WorkEvent → ℕ
connects skip_failed w [] = 0
connects skip_failed w (e ∷ es) = reaches w e + connects skip_failed (work skip_failed w e) es

abbrev IsGrown : Work → Work → ℕ → Type 0
IsGrown w v n =
    (v.opened ≡ w.opened + n) × (v.closed ≡ w.closed) × (v.connection ≡ (w.connection || ltb 0 n))

end_do-IsGrown :
    (skip_failed : Bool) (k : ℕ) (rs : Option (List JudgeResult)) (w : Work)
    → IsGrown w (end_do skip_failed k rs w) 0
unfolding end_do
end_do-IsGrown skip_failed k none w = ground arith
end_do-IsGrown skip_failed k (some rs) w = ground arith

work-IsGrown :
    (skip_failed : Bool) (w : Work) (e : WorkEvent)
    → is_of_job e ≡ true
    → IsGrown w (work skip_failed w e) (reaches w e)
unfolding work
work-IsGrown skip_failed w (WorkEvent.pushed k) h = ground arith
work-IsGrown skip_failed w (WorkEvent.begun k) h = ground arith
work-IsGrown skip_failed w (WorkEvent.woken k) h = ground arith
work-IsGrown skip_failed w (WorkEvent.connected k true) h = ground arith
work-IsGrown skip_failed w (WorkEvent.connected k false) h = ground arith
work-IsGrown skip_failed w (WorkEvent.validated k rs) h =
    ground (arith, end_do-IsGrown skip_failed k rs (record w { testing = without k w.testing }))
work-IsGrown skip_failed w WorkEvent.emptied h = absurd (ground (arith, h))
work-IsGrown skip_failed w WorkEvent.closed_connection h = absurd (ground (arith, h))
work-IsGrown skip_failed w WorkEvent.rested h = absurd (ground (arith, h))

works-IsGrown :
    (skip_failed : Bool) (w : Work) (es : List WorkEvent)
    → all is_of_job es ≡ true
    → IsGrown w (works skip_failed w es) (connects skip_failed w es)
unfolding works
works-IsGrown skip_failed w [] h = ground arith
works-IsGrown skip_failed w (e ∷ es) h =
    let s = work-IsGrown skip_failed w e (ground (arith, h)) in
    let r = works-IsGrown skip_failed (work skip_failed w e) es (ground (arith, h)) in
    ground (arith, s, r)

-- Whatever the jobs do and in whatever order their awaits end: from a time with no connection on, one
-- more is opened for each job that reaches the storage, and `onEmpty` after that, with nothing
-- between its awaits, closes one of them if there are any. The others stay open, and nothing points
-- to them any more.
pub on_empty-connects :
    (skip_failed : Bool) (w : Work) (es : List WorkEvent)
    → w.connection ≡ false
    → all is_of_job es ≡ true
    → let v = on_empty (works skip_failed w es) in
      let n = connects skip_failed w es in
      (v.opened ≡ w.opened + n)
      × (v.closed ≡ w.closed + (if n == 0 then 0 else 1))
      × (v.connection ≡ false)
unfolding on_empty
on_empty-connects skip_failed w es c h = ground (arith, works-IsGrown skip_failed w es h, c)

-- `on_empty` is what the awaits of `onEmpty` come to with nothing between them.
works-on_empty :
    (skip_failed : Bool) (w : Work)
    → w.closing ≡ 0
    → w.resting ≡ 0
    → works skip_failed w (WorkEvent.emptied ∷ WorkEvent.closed_connection ∷ WorkEvent.rested ∷ [])
      ≡ on_empty w
unfolding works work on_empty begin_empty begin_rest after_close after_pending
works-on_empty skip_failed w c r = ground (arith, c, r)
