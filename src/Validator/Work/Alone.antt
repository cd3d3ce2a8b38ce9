-- ===== src/Validator/Work/Alone.antt =====
-- ProxyValidator.ts: jobs that run one after the other.
use mathlib.Core.Path.{subst}
use node_proxybroker.Prelude.{
  ℕ, ◌+◌, ◌≡◌, refl, sym, ap, ◌∙◌, Bool, true, false, Option, none, some, List, [], ◌∷◌, ◌++◌, map,
  filter, append_assoc, append_nil, if◌then◌else◌, arith,
}
use node_proxybroker.Judge.Results.{JudgeResult}
use node_proxybroker.Validator.{is_stored}
use node_proxybroker.Validator.Work.{Work, WorkEvent, end_do, after_validate, on_empty, work, works}

-- A job: its number, whether the storage can be reached, and what its test comes to.
abbrev pub Job : Type 0
Job = ℕ × Bool × Option (List JudgeResult)

-- No job is under way.
pub record IsIdle (w : Work) : Type 0 where
  pub none_waking : w.waking ≡ []
  pub none_connecting : w.connecting ≡ []
  pub none_testing : w.testing ≡ []

-- The awaits of one job, with no other job between.
abbrev pub alone : Job → List WorkEvent
alone (k, ok, rs) =
    WorkEvent.begun k ∷ WorkEvent.woken k ∷ WorkEvent.connected k ok ∷ WorkEvent.validated k rs ∷ []

module _ (skip_failed : Bool) where
  alone_enabled :
      (w : Work) (k : ℕ) (ok : Bool) (rs : Option (List JudgeResult))
      → IsIdle w
      → w.enabled ≡ true
      → works skip_failed w (alone (k, ok, rs)) ≡ end_do skip_failed k rs w
  unfolding works after_validate
  alone_enabled w k ok rs idle e = ground (arith, idle, e)

  alone_connects :
      (w : Work) (k : ℕ) (rs : Option (List JudgeResult))
      → IsIdle w
      → w.enabled ≡ false
      → works skip_failed w (alone (k, true, rs))
        ≡ end_do skip_failed k rs
            (record w { enabled = true; connection = true; opened = w.opened + 1 })
  unfolding works after_validate
  alone_connects w k rs idle e = ground (arith, idle, e)

  alone_fails :
      (w : Work) (k : ℕ) (rs : Option (List JudgeResult))
      → IsIdle w
      → w.enabled ≡ false
      → works skip_failed w (alone (k, false, rs))
        ≡ record w { enabled = true; failed = w.failed ++ (k ∷ []) }
  unfolding works
  alone_fails w k rs idle e = ground (arith, idle, e)

  -- What a job must bring to be stored.
  abbrev pub is_storable : Job → Bool
  is_storable (k, ok, none) = false
  is_storable (k, ok, some rs) = is_stored skip_failed rs

  abbrev pub number : Job → ℕ
  number (k, _, _) = k

  -- The work after some jobs, each with no other between: nothing but the results has changed.
  record Follows (w v : Work) (added : List ℕ) : Type 0 where
    pub idle : IsIdle v
    pub same_enabled : v.enabled ≡ w.enabled
    pub same_connection : v.connection ≡ w.connection
    pub same_opened : v.opened ≡ w.opened
    pub same_closed : v.closed ≡ w.closed
    pub adds : v.stored ≡ w.stored ++ added

  abbrev stored_of : Bool → List Job → List ℕ
  stored_of true js = map number (filter is_storable js)
  stored_of false js = []

  end_do-Follows :
      (w : Work) (j : Job)
      → IsIdle w
      → Follows w (end_do skip_failed (number j) (j.2) w) (stored_of w.connection (j ∷ []))
  unfolding end_do
  end_do-Follows w (k, ok, none) idle = ground (arith, idle, append_nil w.stored)
  end_do-Follows w (k, ok, some rs) idle = ground (arith, idle, append_nil w.stored)

  stored_of-cons :
      (c : Bool) (j : Job) (js : List Job)
      → stored_of c (j ∷ []) ++ stored_of c js ≡ stored_of c (j ∷ js)
  stored_of-cons true j js = ground arith
  stored_of-cons false j js = refl

  works-append :
      (w : Work) (ds es : List WorkEvent)
      → works skip_failed w (ds ++ es) ≡ works skip_failed (works skip_failed w ds) es
  unfolding works
  works-append w [] es = refl
  works-append w (d ∷ ds) es = works-append (work skip_failed w d) ds es

  abbrev pub awaits : List Job → List WorkEvent
  awaits [] = []
  awaits (j ∷ js) = alone j ++ awaits js

  Follows-trans :
      (w v u : Work) (a b : List ℕ) → Follows w v a → Follows v u b → Follows w u (a ++ b)
  Follows-trans w v u a b f g = record {
    idle = g.idle;
    same_enabled = g.same_enabled ∙ f.same_enabled;
    same_connection = g.same_connection ∙ f.same_connection;
    same_opened = g.same_opened ∙ f.same_opened;
    same_closed = g.same_closed ∙ f.same_closed;
    adds = g.adds ∙ ap (λ s. s ++ b) f.adds ∙ append_assoc w.stored a b;
  }

  works_none : (w : Work) → IsIdle w → Follows w (works skip_failed w []) []
  unfolding works
  works_none w idle = ground (arith, idle, append_nil w.stored)

  -- While the judge is enabled no job connects again.
  batch-Follows :
      (w : Work) (js : List Job)
      → IsIdle w
      → w.enabled ≡ true
      → Follows w (works skip_failed w (awaits js)) (stored_of w.connection js)
  batch-Follows w [] idle e =
      elim w.connection as (λ c. Follows w (works skip_failed w []) (stored_of c [])) [
        | true ↦ works_none w idle
        | false ↦ works_none w idle
      ]
  batch-Follows w (j ∷ js) idle e =
      let v = end_do skip_failed (number j) (j.2) w in
      let f = end_do-Follows w j idle in
      let g = batch-Follows v js f.idle (f.same_enabled ∙ e) in
      let same : works skip_failed v (awaits js) ≡ works skip_failed w (awaits (j ∷ js)) =
        ap (λ t. works skip_failed t (awaits js)) (sym (alone_enabled w j.0 j.1 j.2 idle e))
        ∙ sym (works-append w (alone j) (awaits js)) in
      let all : stored_of w.connection (j ∷ []) ++ stored_of v.connection js
          ≡ stored_of w.connection (j ∷ js) =
        ap (λ c. stored_of w.connection (j ∷ []) ++ stored_of c js) f.same_connection
        ∙ stored_of-cons w.connection j js in
      subst (λ u. Follows w u (stored_of w.connection (j ∷ js))) same
        (subst (Follows w (works skip_failed v (awaits js))) all
          (Follows-trans w v (works skip_failed v (awaits js)) _ _ f g))

  awakened : Work → Work
  awakened w = record w { enabled = true; connection = true; opened = w.opened + 1 }

  batch_connects :
      (w : Work) (k : ℕ) (rs : Option (List JudgeResult)) (js : List Job)
      → IsIdle w
      → w.enabled ≡ false
      → works skip_failed w (awaits ((k, true, rs) ∷ js))
        ≡ works skip_failed (awakened w) (awaits ((k, true, rs) ∷ js))
  unfolding awakened
  batch_connects w k rs js idle e =
      let j : Job = (k, true, rs) in
      let u = awakened w in
      let still : IsIdle u = ground (arith, idle) in
      works-append w (alone j) (awaits js)
      ∙ ap (λ t. works skip_failed t (awaits js))
          (alone_connects w k rs idle e ∙ sym (alone_enabled u k true rs still refl))
      ∙ sym (works-append u (alone j) (awaits js))

  unconnected : ℕ → Work → Work
  unconnected k w = record w { enabled = true; failed = w.failed ++ (k ∷ []) }

  batch_fails :
      (w : Work) (k : ℕ) (rs : Option (List JudgeResult)) (js : List Job)
      → IsIdle w
      → w.enabled ≡ false
      → works skip_failed w (awaits ((k, false, rs) ∷ js))
        ≡ works skip_failed (unconnected k w) (awaits js)
  unfolding unconnected
  batch_fails w k rs js idle e =
      works-append w (alone (k, false, rs)) (awaits js)
      ∙ ap (λ t. works skip_failed t (awaits js)) (alone_fails w k rs idle e)

  Rested : Work → Work → Bool → List ℕ → Type 0
  Rested w v c added =
      (v.stored ≡ w.stored ++ added)
      × (v.opened ≡ w.opened + 0)
      × (v.closed ≡ w.closed + (if c then 1 else 0))
      × (v.enabled ≡ false)
      × (v.connection ≡ false)
      × (v.is_empty ≡ true)
      × IsIdle v

  on_empty-Follows :
      (w u : Work) (c : Bool) (added : List ℕ)
      → Follows w u added
      → w.connection ≡ c
      → Rested w (on_empty u) c added
  unfolding on_empty Rested
  on_empty-Follows w u true added f e = ground (arith, f, e)
  on_empty-Follows w u false added f e = ground (arith, f, e)

  -- Jobs that run one after the other while the judge was at rest and no connection open: if the
  -- first one reaches the storage, exactly the jobs are stored, in their order, whose results pass the
  -- test of the options, and one connection is opened and closed again; if it does not, no job of
  -- them all is stored. In both cases `onEmpty` leaves the judge at rest and no connection.
  pub on_empty-works :
      (w : Work) (k : ℕ) (ok : Bool) (rs : Option (List JudgeResult)) (js : List Job)
      → IsIdle w
      → w.enabled ≡ false
      → w.connection ≡ false
      → let v = on_empty (works skip_failed w (awaits ((k, ok, rs) ∷ js))) in
        (v.stored
          ≡ w.stored ++ (if ok then map number (filter is_storable ((k, ok, rs) ∷ js)) else []))
        × (v.opened ≡ w.opened + (if ok then 1 else 0))
        × (v.closed ≡ w.closed + (if ok then 1 else 0))
        × (v.enabled ≡ false)
        × (v.connection ≡ false)
        × (v.is_empty ≡ true)
        × IsIdle v
  unfolding on_empty awakened unconnected Rested
  on_empty-works w k true rs js idle e c =
      let still : IsIdle (awakened w) = ground (arith, idle) in
      let f = batch-Follows (awakened w) ((k, true, rs) ∷ js) still refl in
      let r = on_empty-Follows (awakened w) _ true _ f refl in
      rw (batch_connects w k rs js idle e) (r.0, omega (arith, r.1), r.2, r.3, r.4, r.5, r.6)
  on_empty-works w k false rs js idle e c =
      let still : IsIdle (unconnected k w) = ground (arith, idle) in
      let f = batch-Follows (unconnected k w) js still refl in
      let none_stored : stored_of w.connection js ≡ [] = ap (λ b. stored_of b js) c in
      let r = on_empty-Follows (unconnected k w) _ false _ f c in
      rw (batch_fails w k rs js idle e)
        (r.0 ∙ ap (◌++◌ w.stored) none_stored, r.1, r.2, r.3, r.4, r.5, r.6)
