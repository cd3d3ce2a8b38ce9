-- ===== src/Judge/Messages/Written.antt =====
-- `logToString`: what of a log is written.
use mathlib.Core.Path.{subst}
use mathlib.Core.List.{Perm}
use mathlib.Core.List.Perm
use node_proxybroker.Prelude.{
  ℕ, ◌≤◌, ◌≡◌, refl, Bool, true, false, if◌then◌else◌, not, ◌&&◌, List, [], ◌∷◌, ◌++◌, map, Str,
  codes, trim, is_empty, filter, ltb, join, All, All-map, Bool-cases, inl, inr, arith,
}
use node_proxybroker.Judge.Monitor.{Message, ReqResEvent, collapse, log_lines}
use node_proxybroker.Judge.Messages.{insert_entry, sort_log, log_to_string}

-- No two empty lines stand side by side.
abbrev pub NoGap : Bool → List Str → Type 0
NoGap after_empty [] = Unit
NoGap after_empty (x ∷ xs) = ((is_empty x && after_empty) ≡ false) × NoGap (is_empty x) xs

collapse-NoGap : (after_empty : Bool) (xs : List Str) → NoGap after_empty (collapse after_empty xs)
unfolding collapse
collapse-NoGap after_empty [] = tt
collapse-NoGap after_empty (x ∷ xs) = elim (Bool-cases (is_empty x && after_empty)) [
  | inl t ↦
      let same : is_empty x ≡ after_empty = ground (arith, t) in
      rw (t, collapse)
        (subst (λ b. NoGap b (collapse (is_empty x) xs)) same (collapse-NoGap (is_empty x) xs))
  | inr f ↦ rw (f, collapse) (f, collapse-NoGap (is_empty x) xs)
]

abbrev pub written : List Str → List Str
written = filter (λ x. not (is_empty x))

collapse-written :
    (after_empty : Bool) (xs : List Str) → written (collapse after_empty xs) ≡ written xs
unfolding collapse
collapse-written after_empty [] = refl
collapse-written after_empty (x ∷ xs) = ground (arith, collapse-written (is_empty x) xs)

-- For each line with text, and for the end, whether an empty line stands right before it.
abbrev pub gaps : Bool → List Str → List Bool
gaps after_empty [] = after_empty ∷ []
gaps after_empty (x ∷ xs) = if is_empty x then gaps true xs else after_empty ∷ gaps false xs

collapse-gaps :
    (after_empty : Bool) (xs : List Str)
    → gaps after_empty (collapse after_empty xs) ≡ gaps after_empty xs
unfolding collapse
collapse-gaps after_empty [] = refl
collapse-gaps after_empty (x ∷ xs) = ground (arith, collapse-gaps true xs, collapse-gaps false xs)

-- The entries of a log in the order of their numbers.
abbrev pub InOrder : List ReqResEvent → Type 0
InOrder [] = Unit
InOrder (e ∷ es) = All (λ f. e.nr ≤ f.nr) es × InOrder es

insert_entry-All :
    (n : ℕ) (e : ReqResEvent) (es : List ReqResEvent)
    → n ≤ e.nr
    → All (λ f. n ≤ f.nr) es
    → All (λ f. n ≤ f.nr) (insert_entry e es)
unfolding insert_entry
insert_entry-All n e [] h k = (h, tt)
insert_entry-All n e (f ∷ es) h k = elim (Bool-cases (ltb e.nr f.nr)) [
  | inl t ↦ rw (t, insert_entry) (h, k)
  | inr t ↦ rw (t, insert_entry) (k.0, insert_entry-All n e es h k.1)
]

insert_entry-InOrder :
    (e : ReqResEvent) (es : List ReqResEvent) → InOrder es → InOrder (insert_entry e es)
unfolding insert_entry
insert_entry-InOrder e [] h = (tt, tt)
insert_entry-InOrder e (f ∷ es) h = elim (Bool-cases (ltb e.nr f.nr)) [
  | inl t ↦
      let le : e.nr ≤ f.nr = ground (arith, t) in
      rw (t, insert_entry) ((le, All-map es (λ g (k : f.nr ≤ g.nr). omega (arith, le, k)) h.0), h)
  | inr t ↦
      let le : f.nr ≤ e.nr = ground (arith, t) in
      rw (t, insert_entry) (insert_entry-All f.nr e es le h.0, insert_entry-InOrder e es h.1)
]

insert_entry-Perm : (e : ReqResEvent) (es : List ReqResEvent) → Perm (insert_entry e es) (e ∷ es)
unfolding insert_entry
insert_entry-Perm e [] = Perm.refl _
insert_entry-Perm e (f ∷ es) = elim (Bool-cases (ltb e.nr f.nr)) [
  | inl t ↦ rw (t, insert_entry) (Perm.refl _)
  | inr t ↦
      rw (t, insert_entry) (Perm.trans (Perm.cons f (insert_entry-Perm e es)) (Perm.swap e f es))
]

sort_log-InOrder : (es : List ReqResEvent) → InOrder (sort_log es) × Perm (sort_log es) es
unfolding sort_log
sort_log-InOrder [] = (tt, Perm.refl [])
sort_log-InOrder (e ∷ es) =
    let (s, p) = sort_log-InOrder es in
    (
      insert_entry-InOrder e (sort_log es) s,
      Perm.trans (insert_entry-Perm e (sort_log es)) (Perm.cons e p),
    )

-- What a log is written as: its entries in the order of their numbers, each as a line. Every line with
-- text is kept; an empty line stands before such a line, or at the end, exactly where one or more stood
-- before, and no two stand side by side: of several empty lines in a row one is kept.
pub log_to_string-written :
    (text : Message → Str) (sep : Str) (es : List ReqResEvent)
    → (lines : List Str) × (sorted : List ReqResEvent) × (log_to_string text sep es
        ≡ join sep lines)
      × InOrder sorted
      × Perm sorted es
      × (written lines
          ≡ written (map (λ e. trim (e.prefix ++ (codes " " ++ text e.message))) sorted))
      × (gaps false lines
          ≡ gaps false (map (λ e. trim (e.prefix ++ (codes " " ++ text e.message))) sorted))
      × NoGap false lines
unfolding log_to_string log_lines
log_to_string-written text sep es =
    let lines =
      map (λ (e : ReqResEvent). trim (e.prefix ++ (codes " " ++ text e.message))) (sort_log es) in
    (
      collapse false lines,
      sort_log es,
      refl,
      (sort_log-InOrder es).0,
      (sort_log-InOrder es).1,
      collapse-written false lines,
      collapse-gaps false lines,
      collapse-NoGap false lines,
    )
