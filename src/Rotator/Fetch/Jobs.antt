-- ===== src/Rotator/Fetch/Jobs.antt =====
-- src/libs/proxy/ProxyRotator.ts: the jobs of a fetch query, and its pages.
use node_proxybroker.Prelude.{
  ℕ, zero, suc, ◌+◌, ◌-◌, ◌≤◌, ◌≡◌, ap, ◌∙◌, none, some, List, [], ◌∷◌, ◌++◌, arith, length, take,
  drop, filter, drop-add, take-take, pos, negsuc, suc_ℤ,
}
use node_proxybroker.Rotator.Fetch.{
  FetchQuery, Row, is_fetched, paged, fetch, begin_enqueue, add_jobs, end_enqueue, job_done,
}
use node_proxybroker.Rotator.Selector.{Selector}

-- That many jobs end.
pub jobs_done : ℕ → FetchQuery → FetchQuery
jobs_done zero q = q
jobs_done (suc n) q = jobs_done n (job_done q)

add_jobs-inc :
    (rows : List Row) (q : FetchQuery) (n m : ℕ)
    → q.inc ≡ pos n
    → m ≡ n + length rows
    → (add_jobs rows q).inc ≡ pos m
unfolding add_jobs
add_jobs-inc [] q n m e k = e ∙ ap pos (omega arith)
add_jobs-inc (w ∷ ws) q n m e k = add_jobs-inc ws _ (suc n) m (ap suc_ℤ e) (omega arith)

end_enqueue-inc :
    (rows : List Row) (q : FetchQuery) (m : ℕ)
    → q.inc ≡ pos 0
    → length rows ≡ suc m
    → (end_enqueue rows q).inc ≡ pos (suc m)
unfolding end_enqueue
end_enqueue-inc [] q m e k = absurd (omega arith)
end_enqueue-inc (w ∷ ws) q m e k = ground (arith, add_jobs-inc (w ∷ ws) q 0 (suc m) e (omega arith))

jobs_done-inc :
    (k m : ℕ) (q : FetchQuery) → q.inc ≡ pos (k + suc m) → (jobs_done k q).inc ≡ pos (suc m)
unfolding jobs_done job_done
jobs_done-inc zero m q e = e ∙ ap pos (omega arith)
jobs_done-inc (suc k) m q e = jobs_done-inc k m (job_done q) (ground arith)

jobs_done-all :
    (m : ℕ) (q : FetchQuery) → q.inc ≡ pos (suc m) → (jobs_done (suc m) q).inc ≡ negsuc 0
unfolding jobs_done job_done
jobs_done-all zero q e = ground arith
jobs_done-all (suc m) q e = jobs_done-all m (job_done q) (ground arith)

busy : (q : FetchQuery) (n : ℕ) → q.inc ≡ pos n → begin_enqueue q ≡ none
unfolding begin_enqueue
busy q n e = ground arith

begin_enqueue-inc : (q t : FetchQuery) → begin_enqueue q ≡ some t → t.inc ≡ pos 0
unfolding begin_enqueue
begin_enqueue-inc q t b = ground arith

-- While a query runs, every other call for it is turned away, and the end of its last job frees it:
-- for `m + 1` rows, from the start on and after any `k` of the jobs with `k` at most `m` it is busy,
-- and after all of them its `inc` is -1 again.
pub enqueue_once :
    (rows : List Row) (q t : FetchQuery) (k m : ℕ)
    → begin_enqueue q ≡ some t
    → length rows ≡ suc m
    → k ≤ m
    → (begin_enqueue t ≡ none)
      × (begin_enqueue (jobs_done k (end_enqueue rows t)) ≡ none)
      × ((jobs_done (suc m) (end_enqueue rows t)).inc ≡ negsuc 0)
enqueue_once rows q t k m b l le =
    let start = begin_enqueue-inc q t b in
    let running = end_enqueue-inc rows t m start l in
    let split : suc m ≡ k + suc (m - k) = omega arith in
    (
      busy t 0 start,
      busy _ _ (jobs_done-inc k (m - k) _ (running ∙ ap pos split)),
      jobs_done-all m _ running,
    )

paged_full :
    (o n : ℕ) (page : List Row) (q : FetchQuery)
    → length page ≡ suc n
    → paged o page q ≡ record q { size = suc n; offset = o }
unfolding paged
paged_full o n [] q e = absurd (omega arith)
paged_full o n (x ∷ xs) q e = ap (λ k. record q { size = k; offset = o }) e

-- Two fetches with one query bring two pages that follow one another: together they are the first
-- twice `n + 1` rows from the old place on, if the first page of `n + 1` is full.
pub fetch-fetch :
    (s : Selector) (n : ℕ) (q : FetchQuery) (rows : List Row)
    → length (fetch s (suc n) (some q) rows).0 ≡ suc n
    → (fetch s (suc n) (some q) rows).0
        ++ (fetch s (suc n) (fetch s (suc n) (some q) rows).1 rows).0
      ≡ take (suc n + suc n) (drop (q.offset + q.size) (filter (is_fetched s) rows))
unfolding fetch
fetch-fetch s n q rows full =
    let all = filter (is_fetched s) rows in
    let o = q.offset + q.size in
    ap
      (λ (t : FetchQuery). take (suc n) (drop o all) ++ take (suc n) (drop (t.offset + t.size) all))
      (paged_full o n (take (suc n) (drop o all)) q full)
    ∙ ap (λ (l : List Row). take (suc n) (drop o all) ++ take (suc n) l) (drop-add o (suc n) all)
    ∙ take-take (suc n) (suc n) (drop o all)
