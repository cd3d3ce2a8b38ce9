-- ===== src/Rotator/Fetch.antt =====
-- src/libs/proxy/ProxyRotator.ts: what is fetched from the storage, and how often. A fetch query is
-- running while its `inc` is not negative.
pub mod Jobs
use node_proxybroker.Prelude.{
  ℕ, suc, ◌+◌, ◌*◌, ◌/◌, ◌%◌, ◌≡◌, Bool, true, false, not, ◌&&◌, ◌||◌, Option, none, some, List, [],
  ◌∷◌, ◌++◌, Str, str_eq, take, drop, filter, length, is_some, if◌then◌else◌, ◌==◌, ltb, leb, ℤ,
  pos, negsuc, suc_ℤ, pred_ℤ, is_natural, at_most_zero, is_positive,
}
use node_proxybroker.Entities.{IpAddr, IpAddrState, IpRotate, same_protocol}
use node_proxybroker.Rotator.Pool.{destination}
use node_proxybroker.Rotator.Selector.{Selector}

pub record FetchQuery : Type 0 where
  pub inc : ℤ
  pub size : ℕ
  pub offset : ℕ

-- A row of the join: an address, the state of its last validation, its rotation record and the
-- country of its location.
pub record Row : Type 0 where
  pub addr : IpAddr
  pub state : IpAddrState
  pub rotate : Option IpRotate
  pub country : Option Str

-- The condition on a rotation record, with the division of whole numbers.
unfoldable pub is_reliable : Option IpRotate → Bool
is_reliable none = true
is_reliable (some r) =
    (leb 100 r.inc && ltb 33 (r.successes * 100 / r.inc))
    || ((ltb 10 r.inc && (ltb r.inc 100 && ltb 15 (r.successes * 100 / r.inc))) || leb r.inc 10)

abbrev wanted_level : ℤ → Option ℕ → Bool
wanted_level _ none = true
wanted_level (pos n) (some l) = n == l
wanted_level (negsuc n) (some l) = false

abbrev wanted_country : Option Str → Option Str → Bool
wanted_country _ none = true
wanted_country none (some c) = false
wanted_country (some d) (some c) = str_eq d c

-- A missing duration is NULL, which is below nothing.
abbrev wanted_speed : Option ℕ → Option ℕ → Bool
wanted_speed _ none = true
wanted_speed none (some l) = false
wanted_speed (some d) (some l) = ltb d l

-- The conditions that the selector adds to the query.
unfoldable pub is_wanted : Selector → Row → Bool
is_wanted s w =
    wanted_level w.state.level s.level
    && (wanted_country w.country s.country
        && (wanted_speed w.state.duration s.speed_limit
            && same_protocol w.state.protocol_dest (destination s.target_ssl)))

-- All the conditions of the query in `fetch`.
unfoldable pub is_fetched : Selector → Row → Bool
is_fetched s w =
    w.state.enabled
    && (is_positive w.state.level
        && (not w.addr.to_delete
            && (not w.addr.blocked && (is_reliable w.rotate && is_wanted s w))))

-- Where a query stands after a page: it starts again behind the last one.
unfoldable pub paged : ℕ → List Row → FetchQuery → FetchQuery
paged offset [] q = record q { offset = 0; size = 0 }
paged offset (x ∷ xs) q = record q { size = length (x ∷ xs); offset = offset }

-- `fetch`: the rows in the order of the query, from the offset on, and the query afterwards.
unfoldable pub fetch : Selector → ℕ → Option FetchQuery → List Row → List Row × Option FetchQuery
unfolding is_fetched paged
fetch s limit none rows = (take limit (filter (is_fetched s) rows), none)
fetch s limit (some q) rows =
    let offset = q.offset + q.size in
    let res = take limit (drop offset (filter (is_fetched s) rows)) in
    (res, some (paged offset res q))

-- The column that the rows are ordered by.
pub data Order : Type 0 where
  by_updated_at by_used by_duration_average by_inc : Order

unfoldable pub order_of : ℕ → Order
order_of repeat =
    if repeat % 4 == 0
    then by_updated_at
    else if repeat % 4 == 1
    then by_used
    else if repeat % 4 == 2
    then by_duration_average
    else by_inc

-- `take` raises the repeat of a selector that found nothing, below `reuse`.
unfoldable pub next_repeat : ℕ → ℕ → ℕ
next_repeat reuse repeat = if leb reuse (repeat + 1) then 0 else repeat + 1

-- `cacheQuery`: a query that is known stays as it is.
unfoldable pub cache_query : Option FetchQuery → FetchQuery
cache_query none = record { inc = negsuc 0; size = 0; offset = 0 }
cache_query (some q) = q

-- `doEnqueue`, before the fetch: a running query is left alone (`none`).
unfoldable pub begin_enqueue : FetchQuery → Option FetchQuery
begin_enqueue q = if is_natural q.inc then none else some (record q { inc = pos 0 })

unfoldable pub add_jobs : List Row → FetchQuery → FetchQuery
add_jobs [] q = q
add_jobs (w ∷ ws) q = add_jobs ws (record q { inc = suc_ℤ q.inc })

abbrev is_zero : ℤ → Bool
is_zero (pos n) = n == 0
is_zero (negsuc n) = false

-- `doEnqueue`, after the fetch: one job for each row.
unfoldable pub end_enqueue : List Row → FetchQuery → FetchQuery
unfolding add_jobs
end_enqueue rows q =
    let t = add_jobs rows q in
    elim rows [
      | [] ↦ record t { inc = negsuc 0 }
      | _ ∷ _ ↦ if is_zero t.inc then record t { inc = negsuc 0 } else t
    ]

-- A job is done: the last one ends the query.
unfoldable pub job_done : FetchQuery → FetchQuery
job_done q = let inc = pred_ℤ q.inc in record q { inc = if at_most_zero inc then negsuc 0 else inc }
