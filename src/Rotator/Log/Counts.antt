-- ===== src/Rotator/Log/Counts.antt =====
-- `ProxyRotator.doLog`: what its counters mean.
use node_proxybroker.Prelude.{
  ℕ, zero, suc, ◌+◌, ◌-◌, ◌*◌, ◌/◌, ◌%◌, ◌≤◌, ◌<◌, ◌≡◌, refl, Bool, true, false, ap, Option, some,
  arith, inl, inr, ◌⊎◌,
}
use node_proxybroker.Entities.{ProtocolType, IpAddr, IpRotate, new_rotate}
use node_proxybroker.Rotator.Fetch.{Row, is_fetched, is_reliable}
use node_proxybroker.Rotator.Log.{do_log_rotate, block, is_failing, duration_of}
use node_proxybroker.Rotator.Selector.{Selector}

-- The counters of a rotation record agree: every use was a success or an error, `used` counts on
-- from the last full ten, and the average is the duration of the successes, rounded up.
pub record IsCounted (r : IpRotate) : Type 0 where
  pub total : r.inc ≡ r.successes + r.errors
  pub tens : r.used ≡ r.inc % 10
  pub idle : (0 < r.successes) ⊎ ((r.duration ≡ 0) × (r.duration_average ≡ 0))
  pub average_least : r.duration ≤ r.duration_average * r.successes
  pub average_tight : r.duration_average * r.successes ≤ r.duration + (r.successes - 1)

pub new_rotate-IsCounted : (p : ProtocolType) (id : ℕ) → IsCounted (new_rotate p id)
unfolding new_rotate
new_rotate-IsCounted p id = ground arith

ceil_bounds : (d s : ℕ) → 0 < s → (d ≤ (d + s - 1) / s * s) × ((d + s - 1) / s * s < d + s)
ceil_bounds d s h = grind arith

average-zero : (d a s : ℕ) → d ≡ 0 → (0 < s) ⊎ ((d ≡ 0) × (a ≡ 0)) → a * s ≤ d + (s - 1) → a ≡ 0
average-zero d zero s e idle tight = refl
average-zero d (suc a) zero e idle tight = ground arith
average-zero d (suc a) (suc s) e idle tight = absurd (grind arith)

-- If the counters of a rotation record agree, they agree after a call of `_doLog`: its uses are its
-- successes and errors, `used` counts on from the last full ten, and the average is the duration of
-- the successes by their number, rounded up.
pub do_log_rotate-IsCounted :
    (success : Bool) (d : Option ℕ) (r : IpRotate)
    → IsCounted r
    → IsCounted (do_log_rotate success d r)
unfolding do_log_rotate
do_log_rotate-IsCounted true d r h = ground (
  arith,
  ceil_bounds (r.duration + duration_of d) (r.successes + 1),
  average-zero r.duration r.duration_average r.successes,
)
do_log_rotate-IsCounted false d r h = ground arith

quotient_small : (s n : ℕ) → 100 < n → s * 100 < n * 15 → s * 100 / n < 15
quotient_small s n big few = grind arith

failing-is_reliable : (r : IpRotate) → is_failing r ≡ true → is_reliable (some r) ≡ false
unfolding is_failing is_reliable
failing-is_reliable r f = ground (arith, quotient_small r.successes r.inc)

blocked_after : (r : IpRotate) (a : IpAddr) → is_failing r ≡ true → (block r a).blocked ≡ true
unfolding block
blocked_after r a f = ground (arith, f)

-- What `doLog` blocks, the query of `fetch` leaves out, whatever is asked for; and a record that
-- makes it block is left out by itself, should the address be unblocked again.
pub block-not-is_fetched :
    (r : IpRotate) (a : IpAddr) (s : Selector) (w : Row)
    → is_failing r ≡ true
    → (w.addr ≡ block r a) ⊎ (w.rotate ≡ some r)
    → is_fetched s w ≡ false
unfolding is_fetched
block-not-is_fetched r a s w f (inl e) = ground (arith, ap IpAddr.blocked e, blocked_after r a f)
block-not-is_fetched r a s w f (inr e) = ground (arith, ap is_reliable e, failing-is_reliable r f)
