-- ===== src/Rotator/Machine/Logged.antt =====
-- `doLog` of src/libs/proxy/ProxyRotator.ts, when nothing comes between its two parts.
use node_proxybroker.Prelude.{
  ℕ, ◌≡◌, refl, Option, none, some, List, [], ◌∷◌, Option-cases, inl, inr,
}
use node_proxybroker.Entities.{IpAddr, IpRotate}
use node_proxybroker.Rotator.Pool.{ActiveAddr, find_active_entry}
use node_proxybroker.Rotator.Log.{ProxyUsed, do_log}
use node_proxybroker.Rotator.Machine.{
  Rotator, log_begins, log_ends, happen, happen_all, pick, count_logged,
}

-- A use that is logged while nothing else happens leaves the active list that `do_log` gives.
happen_all-do_log :
    (order_by : List ActiveAddr → List ActiveAddr) (reuse : ℕ) (used : ProxyUsed) (addr : IpAddr)
    (found : Option IpRotate) (t : Rotator)
    → (happen_all order_by reuse (log_begins used ∷ log_ends 0 (some (addr, found)) ∷ []) t).active
      ≡ (do_log used addr found t.active).active
unfolding happen_all happen pick count_logged do_log
happen_all-do_log order_by reuse used addr none t = elim (Option-cases used.port) [
  | inl n ↦ rw (n, count_logged) refl
  | inr (p, e) ↦ elim (Option-cases (find_active_entry used.ip p used.protocol_dest t.active)) [
    | inl n ↦ rw (e, n, count_logged) refl
    | inr (a, f) ↦ rw (e, f, count_logged) refl
  ]
]
happen_all-do_log order_by reuse used addr (some r) t = elim (Option-cases used.port) [
  | inl n ↦ rw (n, count_logged) refl
  | inr (p, e) ↦ elim (Option-cases (find_active_entry used.ip p used.protocol_dest t.active)) [
    | inl n ↦ rw (e, n, count_logged) refl
    | inr (a, f) ↦ rw (e, f, count_logged) refl
  ]
]
