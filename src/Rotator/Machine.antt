-- ===== src/Rotator/Machine.antt =====
-- src/libs/proxy/ProxyRotator.ts: the active list as what happens to it in any order. `doLog` looks its
-- entry up, waits for the storage and counts then, so other calls come between.
pub mod Listed
pub mod Sound
mod Logged
use node_proxybroker.Prelude.{ℕ, zero, suc, Option, none, some, List, [], ◌∷◌, Str}
use node_proxybroker.Entities.{IpAddr, IpRotate, new_rotate}
use node_proxybroker.Rotator.Selector.{Selector}
use node_proxybroker.Rotator.Pool.{
  ActiveAddr, take_active, cleanup_list, remove_unused, find_active_entry,
}
use node_proxybroker.Rotator.Trial.{FetchedAddr, try_addr}
use node_proxybroker.Rotator.Log.{ProxyUsed, do_log_rotate, update_active}

-- A running `doLog`: the use that it logs, and the entry that it found.
pub record Logging : Type 0 where
  pub used : ProxyUsed
  pub entry : Option ActiveAddr

pub record Rotator : Type 0 where
  pub active : List ActiveAddr
  pub logging : List Logging

-- `takes`: a call of `take` looks through the list. `tries`: the test of an address ends with a status
-- or without one. `log_begins`; `log_ends`: the storage has answered one of the running calls, with the
-- address and its record if it has them. `empties`: `onEmpty`. `sweeps`: `removeUnusedProxies`.
pub data Event : Type 0 where
  takes : (now : ℕ) → Selector → Event
  tries : (now : ℕ) → FetchedAddr → Option ℕ → Event
  log_begins : ProxyUsed → Event
  log_ends : ℕ → Option (IpAddr × Option IpRotate) → Event
  empties : Event
  sweeps : (now time_offset : ℕ) → Event

abbrev pub entry_of : ProxyUsed → List ActiveAddr → Option ActiveAddr
entry_of used l = elim used.port [
  | none ↦ none
  | some port ↦ find_active_entry used.ip port used.protocol_dest l
]

-- The call at a place, and the others.
unfoldable pub pick : ℕ → List Logging → Option (Logging × List Logging)
pick n [] = none
pick zero (x ∷ xs) = some (x, xs)
pick (suc n) (x ∷ xs) = elim (pick n xs) [ none ↦ none | some (y, ys) ↦ some (y, x ∷ ys) ]

abbrev pub logged_rotate : ProxyUsed → IpAddr → Option IpRotate → IpRotate
logged_rotate used addr none =
    do_log_rotate used.success used.duration (new_rotate used.protocol addr.id)
logged_rotate used addr (some r) = do_log_rotate used.success used.duration r

-- What the end of `doLog` does to the list.
unfoldable pub count_logged :
    Logging → Option (IpAddr × Option IpRotate) → List ActiveAddr → List ActiveAddr
unfolding update_active
count_logged c none l = l
count_logged c (some (addr, found)) l = elim c.entry [
  | none ↦ l
  | some e ↦ update_active c.used.success (logged_rotate c.used addr found) e l
]

module _ (order_by : List ActiveAddr → List ActiveAddr) (reuse : ℕ) where
  unfoldable pub happen : Event → Rotator → Rotator
  unfolding take_active try_addr pick count_logged cleanup_list remove_unused
  happen (takes now s) t = record t { active = (take_active order_by reuse now s t.active).1 }
  happen (tries now a status) t = record t { active = try_addr now (a, status) t.active }
  happen (log_begins used) t = record t {
    logging = record { used = used; entry = entry_of used t.active } ∷ t.logging;
  }
  happen (log_ends n answer) t = elim (pick n t.logging) [
    | none ↦ t
    | some (c, rest) ↦ record { active = count_logged c answer t.active; logging = rest }
  ]
  happen empties t = record t { active = order_by (cleanup_list t.active) }
  happen (sweeps now offset) t = record t { active = remove_unused now offset t.active }

  unfoldable pub happen_all : List Event → Rotator → Rotator
  unfolding happen
  happen_all [] t = t
  happen_all (e ∷ es) t = happen_all es (happen e t)
