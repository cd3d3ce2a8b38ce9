-- ===== src/Rotator/Machine/Sound.antt =====
-- The active list of src/libs/proxy/ProxyRotator.ts, whatever happens to it and in whatever order.
use mathlib.Core.List.{Perm}
use native.Mathlib.Nat.{mod_self}
use node_proxybroker.Prelude.{
  ℕ, ◌%◌, ◌<◌, ◌≡◌, sym, ap, ◌∙◌, Bool, true, false, not, Option, none, some, List, [], ◌∷◌, map,
  any, any-append, find, filter, arith, Bool-cases, Option-cases, inl, inr, ltb, ◌==◌, All,
  if◌then◌else◌,
}
use node_proxybroker.Entities.{IpAddr, IpRotate}
use node_proxybroker.Rotator.Selector.{Selector}
use node_proxybroker.Rotator.Pool.{
  ActiveAddr, update_odd, use_addr, use_ref, update_list, take_active, cleanup_list, remove_unused,
  activate, load, is_eligible, is_hopeless,
}
use node_proxybroker.Rotator.Pool.Entries.{Distinct, activate-Distinct}
use node_proxybroker.Rotator.Trial.{try_addr, succeeds}
use node_proxybroker.Rotator.Log.{update_active, is_failing, count_entry}
use node_proxybroker.Rotator.Machine.{
  Rotator, Event, takes, tries, log_begins, log_ends, empties, sweeps, Logging, pick, count_logged,
  logged_rotate, happen, happen_all,
}
use node_proxybroker.Rotator.Machine.Listed.{
  are_distinct, Distinct-are_distinct, are_distinct-Distinct, any-Perm, are_distinct-Perm,
  any-filter, are_distinct-filter, KeepsPlace, are_distinct-map, any-map-false,
}

-- The address has been passed over more often than `reuse` allows.
abbrev pub is_over : ℕ → ActiveAddr → Bool
is_over reuse a = ltb reuse a.odd

abbrev IsListSound : ℕ → List ActiveAddr → Type 0
IsListSound reuse l = (are_distinct l ≡ true) × (any (is_over reuse) l ≡ false)

filter_sound :
    (reuse : ℕ) (q : ActiveAddr → Bool) (l : List ActiveAddr)
    → IsListSound reuse l
    → IsListSound reuse (filter q l)
filter_sound reuse q l h = (are_distinct-filter q l h.0, any-filter (is_over reuse) q l h.1)

map_sound :
    (reuse : ℕ) (f : ActiveAddr → ActiveAddr)
    → KeepsPlace f
    → ((a : ActiveAddr) → is_over reuse a ≡ false → is_over reuse (f a) ≡ false)
    → (l : List ActiveAddr) → IsListSound reuse l
    → IsListSound reuse (map f l)
map_sound reuse f k o l h = (are_distinct-map f k l ∙ h.0, any-map-false (is_over reuse) f o l h.1)

perm_sound :
    (reuse : ℕ) {l m : List ActiveAddr} → Perm l m → IsListSound reuse l → IsListSound reuse m
perm_sound reuse p h = (sym (are_distinct-Perm p) ∙ h.0, sym (any-Perm (is_over reuse) p) ∙ h.1)

update_odd-place : (reuse : ℕ) → KeepsPlace (update_odd reuse)
unfolding update_odd
update_odd-place reuse a = ground arith

update_odd-over :
    (reuse : ℕ)
    → 0 < reuse
    → (a : ActiveAddr) → is_over reuse a ≡ false
    → is_over reuse (update_odd reuse a) ≡ false
unfolding update_odd
update_odd-over reuse p a h = elim (Bool-cases (a.odd == reuse)) [
  | inl last ↦
      let same : a.odd ≡ reuse = ground (arith, last) in
      ground (arith, p, ap (λ n. n % reuse) same ∙ mod_self reuse)
  | inr less ↦ ground (arith, h, less, p)
]

use-place : (now ref : ℕ) → KeepsPlace (λ a. if a.ref == ref then use_addr now a else a)
unfolding use_addr
use-place now ref a = ground arith

use-over :
    (now ref reuse : ℕ)
    → 0 < reuse
    → (a : ActiveAddr) → is_over reuse a ≡ false
    → is_over reuse (if a.ref == ref then use_addr now a else a) ≡ false
unfolding use_addr
use-over now ref reuse p a h = ground (arith, h, p)

count-place :
    (success : Bool) (r : IpRotate) (ref : ℕ)
    → KeepsPlace (λ x. if x.ref == ref then count_entry success r x else x)
count-place true r ref a = ground arith
count-place false r ref a = ground arith

count-over :
    (success : Bool) (r : IpRotate) (ref reuse : ℕ) (a : ActiveAddr)
    → is_over reuse a ≡ false
    → is_over reuse (if a.ref == ref then count_entry success r a else a) ≡ false
count-over true r ref reuse a h = ground (arith, h)
count-over false r ref reuse a h = ground (arith, h)

update_active_sound :
    (reuse : ℕ) (success : Bool) (r : IpRotate) (e : ActiveAddr) (l : List ActiveAddr)
    → IsListSound reuse l
    → IsListSound reuse (update_active success r e l)
unfolding update_active
update_active_sound reuse success r e l h = elim (Bool-cases (is_failing r)) [
  | inl failing ↦ rw (failing, update_active) (filter_sound reuse _ l h)
  | inr works ↦
      rw (works, update_active)
        (map_sound reuse _ (count-place success r e.ref) (count-over success r e.ref reuse) l h)
]

count_logged_sound :
    (reuse : ℕ) (c : Logging) (answer : Option (IpAddr × Option IpRotate)) (l : List ActiveAddr)
    → IsListSound reuse l
    → IsListSound reuse (count_logged c answer l)
unfolding count_logged
count_logged_sound reuse c none l h = h
count_logged_sound reuse c (some (addr, found)) l h = elim (Option-cases c.entry) [
  | inl n ↦ rw (n, count_logged) h
  | inr (e, f) ↦
      rw (f, count_logged)
        (update_active_sound reuse c.used.success (logged_rotate c.used addr found) e l h)
]

activate-over :
    (reuse : ℕ) (ok : Bool) (now : ℕ) (rotate : Option IpRotate) (a : ActiveAddr)
    (l : List ActiveAddr)
    → is_over reuse a ≡ false
    → any (is_over reuse) l ≡ false
    → any (is_over reuse) (activate ok now rotate a l) ≡ false
unfolding activate
activate-over reuse false now rotate a l o h = h
activate-over reuse true now none a l o h =
    ground (arith, o, h, any-append (is_over reuse) l (load now none a ∷ []))
activate-over reuse true now (some r) a l o h =
    ground (arith, o, h, any-append (is_over reuse) l (load now (some r) a ∷ []))

-- An address that is tested has been passed over never.
abbrev pub IsFresh : Event → Type 0
IsFresh (tries now a status) = a.addr.odd ≡ 0
IsFresh _ = Unit

module _ (order_by : List ActiveAddr → List ActiveAddr)
    (order : (l : List ActiveAddr) → Perm l (order_by l)) (reuse : ℕ) (positive : 0 < reuse) where
  update_list_sound :
      (l : List ActiveAddr) → IsListSound reuse l → IsListSound reuse (update_list order_by reuse l)
  unfolding update_list cleanup_list
  update_list_sound l h = perm_sound reuse (order _) (
      map_sound reuse (update_odd reuse) (update_odd-place reuse) (update_odd-over reuse positive) _
        (filter_sound reuse (λ r. not (is_hopeless r)) l h))

  take_active_sound :
      (now : ℕ) (s : Selector) (l : List ActiveAddr)
      → IsListSound reuse l
      → IsListSound reuse (take_active order_by reuse now s l).1
  unfolding take_active use_ref
  take_active_sound now s l h = elim (Option-cases (find (is_eligible now s) l)) [
    | inl e ↦ rw (e, take_active) (update_list_sound l h)
    | inr (a, e) ↦
        rw (e, take_active)
          (map_sound reuse _ (use-place now a.ref) (use-over now a.ref reuse positive) _
            (update_list_sound l h))
  ]

  happen_sound :
      (e : Event) (t : Rotator)
      → IsFresh e
      → IsListSound reuse t.active
      → IsListSound reuse (happen order_by reuse e t).active
  unfolding happen try_addr cleanup_list remove_unused
  happen_sound (takes now s) t f h = take_active_sound now s t.active h
  happen_sound (tries now a status) t f h = (
    Distinct-are_distinct _
        (activate-Distinct (succeeds status) now a.rotate a.addr t.active
          (are_distinct-Distinct t.active h.0)).0,
    activate-over reuse (succeeds status) now a.rotate a.addr t.active (ground (arith, f)) h.1,
  )
  happen_sound (log_begins used) t f h = h
  happen_sound (log_ends n answer) t f h = elim (Option-cases (pick n t.logging)) [
    | inl e ↦ rw (e, happen) h
    | inr ((c, rest), e) ↦ rw (e, happen) (count_logged_sound reuse c answer t.active h)
  ]
  happen_sound empties t f h =
      perm_sound reuse (order _) (filter_sound reuse (λ r. not (is_hopeless r)) t.active h)
  happen_sound (sweeps now offset) t f h = filter_sound reuse _ t.active h

  happen_all_sound :
      (es : List Event) (t : Rotator)
      → All IsFresh es
      → IsListSound reuse t.active
      → IsListSound reuse (happen_all order_by reuse es t).active
  unfolding happen_all
  happen_all_sound [] t f h = h
  happen_all_sound (e ∷ es) t f h =
      happen_all_sound es (happen order_by reuse e t) f.1 (happen_sound e t f.0 h)

  -- Calls of `take`, tests of fetched addresses, logged uses whose storage answers later and in any
  -- order, `onEmpty` and `removeUnusedProxies`, however they come after one another: if the order of the
  -- list only rearranges it, `reuse` is positive and tested addresses have not been passed over yet, then
  -- no two entries of the active list ever have one ip, port and target protocol, and none is ever
  -- passed over more than `reuse` times.
  pub happen_all-IsSound :
      (es : List Event) (t : Rotator)
      → All IsFresh es
      → Distinct t.active
      → any (is_over reuse) t.active ≡ false
      → Distinct (happen_all order_by reuse es t).active
        × (any (is_over reuse) (happen_all order_by reuse es t).active ≡ false)
  happen_all-IsSound es t f d o =
      let (d', o') = happen_all_sound es t f (Distinct-are_distinct t.active d, o) in
      (are_distinct-Distinct _ d', o')
