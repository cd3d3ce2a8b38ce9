-- ===== src/Rotator/Pool.antt =====
-- src/libs/proxy/ProxyRotator.ts: the active list, from which addresses are taken. An address is an
-- object of its own, told apart by `ref`. The order of the list is `_.orderBy`, a parameter.
pub mod Turns
pub mod Entries
use node_proxybroker.Prelude.{
  ℕ, suc, ◌+◌, ◌-◌, ◌*◌, ◌%◌, ◌≡◌, Bool, true, false, not, ◌&&◌, ◌||◌, Option, none, some, List, [],
  ◌∷◌, ◌++◌, map, Str, str_eq, find, filter, is_some, if◌then◌else◌, ◌==◌, ltb, leb, ℤ, pos, negsuc,
}
use node_proxybroker.Entities.{ProtocolType, http, https, same_protocol, IpRotate}
use node_proxybroker.Rotator.Selector.{Selector}

-- An `IpAddr` of the active list, with the fields of its `state` that are read.
pub record ActiveAddr : Type 0 where
  pub ref : ℕ
  pub ip : Str
  pub port : ℕ
  pub protocol_src : ProtocolType
  pub protocol_dest : ProtocolType
  pub level : ℤ
  pub duration : Option ℕ
  pub used : ℕ
  pub success : ℕ
  pub errors : ℕ
  pub odd : ℕ
  pub duration_avg : ℕ
  pub updated_at : ℕ

abbrev pub at_most : Option ℕ → Option ℕ → Bool
at_most _ none = true
at_most none (some limit) = true
at_most (some d) (some limit) = leb d limit

abbrev pub level_at_most : ℤ → Option ℕ → Bool
level_at_most _ none = true
level_at_most (pos n) (some limit) = leb n limit
level_at_most (negsuc n) (some limit) = true

abbrev pub destination : Bool → ProtocolType
destination true = https
destination false = http

-- What the selector asks of an address. A missing duration compares as 0.
unfoldable pub matches : Selector → ActiveAddr → Bool
matches s a =
    at_most a.duration s.speed_limit
    && (level_at_most a.level s.level && same_protocol a.protocol_dest (destination s.target_ssl))

-- The test of `findIndex` in `take`; an address rests two seconds after a use.
unfoldable pub is_eligible : ℕ → Selector → ActiveAddr → Bool
unfolding matches
is_eligible now s a = a.odd == 0 && (not (ltb now (a.updated_at + 2000)) && matches s a)

-- `cleanupList`: the two quotients success / used are compared with .15 and .30. They are rounded
-- doubles, and rounding keeps the comparison for any count below 2 ^ 49.
unfoldable pub is_hopeless : ActiveAddr → Bool
is_hopeless r =
    (ltb 9 r.used && leb (r.success * 100) (r.used * 15))
    && (ltb 99 r.used && leb (r.success * 100) (r.used * 30))

unfoldable pub cleanup_list : List ActiveAddr → List ActiveAddr
unfolding is_hopeless
cleanup_list = filter (λ r. not (is_hopeless r))

-- The test `_addr.odd % reuse !== 0`; a remainder by 0 is NaN.
abbrev pub has_remainder : ℕ → ℕ → Bool
has_remainder odd reuse = if reuse == 0 then true else not (odd % reuse == 0)

unfoldable pub update_odd : ℕ → ActiveAddr → ActiveAddr
update_odd reuse a =
    if has_remainder a.odd reuse && ltb 0 a.used
    then record a { odd = a.odd + 1 }
    else record a { odd = 0 }

-- `useAddr`
unfoldable pub use_addr : ℕ → ActiveAddr → ActiveAddr
use_addr now a = record a { odd = 1; used = a.used + 1; updated_at = now }

-- `useAddr` of the object with this `ref`, wherever the list holds it.
unfoldable pub use_ref : ℕ → ℕ → List ActiveAddr → List ActiveAddr
unfolding use_addr
use_ref now ref = map (λ a. if a.ref == ref then use_addr now a else a)

module _ (order_by : List ActiveAddr → List ActiveAddr) where
  -- `updateList`
  unfoldable pub update_list : ℕ → List ActiveAddr → List ActiveAddr
  unfolding cleanup_list update_odd
  update_list reuse l = order_by (map (update_odd reuse) (cleanup_list l))

  -- `take`, up to the fetch that follows if nothing is found. The list is updated either way.
  unfoldable pub take_active :
      ℕ → ℕ → Selector → List ActiveAddr → Option ActiveAddr × List ActiveAddr
  unfolding is_eligible update_list use_ref
  take_active reuse now s l = elim (find (is_eligible now s) l) [
    | none ↦ (none, update_list reuse l)
    | some a ↦ (some (use_addr now (update_odd reuse a)), use_ref now a.ref (update_list reuse l))
  ]

  -- Several calls, each at its time and with its selector.
  unfoldable pub take_all :
      ℕ → List (ℕ × Selector) → List ActiveAddr → List (Option ActiveAddr) × List ActiveAddr
  unfolding take_active
  take_all reuse [] l = ([], l)
  take_all reuse ((now, s) ∷ calls) l =
      let (a, l') = take_active reuse now s l in
      let (rest, last) = take_all reuse calls l' in (a ∷ rest, last)

-- `removeUnusedProxies`
unfoldable pub remove_unused : (now time_offset : ℕ) → List ActiveAddr → List ActiveAddr
remove_unused now time_offset = filter (λ x. not (ltb (x.updated_at + time_offset * 1000) now))

-- `findActiveEntry`
unfoldable pub same_entry : Str → ℕ → ProtocolType → ActiveAddr → Bool
same_entry ip port dest x = str_eq x.ip ip && (x.port == port && same_protocol x.protocol_dest dest)

unfoldable pub find_active_entry : Str → ℕ → ProtocolType → List ActiveAddr → Option ActiveAddr
unfolding same_entry
find_active_entry ip port dest = find (same_entry ip port dest)

-- The counters that a loaded address starts with.
abbrev pub load : ℕ → Option IpRotate → ActiveAddr → ActiveAddr
load now none a = record a { success = 0; errors = 0; used = 0; updated_at = now }
load now (some r) a = record a {
  success = r.successes;
  errors = r.errors;
  used = r.inc;
  updated_at = now;
}

-- `do`, after the test request went through (`true`) or not: an address is listed once.
unfoldable pub activate :
    Bool → ℕ → Option IpRotate → ActiveAddr → List ActiveAddr → List ActiveAddr
unfolding find_active_entry
activate false now rotate a l = l
activate true now rotate a l =
    if is_some (find_active_entry a.ip a.port a.protocol_dest l)
    then l
    else l ++ (load now rotate a ∷ [])
