-- ===== src/Tests/Rotating.antt =====
-- src/libs/proxy, src/libs/provider and src/tasks at concrete inputs.
use node_proxybroker.Prelude.{
  ℕ, ◌+◌, ◌≡◌, ◌⊎◌, Option, refl, Bool, true, false, none, some, List, [], ◌∷◌, ◌++◌, Str, codes,
  strip_prefix, str_eq, All, any, arith, pos, negsuc,
}
use node_proxybroker.Address.{ProxyData, AddressMatch, match_address}
use node_proxybroker.Address.Shape.{scheme_text, IsHost, match_address-IsHost}
use node_proxybroker.Entities.{http, IpRotate, new_addr, new_rotate}
use node_proxybroker.Provider.{ProviderDef, Instance}
use node_proxybroker.Rotator.Selector.{Selector}
use node_proxybroker.Rotator.Pool.{ActiveAddr, is_eligible, take_active, take_all}
use node_proxybroker.Rotator.Pool.Turns.{IsFree, take_active-first, take_rests, Avoids}
use node_proxybroker.Rotator.Pool.Entries as Entries
use node_proxybroker.Rotator.Pool.Entries.{activate-Distinct}
use node_proxybroker.Rotator.Trial.{FetchedAddr, try_all}
use node_proxybroker.Rotator.Trial.Accepted.{is_at, try_all-accepted}
use node_proxybroker.Rotator.Waiting.{refused, succeeded, expired, take}
use node_proxybroker.Rotator.Waiting.Fresh.{take-expired}
use mathlib.Core.List.Perm
use node_proxybroker.Rotator.Log.{ProxyUsed}
use node_proxybroker.Rotator.Machine.{
  Rotator, Event, takes, tries, log_begins, log_ends, empties, sweeps, happen_all,
}
use node_proxybroker.Rotator.Machine.Sound.{is_over, happen_all-IsSound}
use node_proxybroker.Rotator.Log.{do_log_rotate, block}
use node_proxybroker.Rotator.Log.Counts.{IsCounted, new_rotate-IsCounted, do_log_rotate-IsCounted}
use node_proxybroker.Rotator.Fetch.{FetchQuery, Row, begin_enqueue, end_enqueue}
use node_proxybroker.Rotator.Fetch.Jobs.{jobs_done, enqueue_once}

abbrev nothing_asked : Selector
nothing_asked = record {
  speed_limit = none;
  level = none;
  country = none;
  target_ssl = false;
  repeat = 0;
}

abbrev proxy_at : ℕ → ℕ → ActiveAddr
proxy_at ref port = record {
  ref = ref;
  ip = codes "10.1.1.1";
  port = port;
  protocol_src = http;
  protocol_dest = http;
  level = pos 1;
  duration = some 100;
  used = 0;
  success = 0;
  errors = 0;
  odd = 0;
  duration_avg = 0;
  updated_at = 0;
}

abbrev pool : List ActiveAddr
pool = proxy_at 1 80 ∷ proxy_at 2 81 ∷ []

abbrev as_listed : List ActiveAddr → List ActiveAddr
as_listed l = l

take_active-first_example :
    (((take_active as_listed 3 9000 nothing_asked pool).0 ≡ none)
      × All (λ x. ¬ IsFree 9000 nothing_asked x) pool)
    ⊎ ((a : ActiveAddr) × (b : ActiveAddr) × (xs : List ActiveAddr) × (ys : List ActiveAddr)
        × ((take_active as_listed 3 9000 nothing_asked pool).0 ≡ some b)
        × (pool ≡ xs ++ (a ∷ ys))
        × All (λ x. ¬ IsFree 9000 nothing_asked x) xs
        × IsFree 9000 nothing_asked a
        × (b.ref ≡ a.ref)
        × (b.odd ≡ 1)
        × (b.used ≡ a.used + 1)
        × (b.updated_at ≡ 9000))
take_active-first_example = take_active-first as_listed 3 9000 nothing_asked pool

abbrev taken : ActiveAddr
taken = record (proxy_at 1 80) { odd = 1; used = 1; updated_at = 9000 }

take_rests_example :
    All
      (Avoids 1)
      (take_all as_listed 3
        ((9001, nothing_asked) ∷ (12000, nothing_asked) ∷ [])
        (take_active as_listed 3 9000 nothing_asked pool).1).0
unfolding take_active
take_rests_example =
    take_rests as_listed (λ P l h. h) 3 9000 nothing_asked pool taken
      ((9001, nothing_asked) ∷ (12000, nothing_asked) ∷ []) refl (omega arith)

abbrev just_tested : FetchedAddr
just_tested = record { id = 1; addr = proxy_at 1 80; rotate = none }

take-expired_example :
    take as_listed 3 9000 nothing_asked [] (succeeded 9700 9701 just_tested [] ∷ expired ∷ [])
    ≡ (refused, 2)
unfolding is_eligible
take-expired_example =
    take-expired as_listed 3 9000 9700 9701 nothing_asked [] [] just_tested [] refl refl
      (omega arith)

abbrev started_empty : Rotator
started_empty = record { active = []; logging = [] }

abbrev good_use : ProxyUsed
good_use = record {
  protocol = http;
  protocol_dest = http;
  ip = codes "10.1.1.1";
  port = some 80;
  duration = some 120;
  success = true;
  error = none;
  start = 100;
  stop = some 220;
  status_code = some 200;
}

-- A use is logged, and the entry is swept away before the storage answers.
abbrev happenings : List Event
happenings =
    tries 100 just_tested (some 200)
    ∷ takes 2100 nothing_asked
    ∷ log_begins good_use
    ∷ sweeps 9000 1
    ∷ tries 9100 just_tested (some 200)
    ∷ log_ends 0 (some (new_addr, none))
    ∷ empties
    ∷ []

abbrev at_the_end : Rotator
at_the_end = happen_all as_listed 3 happenings started_empty

happen_all-IsSound_example :
    Entries.Distinct at_the_end.active × (any (is_over 3) at_the_end.active ≡ false)
happen_all-IsSound_example =
    happen_all-IsSound as_listed (λ l. Perm.refl l) 3 (omega arith) happenings started_empty
      (refl, (tt, (tt, (tt, (refl, (tt, (tt, tt))))))) tt refl

do_log_rotate-IsCounted_example : IsCounted (do_log_rotate true (some 120) (new_rotate http 1))
do_log_rotate-IsCounted_example =
    do_log_rotate-IsCounted true (some 120) (new_rotate http 1) (new_rotate-IsCounted http 1)

abbrev failing : IpRotate
failing = record {
  protocol_src = http;
  addr_id = 1;
  successes = 3;
  errors = 117;
  duration = 300;
  duration_average = 100;
  inc = 120;
  used = 0;
}

abbrev row : Row
row = record {
  addr = block failing new_addr;
  state = record {
    enabled = true;
    protocol_src = http;
    protocol_dest = http;
    addr_id = 1;
    validation_id = 1;
    level = pos 1;
    start = 0;
    stop = none;
    duration = none;
    error_code = none;
    error_message = none;
    log = [];
  };
  rotate = none;
  country = none;
}

abbrev idle : FetchQuery
idle = record { inc = negsuc 0; size = 0; offset = 0 }

abbrev started : FetchQuery
started = record { inc = pos 0; size = 0; offset = 0 }

abbrev good_row : Row
good_row = record row { addr = new_addr }

enqueue_once_example :
    (begin_enqueue started ≡ none)
    × (begin_enqueue (jobs_done 1 (end_enqueue (row ∷ row ∷ []) started)) ≡ none)
    × ((jobs_done 2 (end_enqueue (row ∷ row ∷ []) started)).inc ≡ negsuc 0)
unfolding begin_enqueue
enqueue_once_example = enqueue_once (row ∷ row ∷ []) idle started 1 1 refl refl (omega arith)

abbrev found : ProxyData
found = record { ip = codes "10.1.1.1"; port = 80 }

abbrev accepts : Str → Bool
accepts ip = true

abbrev definition : ProviderDef
definition = record {
  name = codes "list";
  url = codes "http://list";
  type = codes "anonym";
  clazz = 1;
}

abbrev brings : ProviderDef → List ProxyData
brings d = found ∷ record found { port = 0 } ∷ []

abbrev provider : Instance
provider = record {
  name = codes "list";
  url = codes "http://list";
  variants = some (record { type = codes "anonym" } ∷ []);
}

abbrev match : AddressMatch
match = record { scheme = some (codes "http"); ip = codes "10.1.1.1"; port = some (codes "80") }

match_address-IsHost_example :
    (host : Str) × (codes "http://10.1.1.1:80" ≡ scheme_text (some (codes "http")) ++ host)
    × IsHost host (codes "10.1.1.1") (some (codes "80"))
unfolding match_address strip_prefix
match_address-IsHost_example = match_address-IsHost (codes "http://10.1.1.1:80") match refl

abbrev tried : List (FetchedAddr × Option ℕ)
tried =
    (record { id = 3; addr = proxy_at 1 80; rotate = none }, some 204)
    ∷ (record { id = 4; addr = proxy_at 2 81; rotate = none }, some 502)
    ∷ (record { id = 5; addr = proxy_at 3 82; rotate = none }, none)
    ∷ []

try_all-accepted_example :
    (any (is_at (codes "10.1.1.1") 81 http) (try_all 9 tried []) ≡ false)
    × Entries.Distinct (try_all 9 tried [])
unfolding str_eq
try_all-accepted_example = try_all-accepted 9 tried [] (codes "10.1.1.1") 81 http tt
