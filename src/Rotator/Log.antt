-- ===== src/Rotator/Log.antt =====
-- src/libs/proxy/ProxyRotator.ts: `doLog`, the record of what a proxy was good for, and
-- src/libs/proxy/ProxyUsed.ts.
pub mod Counts
use node_proxybroker.Prelude.{
  ℕ, suc, ◌+◌, ◌-◌, ◌*◌, ◌/◌, ◌%◌, ◌≡◌, Bool, true, false, not, ◌&&◌, Option, none, some, List, [],
  ◌∷◌, map, Str, codes, str_eq, filter, if◌then◌else◌, ◌==◌, ltb,
}
use node_proxybroker.Entities.{ProtocolType, http, https, IpAddr, IpRotate, new_rotate}
use node_proxybroker.Http.{Error}
use node_proxybroker.Rotator.Pool.{ActiveAddr, find_active_entry}
use node_proxybroker.Server.Target.{UrlBase}
use node_proxybroker.Server.Socket.{SocketHandle, has_error}

pub record ProxyUsed : Type 0 where
  pub protocol : ProtocolType
  pub protocol_dest : ProtocolType
  pub ip : Str
  pub port : Option ℕ
  pub duration : Option ℕ
  pub success : Bool
  pub error : Option Error
  pub start : ℕ
  pub stop : Option ℕ
  pub status_code : Option ℕ

-- `new ProxyUsed(base, handle)`
unfoldable pub proxy_used : UrlBase → SocketHandle → ProxyUsed
unfolding has_error
proxy_used u h = record {
  protocol = if str_eq u.protocol (codes "https") then https else http;
  protocol_dest = if h.ssl then https else http;
  ip = u.hostname;
  port = u.port;
  duration = h.duration;
  success = not (has_error h);
  error = h.error;
  start = h.start;
  stop = h.stop;
  status_code = h.status_code;
}

-- Math.ceil(a / b)
abbrev ceil_div : ℕ → ℕ → ℕ
ceil_div a b = (a + b - 1) / b

abbrev duration_of : Option ℕ → ℕ
duration_of none = 0
duration_of (some d) = d

-- The counters that every call moves.
unfoldable pub count_use : IpRotate → IpRotate
count_use r =
    let inc = r.inc + 1 in record r { inc = inc; used = if inc % 10 == 0 then 0 else r.used + 1 }

-- `_doLog`, on the record that was found or made. A logged handle has finished, so it has a
-- duration.
unfoldable pub do_log_rotate : Bool → Option ℕ → IpRotate → IpRotate
unfolding count_use
do_log_rotate true d r =
    let t = count_use r in
    let duration = t.duration + duration_of d in
    let successes = t.successes + 1 in
    record t {
      duration = duration;
      successes = successes;
      duration_average =
          if ltb 0 duration && ltb 0 successes
          then ceil_div duration successes
          else t.duration_average;
    }
do_log_rotate false d r = let t = count_use r in record t { errors = t.errors + 1 }

-- More than a hundred uses, and less than 15 of a hundred good.
unfoldable pub is_failing : IpRotate → Bool
is_failing r = ltb 100 r.inc && ltb (r.successes * 100) (r.inc * 15)

unfoldable pub block : IpRotate → IpAddr → IpAddr
unfolding is_failing
block r a =
    if is_failing r
    then record a { blocked = true; to_delete = if r.successes == 0 then true else a.to_delete }
    else a

-- A call of the active entry: what it counts.
abbrev pub count_entry : Bool → IpRotate → ActiveAddr → ActiveAddr
count_entry true r a = record a { success = a.success + 1; duration_avg = r.duration_average }
count_entry false r a = record a { errors = a.errors + 1 }

unfoldable pub update_active : Bool → IpRotate → ActiveAddr → List ActiveAddr → List ActiveAddr
unfolding is_failing
update_active success r addr l =
    if is_failing r
    then filter (λ x. not (x.ref == addr.ref)) l
    else map (λ x. if x.ref == addr.ref then count_entry success r x else x) l

pub record Logged : Type 0 where
  pub rotate : IpRotate
  pub addr : IpAddr
  pub active : List ActiveAddr

-- `doLog` of an address that the storage has, with the record for its protocol if there is one.
unfoldable pub do_log : ProxyUsed → IpAddr → Option IpRotate → List ActiveAddr → Logged
unfolding do_log_rotate block update_active
do_log used addr found active =
    let old = elim found as (λ _. IpRotate) [
      | none ↦ new_rotate used.protocol addr.id
      | some r ↦ r
    ] in
    let r = do_log_rotate used.success used.duration old in
    record {
      rotate = r;
      addr = block r addr;
      active = elim used.port [
        | none ↦ active
        | some port ↦ elim (find_active_entry used.ip port used.protocol_dest active) [
          | none ↦ active
          | some e ↦ update_active used.success r e active
        ]
      ];
    }
