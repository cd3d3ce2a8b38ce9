-- ===== src/Server/Setup.antt =====
-- `initialize` and `getUri` of src/libs/server/ProxyServer.ts: the options that a server works with.
use node_proxybroker.Prelude.{
  ℕ, ◌≡◌, Bool, true, false, not, ◌&&◌, ◌||◌, Option, none, some, ◌++◌, Str, codes, show_nat,
  if◌then◌else◌, ◌==◌, arith,
}
use node_proxybroker.Server.Target.{Target, chooser, Options}
use node_proxybroker.Server.Handlers.{has_target, over_proxy}

-- The options as they are given; what is absent takes its default.
pub record Given : Type 0 where
  pub level : Option ℕ
  pub repeat_limit : Option ℕ
  pub to_proxy : Option Bool
  pub target : Target
  pub proxy_log : Bool
  pub forward_timeout : Option ℕ
  pub incoming_timeout : Option ℕ

abbrev pub default {ℓ} : {A : Type ℓ} → A → Option A → A
default d none = d
default d (some a) = a

-- DEFAULT_PROXY_SERVER_OPTIONS
unfoldable pub with_defaults : Given → Options
with_defaults g = record {
  level = default 3 g.level;
  repeat_limit = default 3 g.repeat_limit;
  to_proxy = default false g.to_proxy;
  target = g.target;
  proxy_log = g.proxy_log;
  forward_timeout = default 1000 g.forward_timeout;
  incoming_timeout = default 30000 g.incoming_timeout;
}

-- `initialize`, where `rotator` says that the container has the rotator: its `next` becomes the
-- target and its `log` the log of the proxies.
unfoldable pub initialize : Bool → Given → Options
unfolding with_defaults
initialize rotator g =
    let o = with_defaults g in
    if o.to_proxy && not (has_target o.target)
    then (if rotator
        then record o { target = chooser; proxy_log = true }
        else record o { to_proxy = false })
    else o

-- `getUri`; a port of 0 is no port.
unfoldable pub get_uri : Str → Str → ℕ → Str
get_uri protocol ip port =
    protocol
    ++ (codes "://" ++ (ip ++ (if port == 0 then codes "" else codes ":" ++ show_nat port)))

-- Once a server is initialized, `toProxy` alone says whether a request goes over a proxy that it is not
-- sent around: a server that is set to use proxies has a target, the given one where there is one and
-- else the rotator, and without target and rotator `toProxy` is taken back. The level, the number of repeats and
-- the timeouts are those that are given.
pub initialize-over_proxy :
    (rotator disable : Bool) (g : Given)
    → let o = initialize rotator g in
      (over_proxy o disable ≡ (o.to_proxy && not disable))
      × (o.to_proxy ≡ (default false g.to_proxy && (has_target g.target || rotator)))
      × (o.target ≡ (if o.to_proxy && not (has_target g.target) then chooser else g.target))
      × (o.level ≡ default 3 g.level)
      × (o.repeat_limit ≡ default 3 g.repeat_limit)
      × (o.forward_timeout ≡ default 1000 g.forward_timeout)
      × (o.incoming_timeout ≡ default 30000 g.incoming_timeout)
unfolding initialize
initialize-over_proxy rotator disable g = ground arith
