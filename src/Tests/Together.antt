-- ===== src/Tests/Together.antt =====
-- The server and the rotator together at concrete inputs.
use node_proxybroker.Prelude.{
  ◌≡◌, refl, true, some, none, List, [], ◌∷◌, Str, codes, str_eq, strip_prefix, is_some, pos,
}
use node_proxybroker.Entities.{http, https}
use node_proxybroker.Http.{Error}
use node_proxybroker.Rotator.Selector.{assign}
use node_proxybroker.Rotator.Pool.{
  ActiveAddr, take_active, is_eligible, is_hopeless, find_active_entry,
}
use node_proxybroker.Rotator.Log.{proxy_used}
use node_proxybroker.Server.Socket.{SocketEvent, new_handle, on_events}
use node_proxybroker.Server.Target.{Options, Url, UrlBase, get_target, chooser, at_url}
use node_proxybroker.Broker.{next_selector, rotator_choice}
use node_proxybroker.Broker.Cycle.{proxy_used-take_active}

abbrev tunnel_proxy : ActiveAddr
tunnel_proxy = record {
  ref = 4;
  ip = codes "10.0.0.4";
  port = 3128;
  protocol_src = http;
  protocol_dest = https;
  level = pos 1;
  duration = some 20;
  used = 3;
  success = 3;
  errors = 0;
  odd = 0;
  duration_avg = 20;
  updated_at = 100;
}

abbrev active : List ActiveAddr
active = record tunnel_proxy { ref = 3; protocol_dest = http } ∷ tunnel_proxy ∷ []

abbrev over_rotator : Options
over_rotator = record {
  level = 3;
  repeat_limit = 1;
  to_proxy = true;
  target = chooser;
  proxy_log = true;
  forward_timeout = 1000;
  incoming_timeout = 1000;
}

abbrev parse_any : Str → Url
parse_any s = record { protocol = none; hostname = s; port = none }

abbrev same : Error → Error
same e = e

abbrev in_order : List ActiveAddr → List ActiveAddr
in_order l = l

proxy_used-take_active_example :
    (b : ActiveAddr) × (base : UrlBase) × let (taken, left) =
        take_active in_order 3 9000 (next_selector true []) active in
      let used =
        proxy_used base
          (on_events same (new_handle 8 9000 true 1000 none) ((9100, SocketEvent.closed) ∷ [])) in
      (taken ≡ some b)
      × (b.ref ≡ 4)
      × (https ≡ https)
      × (get_target parse_any over_rotator [] (rotator_choice b) ≡ at_url base)
      × (used.ip ≡ codes "10.0.0.4")
      × (used.port ≡ some 3128)
      × (used.protocol ≡ http)
      × (used.protocol_dest ≡ https)
      × (is_some (find_active_entry used.ip 3128 used.protocol_dest left) ≡ true)
unfolding next_selector is_eligible strip_prefix str_eq assign is_hopeless
proxy_used-take_active_example =
    proxy_used-take_active same parse_any in_order (λ p l. refl) over_rotator [] [] true 3 9000
      active tunnel_proxy 8 9000 none ((9100, SocketEvent.closed) ∷ []) refl refl refl refl
