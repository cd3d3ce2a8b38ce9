-- ===== src/Broker.antt =====
-- The parts together: src/libs/server/ProxyServer.ts asks the rotator of src/libs/proxy/ProxyRotator.ts
-- for a proxy, passes a request on over it, and reports the use back.
pub mod Asked
pub mod Entry
pub mod Cycle
use node_proxybroker.Prelude.{◌≡◌, Bool, List, [], ◌∷◌, ◌++◌, Str, codes}
use node_proxybroker.Entities.{http, same_protocol}
use node_proxybroker.Rotator.Selector.{Selector, Value, flag, select_of}
use node_proxybroker.Rotator.Pool.{ActiveAddr}
use node_proxybroker.Server.Target.{Choice, ip_addr}

-- `connectToExternProxy`: the copy of the headers with `targetSSL`, as `next` reads it. Node spells
-- the names of headers in small letters, so the copied ones do not have that key.
unfoldable pub next_selector : Bool → List (Str × Value) → Selector
unfolding select_of
next_selector ssl headers = select_of (headers ++ ((codes "targetSSL", flag ssl) ∷ []))

-- What `getTarget` reads of the address that `next` gives.
unfoldable pub rotator_choice : ActiveAddr → Choice
rotator_choice a = ip_addr (same_protocol a.protocol_src http) a.ip a.port
