-- ===== src/Rotator/Waiting.antt =====
-- `take` of src/libs/proxy/ProxyRotator.ts as a whole: a call that finds no address starts a fetch and
-- waits until one of its addresses passes its test, or five seconds are over.
pub mod Fresh
use node_proxybroker.Prelude.{ℕ, ◌+◌, true, Option, none, some, List, [], ◌∷◌}
use node_proxybroker.Rotator.Pool.{ActiveAddr, take_active, activate}
use node_proxybroker.Rotator.Selector.{Selector}
use node_proxybroker.Rotator.Fetch.{next_repeat}
use node_proxybroker.Rotator.Trial.{FetchedAddr}

-- What ends a wait: the address whose test went through at the first time, with the active list that
-- it then came to, and the time at which `take` runs again; or the timer.
pub data Wake : Type 0 where
  succeeded : (tested woken : ℕ) → FetchedAddr → List ActiveAddr → Wake
  expired : Wake

-- What a call comes to: an address, the error 'cant find proxy address!', or it still waits.
pub data Outcome : Type 0 where
  gives : ActiveAddr → Outcome
  refused waits : Outcome

abbrev raise_repeat : ℕ → Selector → Selector
raise_repeat reuse s = record s { repeat = next_repeat reuse s.repeat }

-- One fetch more.
abbrev after_fetch : Outcome × ℕ → Outcome × ℕ
after_fetch (r, n) = (r, n + 1)

abbrev pub taken_or : Option ActiveAddr → Outcome × ℕ → Outcome × ℕ
taken_or (some b) other = (gives b, 0)
taken_or none other = other

module _ (order_by : List ActiveAddr → List ActiveAddr) (reuse : ℕ) where
  -- `take`, with how often it calls `doEnqueue`.
  unfoldable pub take : ℕ → Selector → List ActiveAddr → List Wake → Outcome × ℕ
  unfolding next_repeat
  take now s l [] = taken_or (take_active order_by reuse now s l).0 (waits, 1)
  take now s l (expired ∷ ws) = taken_or (take_active order_by reuse now s l).0 (refused, 1)
  take now s l (succeeded tested woken a active ∷ ws) =
      taken_or (take_active order_by reuse now s l).0 (
        after_fetch
          (take woken (raise_repeat reuse s) (activate true tested a.rotate a.addr active) ws))
