-- ===== src/Rotator/Waiting/Fresh.antt =====
-- `ProxyRotator.take`: what a call that waited gives.
use node_proxybroker.Prelude.{
  ℕ, ◌+◌, ◌<◌, ◌≡◌, refl, true, false, Option, none, some, List, [], ◌∷◌, any, any-append, find,
  is_some, Option-cases, Bool-cases, inl, inr, arith,
}
use node_proxybroker.Entities.{IpRotate}
use node_proxybroker.Rotator.Pool.{
  ActiveAddr, take_active, activate, is_eligible, load, find_active_entry,
}
use node_proxybroker.Rotator.Pool.Entries.{find-any}
use node_proxybroker.Rotator.Selector.{Selector}
use node_proxybroker.Rotator.Trial.{FetchedAddr}
use node_proxybroker.Rotator.Waiting.{Wake, succeeded, expired, refused, raise_repeat, take}

load-rests :
    (now tested : ℕ) (s : Selector) (rotate : Option IpRotate) (a : ActiveAddr)
    → now < tested + 2000
    → is_eligible now s (load tested rotate a) ≡ false
unfolding is_eligible
load-rests now tested s none a h = ground (arith, h)
load-rests now tested s (some r) a h = ground (arith, h)

-- An address that has just been tested makes none eligible.
activate-rests :
    (now tested : ℕ) (s : Selector) (rotate : Option IpRotate) (a : ActiveAddr)
    (l : List ActiveAddr)
    → now < tested + 2000
    → any (is_eligible now s) l ≡ false
    → any (is_eligible now s) (activate true tested rotate a l) ≡ false
unfolding activate
activate-rests now tested s rotate a l h e =
    elim (Bool-cases (is_some (find_active_entry a.ip a.port a.protocol_dest l))) [
      | inl t ↦ rw (t, activate) e
      | inr f ↦
          rw (f, activate)
            (ground (
              arith,
              any-append (is_eligible now s) l (load tested rotate a ∷ []),
              e,
              load-rests now tested s rotate a h,
            ))
    ]

module _ (order_by : List ActiveAddr → List ActiveAddr) (reuse : ℕ) where
  taken_none :
      (now : ℕ) (s : Selector) (l : List ActiveAddr)
      → any (is_eligible now s) l ≡ false
      → (take_active order_by reuse now s l).0 ≡ none
  unfolding take_active
  taken_none now s l e = elim (Option-cases (find (is_eligible now s) l)) [
    | inl n ↦ rw (n, take_active) refl
    | inr (a, f) ↦ absurd (ground (arith, e, f, find-any (is_eligible now s) l))
  ]

  -- A call finds nothing, and is woken by an address that passes its test, within two seconds of the
  -- test and while no other address is eligible: it does not get that address but fetches again, and
  -- if its timer runs out then, it is refused.
  pub take-expired :
      (now tested woken : ℕ) (s : Selector) (l active : List ActiveAddr) (a : FetchedAddr)
      (ws : List Wake)
      → any (is_eligible now s) l ≡ false
      → any (is_eligible woken s) active ≡ false
      → woken < tested + 2000
      → take order_by reuse now s l (succeeded tested woken a active ∷ expired ∷ ws) ≡ (refused, 2)
  unfolding take is_eligible
  take-expired now tested woken s l active a ws e f h =
      rw
        (
          taken_none now s l e,
          taken_none woken (raise_repeat reuse s) (activate true tested a.rotate a.addr active)
              (activate-rests woken tested (raise_repeat reuse s) a.rotate a.addr active h f),
        )
        refl
