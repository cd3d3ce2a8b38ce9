-- ===== src/Rotator/Trial/Accepted.antt =====
-- `ProxyRotator.do`: which addresses the tests bring into the active list.
use node_proxybroker.Prelude.{
  any-append, ℕ, ◌≡◌, refl, ap, ◌∙◌, Bool, true, false, not, ◌&&◌, ◌||◌, Option, none, some, List,
  [], ◌∷◌, map, Str, str_eq, str_eq_iff, any, all, Bool-cases, inl, inr, arith, is_some, ==_iff,
  ◌==◌, ltb, leb,
}
use node_proxybroker.Entities.{ProtocolType, http, https, IpRotate, same_protocol}
use node_proxybroker.Rotator.Pool.{ActiveAddr, same_entry, find_active_entry, activate, load}
use node_proxybroker.Rotator.Pool.Entries.{Distinct, find-any, activate-Distinct}
use node_proxybroker.Rotator.Trial.{
  FetchedAddr, attach_rotate, rotate_of, succeeds, try_addr, try_all,
}

-- An address, its port and its target protocol.
abbrev pub is_at : Str → ℕ → ProtocolType → ActiveAddr → Bool
is_at ip port dest x = str_eq x.ip ip && (x.port == port && same_protocol x.protocol_dest dest)

same_entry-is_at :
    (ip : Str) (port : ℕ) (dest : ProtocolType) (x : ActiveAddr)
    → same_entry ip port dest x ≡ is_at ip port dest x
unfolding same_entry
same_entry-is_at ip port dest x = refl

is_at-load :
    (ip : Str) (port : ℕ) (dest : ProtocolType) (now : ℕ) (r : Option IpRotate) (a : ActiveAddr)
    → is_at ip port dest (load now r a) ≡ is_at ip port dest a
is_at-load ip port dest now none a = refl
is_at-load ip port dest now (some r) a = refl

same_protocol_iff : (p q : ProtocolType) → same_protocol p q ≡ true → p ≡ q
same_protocol_iff http http e = refl
same_protocol_iff https https e = refl
same_protocol_iff http https e = absurd (ground (arith, e))
same_protocol_iff https http e = absurd (ground (arith, e))

-- An address at the same place as one that is listed is listed.
any-is_at :
    (a : ActiveAddr) (ip : Str) (port : ℕ) (dest : ProtocolType) (l : List ActiveAddr)
    → is_at ip port dest a ≡ true
    → any (is_at a.ip a.port a.protocol_dest) l ≡ any (is_at ip port dest) l
any-is_at a ip port dest l e =
    let ip_eq : a.ip ≡ ip = (str_eq_iff a.ip ip).0 (ground (arith, e)) in
    let port_eq : a.port ≡ port = (==_iff a.port port).0 (ground (arith, e)) in
    let dest_eq : a.protocol_dest ≡ dest =
      same_protocol_iff a.protocol_dest dest (ground (arith, e)) in
    ap (λ x. any (is_at x a.port a.protocol_dest) l) ip_eq
    ∙ ap (λ x. any (is_at ip x a.protocol_dest) l) port_eq
    ∙ ap (λ x. any (is_at ip port x) l) dest_eq

any-activate :
    (ip : Str) (port : ℕ) (dest : ProtocolType) (ok : Bool) (now : ℕ) (r : Option IpRotate)
    (a : ActiveAddr) (l : List ActiveAddr)
    → any (is_at ip port dest) (activate ok now r a l)
      ≡ (any (is_at ip port dest) l || (ok && is_at ip port dest a))
unfolding activate find_active_entry same_entry
any-activate ip port dest false now r a l = ground arith
any-activate ip port dest true now r a l =
    elim (Bool-cases (any (is_at a.ip a.port a.protocol_dest) l)) [
      | inl there ↦
          rw (find-any (is_at a.ip a.port a.protocol_dest) l ∙ there, activate)
            (ground (arith, there, any-is_at a ip port dest l))
      | inr new ↦
          rw (find-any (is_at a.ip a.port a.protocol_dest) l ∙ new, activate)
            (ground (
              arith,
              any-append (is_at ip port dest) l (load now r a ∷ []),
              is_at-load ip port dest now r a,
            ))
    ]

-- A test that went well, at this place.
abbrev pub is_accepted : Str → ℕ → ProtocolType → FetchedAddr × Option ℕ → Bool
is_accepted ip port dest (a, status) =
    (elim status [ none ↦ false | some n ↦ leb 200 n && ltb n 400 ]) && is_at ip port dest a.addr

try_addr-accepted :
    (ip : Str) (port : ℕ) (dest : ProtocolType) (now : ℕ) (t : FetchedAddr × Option ℕ)
    (l : List ActiveAddr)
    → any (is_at ip port dest) (try_addr now t l)
      ≡ (any (is_at ip port dest) l || is_accepted ip port dest t)
unfolding try_addr succeeds
try_addr-accepted ip port dest now (a, none) l =
    any-activate ip port dest false now a.rotate a.addr l
try_addr-accepted ip port dest now (a, some n) l =
    any-activate ip port dest (not (ltb n 200 || leb 400 n)) now a.rotate a.addr l ∙ ground arith

try_addr-Distinct :
    (now : ℕ) (t : FetchedAddr × Option ℕ) (l : List ActiveAddr)
    → Distinct l
    → Distinct (try_addr now t l)
unfolding try_addr
try_addr-Distinct now (a, status) l d =
    (activate-Distinct (succeeds status) now a.rotate a.addr l d).0

-- After any tests, in the order in which they end, an ip with its port and target protocol is in the
-- active list exactly if it was before or if a test of it was answered with a status from 200 to
-- 399; and the list has no place twice, if it had none before.
pub try_all-accepted :
    (now : ℕ) (ts : List (FetchedAddr × Option ℕ)) (l : List ActiveAddr) (ip : Str) (port : ℕ)
    (dest : ProtocolType)
    → Distinct l
    → (any (is_at ip port dest) (try_all now ts l)
        ≡ (any (is_at ip port dest) l || any (is_accepted ip port dest) ts))
      × Distinct (try_all now ts l)
unfolding try_all
try_all-accepted now [] l ip port dest d = (ground arith, d)
try_all-accepted now (t ∷ ts) l ip port dest d =
    let (e, k) =
      try_all-accepted now ts (try_addr now t l) ip port dest (try_addr-Distinct now t l d) in
    (ground (arith, e, try_addr-accepted ip port dest now t l), k)

-- Attaching: every address has a record, the one it had or a new one of its own, and the records are
-- saved in the order of the addresses; attaching again changes nothing.
pub attach_rotate-attach_rotate :
    (xs : List FetchedAddr)
    → ((attach_rotate xs).0 ≡ map rotate_of xs)
      × (map rotate_of (attach_rotate xs).1 ≡ map rotate_of xs)
      × (all (λ (a : FetchedAddr). is_some a.rotate) (attach_rotate xs).1 ≡ true)
      × (attach_rotate (attach_rotate xs).1 ≡ attach_rotate xs)
unfolding attach_rotate rotate_of
attach_rotate-attach_rotate [] = (refl, refl, refl, refl)
attach_rotate-attach_rotate (x ∷ xs) =
    let (p, q, r, s) = attach_rotate-attach_rotate xs in
    (
      ap (◌∷◌ (rotate_of x)) p,
      ap (◌∷◌ (rotate_of x)) q,
      r,
      ap (λ y. (rotate_of x ∷ y.0, record x { rotate = some (rotate_of x) } ∷ y.1)) s,
    )
