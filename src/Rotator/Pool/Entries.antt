-- ===== src/Rotator/Pool/Entries.antt =====
-- src/libs/proxy/ProxyRotator.ts: the entries of the active list, in `do`.
use node_proxybroker.Prelude.{
  any-append, str_sym, ℕ, ◌≡◌, refl, ◌∙◌, Bool, true, false, Option, none, some, List, [], ◌∷◌,
  ◌++◌, str_eq_refl, find, any, Bool-cases, inl, inr, arith, is_some,
}
use node_proxybroker.Entities.{ProtocolType, http, https, IpRotate, same_protocol}
use node_proxybroker.Rotator.Pool.{ActiveAddr, same_entry, find_active_entry, activate, load}

-- No two entries of the list have one ip, port and target protocol.
abbrev pub Distinct : List ActiveAddr → Type 0
Distinct [] = Unit
Distinct (x ∷ xs) = (any (same_entry x.ip x.port x.protocol_dest) xs ≡ false) × Distinct xs

same_protocol_sym : (p q : ProtocolType) → same_protocol p q ≡ true → same_protocol q p ≡ true
same_protocol_sym http http e = refl
same_protocol_sym https https e = refl
same_protocol_sym http https e = e
same_protocol_sym https http e = e

pub same_protocol_refl : (p : ProtocolType) → same_protocol p p ≡ true
same_protocol_refl http = refl
same_protocol_refl https = refl

pub same_entry_sym :
    (a b : ActiveAddr)
    → same_entry a.ip a.port a.protocol_dest b ≡ true
    → same_entry b.ip b.port b.protocol_dest a ≡ true
unfolding same_entry
same_entry_sym a b e =
    ground (arith, str_sym b.ip a.ip, same_protocol_sym b.protocol_dest a.protocol_dest)

Distinct-append :
    (l : List ActiveAddr) (a : ActiveAddr)
    → any (same_entry a.ip a.port a.protocol_dest) l ≡ false
    → Distinct l
    → Distinct (l ++ (a ∷ []))
Distinct-append [] a e d = (refl, tt)
Distinct-append (x ∷ l) a e d = (
  ground (
    arith,
    d.0,
    same_entry_sym x a,
    any-append (same_entry x.ip x.port x.protocol_dest) l (a ∷ []),
  ),
  Distinct-append l a (ground arith) d.1,
)

pub find-any {ℓ} : {A : Type ℓ} (p : A → Bool) (l : List A) → is_some (find p l) ≡ any p l
find-any p [] = refl
find-any p (x ∷ l) = ground (arith, find-any p l)

pub load_entry :
    (now : ℕ) (rotate : Option IpRotate) (a : ActiveAddr)
    → ((load now rotate a).ip ≡ a.ip)
      × ((load now rotate a).port ≡ a.port)
      × ((load now rotate a).protocol_dest ≡ a.protocol_dest)
load_entry now none a = (refl, refl, refl)
load_entry now (some r) a = (refl, refl, refl)

loaded-Distinct :
    (now : ℕ) (rotate : Option IpRotate) (a : ActiveAddr) (l : List ActiveAddr)
    → any (same_entry a.ip a.port a.protocol_dest) l ≡ false
    → Distinct l
    → Distinct (l ++ (load now rotate a ∷ []))
loaded-Distinct now none a l e d = Distinct-append l (load now none a) e d
loaded-Distinct now (some r) a l e d = Distinct-append l (load now (some r) a) e d

loaded-same :
    (now : ℕ) (rotate : Option IpRotate) (a : ActiveAddr)
    → same_entry a.ip a.port a.protocol_dest (load now rotate a) ≡ true
unfolding same_entry
loaded-same now none a = ground (arith, str_eq_refl a.ip, same_protocol_refl a.protocol_dest)
loaded-same now (some r) a = ground (arith, str_eq_refl a.ip, same_protocol_refl a.protocol_dest)

activate-true :
    (now : ℕ) (rotate : Option IpRotate) (a : ActiveAddr) (l : List ActiveAddr)
    → Distinct l
    → Distinct (activate true now rotate a l)
      × (any (same_entry a.ip a.port a.protocol_dest) (activate true now rotate a l) ≡ true)
unfolding activate find_active_entry
activate-true now rotate a l d =
    let p = same_entry a.ip a.port a.protocol_dest in
    elim (Bool-cases (any p l)) [
      | inl there ↦ rw (find-any p l ∙ there, activate) (d, there)
      | inr new ↦
          rw (find-any p l ∙ new, activate)
            (
              loaded-Distinct now rotate a l new d,
              ground (arith, any-append p l (load now rotate a ∷ []), loaded-same now rotate a),
            )
    ]

-- A test request that goes through, or fails, keeps the entries distinct; and after one that goes
-- through the proxy is listed.
pub activate-Distinct :
    (ok : Bool) (now : ℕ) (rotate : Option IpRotate) (a : ActiveAddr) (l : List ActiveAddr)
    → Distinct l
    → Distinct (activate ok now rotate a l)
      × (any (same_entry a.ip a.port a.protocol_dest) (activate true now rotate a l) ≡ true)
unfolding activate
activate-Distinct true now rotate a l d = activate-true now rotate a l d
activate-Distinct false now rotate a l d = (d, (activate-true now rotate a l d).1)
