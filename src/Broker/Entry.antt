-- ===== src/Broker/Entry.antt =====
-- The entry of an address in the active list of the rotator, as the address is taken.
use mathlib.Core.Path.{subst}
use node_proxybroker.Prelude.{
  ℕ, ◌≡◌, refl, sym, ◌∙◌, Bool, true, false, not, some, List, [], ◌∷◌, map, str_eq_refl, any, find,
  filter, Bool-cases, inl, inr, arith, ◌==◌, if◌then◌else◌,
}
use node_proxybroker.Rotator.Selector.{Selector}
use node_proxybroker.Rotator.Pool.{
  ActiveAddr, take_active, is_eligible, same_entry, is_hopeless, cleanup_list, update_list, use_ref,
  use_addr, update_odd,
}
use node_proxybroker.Rotator.Pool.Entries.{same_protocol_refl}

find-filter {ℓ} :
    {A : Type ℓ} (q r p : A → Bool) (l : List A) (a : A)
    → find q l ≡ some a
    → r a ≡ true
    → p a ≡ true
    → any p (filter r l) ≡ true
find-filter q r p [] a e h k = absurd (ground (arith, e))
find-filter q r p (x ∷ l) a e h k = elim (Bool-cases (q x)) [
  | inl t ↦
      let same : x ≡ a = ground (arith, t, e) in
      subst (λ y. any p (if r y then y ∷ filter r l else filter r l) ≡ true) (sym same)
        (ground (arith, h, k))
  | inr t ↦ ground (arith, find-filter q r p l a (ground (arith, t, e)) h k)
]

abbrev pub is_entry : ActiveAddr → ActiveAddr → Bool
is_entry a = same_entry a.ip a.port a.protocol_dest

is_entry_self : (a : ActiveAddr) → is_entry a a ≡ true
unfolding same_entry
is_entry_self a = ground (arith, str_eq_refl a.ip, same_protocol_refl a.protocol_dest)

any-map :
    (p : ActiveAddr → Bool) (f : ActiveAddr → ActiveAddr)
    → ((x : ActiveAddr) → p (f x) ≡ p x)
    → (l : List ActiveAddr) → any p (map f l) ≡ any p l
any-map p f h [] = refl
any-map p f h (x ∷ l) = ground (arith, h x, any-map p f h l)

update_odd-is_entry :
    (a : ActiveAddr) (reuse : ℕ) (x : ActiveAddr) → is_entry a (update_odd reuse x) ≡ is_entry a x
unfolding update_odd same_entry
update_odd-is_entry a reuse x = ground arith

use_ref-is_entry :
    (a : ActiveAddr) (now ref : ℕ) (x : ActiveAddr)
    → is_entry a (if x.ref == ref then use_addr now x else x) ≡ is_entry a x
unfolding use_addr same_entry
use_ref-is_entry a now ref x = ground arith

-- The entry of an address that is taken stays in the list, unless it is dropped as hopeless.
pub taken-is_entry :
    (order_by : List ActiveAddr → List ActiveAddr)
    → ((p : ActiveAddr → Bool) (l : List ActiveAddr) → any p (order_by l) ≡ any p l)
    → (reuse now : ℕ) (s : Selector) (l : List ActiveAddr) (a : ActiveAddr)
    → find (is_eligible now s) l ≡ some a
    → is_hopeless a ≡ false
    → any (is_entry a) (take_active order_by reuse now s l).1 ≡ true
unfolding update_list use_ref cleanup_list take_active
taken-is_entry order_by keeps reuse now s l a e h =
    rw (e, take_active)
      (any-map (is_entry a) (λ x. if x.ref == a.ref then use_addr now x else x)
          (use_ref-is_entry a now a.ref) (update_list order_by reuse l)
        ∙ keeps (is_entry a) (map (update_odd reuse) (cleanup_list l))
        ∙ any-map (is_entry a) (update_odd reuse) (update_odd-is_entry a reuse) (cleanup_list l)
        ∙ find-filter (is_eligible now s) (λ r. not (is_hopeless r)) (is_entry a) l a e
            (ground (arith, h)) (is_entry_self a))
