-- ===== src/Rotator/Machine/Listed.antt =====
-- The active list of src/libs/proxy/ProxyRotator.ts: what an order of it, a filter and a change of
-- each entry keep.
use mathlib.Core.Bool.{Bool-set}
use mathlib.Core.Logic.{∥∥₁_elim}
use mathlib.Core.List.{Perm, Permᴰ}
use node_proxybroker.Prelude.{
  ◌≡◌, refl, ap, ◌∙◌, Bool, true, false, not, ◌&&◌, List, [], ◌∷◌, map, any, filter, arith,
}
use node_proxybroker.Rotator.Pool.{ActiveAddr, same_entry}
use node_proxybroker.Rotator.Pool.Entries.{Distinct, same_entry_sym}

abbrev pub same_as : ActiveAddr → ActiveAddr → Bool
same_as a x = same_entry a.ip a.port a.protocol_dest x

-- The test of `Distinct`.
abbrev pub are_distinct : List ActiveAddr → Bool
are_distinct [] = true
are_distinct (x ∷ xs) = not (any (same_as x) xs) && are_distinct xs

pub Distinct-are_distinct : (l : List ActiveAddr) → Distinct l → are_distinct l ≡ true
Distinct-are_distinct [] h = refl
Distinct-are_distinct (x ∷ l) h = ground (arith, h.0, Distinct-are_distinct l h.1)

pub are_distinct-Distinct : (l : List ActiveAddr) → are_distinct l ≡ true → Distinct l
are_distinct-Distinct [] h = tt
are_distinct-Distinct (x ∷ l) h = (ground (arith, h), are_distinct-Distinct l (ground (arith, h)))

same_as_comm : (a b : ActiveAddr) → same_as a b ≡ same_as b a
same_as_comm a b = ground (arith, same_entry_sym a b, same_entry_sym b a)

any-Permᴰ {ℓ} : {A : Type ℓ} (p : A → Bool) {l m : List A} → Permᴰ l m → any p l ≡ any p m
any-Permᴰ p Permᴰ.nil = refl
any-Permᴰ p (Permᴰ.cons e d) = ground (arith, ap p e, any-Permᴰ p d)
any-Permᴰ p (Permᴰ.swap e f) = ground (arith, ap p e, ap p f)
any-Permᴰ p (Permᴰ.trans c d) = any-Permᴰ p c ∙ any-Permᴰ p d

are_distinct-Permᴰ : {l m : List ActiveAddr} → Permᴰ l m → are_distinct l ≡ are_distinct m
are_distinct-Permᴰ Permᴰ.nil = refl
are_distinct-Permᴰ (Permᴰ.cons {a} {b} {l₁} {l₂} e d) =
    ap (λ x. are_distinct (x ∷ l₁)) e
    ∙ ground (arith, any-Permᴰ (same_as b) d, are_distinct-Permᴰ d)
are_distinct-Permᴰ (Permᴰ.swap {a} {b} {a'} {b'} {l} e f) =
    ap (λ x. are_distinct (x ∷ b ∷ l)) e
    ∙ ap (λ x. are_distinct (b' ∷ x ∷ l)) f
    ∙ ground (arith, same_as_comm a' b', same_as_comm b' a')
are_distinct-Permᴰ (Permᴰ.trans c d) = are_distinct-Permᴰ c ∙ are_distinct-Permᴰ d

pub any-Perm {ℓ} : {A : Type ℓ} (p : A → Bool) {l m : List A} → Perm l m → any p l ≡ any p m
any-Perm p h = ∥∥₁_elim h (Bool-set _ _) (any-Permᴰ p)

pub are_distinct-Perm : {l m : List ActiveAddr} → Perm l m → are_distinct l ≡ are_distinct m
are_distinct-Perm h = ∥∥₁_elim h (Bool-set _ _) are_distinct-Permᴰ

pub any-filter {ℓ} :
    {A : Type ℓ} (p q : A → Bool) (l : List A) → any p l ≡ false → any p (filter q l) ≡ false
any-filter p q [] h = refl
any-filter p q (x ∷ l) h = ground (arith, any-filter p q l)

pub are_distinct-filter :
    (q : ActiveAddr → Bool) (l : List ActiveAddr)
    → are_distinct l ≡ true
    → are_distinct (filter q l) ≡ true
are_distinct-filter q [] h = refl
are_distinct-filter q (x ∷ l) h =
    ground (arith, h, are_distinct-filter q l, any-filter (same_as x) q l)

-- A change of an entry that leaves its ip, its port and its target protocol.
abbrev pub KeepsPlace : (ActiveAddr → ActiveAddr) → Type 0
KeepsPlace f =
    (a : ActiveAddr)
    → ((f a).ip ≡ a.ip) × ((f a).port ≡ a.port) × ((f a).protocol_dest ≡ a.protocol_dest)

same_as-map :
    (f : ActiveAddr → ActiveAddr)
    → KeepsPlace f
    → (a x : ActiveAddr) → same_as (f a) (f x) ≡ same_as a x
unfolding same_entry
same_as-map f k a x =
    let (ip, port, dest) = k a in
    let (ip', port', dest') = k x in rw (ip, port, dest, ip', port', dest') refl

any-same_as-map :
    (f : ActiveAddr → ActiveAddr)
    → KeepsPlace f
    → (a : ActiveAddr) (l : List ActiveAddr) → any (same_as (f a)) (map f l) ≡ any (same_as a) l
any-same_as-map f k a [] = refl
any-same_as-map f k a (x ∷ l) = ground (arith, same_as-map f k a x, any-same_as-map f k a l)

pub are_distinct-map :
    (f : ActiveAddr → ActiveAddr)
    → KeepsPlace f
    → (l : List ActiveAddr) → are_distinct (map f l) ≡ are_distinct l
are_distinct-map f k [] = refl
are_distinct-map f k (x ∷ l) = ground (arith, any-same_as-map f k x l, are_distinct-map f k l)

pub any-map-false {ℓ} :
    {A : Type ℓ} (p : A → Bool) (f : A → A)
    → ((x : A) → p x ≡ false → p (f x) ≡ false)
    → (l : List A) → any p l ≡ false
    → any p (map f l) ≡ false
any-map-false p f k [] h = refl
any-map-false p f k (x ∷ l) h = ground (arith, h, k x, any-map-false p f k l)
