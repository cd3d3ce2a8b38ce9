-- ===== src/Rotator/Pool/Turns.antt =====
-- `ProxyRotator.take`: which address is taken, and how long it rests then.
use node_proxybroker.Prelude.{
  ℕ, ◌+◌, ◌*◌, ◌%◌, ◌==◌, ◌≤◌, ◌<◌, ◌≡◌, ◌≢◌, ◌∙◌, ◌↔◌, refl, ap, sym, Bool, true, false, not,
  Option, none, some, List, [], ◌∷◌, ◌++◌, map, find, any, length, All, All-filter, Option-cases,
  Bool-cases, ◌⊎◌, inl, inr, arith, if◌then◌else◌, ℤ, pos, negsuc,
}
use node_proxybroker.Rotator.Pool.{
  ActiveAddr, is_eligible, is_hopeless, cleanup_list, update_odd, use_addr, use_ref, update_list,
  take_active, take_all, at_most, level_at_most, matches, destination,
}
use node_proxybroker.Entities.{ProtocolType, http, https, same_protocol}
use node_proxybroker.Rotator.Selector.{Selector}

find-none {ℓ} : {A : Type ℓ} (p : A → Bool) (l : List A) → find p l ≡ none → any p l ≡ false
find-none p [] e = refl
find-none p (x ∷ l) e = ground (arith, find-none p l)

find-split {ℓ} :
    {A : Type ℓ} (p : A → Bool) (l : List A) (a : A)
    → find p l ≡ some a
    → (xs : List A) × (ys : List A) × (l ≡ xs ++ (a ∷ ys)) × (any p xs ≡ false) × (p a ≡ true)
find-split p [] a e = cc
find-split p (x ∷ l) a e = elim (Bool-cases (p x)) [
  | inl hit ↦ ([], l, ground (arith, hit), refl, ground (arith, hit))
  | inr miss ↦
      let (xs, ys, q, none_before, passes) = find-split p l a (ground (arith, miss)) in
      (x ∷ xs, ys, ap (◌∷◌ x) q, ground (arith, miss), passes)
]

-- Exactly the addresses with more than 99 uses of which at most 15 of a hundred were good are
-- dropped from the active list: the two tests of the source come down to this one.
pub is_hopeless_iff :
    (a : ActiveAddr) → (is_hopeless a ≡ true) ↔ ((99 < a.used) × (a.success * 100 ≤ a.used * 15))
unfolding is_hopeless
is_hopeless_iff a = ground arith

-- The duration is known and not above the limit, or there is no limit; a missing one counts as 0.
abbrev pub IsWithin : Option ℕ → Option ℕ → Type 0
IsWithin d none = Unit
IsWithin none (some limit) = Unit
IsWithin (some d) (some limit) = d ≤ limit

abbrev pub IsLevelWithin : ℤ → Option ℕ → Type 0
IsLevelWithin n none = Unit
IsLevelWithin (pos n) (some limit) = n ≤ limit
IsLevelWithin (negsuc n) (some limit) = Unit

-- What an address must be to be taken: it is free and has rested two seconds, is fast enough, has a
-- level that is asked for, and is for the protocol of the request.
abbrev pub IsFree : ℕ → Selector → ActiveAddr → Type 0
IsFree now s a =
    (a.odd ≡ 0)
    × (a.updated_at + 2000 ≤ now)
    × IsWithin a.duration s.speed_limit
    × IsLevelWithin a.level s.level
    × (a.protocol_dest ≡ (if s.target_ssl then https else http))

at_most_iff : (d l : Option ℕ) → (at_most d l ≡ true) ↔ IsWithin d l
at_most_iff d none = ground arith
at_most_iff none (some l) = ground arith
at_most_iff (some d) (some l) = ground arith

level_at_most_iff : (n : ℤ) (l : Option ℕ) → (level_at_most n l ≡ true) ↔ IsLevelWithin n l
level_at_most_iff n none = ground arith
level_at_most_iff (pos n) (some l) = ground arith
level_at_most_iff (negsuc n) (some l) = ground arith

destination_iff :
    (p : ProtocolType) (ssl : Bool)
    → (same_protocol p (destination ssl) ≡ true) ↔ (p ≡ (if ssl then https else http))
destination_iff http true =
    (λ e. absurd (ground (arith, e)), λ e. ap (λ p. same_protocol p https) e)
destination_iff https true = (λ e. refl, λ e. refl)
destination_iff http false = (λ e. refl, λ e. refl)
destination_iff https false =
    (λ e. absurd (ground (arith, e)), λ e. ap (λ p. same_protocol p http) e)

is_eligible_iff :
    (now : ℕ) (s : Selector) (a : ActiveAddr) → (is_eligible now s a ≡ true) ↔ IsFree now s a
unfolding is_eligible matches
is_eligible_iff now s a = ground (
  arith,
  at_most_iff a.duration s.speed_limit,
  level_at_most_iff a.level s.level,
  destination_iff a.protocol_dest s.target_ssl,
)

none_eligible :
    (now : ℕ) (s : Selector) (l : List ActiveAddr)
    → any (is_eligible now s) l ≡ false
    → All (λ x. ¬ IsFree now s x) l
none_eligible now s [] e = tt
none_eligible now s (x ∷ l) e = (
  λ h. absurd (ground (arith, e, (is_eligible_iff now s x).1 h)),
  none_eligible now s l (ground (arith, e)),
)

module _ (order_by : List ActiveAddr → List ActiveAddr) where
  -- An address that is taken stands in the list, is free (`odd` 0), has not been used for two seconds,
  -- is not slower than the selector allows, has no higher level and is for the protocol that is asked
  -- for; none before it in the list is all that, and it comes back marked as used now. Nothing is
  -- taken only if no address of the list is all that.
  pub take_active-first :
      (reuse now : ℕ) (s : Selector) (l : List ActiveAddr)
      → (((take_active order_by reuse now s l).0 ≡ none) × All (λ x. ¬ IsFree now s x) l)
        ⊎ ((a : ActiveAddr) × (b : ActiveAddr) × (xs : List ActiveAddr) × (ys : List ActiveAddr)
            × ((take_active order_by reuse now s l).0 ≡ some b)
            × (l ≡ xs ++ (a ∷ ys))
            × All (λ x. ¬ IsFree now s x) xs
            × IsFree now s a
            × (b.ref ≡ a.ref)
            × (b.odd ≡ 1)
            × (b.used ≡ a.used + 1)
            × (b.updated_at ≡ now))
  take_active-first reuse now s l = elim (Option-cases (find (is_eligible now s) l)) [
    | inl e ↦
        inl (unfold take_active in rw (e, take_active), none_eligible now s l (find-none _ l e))
    | inr (a, e) ↦
        let (xs, ys, q, before, passes) = find-split _ l a e in
        inr (
          a,
          use_addr now (update_odd reuse a),
          xs,
          ys,
          unfold take_active in rw (e, take_active),
          q,
          none_eligible now s xs before,
          (is_eligible_iff now s a).0 passes,
          unfold use_addr update_odd in ground arith,
          unfold use_addr update_odd in ground arith,
          unfold use_addr update_odd in ground arith,
          unfold use_addr update_odd in ground arith,
        )
  ]

All-map {ℓ κ μ} :
    {A : Type ℓ} {B : Type κ} (P : A → Type μ) (Q : B → Type μ) (f : A → B)
    → ((a : A) → P a → Q (f a))
    → (l : List A) → All P l
    → All Q (map f l)
All-map P Q f h [] k = tt
All-map P Q f h (x ∷ l) k = (h x k.0, All-map P Q f h l k.1)

-- The address `r` rests: where it stands in the list, its `odd` is `k`, and it has been used.
abbrev pub Rests : ℕ → ℕ → ActiveAddr → Type 0
Rests r k x = x.ref ≡ r → (x.odd ≡ k) × (0 < x.used)

-- An answer of `take` that is not the address `r`.
abbrev pub Avoids : ℕ → Option ActiveAddr → Type 0
Avoids r none = Unit
Avoids r (some b) = b.ref ≢ r

remainder_small : (k n : ℕ) → k < n → k % n ≡ k
remainder_small k n h = grind arith

update_odd-ref : (reuse : ℕ) (x : ActiveAddr) → (update_odd reuse x).ref ≡ x.ref
unfolding update_odd
update_odd-ref reuse x = ground arith

update_odd-Rests :
    (reuse r k : ℕ) (x : ActiveAddr)
    → 0 < k
    → k < reuse
    → Rests r k x
    → Rests r (k + 1) (update_odd reuse x)
unfolding update_odd
update_odd-Rests reuse r k x p lt h e =
    ground (arith, h (sym (update_odd-ref reuse x) ∙ e), remainder_small k reuse lt)

use-Rests :
    (now r k ref : ℕ) (x : ActiveAddr)
    → ref ≢ r
    → Rests r k x
    → Rests r k (if x.ref == ref then use_addr now x else x)
unfolding use_addr
use-Rests now r k ref x other h e = ground (arith, other)

used-Rests :
    (now ref : ℕ) (x : ActiveAddr) → Rests ref 1 (if x.ref == ref then use_addr now x else x)
unfolding use_addr
used-Rests now ref x e = ground arith

use_ref-Rests : (now ref : ℕ) (l : List ActiveAddr) → All (Rests ref 1) (use_ref now ref l)
unfolding use_ref
use_ref-Rests now ref [] = tt
use_ref-Rests now ref (x ∷ l) = (used-Rests now ref x, use_ref-Rests now ref l)

some-ref : (a b : ActiveAddr) → some a ≡ some b → a.ref ≡ b.ref
some-ref a b e = ground (arith, e)

find-All {ℓ κ} :
    {A : Type ℓ} (P : A → Type κ) (p : A → Bool) (l : List A) (a : A)
    → find p l ≡ some a
    → All P l
    → P a
find-All P p [] a e h = cc
find-All P p (x ∷ l) a e h = elim (Bool-cases (p x)) [
  | inl hit ↦ let same : x ≡ a = ground (arith, hit) in rw same at h.0
  | inr miss ↦ find-All P p l a (ground (arith, miss)) h.1
]

eligible-odd : (now : ℕ) (s : Selector) (a : ActiveAddr) → is_eligible now s a ≡ true → a.odd ≡ 0
unfolding is_eligible
eligible-odd now s a e = ground arith

module _ (order_by : List ActiveAddr → List ActiveAddr)
    (keeps : (P : ActiveAddr → Type 0) (l : List ActiveAddr) → All P l → All P (order_by l)) where
  update_list-Rests :
      (reuse r k : ℕ) (l : List ActiveAddr)
      → 0 < k
      → k < reuse
      → All (Rests r k) l
      → All (Rests r (k + 1)) (update_list order_by reuse l)
  unfolding update_list cleanup_list
  update_list-Rests reuse r k l p lt h = keeps _ _ (
      All-map (Rests r k) (Rests r (k + 1)) (update_odd reuse)
        (λ x. update_odd-Rests reuse r k x p lt) _
        (All-filter (Rests r k) (λ x. not (is_hopeless x)) l h))

  taken-ne :
      (now r k : ℕ) (s : Selector) (l : List ActiveAddr) (a : ActiveAddr)
      → 0 < k
      → All (Rests r k) l
      → find (is_eligible now s) l ≡ some a
      → a.ref ≢ r
  taken-ne now r k s l a p h e same =
      let rests = find-All (Rests r k) (is_eligible now s) l a e h same in
      let (_, _, _, _, passes) = find-split (is_eligible now s) l a e in
      absurd (omega (arith, rests.0, eligible-odd now s a passes))

  take_active-Avoids :
      (reuse now r k : ℕ) (s : Selector) (l : List ActiveAddr)
      → 0 < k
      → All (Rests r k) l
      → Avoids r (take_active order_by reuse now s l).0
  unfolding take_active
  take_active-Avoids reuse now r k s l p h = elim (Option-cases (find (is_eligible now s) l)) [
    | inl e ↦ rw (e, take_active) tt
    | inr (a, e) ↦
        rw (e, take_active)
          (unfold use_addr in λ q. taken-ne now r k s l a p h e (sym (update_odd-ref reuse a) ∙ q))
  ]

  take_active-Rests :
      (reuse now r k : ℕ) (s : Selector) (l : List ActiveAddr)
      → 0 < k
      → k < reuse
      → All (Rests r k) l
      → All (Rests r (k + 1)) (take_active order_by reuse now s l).1
  unfolding take_active
  take_active-Rests reuse now r k s l p lt h =
      let next = update_list-Rests reuse r k l p lt h in
      elim (Option-cases (find (is_eligible now s) l)) [
        | inl e ↦ rw (e, take_active) next
        | inr (a, e) ↦
            rw (e, take_active)
              (unfold use_ref in
                All-map (Rests r (k + 1)) (Rests r (k + 1)) _
                  (λ x. use-Rests now r (k + 1) a.ref x (taken-ne now r k s l a p h e)) _ next)
      ]

  take_all-Avoids :
      (reuse r k : ℕ) (calls : List (ℕ × Selector)) (l : List ActiveAddr)
      → 0 < k
      → k + length calls ≤ reuse + 1
      → All (Rests r k) l
      → All (Avoids r) (take_all order_by reuse calls l).0
  unfolding take_all
  take_all-Avoids reuse r k [] l p b h = tt
  take_all-Avoids reuse r k ((now, s) ∷ []) l p b h = (take_active-Avoids reuse now r k s l p h, tt)
  take_all-Avoids reuse r k ((now, s) ∷ c ∷ cs) l p b h = (
    take_active-Avoids reuse now r k s l p h,
    take_all-Avoids reuse r (k + 1) (c ∷ cs) _ (omega arith) (omega arith)
        (take_active-Rests reuse now r k s l p (omega arith) h),
  )

  taken-Rests :
      (reuse now : ℕ) (s : Selector) (l : List ActiveAddr) (b : ActiveAddr)
      → (take_active order_by reuse now s l).0 ≡ some b
      → (find (is_eligible now s) l ≡ none)
        ⊎ ((a : ActiveAddr) × (find (is_eligible now s) l ≡ some a))
      → All (Rests b.ref 1) (take_active order_by reuse now s l).1
  taken-Rests reuse now s l b e (inl f) =
      let none_taken : (take_active order_by reuse now s l).0 ≡ none =
        unfold take_active in rw (f, take_active) in
      absurd (ground (arith, e, none_taken))
  taken-Rests reuse now s l b e (inr (a, f)) =
      let out : (take_active order_by reuse now s l).0 ≡ some (use_addr now (update_odd reuse a)) =
        unfold take_active in rw (f, take_active) in
      let left : (take_active order_by reuse now s l).1
          ≡ use_ref now a.ref (update_list order_by reuse l) =
        unfold take_active in rw (f, take_active) in
      let same : b.ref ≡ a.ref =
        some-ref b _ (sym e ∙ out) ∙ (unfold use_addr in update_odd-ref reuse a) in
      rw (left, same) (use_ref-Rests now a.ref (update_list order_by reuse l))

  -- After an address is taken, none of the next `reuse` calls of `take` gives it out again, whatever
  -- they ask for and whenever they come, if the order of the list loses and invents no property that
  -- all its addresses have.
  pub take_rests :
      (reuse now : ℕ) (s : Selector) (l : List ActiveAddr) (b : ActiveAddr)
      (calls : List (ℕ × Selector))
      → (take_active order_by reuse now s l).0 ≡ some b
      → length calls ≤ reuse
      → All (Avoids b.ref) (take_all order_by reuse calls (take_active order_by reuse now s l).1).0
  take_rests reuse now s l b calls e n =
      take_all-Avoids reuse b.ref 1 calls _ (omega arith) (omega arith)
        (taken-Rests reuse now s l b e (Option-cases (find (is_eligible now s) l)))
