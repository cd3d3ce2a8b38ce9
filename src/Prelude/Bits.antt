-- ===== src/Prelude/Bits.antt =====
-- The lowest binary digit of the native operations, and the flags 1 and 2.
use Prim.Native.Nat.{
  ℕ, zero, suc, ◌+◌, ◌*◌, ◌/◌, ◌%◌, ◌≤◌, min, max, differ, digits, bitwise, bit_and, bit_or,
  bit_xor, bit_and-bitwise, bit_or-bitwise, bit_xor-bitwise,
}
use mathlib.Core.Path.{◌≡◌, refl, sym, ap, ◌∙◌}
use native.Mathlib.Omega.{arith}

module _ (z : ℕ → ℕ) (f : ℕ → ℕ → ℕ) where
  -- More rounds than the number has digits change nothing.
  digits-rounds : (b x r s : ℕ) → x ≤ r → x ≤ s → digits z f r x b ≡ digits z f s x b
  digits-rounds b zero zero zero u v = refl
  digits-rounds b zero zero (suc s) u v = refl
  digits-rounds b zero (suc r) zero u v = refl
  digits-rounds b zero (suc r) (suc s) u v = refl
  digits-rounds b (suc x) zero s u v = absurd (omega arith)
  digits-rounds b (suc x) (suc r) zero u v = absurd (omega arith)
  digits-rounds b (suc x) (suc r) (suc s) u v =
      omega (arith, digits-rounds (b / 2) (suc x / 2) r s (omega arith) (omega arith))

  low_digit :
      (x y : ℕ)
      → bitwise z f (suc x) y ≡ bitwise z f (suc x / 2) (y / 2) * 2 + f (suc x % 2) (y % 2)
  low_digit x y =
      let half = suc x / 2 in
      omega (arith, digits-rounds (y / 2) half x half (omega arith) (omega arith))

or_step : (a b : ℕ) → bit_or a b ≡ bit_or (a / 2) (b / 2) * 2 + max (a % 2) (b % 2)
or_step zero b = simp bit_or-bitwise (omega arith)
or_step (suc a) b = simp bit_or-bitwise (low_digit (λ y. y) max a b)

and_step : (a b : ℕ) → bit_and a b ≡ bit_and (a / 2) (b / 2) * 2 + min (a % 2) (b % 2)
and_step zero b = simp bit_and-bitwise (omega arith)
and_step (suc a) b = simp bit_and-bitwise (low_digit (λ y. 0) min a b)

xor_step :
    (a b : ℕ) → bit_xor (suc a) b ≡ bit_xor (suc a / 2) (b / 2) * 2 + differ (suc a % 2) (b % 2)
xor_step a b = simp bit_xor-bitwise (low_digit (λ y. y) differ a b)

-- The same for a first number 0.
xor_step_all : (a b : ℕ) → bit_xor a b ≡ bit_xor (a / 2) (b / 2) * 2 + differ (a % 2) (b % 2)
xor_step_all zero b = simp bit_xor-bitwise (omega arith)
xor_step_all (suc a) b = xor_step a b

differ_zero : (x : ℕ) → differ x 0 ≡ x
differ_zero zero = refl
differ_zero (suc x) = refl

differ_same : (x : ℕ) → differ x x ≡ 0
differ_same zero = refl
differ_same (suc x) = differ_same x

or_zero_in : (n a : ℕ) → a ≤ n → bit_or a 0 ≡ a
or_zero_in n zero h = refl
or_zero_in zero (suc a) h = absurd (omega arith)
or_zero_in (suc n) (suc a) h =
    omega (arith, or_step (suc a) 0, or_zero_in n (suc a / 2) (omega arith))

and_zero_in : (n a : ℕ) → a ≤ n → bit_and a 0 ≡ 0
and_zero_in n zero h = refl
and_zero_in zero (suc a) h = absurd (omega arith)
and_zero_in (suc n) (suc a) h =
    omega (arith, and_step (suc a) 0, and_zero_in n (suc a / 2) (omega arith))

xor_zero_in : (n a : ℕ) → a ≤ n → bit_xor a 0 ≡ a
xor_zero_in n zero h = refl
xor_zero_in zero (suc a) h = absurd (omega arith)
xor_zero_in (suc n) (suc a) h = omega (
  arith,
  xor_step_all (suc a) 0,
  xor_zero_in n (suc a / 2) (omega arith),
  differ_zero (suc a % 2),
)

or_zero : (a : ℕ) → bit_or a 0 ≡ a
or_zero a = or_zero_in a a (omega arith)

and_zero : (a : ℕ) → bit_and a 0 ≡ 0
and_zero a = and_zero_in a a (omega arith)

xor_zero : (a : ℕ) → bit_xor a 0 ≡ a
xor_zero a = xor_zero_in a a (omega arith)

-- The two flags of a number.
pub bit_and-one : (a : ℕ) → bit_and a 1 ≡ a % 2
bit_and-one a = omega (arith, and_step a 1, and_zero (a / 2))

pub bit_and-two : (a : ℕ) → bit_and a 2 ≡ a / 2 % 2 * 2
bit_and-two a = omega (arith, and_step a 2, bit_and-one (a / 2))

-- Setting a flag sets it and leaves the other.
pub bit_or-one : (a : ℕ) → (bit_or a 1 % 2 ≡ 1) × (bit_or a 1 / 2 ≡ a / 2)
bit_or-one a =
    let e = or_step a 1 in let z = or_zero (a / 2) in (omega (arith, e, z), omega (arith, e, z))

pub bit_or-two : (a : ℕ) → (bit_or a 2 % 2 ≡ a % 2) × (bit_or a 2 / 2 % 2 ≡ 1)
bit_or-two a =
    let e = or_step a 2 in let z = (bit_or-one (a / 2)).0 in (omega (arith, e), omega (arith, e, z))

-- So does clearing one.
pub bit_xor-one :
    (a : ℕ) → (bit_xor a (bit_and a 1) % 2 ≡ 0) × (bit_xor a (bit_and a 1) / 2 ≡ a / 2)
bit_xor-one a =
    let low : a % 2 % 2 ≡ a % 2 = omega arith in
    let high : a % 2 / 2 ≡ 0 = omega arith in
    let e = xor_step_all a (a % 2) in
    let d = ap (differ (a % 2)) low ∙ differ_same (a % 2) in
    let z = ap (bit_xor (a / 2)) high ∙ xor_zero (a / 2) in
    rw (bit_and-one a) (omega (arith, e, d, z), omega (arith, e, d, z))

pub bit_xor-two :
    (a : ℕ) → (bit_xor a (bit_and a 2) % 2 ≡ a % 2) × (bit_xor a (bit_and a 2) / 2 % 2 ≡ 0)
bit_xor-two a =
    let low : a / 2 % 2 * 2 % 2 ≡ 0 = omega arith in
    let high : a / 2 % 2 * 2 / 2 ≡ a / 2 % 2 = omega arith in
    let e = xor_step_all a (a / 2 % 2 * 2) in
    let d = ap (differ (a % 2)) low ∙ differ_zero (a % 2) in
    let z = ap (bit_xor (a / 2)) (high ∙ sym (bit_and-one (a / 2))) in
    let w = (bit_xor-one (a / 2)).0 in
    rw (bit_and-two a) (omega (arith, e, d), omega (arith, e, d, z, w))
