-- ===== src/Agent/Numeric.antt =====
-- The conversion `+text` of JavaScript, as far as it is compared with a whole number. A number is
-- read exactly, where JavaScript rounds it to a double.
use node_proxybroker.Prelude.{
  ℕ, zero, suc, ◌+◌, ◌-◌, ◌*◌, Bool, true, false, not, ◌&&◌, List, [], ◌∷◌, ◌++◌, Str, is_empty,
  is_digit, trim, to_lower, split_on, parse_int, length, all, if◌then◌else◌, ◌==◌, leb, none, some,
  strip_prefix, codes,
}

abbrev pow : ℕ → ℕ → ℕ
pow b zero = 1
pow b (suc n) = b * pow b n

-- A digit, in lower case, of a base up to 16.
abbrev digit_value : ℕ → ℕ
digit_value c =
    if is_digit c then c - b'0' else if leb b'a' c && leb c b'f' then c - b'a' + 10 else 16

abbrev based_from : ℕ → ℕ → Str → ℕ
based_from base acc [] = acc
based_from base acc (c ∷ s) = based_from base (acc * base + digit_value c) s

-- The digits after 0x, 0o or 0b.
abbrev based_is : ℕ → ℕ → Str → Bool
based_is base n s =
    not (is_empty s) && (all (λ c. leb (digit_value c + 1) base) s && based_from base 0 s == n)

abbrev is_digits : Str → Bool
is_digits s = not (is_empty s) && all is_digit s

-- Digits whole and fraction, times ten to a power with the given sign, against a number.
abbrev scaled_is : ℕ → Str → Str → Bool → Str → Bool
scaled_is n i f is_negative x =
    let value = parse_int (i ++ f) in
    let power = pow 10 (parse_int x) in
    let scale = pow 10 (length f) in
    is_digits (i ++ f)
    && (is_digits x
        && (if is_negative then value == n * scale * power else value * power == n * scale))

-- The exponent, with its sign.
abbrev with_exponent : ℕ → Str → Str → Str → Bool
with_exponent n i f [] = false
with_exponent n i f (c ∷ x) =
    if c == b'-'
    then scaled_is n i f true x
    else if c == b'+'
    then scaled_is n i f false x
    else scaled_is n i f false (c ∷ x)

abbrev with_parts : ℕ → List Str → Str → Bool
with_parts n (i ∷ []) x = with_exponent n i [] x
with_parts n (i ∷ f ∷ []) x = with_exponent n i f x
with_parts n _ x = false

abbrev decimal_is : ℕ → List Str → Bool
decimal_is n (m ∷ []) = with_parts n (split_on b'.' m) (codes "0")
decimal_is n (m ∷ x ∷ []) = with_parts n (split_on b'.' m) x
decimal_is n _ = false

-- Decimal digits behind a sign; of the negative numbers only zero is compared as equal.
abbrev signed_is : ℕ → Str → Bool
signed_is n (c ∷ s) =
    if c == b'+'
    then decimal_is n (split_on b'e' s)
    else if c == b'-'
    then n == 0 && decimal_is 0 (split_on b'e' s)
    else decimal_is n (split_on b'e' (c ∷ s))
signed_is n [] = n == 0

-- A text after its base mark.
abbrev marked_is : ℕ → ℕ → Str → Str → Bool → Bool
marked_is n base mark s otherwise = elim (strip_prefix mark s) [
  | some t ↦ based_is base n t
  | none ↦ otherwise
]

-- `n === +text`
unfoldable pub number_is : ℕ → Str → Bool
number_is n text =
    let s = to_lower (trim text) in
    marked_is n 16 (codes "0x") s
      (marked_is n 8 (codes "0o") s (marked_is n 2 (codes "0b") s (signed_is n s)))
