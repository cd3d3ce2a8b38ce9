-- ===== src/Prelude/Text.antt =====
-- Texts and buffers as lists of code units, with the operations of JavaScript's strings that the
-- program uses. A buffer is read as text one byte to a code unit, which is exact on ASCII.
use Prim.Native.Nat.{ℕ, zero, suc, ◌+◌, ◌-◌, ◌*◌, ◌/◌, ◌%◌}
use Prim.Native.Char.{code}
use Prim.Native.String.{String}
use mathlib.Core.Path.{◌≡◌, refl, sym}
use mathlib.Core.Logic.{◌↔◌}
use mathlib.Core.Bool.{Bool, true, false, ◌&&◌, ◌||◌}
use mathlib.Core.List.{List, [], ◌∷◌, ◌++◌, reverse, map}
use mathlib.Core.Option
use mathlib.Core.Option.{Option, none, some}
use native.Mathlib.Omega.{arith}
use node_proxybroker.Prelude.Tests.{leb, ◌==◌, if◌then◌else◌, is_some}

abbrev pub Str : Type 0
Str = List ℕ

abbrev pub codes : String → Str
codes String.[] = []
codes (String.◌∷◌ c s) = code c ∷ codes s

unfoldable pub str_eq : Str → Str → Bool
str_eq [] [] = true
str_eq (x ∷ xs) (y ∷ ys) = x == y && str_eq xs ys
str_eq _ _ = false

pub str_eq_iff : (a b : Str) → (str_eq a b ≡ true) ↔ (a ≡ b)
unfolding str_eq
str_eq_iff (x ∷ a) (y ∷ b) = ground (arith, str_eq_iff a b)
str_eq_iff _ _ = ground arith

pub str_eq_refl : (a : Str) → str_eq a a ≡ true
str_eq_refl a = (str_eq_iff a a).1 refl

pub str_sym : (a b : Str) → str_eq a b ≡ true → str_eq b a ≡ true
str_sym a b e = (str_eq_iff b a).1 (sym ((str_eq_iff a b).0 e))

abbrev pub is_empty : Str → Bool
is_empty [] = true
is_empty (_ ∷ _) = false

abbrev pub is_digit : ℕ → Bool
is_digit c = leb b'0' c && leb c b'9'

abbrev pub is_space : ℕ → Bool
is_space c = c == 32 || (leb 9 c && leb c 13)

abbrev pub lower : ℕ → ℕ
lower c = if leb b'A' c && leb c b'Z' then c + 32 else c

-- toLowerCase, on ASCII.
unfoldable pub to_lower : Str → Str
to_lower = map lower

unfoldable pub trim_start : Str → Str
trim_start [] = []
trim_start (c ∷ s) = let rest = trim_start s in if is_space c then rest else c ∷ s

unfoldable pub trim : Str → Str
unfolding trim_start
trim s = reverse (trim_start (reverse (trim_start s)))

-- What follows the prefix, if the text starts with it.
unfoldable pub strip_prefix : Str → Str → Option Str
strip_prefix [] s = some s
strip_prefix (p ∷ ps) [] = none
strip_prefix (p ∷ ps) (c ∷ s) = let rest = strip_prefix ps s in if p == c then rest else none

-- indexOf: where the needle first occurs; `none` is -1.
unfoldable pub index_of : Str → Str → Option ℕ
unfolding strip_prefix
index_of needle [] = if is_some (strip_prefix needle []) then some 0 else none
index_of needle (c ∷ s) =
    let rest = Option.map suc (index_of needle s) in
    if is_some (strip_prefix needle (c ∷ s)) then some 0 else rest

abbrev pub onto_head : ℕ → List Str → List Str
onto_head c [] = (c ∷ []) ∷ []
onto_head c (x ∷ xs) = (c ∷ x) ∷ xs

-- split by one character: always at least one part.
unfoldable pub split_on : ℕ → Str → List Str
split_on sep [] = [] ∷ []
split_on sep (c ∷ s) = let rest = split_on sep s in if c == sep then [] ∷ rest else onto_head c rest

abbrev pub crlf : Str
crlf = 13 ∷ 10 ∷ []

abbrev pub crlf_crlf : Str
crlf_crlf = 13 ∷ 10 ∷ 13 ∷ 10 ∷ []

-- split by "\r\n".
unfoldable pub split_crlf : Str → List Str
split_crlf [] = [] ∷ []
split_crlf (c ∷ []) = (c ∷ []) ∷ []
split_crlf (c ∷ d ∷ s) = elim (c == 13 && d == 10) [
  | true ↦ [] ∷ split_crlf s
  | false ↦ onto_head c (split_crlf (d ∷ s))
]

-- join: the parts with the separator between.
abbrev pub join : Str → List Str → Str
join sep [] = []
join sep (x ∷ []) = x
join sep (x ∷ y ∷ xs) = x ++ (sep ++ join sep (y ∷ xs))

-- parseInt of a run of decimal digits.
unfoldable pub parse_int_from : ℕ → Str → ℕ
parse_int_from acc [] = acc
parse_int_from acc (c ∷ s) = parse_int_from (acc * 10 + (c - b'0')) s

unfoldable pub parse_int : Str → ℕ
unfolding parse_int_from
parse_int s = parse_int_from 0 s

unfoldable pub show_nat_from : ℕ → ℕ → Str → Str
show_nat_from zero n acc = acc
show_nat_from (suc f) n acc =
    let d = (b'0' + n % 10) ∷ acc in
    let rest = show_nat_from f (n / 10) d in if leb n 9 then d else rest

-- A number in decimal: `n + 1` rounds are more than it has digits.
unfoldable pub show_nat : ℕ → Str
unfolding show_nat_from
show_nat n = show_nat_from (suc n) n []
