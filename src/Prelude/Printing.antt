-- ===== src/Prelude/Printing.antt =====
-- Numbers printed and read, and texts joined by a separator and split at it.
use Prim.Native.Nat.{ℕ, zero, suc, ◌+◌, ◌/◌, ◌%◌, ◌<◌}
use mathlib.Core.Path.{◌≡◌, refl, sym, ap, ◌∙◌}
use mathlib.Core.Bool.{Bool, true, false, not}
use mathlib.Core.List.{List, [], ◌∷◌, ◌++◌, reverse, reverse-append, reverse-reverse, map}
use native.Mathlib.Omega.{arith}
use node_proxybroker.Prelude.Tests.{◌==◌}
use node_proxybroker.Prelude.Lists.{all, All, append_assoc, all-append}
use node_proxybroker.Prelude.Text.{
  Str, is_digit, is_space, is_empty, trim, trim_start, split_on, join, parse_int, parse_int_from,
  show_nat, show_nat_from,
}

parse_int_from-show_nat_from :
    (f n : ℕ) (acc : Str) → n < f → parse_int_from 0 (show_nat_from f n acc) ≡ parse_int_from n acc
unfolding parse_int_from show_nat_from
parse_int_from-show_nat_from zero n acc h = absurd (omega arith)
parse_int_from-show_nat_from (suc f) n acc h =
    ground (arith, parse_int_from-show_nat_from f (n / 10) ((b'0' + n % 10) ∷ acc))

pub parse_int-show_nat : (n : ℕ) → parse_int (show_nat n) ≡ n
unfolding parse_int show_nat
parse_int-show_nat n = parse_int_from-show_nat_from (suc n) n [] (omega arith)

digits-show_nat_from :
    (f n : ℕ) (acc : Str) → all is_digit acc ≡ true → all is_digit (show_nat_from f n acc) ≡ true
unfolding show_nat_from
digits-show_nat_from zero n acc h = h
digits-show_nat_from (suc f) n acc h =
    ground (arith, digits-show_nat_from f (n / 10) ((b'0' + n % 10) ∷ acc))

pub digits-show_nat : (n : ℕ) → all is_digit (show_nat n) ≡ true
unfolding show_nat
digits-show_nat n = digits-show_nat_from (suc n) n [] refl

full-show_nat_from : (f n c : ℕ) (acc : Str) → is_empty (show_nat_from f n (c ∷ acc)) ≡ false
unfolding show_nat_from
full-show_nat_from zero n c acc = refl
full-show_nat_from (suc f) n c acc =
    ground (arith, full-show_nat_from f (n / 10) (b'0' + n % 10) (c ∷ acc))

pub full-show_nat : (n : ℕ) → is_empty (show_nat n) ≡ false
unfolding show_nat show_nat_from
full-show_nat n = ground (arith, full-show_nat_from n (n / 10) (b'0' + n % 10) [])

-- A text with no separator in it is one part.
abbrev pub has_no : ℕ → Str → Bool
has_no sep = all (λ c. not (c == sep))

split_on-one : (sep : ℕ) (x : Str) → has_no sep x ≡ true → split_on sep x ≡ x ∷ []
unfolding split_on
split_on-one sep [] h = refl
split_on-one sep (c ∷ x) h = ground (arith, split_on-one sep x)

split_on-append :
    (sep : ℕ) (x s : Str) → has_no sep x ≡ true → split_on sep (x ++ (sep ∷ s)) ≡ x ∷ split_on sep s
unfolding split_on
split_on-append sep [] s h = ground arith
split_on-append sep (c ∷ x) s h = ground (arith, split_on-append sep x s)

-- Splitting gives back the parts that were joined.
pub split_on-join :
    (sep : ℕ) (x : Str) (xs : List Str)
    → All (λ y. has_no sep y ≡ true) (x ∷ xs)
    → split_on sep (join (sep ∷ []) (x ∷ xs)) ≡ x ∷ xs
split_on-join sep x [] h = split_on-one sep x h.0
split_on-join sep x (y ∷ ys) h =
    split_on-append sep x _ h.0 ∙ ap (◌∷◌ x) (split_on-join sep y ys h.1)

-- A text that begins and ends with a character that is no space, or is empty.
abbrev pub starts_plain : Str → Bool
starts_plain [] = true
starts_plain (c ∷ s) = not (is_space c)

trim_start-plain : (s : Str) → starts_plain s ≡ true → trim_start s ≡ s
unfolding trim_start
trim_start-plain [] h = refl
trim_start-plain (c ∷ s) h = ground (arith, h)

pub trim-plain : (s : Str) → starts_plain s ≡ true → starts_plain (reverse s) ≡ true → trim s ≡ s
unfolding trim
trim-plain s h k =
    ap (λ t. reverse (trim_start (reverse t))) (trim_start-plain s h)
    ∙ ap reverse (trim_start-plain (reverse s) k)
    ∙ reverse-reverse s

abbrev pub no_space : Str → Bool
no_space = all (λ c. not (is_space c))

no_space-starts_plain : (s : Str) → no_space s ≡ true → starts_plain s ≡ true
no_space-starts_plain [] h = refl
no_space-starts_plain (c ∷ s) h = ground (arith, h)

-- It ends with a character that is no space.
pub EndsPlain : Str → Type 0
EndsPlain s = (pre : Str) × (c : ℕ) × (s ≡ pre ++ (c ∷ [])) × (is_space c ≡ false)

EndsPlain-append : (x s : Str) → EndsPlain s → EndsPlain (x ++ s)
unfolding EndsPlain
EndsPlain-append x s (pre, c, e, h) =
    (x ++ pre, c, ap (◌++◌ x) e ∙ sym (append_assoc x pre (c ∷ [])), h)

pub no_space-EndsPlain : (c : ℕ) (s : Str) → no_space (c ∷ s) ≡ true → EndsPlain (c ∷ s)
unfolding EndsPlain
no_space-EndsPlain c [] h = ([], c, refl, ground (arith, h))
no_space-EndsPlain c (d ∷ s) h =
    EndsPlain-append (c ∷ []) (d ∷ s) (no_space-EndsPlain d s (ground (arith, h)))

starts_plain-reverse : (s : Str) → EndsPlain s → starts_plain (reverse s) ≡ true
unfolding EndsPlain
starts_plain-reverse s (pre, c, e, h) =
    ap (λ t. starts_plain (reverse t)) e
    ∙ ap starts_plain (reverse-append pre (c ∷ []))
    ∙ ground (arith, h)

pub trim-EndsPlain : (s : Str) → starts_plain s ≡ true → EndsPlain s → trim s ≡ s
trim-EndsPlain s h k = trim-plain s h (starts_plain-reverse s k)

-- A text without a space in it is its own trim.
pub trim-no_space : (s : Str) → no_space s ≡ true → trim s ≡ s
unfolding trim trim_start
trim-no_space [] h = refl
trim-no_space (c ∷ s) h =
    trim-EndsPlain (c ∷ s) (no_space-starts_plain (c ∷ s) h) (no_space-EndsPlain c s h)

pub map-trim : (xs : List Str) → All (λ x. no_space x ≡ true) xs → map trim xs ≡ xs
map-trim [] h = refl
map-trim (x ∷ xs) h = ap (λ y. y ∷ map trim xs) (trim-no_space x h.0) ∙ ap (◌∷◌ x) (map-trim xs h.1)

-- A separated text ends as its last part does.
pub join-EndsPlain :
    (sep : Str) (x : Str) (xs : List Str) → All EndsPlain (x ∷ xs) → EndsPlain (join sep (x ∷ xs))
join-EndsPlain sep x [] h = h.0
join-EndsPlain sep x (y ∷ ys) h =
    EndsPlain-append x _ (EndsPlain-append sep _ (join-EndsPlain sep y ys h.1))

-- A property of characters that holds of the parts and the separator holds of the whole.
pub all-join :
    (p : ℕ → Bool) (sep : Str) (xs : List Str)
    → all p sep ≡ true
    → All (λ x. all p x ≡ true) xs
    → all p (join sep xs) ≡ true
all-join p sep [] k h = refl
all-join p sep (x ∷ []) k h = h.0
all-join p sep (x ∷ y ∷ ys) k h = ground (
  arith,
  all-append p x (sep ++ join sep (y ∷ ys)),
  all-append p sep (join sep (y ∷ ys)),
  all-join p sep (y ∷ ys) k h.1,
  h.0,
  k,
)

pub all-weaken :
    (p q : ℕ → Bool) (s : Str)
    → ((c : ℕ) → p c ≡ true → q c ≡ true)
    → all p s ≡ true
    → all q s ≡ true
all-weaken p q [] f h = refl
all-weaken p q (c ∷ s) f h = ground (arith, f c, h, all-weaken p q s f)
