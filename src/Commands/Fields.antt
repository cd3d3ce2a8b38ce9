-- ===== src/Commands/Fields.antt =====
-- The line of a row, and the fields that are read from it.
use node_proxybroker.Prelude.{
  ℕ, suc, ◌≡◌, refl, ap, ◌∙◌, Bool, true, false, not, ◌&&◌, Option, none, some, List, [], ◌∷◌, map,
  Str, codes, str_eq, is_empty, is_digit, is_space, trim, split_on, join, all, All, All-map,
  show_nat, ◌==◌, arith, inl, inr, no_space, all-join, all-weaken, map-trim, split_on-join,
  digits-show_nat, full-show_nat, parse_int-show_nat, ℤ, pos, negsuc,
}
use node_proxybroker.Address.{ProxyData}
use node_proxybroker.Commands.Output.{
  Row, row_fields, row_text, header_fields, show_bool, show_ℤ, show_option,
}
use node_proxybroker.Commands.Addresses.{
  is_ip, is_schema, read_port, read_address, read_fields, read_line,
}
use node_proxybroker.Commands.Characters.{
  ip_char, ip_char-is_ip, full-is_ip, is_schema-cases, is_ip-is_schema,
}

-- No space and no separator.
abbrev field_char : ℕ → Bool
field_char c = not (is_space c) && not (c == b';')

abbrev is_field : Str → Bool
is_field = all field_char

field_char-digit : (c : ℕ) → is_digit c ≡ true → field_char c ≡ true
field_char-digit c h = ground (arith, h)

field_char-ip_char : (c : ℕ) → ip_char c ≡ true → field_char c ≡ true
field_char-ip_char c h = ground (arith, h)

show_nat-is_field : (n : ℕ) → is_field (show_nat n) ≡ true
show_nat-is_field n =
    all-weaken is_digit field_char (show_nat n) field_char-digit (digits-show_nat n)

show_ℤ-is_field : (n : ℤ) → is_field (show_ℤ n) ≡ true
show_ℤ-is_field (pos n) = show_nat-is_field n
show_ℤ-is_field (negsuc n) = show_nat-is_field (suc n)

show_bool-is_field : (b : Bool) → is_field (show_bool b) ≡ true
show_bool-is_field true = refl
show_bool-is_field false = refl

show_option-is_field : (n : Option ℕ) → is_field (show_option n) ≡ true
show_option-is_field none = refl
show_option-is_field (some n) = show_nat-is_field n

ip-is_field : (s : Str) → is_ip s ≡ true → is_field s ≡ true
ip-is_field s h = all-weaken ip_char field_char s field_char-ip_char (ip_char-is_ip s h)

schema-is_field : (s : Str) → is_schema s ≡ true → is_field s ≡ true
schema-is_field s h = elim (is_schema-cases s h) [ inl k ↦ ap is_field k | inr k ↦ ap is_field k ]

-- A row with an address and a port; of a result, the protocol is one of the two.
abbrev pub is_valid_row : Row → Bool
is_valid_row (Row.address d) = is_ip d.ip && not (d.port == 0)
is_valid_row (Row.result r) = is_schema r.protocol && (is_ip r.ip && not (r.port == 0))

-- The proxy of a row.
abbrev pub row_data : Row → ProxyData
row_data (Row.address d) = d
row_data (Row.result r) = record { ip = r.ip; port = r.port }

abbrev IsField : Str → Type 0
IsField x = is_field x ≡ true

row_fields-IsField : (r : Row) → is_valid_row r ≡ true → All IsField (row_fields r)
unfolding row_fields
row_fields-IsField (Row.address d) h =
    (ip-is_field d.ip (ground (arith, h)), (show_nat-is_field d.port, tt))
row_fields-IsField (Row.result r) h = (
  schema-is_field r.protocol (ground (arith, h)),
  (
    ip-is_field r.ip (ground (arith, h)),
    (
      show_nat-is_field r.port,
      (
        show_bool-is_field r.enabled,
        (show_ℤ-is_field r.level, (show_option-is_field r.duration, tt)),
      ),
    ),
  ),
)

read_port-show_nat : (n : ℕ) (fs : List Str) → read_port (show_nat n ∷ fs) ≡ n
unfolding read_port
read_port-show_nat n fs = ground (arith, digits-show_nat n, full-show_nat n, parse_int-show_nat n)

read_address-valid :
    (ip : Str) (n : ℕ) (fs : List Str)
    → is_ip ip ≡ true
    → (n == 0) ≡ false
    → read_address (ip ∷ show_nat n ∷ fs) ≡ some (record { ip = ip; port = n })
unfolding read_address
read_address-valid ip n fs h k = ground (arith, h, k, read_port-show_nat n fs)

read_fields-row : (r : Row) → is_valid_row r ≡ true → read_fields (row_fields r) ≡ some (row_data r)
unfolding read_fields row_fields
read_fields-row (Row.address d) h =
    ground (arith, h, is_ip-is_schema d.ip (ground (arith, h)), read_address-valid d.ip d.port [])
read_fields-row (Row.result r) h = ground (
  arith,
  h,
  read_address-valid r.ip r.port
      (show_bool r.enabled ∷ show_ℤ r.level ∷ show_option r.duration ∷ []),
)

weaken_field :
    (p : ℕ → Bool)
    → ((c : ℕ) → field_char c ≡ true → p c ≡ true)
    → (x : Str) → IsField x
    → all p x ≡ true
weaken_field p f x h = all-weaken field_char p x f h

no_space-field : (x : Str) → IsField x → no_space x ≡ true
no_space-field = weaken_field (λ c. not (is_space c)) (λ c k. ground (arith, k))

abbrev pub is_filled : List Str → Bool
is_filled [] = false
is_filled (x ∷ xs) = not (is_empty x)

-- Fields joined in a line are split again.
split_fields :
    (xs : List Str)
    → is_filled xs ≡ true
    → All IsField xs
    → map trim (split_on b';' (join (codes ";") xs)) ≡ xs
split_fields [] f h = absurd (ground (arith, f))
split_fields (x ∷ xs) f h =
    ap (map trim) (
      split_on-join b';' x xs
        (All-map (x ∷ xs) (weaken_field (λ c. not (c == b';')) (λ c k. ground (arith, k))) h))
    ∙ map-trim (x ∷ xs) (All-map (x ∷ xs) no_space-field h)

row_fields-is_filled : (r : Row) → is_valid_row r ≡ true → is_filled (row_fields r) ≡ true
unfolding row_fields
row_fields-is_filled (Row.address d) h = ground (arith, h, full-is_ip d.ip)
row_fields-is_filled (Row.result r) h = elim (is_schema-cases r.protocol (ground (arith, h))) [
  | inl k ↦ ap (λ x. not (is_empty x)) k
  | inr k ↦ ap (λ x. not (is_empty x)) k
]

pub read_line-row_text :
    (r : Row) → is_valid_row r ≡ true → read_line (row_text r) ≡ some (row_data r)
unfolding read_line
read_line-row_text r h =
    ap read_fields (split_fields (row_fields r) (row_fields-is_filled r h) (row_fields-IsField r h))
    ∙ read_fields-row r h

-- The header is no address.
pub read_line-header : (r : Row) → read_line (join (codes ";") (header_fields r)) ≡ none
unfolding read_line header_fields split_on str_eq trim
read_line-header (Row.address d) = refl
read_line-header (Row.result r) = refl

-- A line: not empty, and with no space in it.
abbrev pub IsLine : Str → Type 0
IsLine s = (no_space s ≡ true) × (is_empty s ≡ false)

full-join :
    (x : Str) (xs : List Str)
    → is_filled (x ∷ xs) ≡ true
    → is_empty (join (codes ";") (x ∷ xs)) ≡ false
full-join [] xs f = absurd (ground (arith, f))
full-join (c ∷ x) [] f = refl
full-join (c ∷ x) (y ∷ ys) f = refl

fields-IsLine :
    (xs : List Str) → is_filled xs ≡ true → All IsField xs → IsLine (join (codes ";") xs)
fields-IsLine [] f h = absurd (ground (arith, f))
fields-IsLine (x ∷ xs) f h = (
  all-join (λ c. not (is_space c)) (codes ";") (x ∷ xs) refl (All-map (x ∷ xs) no_space-field h),
  full-join x xs f,
)

pub row_text-IsLine : (r : Row) → is_valid_row r ≡ true → IsLine (row_text r)
row_text-IsLine r h =
    fields-IsLine (row_fields r) (row_fields-is_filled r h) (row_fields-IsField r h)

pub header-IsLine : (r : Row) → IsLine (join (codes ";") (header_fields r))
unfolding header_fields
header-IsLine (Row.address d) = (refl, refl)
header-IsLine (Row.result r) = (refl, refl)
