-- ===== src/Address.antt =====
-- The address expression REGEX of src/libs/Constants.ts, and `ProxyValidateTask.handle` of
-- src/tasks/ProxyValidateTask.ts, which reads a list of addresses by it.
pub mod Shape
use node_proxybroker.Prelude.{
  ℕ, zero, suc, ◌||◌, Option, none, some, List, [], ◌∷◌, ◌++◌, Str, codes, is_digit, is_empty,
  strip_prefix, parse_int, if◌then◌else◌, ◌==◌, onto_head,
}

-- The groups 2, 3 and 4 of a match: scheme, address, port.
pub record AddressMatch : Type 0 where
  pub scheme : Option Str
  pub ip : Str
  pub port : Option Str

-- At most `n` digits from the front, and the rest: the greedy \d{0,n}.
unfoldable pub digits : ℕ → Str → Str × Str
digits zero s = ([], s)
digits (suc n) [] = ([], [])
digits (suc n) (c ∷ s) = let r = digits n s in if is_digit c then (c ∷ r.0, r.1) else ([], c ∷ s)

-- \d{1,3} and what follows it.
unfoldable pub octet : Str → Option (Str × Str)
unfolding digits
octet s = let r = digits 3 s in if is_empty r.0 then none else some r

-- \d{1,3} and a dot.
unfoldable pub octet_dot : Str → Option (Str × Str)
unfolding octet
octet_dot s = elim (octet s) [
  | none ↦ none
  | some (o, r) ↦ elim (strip_prefix (codes ".") r) [
    | none ↦ none
    | some t ↦ some (o ++ codes ".", t)
  ]
]

infixl 5 ◌>>=◌
abbrev ◌>>=◌ {ℓ κ} : {A : Type ℓ} {B : Type κ} → Option A → (A → Option B) → Option B
none >>= f = none
some a >>= f = f a

-- :?(\d{1,5})?$
unfoldable pub port_end : Str → Option (Option Str)
unfolding digits
port_end s =
    let t : Str = elim (strip_prefix (codes ":") s) [ none ↦ s | some r ↦ r ] in
    let r = digits 5 t in
    if is_empty r.1 then some (if is_empty r.0 then none else some r.0) else none

-- Four numbers, and the port. Every greedy choice is the only one that can succeed: a number ends
-- at its dot, and fewer digits in the last one leave more than the rest can take.
unfoldable pub match_host : Option Str → Str → Option AddressMatch
unfolding octet_dot octet port_end
match_host scheme s = do
  a ← octet_dot s
  b ← octet_dot a.1
  c ← octet_dot b.1
  d ← octet c.1
  p ← port_end d.1
  some (record { scheme = scheme; ip = a.0 ++ (b.0 ++ (c.0 ++ d.0)); port = p })

-- The whole expression; without a scheme the text begins with the first number.
unfoldable pub match_address : Str → Option AddressMatch
unfolding match_host
match_address s = elim (strip_prefix (codes "http://") s) [
  | some r ↦ match_host (some (codes "http")) r
  | none ↦ elim (strip_prefix (codes "https://") s) [
    | some r ↦ match_host (some (codes "https")) r
    | none ↦ match_host none s
  ]
]

pub record ProxyData : Type 0 where
  pub ip : Str
  pub port : ℕ

-- What `handle` throws: 'unknown data' for a text that is no address, and the TodoException of
-- `new ProxyData(ip, 0)`.
pub data HandleError : Type 0 where
  unknown_data no_port : HandleError

pub data Handled : Type 0 where
  proxies : List ProxyData → Handled
  failed : HandleError → Handled

abbrev default_port : ℕ
default_port = 3128

abbrev port_of : Option Str → ℕ
port_of none = default_port
port_of (some p) = parse_int p

-- One round of the loop: the entry to push, or the exception.
unfoldable pub handle_entry : Str → Handled
unfolding match_address
handle_entry v = elim (match_address v) [
  | none ↦ failed unknown_data
  | some m ↦
      if port_of m.port == 0
      then failed no_port
      else proxies (record { ip = m.ip; port = port_of m.port } ∷ [])
]

abbrev and_then : Handled → Handled → Handled
and_then (failed e) _ = failed e
and_then (proxies xs) (failed e) = failed e
and_then (proxies xs) (proxies ys) = proxies (xs ++ ys)

unfoldable pub handle_entries : List Str → Handled
unfolding handle_entry
handle_entries [] = proxies []
handle_entries (v ∷ vs) = and_then (handle_entry v) (handle_entries vs)

-- split(/,|\n/)
unfoldable pub split_entries : Str → List Str
split_entries [] = [] ∷ []
split_entries (c ∷ s) =
    let rest = split_entries s in if c == b',' || c == 10 then [] ∷ rest else onto_head c rest

-- `handle` of a string.
unfoldable pub handle : Str → Handled
unfolding split_entries handle_entries
handle value = handle_entries (split_entries value)
