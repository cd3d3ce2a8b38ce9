-- ===== src/Rotator/Selector.antt =====
-- src/libs/proxy/ProxyRotator.ts: `parseProxyHeader`, which reads the choice of a proxy from headers.
pub mod Ignored
use node_proxybroker.Prelude.{
  ℕ, suc, ◌+◌, ◌≡◌, Bool, true, false, not, ◌&&◌, ◌||◌, Option, none, some, List, [], ◌∷◌, ◌++◌,
  map, Str, codes, str_eq, is_digit, strip_prefix, index_of, take, drop, any, find, is_some,
  parse_int, is_empty, if◌then◌else◌, ◌==◌, ℤ, pos, negsuc,
}

-- A value of a selector; a number that is NaN is `none`.
pub data Value : Type 0 where
  text : Str → Value
  number : Option ℕ → Value
  flag : Bool → Value

abbrev pub Fields : Type 0
Fields = List (Str × Value)

-- An assignment to a field.
unfoldable pub assign : Str → Value → Fields → Fields
assign k v [] = (k, v) ∷ []
assign k v ((j, w) ∷ fs) = if str_eq j k then (k, v) ∷ fs else (j, w) ∷ assign k v fs

unfoldable pub field : Str → Fields → Option Value
field k [] = none
field k ((j, w) ∷ fs) = if str_eq j k then some w else field k fs

-- The expression /^proxy\\-select/: a backslash stands before its dash.
abbrev pub select_prefix : Str
select_prefix = codes "proxy\\-select"

-- `_k.replace('proxy-select-', '')`
unfoldable pub field_name : Str → Str
field_name k = elim (index_of (codes "proxy-select-") k) [
  | none ↦ k
  | some i ↦ take i k ++ drop (i + 13) k
]

unfoldable pub leading_digits : Str → Str
leading_digits [] = []
leading_digits (c ∷ s) = let rest = leading_digits s in if is_digit c then c ∷ rest else []

-- `parseInt`, of a decimal text.
unfoldable pub to_number : Str → Option ℕ
unfolding leading_digits
to_number s = if is_empty (leading_digits s) then none else some (parse_int (leading_digits s))

-- How a header's text is read.
unfoldable pub read_value : Value → Value
unfolding to_number
read_value (text s) =
    if str_eq s (codes "true") || str_eq s (codes "false")
    then flag (str_eq s (codes "true"))
    else if any is_digit s
    then number (to_number s)
    else text s
read_value (number n) = number n
read_value (flag b) = flag b

unfoldable pub parse_header : Fields → Str × Value → Fields
unfolding field_name read_value
parse_header fs (k, v) =
    if is_some (strip_prefix select_prefix k)
    then assign (field_name k) (read_value v) fs
    else if str_eq k (codes "ssl") || str_eq k (codes "targetSSL")
    then assign (codes "targetSSL") v fs
    else fs

unfoldable pub parse_headers : Fields → List (Str × Value) → Fields
unfolding parse_header
parse_headers fs [] = fs
parse_headers fs (h ∷ hs) = parse_headers (parse_header fs h) hs

-- `parseProxyHeader`
unfoldable pub parse_proxy_header : List (Str × Value) → Fields
unfolding parse_headers
parse_proxy_header = parse_headers []

-- A field read as a number that is not 0, and as a truth value.
abbrev number_of : Option Value → Option ℕ
number_of (some (number (some n))) = if n == 0 then none else some n
number_of _ = none

abbrev pub truth_of : Option Value → Bool
truth_of none = false
truth_of (some (text s)) = not (is_empty s)
truth_of (some (number none)) = false
truth_of (some (number (some n))) = not (n == 0)
truth_of (some (flag b)) = b

-- A selector as the rotator reads it: only these fields ask for anything.
pub record Selector : Type 0 where
  pub speed_limit : Option ℕ
  pub level : Option ℕ
  pub country : Option Str
  pub target_ssl : Bool
  pub repeat : ℕ

abbrev text_of : Option Value → Option Str
text_of (some (text s)) = if is_empty s then none else some s
text_of _ = none

unfoldable pub to_selector : Fields → Selector
unfolding field
to_selector fs = record {
  speed_limit = number_of (field (codes "speed-limit") fs);
  level = number_of (field (codes "level") fs);
  country = text_of (field (codes "country") fs);
  target_ssl = truth_of (field (codes "targetSSL") fs);
  repeat = 0;
}

-- `next`: the selector of a request.
unfoldable pub select_of : List (Str × Value) → Selector
unfolding to_selector parse_proxy_header
select_of headers = to_selector (parse_proxy_header headers)
