-- ===== src/Commands/Addresses.antt =====
-- `handler` of src/commands/ProxyValidateCommand.ts: the addresses that it reads.
use node_proxybroker.Prelude.{
  ℕ, Bool, false, not, ◌&&◌, ◌||◌, Option, none, some, List, [], ◌∷◌, ◌++◌, map, Str, codes, str_eq,
  is_empty, is_digit, to_lower, trim, split_on, parse_int, all, if◌then◌else◌, ◌==◌,
}
use node_proxybroker.Address.{ProxyData, octet_dot, octet, match_address}

-- /^\d{1,3}\.\d{1,3}\.\d{1,3}\.\d{1,3}$/
unfoldable pub is_ip : Str → Bool
unfolding octet_dot octet
is_ip s = elim (octet_dot s) [
  | none ↦ false
  | some (_, b) ↦ elim (octet_dot b) [
    | none ↦ false
    | some (_, c) ↦ elim (octet_dot c) [
      | none ↦ false
      | some (_, d) ↦ elim (octet d) [ none ↦ false | some (_, e) ↦ is_empty e ]
    ]
  ]
]

-- /^https?$/
unfoldable pub is_schema : Str → Bool
is_schema s = str_eq s (codes "http") || str_eq s (codes "https")

-- /^\d+$/
abbrev pub is_number : Str → Bool
is_number s = not (is_empty s) && all is_digit s

-- The default of 'port'.
abbrev proxy_port : ℕ
proxy_port = 3128

-- The number in front of the fields that are left.
unfoldable pub read_port : List Str → ℕ
read_port [] = proxy_port
read_port (p ∷ _) = if is_number p then parse_int p else proxy_port

-- The entry to push: without an address, or with the port 0, there is none.
unfoldable pub read_address : List Str → Option ProxyData
unfolding is_ip read_port
read_address [] = none
read_address (f ∷ fs) =
    if is_ip f && not (read_port fs == 0)
    then some (record { ip = f; port = read_port fs })
    else none

unfoldable pub read_fields : List Str → Option ProxyData
unfolding is_schema read_address
read_fields [] = none
read_fields (f ∷ fs) = if is_schema f then read_address fs else read_address (f ∷ fs)

unfoldable pub read_line : Str → Option ProxyData
unfolding read_fields
read_line line = read_fields (map trim (split_on b';' line))

-- The entries that are there.
abbrev pub somes {ℓ} : {A : Type ℓ} → List (Option A) → List A
somes [] = []
somes (none ∷ xs) = somes xs
somes (some x ∷ xs) = x ∷ somes xs

-- The case 'csv', for the text of the file.
unfoldable pub read_csv : Str → List ProxyData
unfolding read_line
read_csv text = somes (map read_line (split_on 10 (trim text)))

-- An entry of a JSON file: it has a key 'ip' and a key 'port', or not.
abbrev pub JsonEntry : Type 0
JsonEntry = Option Str × Option ℕ

unfoldable pub read_entry : JsonEntry → Option ProxyData
read_entry (some ip, some port) = some (record { ip = ip; port = port })
read_entry (_, none) = none
read_entry (none, some _) = none

-- What `getJson` gives: an array, or one value; `none` is an exception, which is only logged.
pub data Json : Type 0 where
  array : List JsonEntry → Json
  single : JsonEntry → Json

unfoldable pub read_json : Option Json → List ProxyData
unfolding read_entry
read_json none = []
read_json (some (Json.array xs)) = somes (map read_entry xs)
read_json (some (Json.single x)) = somes (read_entry x ∷ [])

abbrev argument_port : Option Str → ℕ
argument_port none = proxy_port
argument_port (some p) = parse_int p

-- Exceptions of `handler`: 'file ext not found', and that of `new ProxyData(ip, 0)`.
pub data InputError : Type 0 where
  file_ext_not_found port_zero : InputError

pub data Input : Type 0 where
  proxies : List ProxyData → Input
  refused : InputError → Input

-- The argument where no file has its name.
unfoldable pub read_argument : Str → Input
unfolding match_address
read_argument arg = elim (match_address arg) [
  | none ↦ Input.proxies []
  | some m ↦
      if argument_port m.port == 0
      then Input.refused port_zero
      else Input.proxies (record { ip = m.ip; port = argument_port m.port } ∷ [])
]

-- A file, by its extension in lower case, with its text and what it is as JSON.
pub record File : Type 0 where
  pub extension : Str
  pub text : Str
  pub json : Option Json

unfoldable pub read_file : File → Input
unfolding read_csv read_json
read_file f =
    if str_eq (to_lower f.extension) (codes "json")
    then Input.proxies (read_json f.json)
    else if str_eq (to_lower f.extension) (codes "csv")
    then Input.proxies (read_csv f.text)
    else Input.refused file_ext_not_found

unfoldable pub read_input : Option File → Str → Input
unfolding read_file read_argument
read_input (some f) arg = read_file f
read_input none arg = read_argument arg

-- What the command comes to: an exception, the message 'no proxy data given', or the rows that it
-- prints and returns.
pub data Validated {ℓ} (R : Type ℓ) : Type ℓ where
  thrown : InputError → Validated R
  no_proxy_data : Validated R
  printed : List R → Validated R

abbrev concat_lists {ℓ} : {A : Type ℓ} → List (List A) → List A
concat_lists [] = []
concat_lists (x ∷ xs) = x ++ concat_lists xs

abbrev results_of {ℓ} : {A : Type ℓ} → Option (List (List A)) → List A
results_of none = []
results_of (some xs) = concat_lists xs

-- `TasksHelper.exec` runs the validation task: the results of the tasks, if there are any.
module _ {ℓ} {R : Type ℓ} (exec : List ProxyData → Option (List (List R))) where
  unfoldable pub validated : Input → Validated R
  validated (Input.refused e) = thrown e
  validated (Input.proxies []) = no_proxy_data
  validated (Input.proxies (d ∷ ds)) = printed (results_of (exec (d ∷ ds)))

  unfoldable pub validate_handler : Option File → Str → Validated R
  unfolding validated read_input
  validate_handler file arg = validated (read_input file arg)
