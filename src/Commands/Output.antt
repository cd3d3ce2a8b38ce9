-- ===== src/Commands/Output.antt =====
-- `OutputHelper.printResults` of src/libs/OutputHelper.ts, for the format csv.
use node_proxybroker.Prelude.{
  ℕ, suc, Bool, true, false, not, Option, none, some, List, [], ◌∷◌, ◌++◌, map, Str, codes, str_eq,
  filter, join, show_nat, ℤ, pos, negsuc,
}
use node_proxybroker.Address.{ProxyData}

-- IProxyResult; a duration may be missing.
pub record ProxyResult : Type 0 where
  pub protocol : Str
  pub ip : Str
  pub port : ℕ
  pub enabled : Bool
  pub level : ℤ
  pub duration : Option ℕ

-- A row has a key 'protocol' or not.
pub data Row : Type 0 where
  address : ProxyData → Row
  result : ProxyResult → Row

abbrev pub has_protocol : Row → Bool
has_protocol (Row.address _) = false
has_protocol (Row.result _) = true

abbrev pub show_bool : Bool → Str
show_bool true = codes "true"
show_bool false = codes "false"

abbrev pub show_ℤ : ℤ → Str
show_ℤ (pos n) = show_nat n
show_ℤ (negsuc n) = codes "-" ++ show_nat (suc n)

-- `join` takes a missing value for an empty text.
abbrev pub show_option : Option ℕ → Str
show_option none = []
show_option (some n) = show_nat n

unfoldable pub row_fields : Row → List Str
row_fields (Row.address d) = d.ip ∷ show_nat d.port ∷ []
row_fields (Row.result r) =
    r.protocol
    ∷ r.ip
    ∷ show_nat r.port
    ∷ show_bool r.enabled
    ∷ show_ℤ r.level
    ∷ show_option r.duration
    ∷ []

abbrev pub row_text : Row → Str
row_text r = join (codes ";") (row_fields r)

-- `_.uniq` on texts: the first of equal ones stays.
unfoldable pub uniq : List Str → List Str
uniq [] = []
uniq (x ∷ xs) = x ∷ filter (λ y. not (str_eq x y)) (uniq xs)

unfoldable pub header_fields : Row → List Str
header_fields (Row.result _) =
    codes "protocol"
    ∷ codes "ip"
    ∷ codes "port"
    ∷ codes "enabled"
    ∷ codes "level"
    ∷ codes "duration"
    ∷ []
header_fields (Row.address _) = codes "ip" ∷ codes "port" ∷ []

-- The lines: the first row decides on the header.
unfoldable pub csv_rows : List Row → List Str
unfolding header_fields row_fields uniq
csv_rows [] = []
csv_rows (r ∷ rs) = uniq (join (codes ";") (header_fields r) ∷ map row_text (r ∷ rs))

-- What is printed, without the line break that `console.log` adds.
unfoldable pub print_csv : List Row → Str
unfolding csv_rows
print_csv rs = join (10 ∷ []) (csv_rows rs)
