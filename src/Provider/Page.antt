-- ===== src/Provider/Page.antt =====
-- src/providers/proxy/ProxyListenDe.ts: the addresses on a page, by MATCH_IP_PORT_REGEX, the forms that
-- ask for the pages, and `get` over the pages.
pub mod Found
use node_proxybroker.Prelude.{
  ℕ, zero, suc, ◌+◌, ◌-◌, Bool, true, false, not, Option, none, some, List, [], ◌∷◌, ◌++◌, map, Str,
  codes, str_eq, is_digit, is_empty, strip_prefix, parse_int, filter, length, if◌then◌else◌, ltb,
}
use node_proxybroker.Address.{ProxyData}
use node_proxybroker.Provider.{fetch_pages}
use node_proxybroker.Provider.Scan.{scan}

-- The characters from the front that pass a test, and the rest.
unfoldable pub span : (ℕ → Bool) → Str → Str × Str
span p [] = ([], [])
span p (c ∷ s) = let r = span p s in if p c then (c ∷ r.0, r.1) else ([], c ∷ s)

-- One character and more that pass.
unfoldable pub some_of : (ℕ → Bool) → Str → Option (Str × Str)
unfolding span
some_of p s = let r = span p s in if is_empty r.0 then none else some r

infixl 5 ◌>>=◌
abbrev ◌>>=◌ {ℓ κ} : {A : Type ℓ} {B : Type κ} → Option A → (A → Option B) → Option B
none >>= f = none
some a >>= f = f a

-- \d+ and a dot.
unfoldable pub number_dot : Str → Option (Str × Str)
unfolding some_of strip_prefix
number_dot s = do
  a ← some_of is_digit s
  r ← strip_prefix (codes ".") a.1
  some (a.0 ++ codes ".", r)

abbrev pub is_gap : ℕ → Bool
is_gap c = not (is_digit c)

-- The expression at the start of a text, with what follows the match. Every greedy choice is the
-- only one that can succeed: what ends a run is never in it.
unfoldable pub row_at : Str → Option (ProxyData × Str)
unfolding number_dot
row_at s = do
  r ← strip_prefix (codes ">") s
  a ← number_dot r
  b ← number_dot a.1
  c ← number_dot b.1
  d ← some_of is_digit c.1
  g ← some_of is_gap d.1
  p ← some_of is_digit g.1
  some (record { ip = a.0 ++ (b.0 ++ (c.0 ++ d.0)); port = parse_int p.0 }, p.1)

-- Every match of a page.
unfoldable pub scan_page : Str → List ProxyData
unfolding row_at scan
scan_page html = scan row_at 0 html

-- A form: the fields with their values.
abbrev pub Form : Type 0
Form = List (Str × Str)

-- The form of a round: all but the first ask for the next page.
unfoldable pub form_of_round : ℕ → Form → Form
form_of_round round form =
    if ltb 0 round
    then filter (λ (f : Str × Str). not (str_eq f.0 (codes "submit"))) form
      ++ ((codes "next", codes "nächste Seite") ∷ [])
    else form

-- `get`, for the texts of the pages: the proxies, and the number of pages that are asked for.
unfoldable pub get_pages : List Str → List ProxyData × ℕ
unfolding scan_page fetch_pages
get_pages pages = fetch_pages 0 [] (map scan_page pages)
