-- ===== src/Commands/RoundTrip.antt =====
-- A printed list of proxies is one that the validate command reads.
use node_proxybroker.Prelude.{
  ◌≡◌, refl, sym, ap, ◌∙◌, Bool, true, false, not, List, [], ◌∷◌, map, Str, codes, str_eq,
  str_eq_iff, is_space, trim, split_on, join, filter, All, All-map, All-filter, ◌==◌, arith, inl,
  inr, Bool-cases, has_no, EndsPlain, no_space-EndsPlain, trim-EndsPlain, join-EndsPlain,
  all-weaken, split_on-join, starts_plain,
}
use node_proxybroker.Commands.Output.{Row, row_text, header_fields, csv_rows, print_csv, uniq}
use node_proxybroker.Commands.Addresses.{read_line, read_csv, somes}
use node_proxybroker.Commands.Fields.{
  is_valid_row, row_data, IsLine, read_line-row_text, read_line-header, row_text-IsLine,
  header-IsLine,
}

-- The rows that print different lines.
unfoldable pub distinct_rows : List Row → List Row
distinct_rows [] = []
distinct_rows (r ∷ rs) = r ∷ filter (λ s. not (str_eq (row_text r) (row_text s))) (distinct_rows rs)

filter-map-row_text :
    (p : Str → Bool) (rs : List Row)
    → filter p (map row_text rs) ≡ map row_text (filter (λ r. p (row_text r)) rs)
filter-map-row_text p [] = refl
filter-map-row_text p (r ∷ rs) = ground (arith, filter-map-row_text p rs)

uniq-map : (rs : List Row) → uniq (map row_text rs) ≡ map row_text (distinct_rows rs)
unfolding uniq distinct_rows
uniq-map [] = refl
uniq-map (r ∷ rs) =
    ap (λ x. row_text r ∷ filter (λ y. not (str_eq (row_text r) y)) x) (uniq-map rs)
    ∙ ap (◌∷◌ (row_text r))
        (filter-map-row_text (λ y. not (str_eq (row_text r) y)) (distinct_rows rs))

abbrev pub IsValidRow : Row → Type 0
IsValidRow r = is_valid_row r ≡ true

distinct_rows-IsValidRow : (rs : List Row) → All IsValidRow rs → All IsValidRow (distinct_rows rs)
unfolding distinct_rows
distinct_rows-IsValidRow [] h = tt
distinct_rows-IsValidRow (r ∷ rs) h =
    (h.0, All-filter IsValidRow _ (distinct_rows rs) (distinct_rows-IsValidRow rs h.1))

-- What the rows are read as.
somes-read_line :
    (rs : List Row) → All IsValidRow rs → somes (map read_line (map row_text rs)) ≡ map row_data rs
somes-read_line [] h = refl
somes-read_line (r ∷ rs) h =
    rw (read_line-row_text r h.0) (ap (◌∷◌ (row_data r)) (somes-read_line rs h.1))

-- No row prints the header.
header_apart :
    (q r : Row)
    → is_valid_row r ≡ true
    → str_eq (join (codes ";") (header_fields q)) (row_text r) ≡ false
header_apart q r h = elim (Bool-cases (str_eq (join (codes ";") (header_fields q)) (row_text r))) [
  | inr k ↦ k
  | inl k ↦
      let same = (str_eq_iff (join (codes ";") (header_fields q)) (row_text r)).0 k in
      absurd (ground (arith, sym (read_line-header q) ∙ ap read_line same ∙ read_line-row_text r h))
]

keep_rows :
    (q : Row) (rs : List Row)
    → All IsValidRow rs
    → filter (λ y. not (str_eq (join (codes ";") (header_fields q)) y)) (map row_text rs)
      ≡ map row_text rs
keep_rows q [] h = refl
keep_rows q (r ∷ rs) h = ground (arith, header_apart q r h.0, keep_rows q rs h.1)

-- The lines of a table.
csv_rows-distinct :
    (r : Row) (rs : List Row)
    → All IsValidRow (r ∷ rs)
    → csv_rows (r ∷ rs) ≡ join (codes ";") (header_fields r) ∷ map row_text (distinct_rows (r ∷ rs))
unfolding csv_rows uniq
csv_rows-distinct r rs h = ap (◌∷◌ (join (codes ";") (header_fields r))) (
    ap (filter _) (uniq-map (r ∷ rs))
    ∙ keep_rows r (distinct_rows (r ∷ rs)) (distinct_rows-IsValidRow (r ∷ rs) h))

line-EndsPlain : (s : Str) → IsLine s → EndsPlain s
line-EndsPlain [] h = absurd (ground (arith, h.1))
line-EndsPlain (c ∷ s) h = no_space-EndsPlain c s h.0

line-has_no : (s : Str) → IsLine s → has_no 10 s ≡ true
line-has_no s h =
    all-weaken (λ c. not (is_space c)) (λ c. not (c == 10)) s (λ c k. ground (arith, k)) h.0

lines_start : (x : Str) (xs : List Str) → IsLine x → starts_plain (join (10 ∷ []) (x ∷ xs)) ≡ true
lines_start [] xs h = absurd (ground (arith, h.1))
lines_start (c ∷ x) [] h = ground (arith, h.0)
lines_start (c ∷ x) (y ∷ ys) h = ground (arith, h.0)

-- Lines joined in a text are split again.
split_lines :
    (x : Str) (xs : List Str)
    → All IsLine (x ∷ xs)
    → split_on 10 (trim (join (10 ∷ []) (x ∷ xs))) ≡ x ∷ xs
split_lines x xs h =
    ap (split_on 10) (
      trim-EndsPlain (join (10 ∷ []) (x ∷ xs)) (lines_start x xs h.0)
        (join-EndsPlain (10 ∷ []) x xs (All-map (x ∷ xs) line-EndsPlain h)))
    ∙ split_on-join 10 x xs (All-map (x ∷ xs) line-has_no h)

rows-IsLine : (rs : List Row) → All IsValidRow rs → All IsLine (map row_text rs)
rows-IsLine [] h = tt
rows-IsLine (r ∷ rs) h = (row_text-IsLine r h.0, rows-IsLine rs h.1)

no_rows : read_csv (print_csv []) ≡ map row_data (distinct_rows [])
unfolding read_csv print_csv csv_rows read_line distinct_rows split_on trim str_eq
no_rows = refl

-- A csv table that the program prints, of rows with an IPv4 address, a port that is not 0 and, for
-- results, one of the two protocols, is read back by the validate command as the proxies of its
-- rows, in their order, each printed line once; the header is no entry.
pub read_csv-print_csv :
    (rs : List Row) → All IsValidRow rs → read_csv (print_csv rs) ≡ map row_data (distinct_rows rs)
unfolding read_csv print_csv
read_csv-print_csv [] h = no_rows
read_csv-print_csv (r ∷ rs) h =
    let kept = distinct_rows-IsValidRow (r ∷ rs) h in
    let lines = map row_text (distinct_rows (r ∷ rs)) in
    let read = λ (x : List Str). somes (map read_line x) in
    ap (λ x. read (split_on 10 (trim (join (10 ∷ []) x)))) (csv_rows-distinct r rs h)
    ∙ ap read (split_lines _ lines (header-IsLine r, rows-IsLine (distinct_rows (r ∷ rs)) kept))
    ∙ ap (λ x. somes (x ∷ map read_line lines)) (read_line-header r)
    ∙ somes-read_line (distinct_rows (r ∷ rs)) kept
