-- ===== src/Statistics/Totals.antt =====
-- `Statistics.stats`: the counters against the rows.
use node_proxybroker.Prelude.{
  ℕ, ◌+◌, ◌≤◌, ◌≡◌, Bool, true, false, ◌&&◌, Option, none, some, List, [], ◌∷◌, Str, str_eq,
  str_eq_iff, if◌then◌else◌, arith,
}
use node_proxybroker.Statistics.{
  StatRow, Counters, Stats, bump, bump_option, protocol_key, level_key, country_key, count_row,
  count_rows, stats, no_stats,
}

-- The counter of a key.
abbrev pub counter : Str → Counters → ℕ
counter k [] = 0
counter k ((j, n) ∷ m) = if str_eq j k then n else counter k m

abbrev pub total : Counters → ℕ
total [] = 0
total ((_, n) ∷ m) = n + total m

counter-bump :
    (k j : Str) (c : ℕ) (m : Counters)
    → counter k (bump j c m) ≡ (if str_eq j k then counter k m + c else counter k m)
unfolding bump
counter-bump k j c [] = ground (arith)
counter-bump k j c ((i, n) ∷ m) =
    ground (arith, str_eq_iff i j, str_eq_iff j k, str_eq_iff i k, counter-bump k j c m)

total-bump : (j : Str) (c : ℕ) (m : Counters) → total (bump j c m) ≡ total m + c
unfolding bump
total-bump j c [] = omega arith
total-bump j c ((i, n) ∷ m) = ground (arith, total-bump j c m)

-- A row has this key.
abbrev pub has_key : Str → Option Str → Bool
has_key k none = false
has_key k (some j) = str_eq j k

-- The counts of the rows that pass a test.
abbrev pub sum_where : (StatRow → Bool) → List StatRow → ℕ
sum_where p [] = 0
sum_where p (x ∷ xs) = (if p x then x.count_all else 0) + sum_where p xs

counter-bump_option :
    (k : Str) (j : Option Str) (c : ℕ) (m : Counters)
    → counter k (bump_option j c m) ≡ counter k m + (if has_key k j then c else 0)
counter-bump_option k none c m = omega arith
counter-bump_option k (some j) c m = ground (arith, counter-bump k j c m)

total-bump_option :
    (j : Option Str) (c : ℕ) (m : Counters) → total (bump_option j c m) ≤ total m + c
total-bump_option none c m = omega arith
total-bump_option (some j) c m = omega (arith, total-bump j c m)

count_row-all : (x : StatRow) (s : Stats) → (count_row x s).all ≡ s.all + x.count_all
unfolding count_row
count_row-all x s = ground arith

count_row-active :
    (x : StatRow) (s : Stats)
    → (count_row x s).active ≡ s.active + (if x.state_enabled then x.count_all else 0)
unfolding count_row
count_row-active x s = ground arith

-- A group of counters, by the key that a row has for it.
module _ (field : Stats → Counters) (key : StatRow → Option Str) where
  -- What one row does to the group.
  abbrev Counted : Type 0
  Counted =
      (x : StatRow) (s : Stats)
      → field (count_row x s)
        ≡ (if x.state_enabled then bump_option (key x) x.count_all (field s) else field s)

  module _ (counted : Counted) where
    counter-count_row :
        (k : Str) (x : StatRow) (s : Stats)
        → counter k (field (count_row x s))
          ≡ counter k (field s) + (if x.state_enabled && has_key k (key x) then x.count_all else 0)
    counter-count_row k x s =
        ground (arith, counted x s, counter-bump_option k (key x) x.count_all (field s))

    counter-count_rows :
        (k : Str) (xs : List StatRow) (s : Stats)
        → counter k (field (count_rows xs s))
          ≡ counter k (field s) + sum_where (λ x. x.state_enabled && has_key k (key x)) xs
    unfolding count_rows
    counter-count_rows k [] s = omega arith
    counter-count_rows k (x ∷ xs) s =
        omega (arith, counter-count_rows k xs (count_row x s), counter-count_row k x s)

    total-count_row :
        (x : StatRow) (s : Stats)
        → total (field s) ≤ s.active
        → total (field (count_row x s)) ≤ (count_row x s).active
    total-count_row x s h = ground (
      arith,
      counted x s,
      h,
      count_row-active x s,
      total-bump_option (key x) x.count_all (field s),
    )

    total-count_rows :
        (xs : List StatRow) (s : Stats)
        → total (field s) ≤ s.active
        → total (field (count_rows xs s)) ≤ (count_rows xs s).active
    unfolding count_rows
    total-count_rows [] s h = h
    total-count_rows (x ∷ xs) s h = total-count_rows xs (count_row x s) (total-count_row x s h)

enabled-le : (xs : List StatRow) → sum_where (λ x. x.state_enabled) xs ≤ sum_where (λ x. true) xs
enabled-le [] = omega arith
enabled-le (x ∷ xs) = ground (arith, enabled-le xs)

counted_protocol :
    (x : StatRow) (s : Stats)
    → (count_row x s).protocol ≡ (
        if x.state_enabled
        then bump_option (protocol_key x.state_protocol) x.count_all s.protocol
        else s.protocol)
unfolding count_row
counted_protocol x s = ground arith

counted_level :
    (x : StatRow) (s : Stats)
    → (count_row x s).level ≡ (
        if x.state_enabled
        then bump_option (level_key x.state_level) x.count_all s.level
        else s.level)
unfolding count_row
counted_level x s = ground arith

counted_country :
    (x : StatRow) (s : Stats)
    → (count_row x s).country ≡ (
        if x.state_enabled
        then bump_option (country_key x.loc_country_code) x.count_all s.country
        else s.country)
unfolding count_row
counted_country x s = ground arith

all-count_rows :
    (xs : List StatRow) (s : Stats)
    → ((count_rows xs s).all ≡ s.all + sum_where (λ x. true) xs)
      × ((count_rows xs s).active ≡ s.active + sum_where (λ x. x.state_enabled) xs)
unfolding count_rows
all-count_rows [] s = (omega arith, omega arith)
all-count_rows (x ∷ xs) s =
    let (h, k) = all-count_rows xs (count_row x s) in
    (omega (arith, h, count_row-all x s), omega (arith, k, count_row-active x s))

-- For any rows of the query, each number of the statistics is the sum of the counts of the rows that
-- it stands for: all of them, the enabled ones, and for each protocol, level and country the enabled
-- ones with that key.
pub stats-sum_where :
    (rows : List StatRow) (k : Str)
    → ((stats rows).all ≡ sum_where (λ x. true) rows)
      × ((stats rows).active ≡ sum_where (λ x. x.state_enabled) rows)
      × (counter k (stats rows).protocol
          ≡ sum_where (λ x. x.state_enabled && has_key k (protocol_key x.state_protocol)) rows)
      × (counter k (stats rows).level
          ≡ sum_where (λ x. x.state_enabled && has_key k (level_key x.state_level)) rows)
      × (counter k (stats rows).country
          ≡ sum_where (λ x. x.state_enabled && has_key k (country_key x.loc_country_code)) rows)
unfolding stats
stats-sum_where rows k =
    let (h, a) = all-count_rows rows no_stats in
    let p =
      counter-count_rows (λ s. s.protocol) (λ x. protocol_key x.state_protocol) counted_protocol k
        rows no_stats in
    let l =
      counter-count_rows (λ s. s.level) (λ x. level_key x.state_level) counted_level k rows
        no_stats in
    let c =
      counter-count_rows (λ s. s.country) (λ x. country_key x.loc_country_code) counted_country k
        rows no_stats in
    (omega (arith, h), omega (arith, a), omega (arith, p), omega (arith, l), omega (arith, c))

-- The counters of a group never add up to more than the enabled addresses, nor those to more than
-- all.
pub stats-bounded :
    (rows : List StatRow)
    → (total (stats rows).protocol ≤ (stats rows).active)
      × (total (stats rows).level ≤ (stats rows).active)
      × (total (stats rows).country ≤ (stats rows).active)
      × ((stats rows).active ≤ (stats rows).all)
unfolding stats
stats-bounded rows =
    let (h, a) = all-count_rows rows no_stats in
    (
      total-count_rows (λ s. s.protocol) (λ x. protocol_key x.state_protocol) counted_protocol rows
          no_stats (omega arith),
      total-count_rows (λ s. s.level) (λ x. level_key x.state_level) counted_level rows no_stats
          (omega arith),
      total-count_rows (λ s. s.country) (λ x. country_key x.loc_country_code) counted_country rows
          no_stats (omega arith),
      omega (arith, h, a, enabled-le rows),
    )
