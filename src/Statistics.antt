-- ===== src/Statistics.antt =====
-- `stats` of src/libs/specific/storage/Statistics.ts, for the rows that the query gives.
pub mod Totals
use node_proxybroker.Prelude.{
  ℕ, zero, suc, ◌+◌, Bool, true, false, Option, none, some, List, [], ◌∷◌, Str, codes, str_eq,
  show_nat, if◌then◌else◌, ℤ, pos, negsuc,
}

-- A row of the grouped query; null is `none`, and 0 or an empty text is not true.
pub record StatRow : Type 0 where
  pub count_all : ℕ
  pub state_enabled : Bool
  pub state_protocol : Option ℕ
  pub state_level : Option ℤ
  pub loc_country_code : Option Str

-- An object whose values are counters.
abbrev pub Counters : Type 0
Counters = List (Str × ℕ)

pub record Stats : Type 0 where
  pub all : ℕ
  pub active : ℕ
  pub protocol : Counters
  pub level : Counters
  pub country : Counters

-- A counter starts at 0.
unfoldable pub bump : Str → ℕ → Counters → Counters
bump k c [] = (k, c) ∷ []
bump k c ((j, n) ∷ m) = if str_eq j k then (j, n + c) ∷ m else (j, n) ∷ bump k c m

abbrev pub protocol_key : Option ℕ → Option Str
protocol_key none = none
protocol_key (some zero) = none
protocol_key (some (suc n)) = some (show_nat (suc n))

-- `x.state_level > -2`, which null passes.
abbrev pub level_key : Option ℤ → Option Str
level_key none = some (codes "null")
level_key (some (pos n)) = some (show_nat n)
level_key (some (negsuc zero)) = some (codes "-1")
level_key (some (negsuc (suc n))) = none

abbrev pub country_key : Option Str → Option Str
country_key none = none
country_key (some []) = none
country_key (some (c ∷ s)) = some (c ∷ s)

abbrev pub bump_option : Option Str → ℕ → Counters → Counters
bump_option none c m = m
bump_option (some k) c m = bump k c m

-- One round of the loop.
unfoldable pub count_row : StatRow → Stats → Stats
unfolding bump
count_row x s =
    if x.state_enabled
    then record {
      all = s.all + x.count_all;
      active = s.active + x.count_all;
      protocol = bump_option (protocol_key x.state_protocol) x.count_all s.protocol;
      level = bump_option (level_key x.state_level) x.count_all s.level;
      country = bump_option (country_key x.loc_country_code) x.count_all s.country;
    }
    else record s { all = s.all + x.count_all }

unfoldable pub count_rows : List StatRow → Stats → Stats
unfolding count_row
count_rows [] s = s
count_rows (x ∷ xs) s = count_rows xs (count_row x s)

abbrev pub no_stats : Stats
no_stats = record { all = 0; active = 0; protocol = []; level = []; country = [] }

-- `stats`
unfoldable pub stats : List StatRow → Stats
unfolding count_rows
stats rows = count_rows rows no_stats
