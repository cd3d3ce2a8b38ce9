-- ===== src/Tests/Tables.antt =====
-- The commands and the statistics at concrete inputs.
use node_proxybroker.Prelude.{
  ◌≡◌, refl, true, false, none, some, List, [], ◌∷◌, Str, codes, str_eq, strip_prefix, show_nat,
  pos, negsuc,
}
use node_proxybroker.Address.{ProxyData}
use node_proxybroker.Provider.{ProviderDef}
use node_proxybroker.Commands.Output.{ProxyResult, Row, row_fields, print_csv}
use node_proxybroker.Commands.Addresses.{read_csv, is_ip, is_schema}
use node_proxybroker.Commands.RoundTrip.{distinct_rows, read_csv-print_csv}
use node_proxybroker.Statistics.{StatRow}

abbrev local : ProxyData
local = record { ip = codes "127.0.0.1"; port = 8080 }

abbrev tested : ProxyResult
tested = record {
  protocol = codes "https";
  ip = codes "10.0.0.1";
  port = 3128;
  enabled = true;
  level = negsuc 0;
  duration = none;
}

abbrev rows : List Row
rows = Row.result tested ∷ Row.address local ∷ Row.address local ∷ []

read_csv-print_csv_example :
    read_csv (print_csv rows) ≡ record { ip = codes "10.0.0.1"; port = 3128 } ∷ local ∷ []
unfolding is_ip is_schema str_eq distinct_rows show_nat strip_prefix row_fields
read_csv-print_csv_example = read_csv-print_csv rows (refl, (refl, (refl, tt)))

abbrev variant : Str → Str → ProviderDef
variant n t = record { name = n; url = []; type = t; clazz = 1 }

abbrev chosen : List ProviderDef
chosen =
    variant (codes "a") (codes "x")
    ∷ variant (codes "b") (codes "x")
    ∷ variant (codes "a") (codes "y")
    ∷ []

abbrev page : Str
page = codes "<tr><td>10.0.0.1</td><td>3128</td></tr>"

abbrev stat_rows : List StatRow
stat_rows =
    record {
      count_all = 3;
      state_enabled = true;
      state_protocol = some 1;
      state_level = some (negsuc 0);
      loc_country_code = some (codes "DE");
    }
    ∷ record {
      count_all = 2;
      state_enabled = true;
      state_protocol = some 2;
      state_level = none;
      loc_country_code = none;
    }
    ∷ record {
      count_all = 4;
      state_enabled = false;
      state_protocol = some 1;
      state_level = some (pos 1);
      loc_country_code = some (codes "DE");
    }
    ∷ []
