-- ===== src/Tests/Fetching.antt =====
-- The fetch task and its workers at concrete inputs.
use node_proxybroker.Prelude.{
  Bool, ℕ, if◌then◌else◌, ◌==◌, ◌≡◌, true, false, inl, inr, none, some, List, [], ◌∷◌, Str, codes,
  str_eq, trim, split_on,
}
use node_proxybroker.Address.{ProxyData}
use node_proxybroker.Provider.{ProviderDef, find_all, is_valid, passes, matches_key}
use node_proxybroker.Provider.Worker.{ProviderClass, exec_fetch, read_variants, with_type}
use node_proxybroker.Provider.Worker.Brought.{exec_fetch-gather}

abbrev found : ℕ → ProxyData
found port = record { ip = codes "10.0.0.1"; port = port }

-- The first class brings a proxy and one without a port; the second one cannot be prepared.
abbrev classes : ℕ → ProviderClass
classes c =
    if c == 1
    then record { variants = []; prepare = none; load = λ d. inr (found 80 ∷ found 0 ∷ []) }
    else record {
      variants = [];
      prepare = some (some (codes "down"));
      load = λ d. inr (found 81 ∷ []);
    }

abbrev def_of : ℕ → Str → ProviderDef
def_of c t = record { name = codes "p"; url = []; type = t; clazz = c }

abbrev known : List ProviderDef
known = def_of 1 (codes "a") ∷ def_of 2 (codes "b") ∷ def_of 1 (codes "c") ∷ []

abbrev any_ip : Str → Bool
any_ip s = true

exec_fetch-gather_example :
    exec_fetch any_ip classes known (codes "p") (inl (codes "a, c")) true false
    ≡ inr (
      found 80 ∷ found 80 ∷ [],
      some (record { proxies = found 80 ∷ found 80 ∷ []; store = false }),
    )
unfolding read_variants with_type find_all passes matches_key is_valid str_eq trim split_on
exec_fetch-gather_example =
    exec_fetch-gather any_ip classes known (codes "p") (inl (codes "a, c")) true false
