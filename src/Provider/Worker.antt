-- ===== src/Provider/Worker.antt =====
-- src/libs/provider/ProviderWorker.ts, `get` of ProviderManager.ts for a definition, `selectVariant` of
-- AbstractProvider.ts and `exec` of src/tasks/ProxyFetchTask.ts: a worker is made for each definition
-- that is asked for, and an exception ends the task.
pub mod Brought
use node_proxybroker.Prelude.{
  ℕ, Bool, true, false, ◌&&◌, ◌⊎◌, inl, inr, Option, none, some, List, [], ◌∷◌, ◌++◌, map, Str,
  codes, str_eq, is_empty, find, filter, trim, split_on, if◌then◌else◌, ◌==◌,
}
use node_proxybroker.Address.{ProxyData}
use node_proxybroker.Provider.{ProviderDef, all_providers, find_all, is_selected, is_valid}

-- The value of `variants`: a text is a list of types.
unfoldable pub read_variants : Str ⊎ List Str → List Str
unfolding trim split_on
read_variants (inl s) = map trim (split_on 44 s)
read_variants (inr l) = l

-- `selectVariant`: a text is looked up among the variants of the provider.
unfoldable pub select_variant : List ProviderDef → Str ⊎ ProviderDef → Option ProviderDef
select_variant variants (inl t) = find (λ (v : ProviderDef). str_eq v.type t) variants
select_variant variants (inr v) = some v

-- What an instance of a provider's class does: `prepare` may be missing or throw, and `get`, for the
-- variant that is selected, gives proxies or throws.
pub record ProviderClass : Type 0 where
  pub variants : List ProviderDef
  pub prepare : Option (Option Str)
  pub load : Option ProviderDef → Str ⊎ List ProxyData

pub record ProviderWorker : Type 0 where
  pub provider : ProviderDef
  pub instance_of : ProviderClass
  pub selected : Option ProviderDef

-- The constructor; `classes` gives an instance of each class.
unfoldable pub new_worker : (ℕ → ProviderClass) → ProviderDef → ProviderWorker
unfolding select_variant
new_worker classes d =
    let c = classes d.clazz in
    record { provider = d; instance_of = c; selected = select_variant c.variants (inr d) }

-- `initialize`: the error that it throws.
unfoldable pub initialize_worker : ProviderWorker → Option Str
initialize_worker w = elim w.instance_of.prepare [ none ↦ none | some e ↦ e ]

unfoldable pub create_worker : (ℕ → ProviderClass) → ProviderDef → Str ⊎ ProviderWorker
unfolding new_worker initialize_worker
create_worker classes d =
    let w = new_worker classes d in elim (initialize_worker w) [ some e ↦ inl e | none ↦ inr w ]

unfoldable pub fetch_worker : ProviderWorker → Str ⊎ List ProxyData
fetch_worker w = w.instance_of.load w.selected

-- All the fields of a query that is a definition agree.
unfoldable pub same_def : ProviderDef → ProviderDef → Bool
same_def q d =
    str_eq d.name q.name && (str_eq d.url q.url && (str_eq d.type q.type && d.clazz == q.clazz))

-- `get` writes the type '__all__' into a query without a type.
unfoldable pub with_type : ProviderDef → ProviderDef
with_type q = if is_empty q.type then record q { type = all_providers } else q

-- `get` for one of the definitions: it is written into where it stands in the list.
unfoldable pub get_def : ProviderDef → List ProviderDef → Option ProviderDef
unfolding same_def with_type
get_def q defs =
    find (same_def (with_type q)) (map (λ d. if same_def q d then with_type q else d) defs)

abbrev pub type_error : Str
type_error = codes "TypeError"

-- The body of the loop of `exec`. Without a definition the constructor of the worker throws.
unfoldable pub fetch_def :
    (ℕ → ProviderClass) → List ProviderDef → ProviderDef → Str ⊎ List ProxyData
unfolding get_def create_worker fetch_worker
fetch_def classes defs v = elim (get_def v defs) [
  | none ↦ inl type_error
  | some d ↦ elim (create_worker classes d) [ inl e ↦ inl e | inr w ↦ fetch_worker w ]
]

-- The loop of `exec`, with the proxies so far.
unfoldable pub fetch_each :
    (Str → Bool)
    → (ℕ → ProviderClass)
    → List ProviderDef
    → List Str
    → List ProviderDef
    → List ProxyData
    → Str ⊎ List ProxyData
unfolding fetch_def is_valid
fetch_each ip_regex classes defs wanted [] proxies = inr proxies
fetch_each ip_regex classes defs wanted (v ∷ vs) proxies = elim (is_selected wanted v) [
  | false ↦ fetch_each ip_regex classes defs wanted vs proxies
  | true ↦ elim (fetch_def classes defs v) [
    | inl e ↦ inl e
    | inr p ↦ fetch_each ip_regex classes defs wanted vs (proxies ++ filter (is_valid ip_regex) p)
  ]
]

-- The task that `exec` adds: the proxies to validate, and whether to store them.
pub record ValidateTask : Type 0 where
  pub proxies : List ProxyData
  pub store : Bool

abbrev pub validate_task : Bool → Bool → List ProxyData → Option ValidateTask
validate_task validate store ps =
    if validate then some (record { proxies = ps; store = store }) else none

-- `exec`: the proxies and the task that is added.
unfoldable pub exec_fetch :
    (Str → Bool)
    → (ℕ → ProviderClass)
    → List ProviderDef
    → Str
    → Str ⊎ List Str
    → (validate store : Bool) → Str ⊎ (List ProxyData × Option ValidateTask)
unfolding fetch_each find_all read_variants
exec_fetch ip_regex classes defs provider variants validate store =
    elim (fetch_each ip_regex classes defs (read_variants variants)
      (find_all (some provider) none defs) []) [
        | inl e ↦ inl e
        | inr ps ↦ inr (ps, validate_task validate store ps)
      ]
