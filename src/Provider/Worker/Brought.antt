-- ===== src/Provider/Worker/Brought.antt =====
-- `exec` of ProxyFetchTask.ts: what the task brings.
use node_proxybroker.Prelude.{
  ℕ, ◌≡◌, refl, sym, ap, Bool, true, ◌⊎◌, inl, inr, Option, none, some, List, [], ◌∷◌, ◌++◌, map,
  Str, All, All-map, All-filter, append_assoc, append_nil, ◌∙◌, str_eq_iff, str_eq_refl, filter,
  any, Bool-cases, Option-cases, arith,
}
use node_proxybroker.Address.{ProxyData}
use node_proxybroker.Provider.{ProviderDef, find_all, is_selected, is_valid}
use node_proxybroker.Provider.Worker.{
  ProviderClass, same_def, with_type, get_def, fetch_def, fetch_each, exec_fetch, read_variants,
  ValidateTask, validate_task, create_worker, new_worker, initialize_worker, fetch_worker,
  select_variant,
}

-- The definition is one of the list.
abbrev pub IsIn : ProviderDef → List ProviderDef → Type 0
IsIn d defs = any (same_def d) defs ≡ true

same_def_self : (d : ProviderDef) → same_def d d ≡ true
unfolding same_def
same_def_self d = ground (arith, str_eq_refl d.name, str_eq_refl d.url, str_eq_refl d.type)

def-≡ :
    (q d : ProviderDef)
    → d.name ≡ q.name
    → d.url ≡ q.url
    → d.type ≡ q.type
    → d.clazz ≡ q.clazz
    → d ≡ q
def-≡ q d n u t c = cc

same_def-≡ : (q d : ProviderDef) → same_def q d ≡ true → d ≡ q
unfolding same_def
same_def-≡ q d e =
    def-≡ q d ((str_eq_iff d.name q.name).0 (ground (arith, e)))
      ((str_eq_iff d.url q.url).0 (ground (arith, e)))
      ((str_eq_iff d.type q.type).0 (ground (arith, e))) (ground (arith, e))

-- `get` finds a definition of the list, with its type written.
get_def-with_type :
    (q : ProviderDef) (defs : List ProviderDef) → IsIn q defs → get_def q defs ≡ some (with_type q)
unfolding get_def
get_def-with_type q [] e = ground (arith, e)
get_def-with_type q (d ∷ ds) e = elim (Bool-cases (same_def q d)) [
  | inl same ↦ rw (same, same_def_self (with_type q)) refl
  | inr other ↦ elim (Bool-cases (same_def (with_type q) d)) [
    | inl first ↦ rw (other, first) (ap some (same_def-≡ (with_type q) d first))
    | inr later ↦ rw (other, later) (get_def-with_type q ds (ground (arith, e, other)))
  ]
]

IsIn-cons : (d a : ProviderDef) (l : List ProviderDef) → IsIn d l → IsIn d (a ∷ l)
IsIn-cons d a l h = ground (arith, h)

All-IsIn : (l : List ProviderDef) → All (λ d. IsIn d l) l
All-IsIn [] = tt
All-IsIn (d ∷ ds) =
    (rw (same_def_self d) refl, All-map ds (λ a h. IsIn-cons a d ds h) (All-IsIn ds))

-- What an instance of a class brings for a definition: nothing is loaded after `prepare` has thrown.
abbrev pub brought_by : ProviderClass → ProviderDef → Str ⊎ List ProxyData
brought_by c d = elim c.prepare [
  | none ↦ c.load (some d)
  | some e ↦ elim e [ none ↦ c.load (some d) | some m ↦ inl m ]
]

abbrev pub only_valid : (Str → Bool) → Str ⊎ List ProxyData → Str ⊎ List ProxyData
only_valid ip_regex (inl e) = inl e
only_valid ip_regex (inr ps) = inr (filter (is_valid ip_regex) ps)

-- All the results one after the other, or the first error.
abbrev pub gather : List (Str ⊎ List ProxyData) → Str ⊎ List ProxyData
gather [] = inr []
gather (inl e ∷ rs) = inl e
gather (inr p ∷ rs) = elim (gather rs) [ inl e ↦ inl e | inr ps ↦ inr (p ++ ps) ]

abbrev pub with_task :
    (validate store : Bool) → Str ⊎ List ProxyData → Str ⊎ (List ProxyData × Option ValidateTask)
with_task validate store (inl e) = inl e
with_task validate store (inr ps) = inr (ps, validate_task validate store ps)

abbrev after : List ProxyData → Str ⊎ List ProxyData → Str ⊎ List ProxyData
after acc (inl e) = inl e
after acc (inr ps) = inr (acc ++ ps)

after-none : (g : Str ⊎ List ProxyData) → after [] g ≡ g
after-none (inl e) = refl
after-none (inr ps) = refl

after-append :
    (acc q : List ProxyData) (g : Str ⊎ List ProxyData)
    → after (acc ++ q) g ≡ after acc (elim g [ inl e ↦ inl e | inr ps ↦ inr (q ++ ps) ])
after-append acc q (inl e) = refl
after-append acc q (inr ps) = ap inr (append_assoc acc q ps)

Sum-cases :
    (r : Str ⊎ List ProxyData) → ((e : Str) × (r ≡ inl e)) ⊎ ((p : List ProxyData) × (r ≡ inr p))
Sum-cases (inl e) = inl (e, refl)
Sum-cases (inr p) = inr (p, refl)

module _ (ip_regex : Str → Bool) (classes : ℕ → ProviderClass) (defs : List ProviderDef) where
  -- What a definition of the list brings, by the class that it names.
  abbrev pub brought : ProviderDef → Str ⊎ List ProxyData
  brought d = only_valid ip_regex (brought_by (classes (with_type d).clazz) (with_type d))

  fetch_def-brought_by :
      (v : ProviderDef)
      → IsIn v defs
      → fetch_def classes defs v ≡ brought_by (classes (with_type v).clazz) (with_type v)
  unfolding fetch_def create_worker new_worker initialize_worker fetch_worker select_variant
  fetch_def-brought_by v h =
      rw (get_def-with_type v defs h, fetch_def)
        (elim (Option-cases (classes (with_type v).clazz).prepare) [
          | inl n ↦ rw n refl
          | inr (none, s) ↦ rw s refl
          | inr (some m, s) ↦ rw s refl
        ])

  fetch_each-gather :
      (wanted : List Str) (vs : List ProviderDef) (acc : List ProxyData)
      → All (λ d. IsIn d defs) vs
      → fetch_each ip_regex classes defs wanted vs acc
        ≡ after acc (gather (map brought (filter (is_selected wanted) vs)))
  unfolding fetch_each
  fetch_each-gather wanted [] acc h = ap inr (sym (append_nil acc))
  fetch_each-gather wanted (v ∷ vs) acc h = elim (Bool-cases (is_selected wanted v)) [
    | inr out ↦ rw (out, fetch_each) (fetch_each-gather wanted vs acc h.1)
    | inl chosen ↦ elim (Sum-cases (fetch_def classes defs v)) [
      | inl (e, k) ↦ rw (chosen, fetch_each, k, sym (fetch_def-brought_by v h.0) ∙ k) refl
      | inr (p, k) ↦
          rw (chosen, fetch_each, k, sym (fetch_def-brought_by v h.0) ∙ k)
            (fetch_each-gather wanted vs (acc ++ filter (is_valid ip_regex) p) h.1
              ∙ after-append acc (filter (is_valid ip_regex) p)
                  (gather (map brought (filter (is_selected wanted) vs))))
    ]
  ]

  -- `exec` gives what the definitions of the provider whose types are asked for bring, one after the
  -- other and without what is not valid, each by the class that it names; nothing is loaded after
  -- `prepare` has thrown. The first exception ends it, and nothing of what was brought before is given.
  -- If that is asked for, a task is added that validates what is given.
  pub exec_fetch-gather :
      (provider : Str) (variants : Str ⊎ List Str) (validate store : Bool)
      → exec_fetch ip_regex classes defs provider variants validate store
        ≡ with_task validate store (
            gather (
              map brought (
                filter
                  (is_selected (read_variants variants))
                  (find_all (some provider) none defs))))
  unfolding exec_fetch
  exec_fetch-gather provider variants validate store = ap (with_task validate store) (
      fetch_each-gather (read_variants variants) (find_all (some provider) none defs) []
        (All-filter (λ d. IsIn d defs) _ defs (All-IsIn defs))
      ∙ after-none _)
