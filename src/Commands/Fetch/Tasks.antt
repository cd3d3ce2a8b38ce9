-- ===== src/Commands/Fetch/Tasks.antt =====
-- `ProxyFetchCommand`: each variant that is chosen is asked for once.
use node_proxybroker.Prelude.{
  ℕ, ◌+◌, ◌*◌, ◌≡◌, refl, ap, ◌∙◌, Bool, true, false, not, ◌&&◌, List, [], ◌∷◌, map, Str, str_eq,
  str_eq_iff, filter, any, if◌then◌else◌, arith, inl, inr, Bool-cases,
}
use node_proxybroker.Provider.{ProviderDef}
use node_proxybroker.Commands.Output.{uniq}
use node_proxybroker.Commands.Fetch.{Task, task_for, fetch_tasks, has_name, type_of}

abbrev one_if : Bool → ℕ
one_if true = 1
one_if false = 0

-- How often a text is in a list.
abbrev pub occurrences : Str → List Str → ℕ
occurrences t [] = 0
occurrences t (x ∷ xs) = one_if (str_eq x t) + occurrences t xs

-- How often a task asks the provider `n` for the variant `t`.
abbrev pub asked : Str → Str → List Task → ℕ
asked n t [] = 0
asked n t (k ∷ ks) = (if str_eq k.provider n then occurrences t k.variants else 0) + asked n t ks

-- How often the variant `t` of the provider `n` is in a list.
abbrev pub listed : Str → Str → List ProviderDef → ℕ
listed n t [] = 0
listed n t (d ∷ ds) = one_if (str_eq d.name n && str_eq d.type t) + listed n t ds

occurrences-filter :
    (n t : Str) (ds : List ProviderDef)
    → occurrences t (map type_of (filter (has_name n) ds)) ≡ listed n t ds
occurrences-filter n t [] = refl
occurrences-filter n t (d ∷ ds) = ground (arith, occurrences-filter n t ds)

same_listed :
    (m n t : Str) (ds : List ProviderDef) → str_eq m n ≡ true → listed m t ds ≡ listed n t ds
same_listed m n t ds e = ap (λ x. listed x t ds) ((str_eq_iff m n).0 e)

asked-map :
    (n t : Str) (defs : List ProviderDef) (ns : List Str)
    → asked n t (map (task_for defs) ns) ≡ occurrences n ns * listed n t defs
unfolding task_for
asked-map n t defs [] = omega arith
asked-map n t defs (m ∷ ns) = elim (Bool-cases (str_eq m n)) [
  | inl e ↦
      rw e (
        omega (arith, occurrences-filter m t defs, same_listed m n t defs e, asked-map n t defs ns))
  | inr e ↦ rw e (omega (arith, asked-map n t defs ns))
]

occurrences-filter_other :
    (n x : Str) (xs : List Str)
    → str_eq x n ≡ false
    → occurrences n (filter (λ y. not (str_eq x y)) xs) ≡ occurrences n xs
occurrences-filter_other n x [] e = refl
occurrences-filter_other n x (y ∷ xs) e =
    ground
      (arith, e, occurrences-filter_other n x xs e, str_eq_iff x y, str_eq_iff x n, str_eq_iff y n)

occurrences-filter_same :
    (n x : Str) (xs : List Str)
    → str_eq x n ≡ true
    → occurrences n (filter (λ y. not (str_eq x y)) xs) ≡ 0
occurrences-filter_same n x [] e = refl
occurrences-filter_same n x (y ∷ xs) e =
    ground
      (arith, e, occurrences-filter_same n x xs e, str_eq_iff x y, str_eq_iff x n, str_eq_iff y n)

-- A name stays once.
occurrences-uniq :
    (n : Str) (xs : List Str) → occurrences n (uniq xs) ≡ one_if (any (λ x. str_eq x n) xs)
unfolding uniq
occurrences-uniq n [] = refl
occurrences-uniq n (x ∷ xs) = elim (Bool-cases (str_eq x n)) [
  | inl e ↦ ground (arith, e, occurrences-filter_same n x (uniq xs) e)
  | inr e ↦ ground (arith, e, occurrences-filter_other n x (uniq xs) e, occurrences-uniq n xs)
]

listed-unknown :
    (n t : Str) (ds : List ProviderDef)
    → any (λ x. str_eq x n) (map (λ (d : ProviderDef). d.name) ds) ≡ false
    → listed n t ds ≡ 0
listed-unknown n t [] h = refl
listed-unknown n t (d ∷ ds) h = ground (arith, h, listed-unknown n t ds)

-- For any variants that are chosen, the tasks ask each provider for each of its variants as often as
-- it was chosen, and for no other.
pub asked-fetch_tasks :
    (defs : List ProviderDef) (n t : Str) → asked n t (fetch_tasks defs) ≡ listed n t defs
unfolding fetch_tasks
asked-fetch_tasks defs n t =
    asked-map n t defs (uniq (map (λ (d : ProviderDef). d.name) defs))
    ∙ ap (λ k. k * listed n t defs) (occurrences-uniq n (map (λ (d : ProviderDef). d.name) defs))
    ∙ elim (Bool-cases (any (λ x. str_eq x n) (map (λ (d : ProviderDef). d.name) defs))) [
      | inl e ↦ ground (arith, e)
      | inr e ↦ ground (arith, e, listed-unknown n t defs e)
    ]

providers-map :
    (defs : List ProviderDef) (ns : List Str)
    → map (λ (k : Task). k.provider) (map (task_for defs) ns) ≡ ns
unfolding task_for
providers-map defs [] = refl
providers-map defs (n ∷ ns) = ap (◌∷◌ n) (providers-map defs ns)

any-name :
    (n : Str) (ds : List ProviderDef)
    → any (λ x. str_eq x n) (map (λ (d : ProviderDef). d.name) ds) ≡ any (has_name n) ds
any-name n [] = refl
any-name n (d ∷ ds) = ground (arith, any-name n ds)

-- No two tasks are for one provider.
pub providers-fetch_tasks :
    (defs : List ProviderDef) (n : Str)
    → occurrences n (map (λ (k : Task). k.provider) (fetch_tasks defs))
      ≡ one_if (any (has_name n) defs)
unfolding fetch_tasks task_for
providers-fetch_tasks defs n =
    ap (occurrences n) (providers-map defs (uniq (map (λ (d : ProviderDef). d.name) defs)))
    ∙ occurrences-uniq n (map (λ (d : ProviderDef). d.name) defs)
    ∙ ap one_if (any-name n defs)
