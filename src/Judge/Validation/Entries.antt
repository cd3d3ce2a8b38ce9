-- ===== src/Judge/Validation/Entries.antt =====
-- `Judge.validate`: the cache as a list of entries, and the tests by their protocols.
use node_proxybroker.Prelude.{
  ℕ, ◌+◌, ◌≡◌, refl, sym, ap, ◌∙◌, true, false, ◌&&◌, some, List, [], ◌∷◌, ◌++◌, map, Str, str_eq,
  str_eq_iff, is_some, if◌then◌else◌, arith, Bool-cases, inl, inr,
}
use node_proxybroker.Entities.{ProtocolType, same_protocol}
use node_proxybroker.Judge.Service.{Judge, cached, put, delete}
use node_proxybroker.Judge.Service.Cache.{Single, delete-absent, cached_eq}
use node_proxybroker.Judge.Validation.{Proxy, Test, new_request}

module _ {ℓ} {R : Type ℓ} where
  pub put-absent :
      (k : Str) (r : R) (c : List (Str × R))
      → is_some (cached k c) ≡ false
      → put k r c ≡ c ++ ((k, r) ∷ [])
  unfolding put cached
  put-absent k r [] e = refl
  put-absent k r ((j, s) ∷ c) e = ground (arith, e, put-absent k r c)

  pub delete-append :
      (k : Str) (a b : List (Str × R)) → delete k (a ++ b) ≡ delete k a ++ delete k b
  unfolding delete
  delete-append k [] b = refl
  delete-append k ((j, s) ∷ a) b = ground (arith, delete-append k a b)

  cached-append :
      (k : Str) (a b : List (Str × R))
      → is_some (cached k b) ≡ true
      → is_some (cached k (a ++ b)) ≡ true
  unfolding cached
  cached-append k [] b h = h
  cached-append k ((j, s) ∷ a) b h = ground (arith, cached-append k a b h)

  -- What stands in the second part does not stand in the first.
  pub Single-apart :
      (k : Str) (a b : List (Str × R))
      → Single (a ++ b)
      → is_some (cached k b) ≡ true
      → is_some (cached k a) ≡ false
  unfolding cached
  Single-apart k [] b h e = refl
  Single-apart k ((j, s) ∷ a) b h e =
      ground (arith, h.0, cached-append k a b e, cached_eq j k (a ++ b), Single-apart k a b h.1 e)

  pub Single-right : (a b : List (Str × R)) → Single (a ++ b) → Single b
  Single-right [] b h = h
  Single-right (p ∷ a) b h = Single-right a b h.1

  -- What a test keeps in the cache.
  abbrev pub entries : List (Str × Test R) → List (Str × R)
  entries = map (λ (p : Str × Test R). (p.0, p.1.request))

  pub entries-append : (a b : List (Str × Test R)) → entries (a ++ b) ≡ entries a ++ entries b
  entries-append [] b = refl
  entries-append (p ∷ a) b = ap (◌∷◌ (p.0, p.1.request)) (entries-append a b)

  pub entries-delete :
      (k : Str) (ts : List (Str × Test R)) → entries (delete k ts) ≡ delete k (entries ts)
  unfolding delete
  entries-delete k [] = refl
  entries-delete k ((j, t) ∷ ts) = ground (arith, entries-delete k ts)

  pub cached-entries :
      (k : Str) (ts : List (Str × Test R)) → is_some (cached k (entries ts)) ≡ is_some (cached k ts)
  unfolding cached
  cached-entries k [] = refl
  cached-entries k ((j, t) ∷ ts) = ground (arith, cached-entries k ts)

-- How often a pair of protocols is in a list.
abbrev pub pairs : (ProtocolType × ProtocolType) → List (ProtocolType × ProtocolType) → ℕ
pairs q [] = 0
pairs q (x ∷ xs) = (if same_protocol x.0 q.0 && same_protocol x.1 q.1 then 1 else 0) + pairs q xs

pub pairs-append :
    (q : ProtocolType × ProtocolType) (xs ys : List (ProtocolType × ProtocolType))
    → pairs q (xs ++ ys) ≡ pairs q xs + pairs q ys
pairs-append q [] ys = omega arith
pairs-append q (x ∷ xs) ys = omega (arith, pairs-append q xs ys)

module _ {ℓ} {R : Type ℓ} where
  abbrev pub pair_of : Str × Test R → ProtocolType × ProtocolType
  pair_of p = (p.1.from, p.1.to)

  -- Taking a test out takes out its pair, once.
  pub pairs-delete :
      (q : ProtocolType × ProtocolType) (k : Str) (ts : List (Str × Test R)) (t : Test R)
      → Single (entries ts)
      → cached k ts ≡ some t
      → pairs q (map pair_of ts)
        ≡ pairs q (map pair_of (delete k ts)) + pairs q ((t.from, t.to) ∷ [])
  unfolding delete cached
  pairs-delete q k [] t h e = absurd (ground (arith, e))
  pairs-delete q k ((j, s) ∷ ts) t h e = elim (Bool-cases (str_eq j k)) [
    | inl same ↦
        let absent : is_some (cached k ts) ≡ false =
          ap (λ x. is_some (cached x ts)) (sym ((str_eq_iff j k).0 same))
          ∙ sym (cached-entries j ts)
          ∙ h.0 in
        let first : s ≡ t = ground (arith, e, same) in
        rw same (
          omega (
            arith,
            ap (λ x. pairs q (map pair_of x)) (delete-absent k ts absent),
            ap (λ (x : Test R). pairs q ((x.from, x.to) ∷ [])) first,
          ))
    | inr other ↦ rw other (omega (arith, pairs-delete q k ts t h.1 (ground (arith, e, other))))
  ]

  -- The id that the next test gets.
  abbrev pub next_id : Proxy R → ℕ → ProtocolType × ProtocolType → Judge R → Str
  next_id p now ft j = (new_request p now ft.0 ft.1 j).0
