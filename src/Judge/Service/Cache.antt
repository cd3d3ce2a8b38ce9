-- ===== src/Judge/Service/Cache.antt =====
-- `Judge`: the requests that it keeps, and which calls are answered.
use node_proxybroker.Prelude.{
  str_sym, suc, ◌≡◌, ◌∙◌, ap, refl, Bool, true, false, List, [], ◌∷◌, Str, str_eq, str_eq_iff,
  str_eq_refl, length, is_some, any, all, arith, if◌then◌else◌, Bool-cases, inl, inr,
}
use node_proxybroker.Judge.Service.{
  Judge, cached, put, delete, add_to_cache, remove_from_cache, remove_all, keys, wakeup, pending,
  created, removed, woken, rested, serve,
}

module _ {ℓ} {R : Type ℓ} where
  -- No id is cached twice.
  abbrev pub Single : List (Str × R) → Type 0
  Single [] = Unit
  Single ((k, r) ∷ c) = (is_some (cached k c) ≡ false) × Single c

  -- `cacheSum` counts the requests, and no id is cached twice.
  abbrev pub IsCounted : Judge R → Type 0
  IsCounted j = (j.cache_sum ≡ length j.cache) × Single j.cache

  -- What happens to the service, with ids that are not in use when they are given.
  pub data Reaches : Judge R → Judge R → Type ℓ where
    here : {j : Judge R} → Reaches j j
    creates :
        {i j : Judge R} (id : Str) (r : R)
        → is_some (cached id i.cache) ≡ false
        → Reaches (serve i (created id r)) j
        → Reaches i j
    removes : {i j : Judge R} (id : Str) → Reaches (serve i (removed id)) j → Reaches i j
    wakes : {i j : Judge R} (starts : Bool) → Reaches (serve i (woken starts)) j → Reaches i j
    rests : {i j : Judge R} (stops : Bool) → Reaches (serve i (rested stops)) j → Reaches i j

  pub cached_eq : (k j : Str) (c : List (Str × R)) → str_eq k j ≡ true → cached k c ≡ cached j c
  cached_eq k j c e = ap (λ s. cached s c) ((str_eq_iff k j).0 e)

  put-length :
      (k : Str) (r : R) (c : List (Str × R))
      → is_some (cached k c) ≡ false
      → length (put k r c) ≡ suc (length c)
  unfolding put cached
  put-length k r [] e = refl
  put-length k r ((j, s) ∷ c) e = ground (arith, put-length k r c)

  put-cached :
      (k i : Str) (r : R) (c : List (Str × R))
      → str_eq k i ≡ false
      → cached i (put k r c) ≡ cached i c
  unfolding put cached
  put-cached k i r [] e = ground arith
  put-cached k i r ((j, s) ∷ c) e = ground (arith, put-cached k i r c, same k i j)
    where
      same : (k i j : Str) → str_eq j k ≡ true → str_eq j i ≡ str_eq k i
      same k i j e = ap (λ s. str_eq s i) ((str_eq_iff j k).0 e)

  pub put-Single :
      (k : Str) (r : R) (c : List (Str × R))
      → is_some (cached k c) ≡ false
      → Single c
      → Single (put k r c)
  unfolding put cached
  put-Single k r [] e h = (refl, tt)
  put-Single k r ((j, s) ∷ c) e h = elim (Bool-cases (str_eq j k)) [
    | inl same ↦ ground (arith, same)
    | inr other ↦
        rw (other, put)
          (
            ground (arith, h.0, other, put-cached k j r c, str_sym k j),
            put-Single k r c (ground (arith, other)) h.1,
          )
  ]

  pub delete-absent : (k : Str) (c : List (Str × R)) → is_some (cached k c) ≡ false → delete k c ≡ c
  unfolding delete cached
  delete-absent k [] e = refl
  delete-absent k ((j, s) ∷ c) e = ground (arith, delete-absent k c)

  pub delete-length :
      (k : Str) (c : List (Str × R))
      → Single c
      → is_some (cached k c) ≡ true
      → suc (length (delete k c)) ≡ length c
  unfolding delete cached
  delete-length k [] h e = ground arith
  delete-length k ((j, s) ∷ c) h e =
      ground (arith, delete-length k c, h.0, h.1, delete-absent k c, cached_eq j k c)

  pub delete-cached :
      (k i : Str) (c : List (Str × R))
      → is_some (cached i c) ≡ false
      → is_some (cached i (delete k c)) ≡ false
  unfolding delete cached
  delete-cached k i [] e = e
  delete-cached k i ((j, s) ∷ c) e = ground (arith, delete-cached k i c)

  pub delete-Single : (k : Str) (c : List (Str × R)) → Single c → Single (delete k c)
  unfolding delete
  delete-Single k [] h = tt
  delete-Single k ((j, s) ∷ c) h = elim (Bool-cases (str_eq j k)) [
    | inl same ↦ rw (same, delete) (delete-Single k c h.1)
    | inr other ↦ rw (other, delete) (delete-cached k j c h.0, delete-Single k c h.1)
  ]

  pub add_to_cache-IsCounted :
      (id : Str) (r : R) (j : Judge R)
      → is_some (cached id j.cache) ≡ false
      → IsCounted j
      → IsCounted (add_to_cache id r j)
  unfolding add_to_cache
  add_to_cache-IsCounted id r j e h =
      (omega (arith, h.0, put-length id r j.cache e), put-Single id r j.cache e h.1)

  pub remove_from_cache-IsCounted :
      (id : Str) (j : Judge R) → IsCounted j → IsCounted (remove_from_cache id j)
  unfolding remove_from_cache
  remove_from_cache-IsCounted id j h = elim (Bool-cases (is_some (cached id j.cache))) [
    | inl there ↦
        rw (there, remove_from_cache)
          (omega (arith, h.0, delete-length id j.cache h.1 there), delete-Single id j.cache h.1)
    | inr absent ↦ rw (absent, remove_from_cache) h
  ]

  remove_all-IsCounted : (ks : List Str) (j : Judge R) → IsCounted j → IsCounted (remove_all ks j)
  unfolding remove_all
  remove_all-IsCounted [] j h = h
  remove_all-IsCounted (k ∷ ks) j h = remove_all-IsCounted ks _ (remove_from_cache-IsCounted k j h)

  pending-IsCounted : (stops : Bool) (j : Judge R) → IsCounted j → IsCounted (pending stops j).1
  unfolding pending
  pending-IsCounted stops j h =
      elim j.enabled
        as (λ b.
          IsCounted
            (if◌then◌else◌ {A = Bool × Judge R} b
              (stops, record (remove_all (keys j.cache) j) { enabled = false }) (true, j)).1) [
                | true ↦ remove_all-IsCounted (keys j.cache) j h
                | false ↦ h
              ]

  pub remove_from_cache-cache :
      (k : Str) (j : Judge R) → (remove_from_cache k j).cache ≡ delete k j.cache
  unfolding remove_from_cache
  remove_from_cache-cache k j = ground (arith, delete-absent k j.cache)

  abbrev covered : List Str → List (Str × R) → Bool
  covered ks c = all (λ p. any (str_eq p.0) ks) c

  delete-covered :
      (k : Str) (ks : List Str) (c : List (Str × R))
      → covered (k ∷ ks) c ≡ true
      → covered ks (delete k c) ≡ true
  unfolding delete
  delete-covered k ks [] e = refl
  delete-covered k ks ((j, s) ∷ c) e = ground (arith, delete-covered k ks c)

  remove_all-covered :
      (ks : List Str) (j : Judge R) → covered ks j.cache ≡ true → (remove_all ks j).cache ≡ []
  unfolding remove_all
  remove_all-covered [] j e = nothing j.cache e
    where
      nothing : (c : List (Str × R)) → covered [] c ≡ true → c ≡ []
      nothing [] e = refl
      nothing (p ∷ c) e = ground arith
  remove_all-covered (k ∷ ks) j e =
      remove_all-covered ks _
        (ap (covered ks) (remove_from_cache-cache k j) ∙ delete-covered k ks j.cache e)

  covered-more :
      (k : Str) (ks : List Str) (c : List (Str × R))
      → covered ks c ≡ true
      → covered (k ∷ ks) c ≡ true
  covered-more k ks [] e = refl
  covered-more k ks (p ∷ c) e = ground (arith, covered-more k ks c)

  covered-keys : (c : List (Str × R)) → covered (keys c) c ≡ true
  covered-keys [] = refl
  covered-keys ((k, r) ∷ c) =
      ground (arith, str_eq_refl k, covered-more k (keys c) c (covered-keys c))

  -- `pending` on a judge that is awake leaves no request behind and the judge disabled, even if the
  -- servers do not stop, and `cacheSum` is 0 then.
  pub pending-empty :
      (stops : Bool) (j : Judge R)
      → j.enabled ≡ true
      → IsCounted j
      → ((pending stops j).1.cache ≡ [])
        × ((pending stops j).1.enabled ≡ false)
        × ((pending stops j).1.cache_sum ≡ 0)
  pending-empty stops j e h =
      let gone : (pending stops j).1.cache ≡ [] =
        unfold pending in
        ground (arith, e, remove_all-covered (keys j.cache) j (covered-keys j.cache)) in
      (gone, unfold pending in ground (arith, e), (pending-IsCounted stops j h).0 ∙ ap length gone)

  -- After a start that failed the judge counts as awake: the next `wakeup` reports success, whether or
  -- not the servers would start.
  pub wakeup-wakeup :
      (starts : Bool) (j : Judge R)
      → j.enabled ≡ false
      → ((wakeup false j).0 ≡ false) × ((wakeup starts (wakeup false j).1).0 ≡ true)
  unfolding wakeup
  wakeup-wakeup starts j e = ground (arith, e)
