-- ===== src/Judge/Validation/Interleaved.antt =====
-- `Judge.validate`: what is left when the tests have ended, in whatever order.
use mathlib.Core.Path.{subst}
use mathlib.Core.List.{append_assoc, map-append}
use node_proxybroker.Prelude.{
  ℕ, ◌+◌, ◌≡◌, refl, sym, ap, ◌∙◌, Bool, true, false, Option, none, some, List, [], ◌∷◌, ◌++◌, map,
  Str, length, all, is_some, arith, Option-cases, inl, inr, append_nil,
}
use node_proxybroker.Entities.{ProtocolType}
use node_proxybroker.Judge.Service.{
  Judge, cached, delete, add_to_cache, remove_from_cache, create_request, variants,
}
use node_proxybroker.Judge.Service.Cache.{
  Single, IsCounted, delete-absent, remove_from_cache-cache, remove_from_cache-IsCounted,
  add_to_cache-IsCounted,
}
use node_proxybroker.Judge.Validation.{
  Proxy, Validation, new_request, new_test, begin_test, end_test, begin_all, end_all, validate,
}
use node_proxybroker.Judge.Validation.Entries.{
  put-absent, delete-append, Single-apart, Single-right, entries, entries-append, entries-delete,
  cached-entries, pairs, pairs-append, pair_of, pairs-delete, next_id,
}

module _ {ℓ κ} {R : Type ℓ} {X : Type κ} where
  -- No test gets an id that is in use.
  abbrev pub IsFresh : Proxy R → ℕ → List (ProtocolType × ProtocolType) → Validation R X → Type 0
  IsFresh p now [] v = Unit
  IsFresh p now (ft ∷ fts) v =
      (is_some (cached (next_id p now ft v.judge) v.judge.cache) ≡ false)
      × IsFresh p now fts (begin_test p now ft v)

-- No test ends with an exception of `result`.
abbrev pub all_result {κ} : {X : Type κ} → List (Str × Option X) → Bool
all_result = all (λ e. is_some e.1)

module _ {ℓ κ} {R : Type ℓ} {X : Type κ} (base : List (Str × R)) where
  -- The cache holds what was there before, then the requests of the tests that run.
  record Kept (v : Validation R X) : Type (ℓ ⊔ κ) where
    cache_eq : v.judge.cache ≡ base ++ entries v.running
    counted : IsCounted v.judge

  begin_test-Kept :
      (p : Proxy R) (now : ℕ) (ft : ProtocolType × ProtocolType) (v : Validation R X)
      → is_some (cached (next_id p now ft v.judge) v.judge.cache) ≡ false
      → Kept v
      → Kept (begin_test p now ft v)
  unfolding begin_test new_request create_request add_to_cache new_test
  begin_test-Kept p now (from, to) v fresh i =
      let id = next_id p now (from, to) v.judge in
      let test = new_test p id from to in
      record {
        cache_eq =
            put-absent id test.request v.judge.cache fresh
            ∙ ap (λ c. c ++ ((id, test.request) ∷ [])) i.cache_eq
            ∙ append_assoc base (entries v.running) ((id, test.request) ∷ [])
            ∙ ap (◌++◌ base) (sym (entries-append v.running ((id, test) ∷ [])));
        counted =
            add_to_cache-IsCounted id test.request (record v.judge { inc = v.judge.inc + 1 }) fresh
              i.counted;
      }

  removed_entries :
      (id : Str) (v : Validation R X)
      → Kept v
      → is_some (cached id (entries v.running)) ≡ true
      → (remove_from_cache id v.judge).cache ≡ base ++ entries (delete id v.running)
  removed_entries id v i there =
      let apart =
        Single-apart id base (entries v.running) (subst Single i.cache_eq i.counted.1) there in
      remove_from_cache-cache id v.judge
      ∙ ap (delete id) i.cache_eq
      ∙ delete-append id base (entries v.running)
      ∙ ap (λ c. c ++ delete id (entries v.running)) (delete-absent id base apart)
      ∙ ap (◌++◌ base) (sym (entries-delete id v.running))

  end_test-Kept : (id : Str) (x : X) (v : Validation R X) → Kept v → Kept (end_test id (some x) v)
  unfolding end_test
  end_test-Kept id x v i = elim (Option-cases (cached id v.running)) [
    | inl e ↦ rw (e, end_test) i
    | inr (t, e) ↦
        rw (e, end_test)
          (record {
            cache_eq = removed_entries id v i (cached-entries id v.running ∙ ap is_some e);
            counted = remove_from_cache-IsCounted id v.judge i.counted;
          })
  ]

  -- The results and the running tests, by their pair of protocols.
  abbrev tally : (ProtocolType × ProtocolType) → Validation R X → ℕ
  tally q v =
      pairs q (map (λ (r : (ProtocolType × ProtocolType) × X). r.0) v.results)
      + pairs q (map pair_of v.running)

  tally-end_test :
      (q : ProtocolType × ProtocolType) (id : Str) (x : X) (v : Validation R X)
      → Kept v
      → tally q (end_test id (some x) v) ≡ tally q v
  unfolding end_test
  tally-end_test q id x v i = elim (Option-cases (cached id v.running)) [
    | inl e ↦ rw (e, end_test) refl
    | inr (t, e) ↦
        let single = Single-right base (entries v.running) (subst Single i.cache_eq i.counted.1) in
        rw (e, end_test)
          (omega (
            arith,
            pairs-delete q id v.running t single e,
            ap (pairs q) (
                map-append (λ (r : (ProtocolType × ProtocolType) × X). r.0) v.results
                  (((t.from, t.to), x) ∷ [])),
            pairs-append q (map (λ (r : (ProtocolType × ProtocolType) × X). r.0) v.results)
                ((t.from, t.to) ∷ []),
          ))
  ]

  tally-begin_test :
      (q : ProtocolType × ProtocolType) (p : Proxy R) (now : ℕ) (ft : ProtocolType × ProtocolType)
      (v : Validation R X)
      → tally q (begin_test p now ft v) ≡ tally q v + pairs q (ft ∷ [])
  unfolding begin_test new_test
  tally-begin_test q p now ft v =
      let id = next_id p now ft v.judge in
      omega (
        arith,
        ap (pairs q) (map-append pair_of v.running ((id, new_test p id ft.0 ft.1) ∷ [])),
        pairs-append q (map pair_of v.running) (ft ∷ []),
      )

  begin_all-Kept :
      (p : Proxy R) (now : ℕ) (fts : List (ProtocolType × ProtocolType)) (v : Validation R X)
      → IsFresh p now fts v
      → Kept v
      → Kept (begin_all p now fts v)
  unfolding begin_all
  begin_all-Kept p now [] v f i = i
  begin_all-Kept p now (ft ∷ fts) v f i =
      begin_all-Kept p now fts (begin_test p now ft v) f.1 (begin_test-Kept p now ft v f.0 i)

  tally-begin_all :
      (q : ProtocolType × ProtocolType) (p : Proxy R) (now : ℕ)
      (fts : List (ProtocolType × ProtocolType)) (v : Validation R X)
      → tally q (begin_all p now fts v) ≡ tally q v + pairs q fts
  unfolding begin_all
  tally-begin_all q p now [] v = omega arith
  tally-begin_all q p now (ft ∷ fts) v =
      omega
        (arith, tally-begin_all q p now fts (begin_test p now ft v), tally-begin_test q p now ft v)

  end_all-Kept :
      (q : ProtocolType × ProtocolType) (es : List (Str × Option X)) (v : Validation R X)
      → all_result es ≡ true
      → Kept v
      → Kept (end_all es v) × (tally q (end_all es v) ≡ tally q v)
  unfolding end_all
  end_all-Kept q [] v h i = (i, refl)
  end_all-Kept q ((id, none) ∷ es) v h i = absurd (ground (arith, h))
  end_all-Kept q ((id, some x) ∷ es) v h i =
      let (k, e) = end_all-Kept q es (end_test id (some x) v) h (end_test-Kept id x v i) in
      (k, e ∙ tally-end_test q id x v i)

-- A validation whose tests have all ended, in whatever order and none by an exception, leaves the
-- cache of the judge as it found it, entry by entry, with the same `cacheSum`, and has exactly one
-- result for each pair of protocols that it was to test; provided that no test got an id that was in
-- use.
pub validate-ended {ℓ κ} :
    {R : Type ℓ} {X : Type κ} (p : Proxy R) (now : ℕ) (use_http use_https : Bool)
    (ends : List (Str × Option X)) (j : Judge R) (q : ProtocolType × ProtocolType)
    → IsCounted j
    → IsFresh {X = X} p now
        (variants use_http use_https)
        (record { judge = j; running = []; results = [] })
    → all_result ends ≡ true
    → (validate p now use_http use_https ends j).running ≡ []
    → ((validate p now use_http use_https ends j).judge.cache ≡ j.cache)
      × ((validate p now use_http use_https ends j).judge.cache_sum ≡ j.cache_sum)
      × (pairs q (
            map
              (λ (r : (ProtocolType × ProtocolType) × X). r.0)
              (validate p now use_http use_https ends j).results)
          ≡ pairs q (variants use_http use_https))
unfolding validate
validate-ended {R} {X} p now use_http use_https ends j q counted fresh ok over =
    let start : Validation R X = record { judge = j; running = []; results = [] } in
    let kept =
      begin_all-Kept j.cache p now (variants use_http use_https) start fresh
        (record { cache_eq = sym (append_nil j.cache); counted = counted }) in
    let (i, e) =
      end_all-Kept j.cache q ends (begin_all p now (variants use_http use_https) start) ok kept in
    let same : (end_all ends (begin_all p now (variants use_http use_https) start)).judge.cache
        ≡ j.cache =
      i.cache_eq ∙ ap (λ r. j.cache ++ entries r) over ∙ append_nil j.cache in
    (
      same,
      i.counted.0 ∙ ap length same ∙ sym counted.0,
      omega (
        arith,
        e,
        tally-begin_all j.cache q p now (variants use_http use_https) start,
        ap (λ r. pairs q (map pair_of r)) over,
      ),
    )
