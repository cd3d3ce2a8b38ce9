-- ===== src/Judge/Level/Detect.antt =====
-- src/libs/judge/LevelDetection.ts: `detect` and matching without a memory.
use node_proxybroker.Prelude.{
  ℕ, zero, suc, ◌-◌, ◌≡◌, ap, Bool, true, false, ◌||◌, Option, none, some, List, [], ◌∷◌, Str,
  length, drop, any, is_some, arith, if◌then◌else◌, ltb, pos,
}
use node_proxybroker.Judge.Level.{
  IHeader, Stats, RegExp, LevelDetection, is_forward_header, is_via_header, search_host, test,
  detect_header, detect_headers, level_of, detect, no_stats,
}

module _ (match_escaped : Str → Str → Option Str) where
  -- One of the hosts stands in the text.
  abbrev pub names : List Str → Str → Bool
  names hosts s = is_some (search_host match_escaped hosts s)

  abbrev pub shows_local : LevelDetection → IHeader → Bool
  shows_local d h = h.has_local_ip || names d.local_regex.hosts h.value

  abbrev pub shows_proxy : LevelDetection → IHeader → Bool
  shows_proxy d h = h.has_proxy_ip || names d.proxy_regex.hosts h.value

  -- The header gives a proxy away.
  abbrev pub shows_any : LevelDetection → IHeader → Bool
  shows_any d h =
      shows_proxy d h
      || ((h.is_via || is_via_header h.key) || (h.is_forward || is_forward_header h.key))

  -- The level by the headers alone: 3 if one names the local address, 2 if one gives a proxy away
  -- in another manner, else 1.
  abbrev pub level_by : LevelDetection → List IHeader → ℕ
  level_by d hs = if any (shows_local d) hs then 3 else if any (shows_any d) hs then 2 else 1

  test_from :
      (x : RegExp) (s : Str) (k : ℕ)
      → k ≡ 0
      → (if ltb (length s) k
          then (false, record x { last_index = 0 })
          else elim (search_host match_escaped x.hosts (drop k s)) as (λ _. Bool × RegExp) [
            | none ↦ (false, record x { last_index = 0 })
            | some r ↦ (true, record x { last_index = length s - length r })
          ]).0
        ≡ names x.hosts s
  test_from x s zero e = ground arith
  test_from x s (suc k) e = absurd (omega arith)

  test_fresh :
      (x : RegExp) (s : Str) → x.last_index ≡ 0 → (test match_escaped x s).0 ≡ names x.hosts s
  unfolding test
  test_fresh x s e = test_from x s x.last_index e

  test_miss :
      (x : RegExp) (s : Str)
      → (test match_escaped x s).0 ≡ false
      → (test match_escaped x s).1.last_index ≡ 0
  unfolding test
  test_miss x s e = ground arith

  test_hosts : (x : RegExp) (s : Str) → (test match_escaped x s).1.hosts ≡ x.hosts
  unfolding test
  test_hosts x s = ground arith

  detect_header-local :
      (d : LevelDetection) (h : IHeader)
      → (d.stats.has_local_ip ≡ 0 → d.local_regex.last_index ≡ 0)
      → (ltb 0 (detect_header match_escaped d h).0.stats.has_local_ip
          ≡ (ltb 0 d.stats.has_local_ip || shows_local d h))
        × ((detect_header match_escaped d h).0.stats.has_local_ip ≡ 0
            → (detect_header match_escaped d h).0.local_regex.last_index ≡ 0)
        × ((detect_header match_escaped d h).0.local_regex.hosts ≡ d.local_regex.hosts)
  unfolding detect_header
  detect_header-local d h z = ground (
    arith,
    test_fresh d.local_regex h.value,
    test_miss d.local_regex h.value,
    test_hosts d.local_regex h.value,
  )

  detect_header-proxy :
      (d : LevelDetection) (h : IHeader)
      → (d.stats.has_proxy_ip ≡ 0 → d.proxy_regex.last_index ≡ 0)
      → (ltb 0 (detect_header match_escaped d h).0.stats.has_proxy_ip
          ≡ (ltb 0 d.stats.has_proxy_ip || shows_proxy d h))
        × ((detect_header match_escaped d h).0.stats.has_proxy_ip ≡ 0
            → (detect_header match_escaped d h).0.proxy_regex.last_index ≡ 0)
        × ((detect_header match_escaped d h).0.proxy_regex.hosts ≡ d.proxy_regex.hosts)
  unfolding detect_header
  detect_header-proxy d h z = ground (
    arith,
    test_fresh d.proxy_regex h.value,
    test_miss d.proxy_regex h.value,
    test_hosts d.proxy_regex h.value,
  )

  detect_header-names :
      (d : LevelDetection) (h : IHeader)
      → (ltb 0 (detect_header match_escaped d h).0.stats.is_via
          ≡ (ltb 0 d.stats.is_via || (h.is_via || is_via_header h.key)))
        × (ltb 0 (detect_header match_escaped d h).0.stats.is_forward
            ≡ (ltb 0 d.stats.is_forward || (h.is_forward || is_forward_header h.key)))
  unfolding detect_header
  detect_header-names d h = ground arith

  -- What the counters say of the headers so far.
  abbrev found_any : Stats → Bool
  found_any t = ltb 0 t.has_proxy_ip || (ltb 0 t.is_via || ltb 0 t.is_forward)

  detect_headers-found :
      (hs : List IHeader) (d : LevelDetection)
      → (d.stats.has_local_ip ≡ 0 → d.local_regex.last_index ≡ 0)
      → (d.stats.has_proxy_ip ≡ 0 → d.proxy_regex.last_index ≡ 0)
      → (ltb 0 (detect_headers match_escaped d hs).0.stats.has_local_ip
          ≡ (ltb 0 d.stats.has_local_ip || any (shows_local d) hs))
        × (found_any (detect_headers match_escaped d hs).0.stats
            ≡ (found_any d.stats || any (shows_any d) hs))
  unfolding detect_headers
  detect_headers-found [] d zl zp = ground arith
  detect_headers-found (h ∷ hs) d zl zp =
      let e = (detect_header match_escaped d h).0 in
      let (l, zl', hl) = detect_header-local d h zl in
      let (p, zp', hp) = detect_header-proxy d h zp in
      let (rest_l, rest_a) = detect_headers-found hs e zl' zp' in
      let same_l : any (shows_local e) hs ≡ any (shows_local d) hs =
        ap (λ x. any (λ (k : IHeader). k.has_local_ip || names x k.value) hs) hl in
      let same_a : any (shows_any e) hs ≡ any (shows_any d) hs =
        ap
          (λ x.
            any
              (λ (k : IHeader).
                (k.has_proxy_ip || names x k.value)
                || ((k.is_via || is_via_header k.key) || (k.is_forward || is_forward_header k.key)))
              hs)
          hp in
      ground (arith, l, p, rest_l, rest_a, same_l, same_a, detect_header-names d h)

  -- `detect` on a new detector gives the level by the headers alone: that the two global expressions
  -- keep `lastIndex` from one header to the next makes no difference to it.
  pub detect-level_by :
      (d : LevelDetection)
      → (d.local_regex.last_index ≡ 0) × (d.proxy_regex.last_index ≡ 0)
      → d.stats ≡ no_stats
      → (detect match_escaped d).level ≡ pos (level_by d d.recv_headers)
  unfolding detect level_of
  detect-level_by d z s =
      ground (arith, detect_headers-found d.recv_headers d (λ _. z.0) (λ _. z.1), s)
