-- ===== src/Judge/Service/Calls.antt =====
-- `Judge`: which calls are answered.
use node_proxybroker.Prelude.{
  Option, ℕ, ◌≡◌, ◌∙◌, ap, refl, Bool, true, false, not, some, List, [], ◌∷◌, ◌++◌, Str, codes,
  str_eq, str_eq_refl, is_empty, split_on, filter, all, arith, Bool-cases, Option-cases, inl, inr,
  ◌==◌,
}
use node_proxybroker.Judge.Service.{
  Judge, cached, put, add_to_cache, create_request, request_text, judged, route, judge, judge_id,
  parts,
}

abbrev pub no_slash : Str → Bool
no_slash = all (λ c. not (c == b'/'))

split_on-none : (s : Str) → no_slash s ≡ true → split_on b'/' s ≡ s ∷ []
unfolding split_on
split_on-none [] e = refl
split_on-none (c ∷ s) e = ground (arith, split_on-none s)

split_on-path :
    (s : Str) → split_on b'/' (codes "/judge/" ++ s) ≡ [] ∷ codes "judge" ∷ split_on b'/' s
unfolding split_on
split_on-path s = refl

parts-judge :
    (id : Str)
    → no_slash id ≡ true
    → is_empty id ≡ false
    → parts (codes "/judge/" ++ id) ≡ codes "judge" ∷ id ∷ []
parts-judge id n e =
    ap (filter (λ x. not (is_empty x)))
      (split_on-path id ∙ ap (λ l. [] ∷ codes "judge" ∷ l) (split_on-none id n))
    ∙ ground (arith, e)

module _ {ℓ} {R : Type ℓ} where
  judge_id-judged :
      (j : Judge R) (q id : Str) (r : R)
      → judge_id j q ≡ judged id r
      → (cached id j.cache ≡ some r) × (j.enabled ≡ true)
  judge_id-judged j q id r e = elim (Option-cases (cached q j.cache)) [
    | inl none_there ↦ ground (arith, none_there)
    | inr (s, there) ↦ grind (arith, there)
  ]

  route-judged :
      (j : Judge R) (ps : List Str) (id : Str) (r : R)
      → route j ps ≡ judged id r
      → (cached id j.cache ≡ some r) × (j.enabled ≡ true)
  unfolding route
  route-judged j [] id r e = ground arith
  route-judged j (p ∷ []) id r e = ground arith
  route-judged j (p ∷ q ∷ []) id r e = elim (Bool-cases (str_eq p (codes "judge"))) [
    | inl is_judge ↦ judge_id-judged j q id r (ground (arith, is_judge))
    | inr other ↦ ground (arith, other)
  ]
  route-judged j (p ∷ _ ∷ _ ∷ _) id r e = ground arith

  -- A call is answered as a judged one, with 200, only for a request that is in the cache of a judge
  -- that is awake, under the id that the answer names.
  pub judge-judged :
      (path_of : Str → Option Str) (j : Judge R) (target id : Str) (r : R)
      → judge path_of j target ≡ some (judged id r)
      → (cached id j.cache ≡ some r) × (j.enabled ≡ true)
  unfolding judge
  judge-judged path_of j target id r e = elim (Option-cases (path_of target)) [
    | inl n ↦ absurd (ground (arith, e, n))
    | inr (path, p) ↦ route-judged j (parts path) id r (ground (arith, e, p))
  ]

  put-new : (k : Str) (r : R) (c : List (Str × R)) → cached k (put k r c) ≡ some r
  unfolding put cached
  put-new k r [] = ground (arith, str_eq_refl k)
  put-new k r ((j, s) ∷ c) = ground (arith, str_eq_refl k, put-new k r c)

  route-cached :
      (j : Judge R) (id : Str) (r : R)
      → cached id j.cache ≡ some r
      → j.enabled ≡ true
      → route j (codes "judge" ∷ id ∷ []) ≡ judged id r
  unfolding route
  route-cached j id r c e = ground (arith, c, e, str_eq_refl (codes "judge"))

  -- While the judge is awake, the address that `createRequest` gives a request leads to that request:
  -- a call of the path `/judge/` with its id is answered with it. The hash is a text that is not
  -- empty and has no slash, and `url.parse` takes that path for itself.
  pub create_request-judge :
      (path_of : Str → Option Str) (shorthash : Str → Str) (remote_url proxy_url : Str) (now : ℕ)
      (make : Str → Str → R) (j : Judge R)
      → ((s : Str) → (no_slash (shorthash s) ≡ true) × (is_empty (shorthash s) ≡ false))
      → j.enabled ≡ true
      → path_of (codes "/judge/" ++ (create_request shorthash remote_url proxy_url now make j).0)
        ≡ some (codes "/judge/" ++ (create_request shorthash remote_url proxy_url now make j).0)
      → judge path_of
          (create_request shorthash remote_url proxy_url now make j).1
          (codes "/judge/" ++ (create_request shorthash remote_url proxy_url now make j).0)
        ≡ some (
            judged (create_request shorthash remote_url proxy_url now make j).0 (
              make (create_request shorthash remote_url proxy_url now make j).0 (
                remote_url
                ++ (codes "/judge/"
                    ++ (create_request shorthash remote_url proxy_url now make j).0))))
  unfolding judge create_request add_to_cache route
  create_request-judge path_of shorthash remote_url proxy_url now make j h e own =
      let text = request_text remote_url proxy_url now j.inc in
      let id = shorthash text in
      let k = (create_request shorthash remote_url proxy_url now make j).1 in
      let found : route k (parts (codes "/judge/" ++ id))
          ≡ judged id (make id (remote_url ++ (codes "/judge/" ++ id))) =
        ap (route k) (parts-judge id (h text).0 (h text).1)
        ∙ route-cached k id _ (put-new id (make id (remote_url ++ (codes "/judge/" ++ id))) j.cache)
            e in
      rw (own, judge) (ap some found)
