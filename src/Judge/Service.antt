-- ===== src/Judge/Service.antt =====
-- src/libs/judge/Judge.ts: the service that a tested proxy connects to. The requests under test are
-- kept in a cache by their id; `lock` is held while the servers start or stop, so `wakeup` and
-- `pending` run one at a time.
pub mod Cache
pub mod Calls
use node_proxybroker.Prelude.{
  ℕ, suc, ◌+◌, ◌-◌, ◌≡◌, Bool, true, false, not, ◌&&◌, ◌||◌, Option, none, some, List, [], ◌∷◌,
  ◌++◌, map, Str, codes, str_eq, is_empty, split_on, find, filter, length, is_some, show_nat,
  if◌then◌else◌, ◌==◌,
}
use node_proxybroker.Entities.{ProtocolType, http, https}

-- The text that is hashed into the id of a request.
unfoldable pub request_text : Str → Str → ℕ → ℕ → Str
request_text remote_url proxy_url now inc =
    remote_url
    ++ (codes "-" ++ (proxy_url ++ (codes "-" ++ (show_nat now ++ (codes "-" ++ show_nat inc)))))

-- The address of a proxy, as `handleRequest` writes it.
unfoldable pub proxy_url : ProtocolType → Str → ℕ → Str
proxy_url from ip port =
    elim from [ http ↦ codes "http" | https ↦ codes "https" ]
    ++ (codes "://" ++ (ip ++ (codes ":" ++ show_nat port)))

module _ {ℓ} (R : Type ℓ) where
  -- `R` is what is cached: the judge requests.
  pub record Judge : Type ℓ where
    pub cache : List (Str × R)
    pub cache_sum : ℕ
    pub inc : ℕ
    pub enabled : Bool
    pub runnable : Bool

module _ {ℓ} {R : Type ℓ} where
  unfoldable pub cached : Str → List (Str × R) → Option R
  cached k [] = none
  cached k ((j, r) ∷ c) = if str_eq j k then some r else cached k c

  -- An assignment `cache[id] = r`.
  unfoldable pub put : Str → R → List (Str × R) → List (Str × R)
  put k r [] = (k, r) ∷ []
  put k r ((j, s) ∷ c) = if str_eq j k then (k, r) ∷ c else (j, s) ∷ put k r c

  -- `delete cache[id]`
  unfoldable pub delete : Str → List (Str × R) → List (Str × R)
  delete k [] = []
  delete k ((j, s) ∷ c) = let rest = delete k c in if str_eq j k then rest else (j, s) ∷ rest

  unfoldable pub add_to_cache : Str → R → Judge R → Judge R
  unfolding put
  add_to_cache id r j = record j { cache_sum = j.cache_sum + 1; cache = put id r j.cache }

  unfoldable pub remove_from_cache : Str → Judge R → Judge R
  unfolding cached delete
  remove_from_cache id j =
      if is_some (cached id j.cache)
      then record j { cache_sum = j.cache_sum - 1; cache = delete id j.cache }
      else j

  -- `createRequest`: `make` is the constructor of the request, by its id and its url.
  unfoldable pub create_request :
      (Str → Str) → (remote_url proxy_url : Str) → ℕ → (Str → Str → R) → Judge R → Str × Judge R
  unfolding add_to_cache request_text
  create_request shorthash remote_url proxy_url now make j =
      let id = shorthash (request_text remote_url proxy_url now j.inc) in
      let url = remote_url ++ (codes "/judge/" ++ id) in
      (id, add_to_cache id (make id url) (record j { inc = j.inc + 1 }))

  unfoldable pub remove_all : List Str → Judge R → Judge R
  unfolding remove_from_cache
  remove_all [] j = j
  remove_all (k ∷ ks) j = remove_all ks (remove_from_cache k j)

  abbrev keys : List (Str × R) → List Str
  keys = map (λ p. p.0)

  -- `wakeup`; `starts` says that both servers start. A failure is caught.
  unfoldable pub wakeup : Bool → Judge R → Bool × Judge R
  wakeup starts j = if j.enabled then (true, j) else (starts, record j { enabled = true })

  -- `pending`; `stops` says that both servers stop. Each request is also cleared as it leaves the
  -- cache (`clear` of Judge.Request), which changes that request alone.
  unfoldable pub pending : Bool → Judge R → Bool × Judge R
  unfolding remove_all
  pending stops j =
      if j.enabled
      then (stops, record (remove_all (keys j.cache) j) { enabled = false })
      else (true, j)

  -- `prepare`, after the remote address is known: with a self test the judge is woken up, asked by
  -- both protocols (`answers`) and put to rest again.
  unfoldable pub prepare : Bool → Bool → Bool → Bool → Judge R → Bool × Judge R
  unfolding wakeup pending
  prepare selftest starts answers stops j =
      if selftest
      then (answers, (pending stops (record (wakeup starts j).1 { runnable = answers })).1)
      else (true, record j { runnable = true })

-- What can happen to the cache and the servers: a request is created, its test ends or the socket
-- of its call does, the servers are woken up or put to rest.
pub data ServiceEvent {ℓ} (R : Type ℓ) : Type ℓ where
  created : Str → R → ServiceEvent R
  removed : Str → ServiceEvent R
  woken rested : Bool → ServiceEvent R

module _ {ℓ} {R : Type ℓ} where
  unfoldable pub serve : Judge R → ServiceEvent R → Judge R
  unfolding add_to_cache remove_from_cache wakeup pending
  serve j (created id r) = add_to_cache id r j
  serve j (removed id) = remove_from_cache id j
  serve j (woken starts) = (wakeup starts j).1
  serve j (rested stops) = (pending stops j).1

-- What a call of the service comes to: `R` is the request that it belongs to.
pub data Answer {ℓ} (R : Type ℓ) : Type ℓ where
  judged : Str → R → Answer R
  ping : Answer R
  bad_request : Answer R
  not_found : Answer R

abbrev pub parts : Str → List Str
parts path = filter (λ x. not (is_empty x)) (split_on b'/' path)

module _ {ℓ} {R : Type ℓ} where
  abbrev judge_id : Judge R → Str → Answer R
  judge_id j id = elim (cached id j.cache) [
    | none ↦ bad_request
    | some r ↦ if j.enabled then judged id r else bad_request
  ]

  unfoldable pub route : Judge R → List Str → Answer R
  unfolding cached
  route j [] = not_found
  route j (p ∷ []) = if str_eq p (codes "ping") then ping else not_found
  route j (p ∷ q ∷ []) =
      if str_eq p (codes "judge")
      then judge_id j q
      else if str_eq p (codes "ping")
      then ping
      else not_found
  route j (p ∷ _ ∷ _ ∷ _) = if str_eq p (codes "ping") then ping else not_found

  -- `judge`: the answer to the target of a request. `path_of` is the path that `url.parse` finds in
  -- it; without one `judge` throws.
  unfoldable pub judge : (Str → Option Str) → Judge R → Str → Option (Answer R)
  unfolding route
  judge path_of j target = elim (path_of target) [
    | none ↦ none
    | some path ↦ some (route j (parts path))
  ]

  unfoldable pub status : Answer R → ℕ
  status (judged _ _) = 200
  status ping = 200
  status bad_request = 400
  status not_found = 404

-- The tests that `validate` starts, as pairs of the protocol to the proxy and from it.
unfoldable pub variants : Bool → Bool → List (ProtocolType × ProtocolType)
variants use_http use_https =
    (if use_http then (http, http) ∷ (http, https) ∷ [] else [])
    ++ (if use_https then (https, http) ∷ (https, https) ∷ [] else [])
