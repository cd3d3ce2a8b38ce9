-- ===== src/Judge/Validation.antt =====
-- `validate` and `handleRequest` of src/libs/judge/Judge.ts: the tests of a proxy run at the same time
-- and end in any order.
pub mod Entries
pub mod Interleaved
use node_proxybroker.Prelude.{
  ℕ, suc, ◌+◌, Bool, true, false, Option, none, some, List, [], ◌∷◌, ◌++◌, map, Str, codes, str_eq,
  show_nat, if◌then◌else◌,
}
use node_proxybroker.Entities.{ProtocolType, http, https}
use node_proxybroker.Judge.Service.{
  Judge, cached, delete, remove_from_cache, create_request, proxy_url, variants, put,
}

-- What the options of the judge say of its address.
pub record Remote : Type 0 where
  pub remote_ip : Str
  pub http_port : ℕ
  pub https_port : ℕ

-- `remote_url`, for the two protocols that `handleRequest` passes.
unfoldable pub remote_url : Remote → ProtocolType → Str
remote_url o http = codes "http://" ++ (o.remote_ip ++ (codes ":" ++ show_nat o.http_port))
remote_url o https = codes "https://" ++ (o.remote_ip ++ (codes ":" ++ show_nat o.https_port))

-- A test that has begun: its request, and the protocols to and from the proxy.
pub record Test {ℓ} (R : Type ℓ) : Type ℓ where
  pub request : R
  pub from : ProtocolType
  pub to : ProtocolType

-- The judge, the tests that run, by the id of their request, and `results.variants`.
pub record Validation {ℓ κ} (R : Type ℓ) (X : Type κ) : Type (ℓ ⊔ κ) where
  pub judge : Judge R
  pub running : List (Str × Test R)
  pub results : List ((ProtocolType × ProtocolType) × X)

-- The proxy, and how a request is made: `shorthash` is the hash of CryptUtils, `make` the constructor
-- by the id and the url.
pub record Proxy {ℓ} (R : Type ℓ) : Type ℓ where
  pub ip : Str
  pub port : ℕ
  pub remote : Remote
  pub shorthash : Str → Str
  pub make : Str → Str → R

module _ {ℓ} {R : Type ℓ} where
  unfoldable pub new_request : Proxy R → ℕ → ProtocolType → ProtocolType → Judge R → Str × Judge R
  unfolding create_request proxy_url remote_url
  new_request p now from to j =
      create_request p.shorthash (remote_url p.remote to) (proxy_url from p.ip p.port) now p.make j

  unfoldable pub new_test : Proxy R → Str → ProtocolType → ProtocolType → Test R
  unfolding remote_url
  new_test p id from to = record {
    request = p.make id (remote_url p.remote to ++ (codes "/judge/" ++ id));
    from = from;
    to = to;
  }

module _ {ℓ κ} {R : Type ℓ} {X : Type κ} where
  -- `handleRequest`, up to its first await.
  unfoldable pub begin_test :
      Proxy R → ℕ → ProtocolType × ProtocolType → Validation R X → Validation R X
  unfolding new_request new_test
  begin_test p now (from, to) v =
      let (id, j) = new_request p now from to v.judge in
      record {
        judge = j;
        running = v.running ++ ((id, new_test p id from to) ∷ []);
        results = v.results;
      }

  -- The end of a test: `none` says that `result` throws, which `validate` only logs.
  unfoldable pub end_test : Str → Option X → Validation R X → Validation R X
  unfolding cached remove_from_cache delete
  end_test id outcome v = elim (cached id v.running) [
    | none ↦ v
    | some t ↦ elim outcome [
      | none ↦ record v { running = delete id v.running }
      | some x ↦ record {
        judge = remove_from_cache id v.judge;
        running = delete id v.running;
        results = v.results ++ (((t.from, t.to), x) ∷ []);
      }
    ]
  ]

  unfoldable pub begin_all :
      Proxy R → ℕ → List (ProtocolType × ProtocolType) → Validation R X → Validation R X
  unfolding begin_test
  begin_all p now [] v = v
  begin_all p now (ft ∷ fts) v = begin_all p now fts (begin_test p now ft v)

  unfoldable pub end_all : List (Str × Option X) → Validation R X → Validation R X
  unfolding end_test
  end_all [] v = v
  end_all ((id, x) ∷ es) v = end_all es (end_test id x v)

  -- `validate`: the tests begin at once, then end in the order in which they do.
  unfoldable pub validate :
      Proxy R → ℕ → (use_http use_https : Bool) → List (Str × Option X) → Judge R → Validation R X
  unfolding begin_all end_all variants
  validate p now use_http use_https ends j = end_all ends (
      begin_all p now (variants use_http use_https)
        (record { judge = j; running = []; results = [] }))
