-- ===== src/Judge/Selftest.antt =====
-- `prepare`, `getRemoteAccessibleIp` and `selftest` of src/libs/judge/Judge.ts: a judge before its
-- first use.
use node_proxybroker.Prelude.{
  ◌≡◌, Bool, true, false, not, ◌&&◌, ◌||◌, is_some, Option, none, some, Str, if◌then◌else◌, arith,
}
use node_proxybroker.Judge.Service.{Judge, prepare}

-- The judge with the address that others reach it at.
pub record Bootstrap {ℓ} (R : Type ℓ) : Type ℓ where
  pub judge : Judge R
  pub remote_ip : Str

-- What the environment answers: the address of the host, or none where the lookup throws; whether
-- the servers start and stop; and whether the two pings are answered with JSON.
pub record Answers : Type 0 where
  pub looked_up : Option Str
  pub starts : Bool
  pub stops : Bool
  pub ping_http : Bool
  pub ping_https : Bool

-- The address after a lookup.
abbrev pub address : Bool → Option Str → Str → Str
address false looked_up ip = ip
address true none ip = ip
address true (some a) ip = a

module _ {ℓ} {R : Type ℓ} where
  -- `prepare` whole: none is the exception of the lookup. The self test pings over both protocols.
  unfoldable pub prepare_judge :
      (remote_lookup self_test : Bool) → Answers → Bootstrap R → Option Bool × Bootstrap R
  unfolding prepare
  prepare_judge remote_lookup self_test a b =
      let (runnable, j) =
        prepare self_test a.starts (a.ping_http && a.ping_https) a.stops b.judge in
      if remote_lookup
      then elim a.looked_up [
        | none ↦ (none, b)
        | some ip ↦ (some runnable, record { judge = j; remote_ip = ip })
      ]
      else (some runnable, record b { judge = j })

  -- A judge at rest is at rest after `prepare`. `prepare` throws exactly if a lookup is asked for and
  -- fails; otherwise it gives true without a self test, and with one whether both pings are answered,
  -- even where the servers did not start. The address is the one that was looked up, or the one before.
  pub prepare_judge-enabled :
      (remote_lookup self_test : Bool) (a : Answers) (b : Bootstrap R)
      → b.judge.enabled ≡ false
      → let (result, after) = prepare_judge remote_lookup self_test a b in
        (after.judge.enabled ≡ false)
        × (result ≡ (
            if remote_lookup && not (is_some a.looked_up)
            then none
            else some (not self_test || (a.ping_http && a.ping_https))))
        × (after.remote_ip ≡ address remote_lookup a.looked_up b.remote_ip)
  unfolding prepare_judge
  prepare_judge-enabled false self_test a b h = ground (arith, h)
  prepare_judge-enabled true self_test a b h = ground (arith, h)
