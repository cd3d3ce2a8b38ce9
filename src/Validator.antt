-- ===== src/Validator.antt =====
-- src/libs/proxy/ProxyValidator.ts: the results of the judge become stored states, and an address
-- keeps count of its validations.
pub mod Counting
pub mod Protocols
pub mod Work
pub mod Task
use node_proxybroker.Prelude.{
  ℕ, suc, ◌+◌, ◌-◌, ◌*◌, ◌≡◌, Bool, true, false, not, ◌&&◌, ◌||◌, Option, none, some, List, [], ◌∷◌,
  ◌++◌, map, Str, find, filter, any, take, is_some, if◌then◌else◌, ltb, ℤ, pos, negsuc, is_natural,
}
use node_proxybroker.Entities.{
  ProtocolType, IpAddr, IpAddrState, new_addr, prepare, add_source_protocol, add_protocol,
}
use node_proxybroker.Http.{Error}
use node_proxybroker.Judge.Results.{JudgeResult, get_variants}

abbrev error_code : JudgeResult → Option Str
error_code r = elim r.error [ none ↦ none | some e ↦ some e.code ]

abbrev error_message : JudgeResult → Option Str
error_message r = elim r.error [ none ↦ none | some e ↦ some e.message ]

abbrev pub is_enabled : JudgeResult → Bool
is_enabled r = not r.has_error && is_natural r.level

-- `buildState`: the new state, and the address with the protocols of an enabled one. `log_text` is
-- `logToString`.
unfoldable pub build_state : (JudgeResult → Str) → IpAddr → JudgeResult → IpAddrState × IpAddr
unfolding add_source_protocol add_protocol
build_state log_text addr r = (
  record {
    enabled = is_enabled r;
    protocol_src = r.protocol_from;
    protocol_dest = r.protocol_to;
    addr_id = addr.id;
    validation_id = addr.validation_id;
    level = r.level;
    start = r.start;
    stop = r.stop;
    duration = r.duration;
    error_code = if r.has_error then error_code r else none;
    error_message = if r.has_error then error_message r else none;
    log = log_text r;
  },
  if is_enabled r
      then add_protocol (add_source_protocol addr r.protocol_from) r.protocol_to
      else addr,
)

-- The loop over the variants: the states to save, whether one is enabled, and the address.
unfoldable pub build_states :
    (JudgeResult → Str) → IpAddr → List JudgeResult → List IpAddrState × Bool × IpAddr
unfolding build_state
build_states log_text addr [] = ([], false, addr)
build_states log_text addr (r ∷ rs) =
    let (state, addr') = build_state log_text addr r in
    let (states, enabled, last) = build_states log_text addr' rs in
    (state ∷ states, state.enabled || enabled, last)

abbrev first_of_now : Option ℕ → ℕ → Option ℕ
first_of_now none now = some now
first_of_now (some t) now = some t

-- The counters after a validation.
unfoldable pub count_result : Bool → ℕ → IpAddr → IpAddr
count_result true now a = record a {
  count_success = a.count_success + 1;
  count_errors = 0;
  errors_since_at = none;
  success_since_at = first_of_now a.success_since_at now;
}
count_result false now a = record a {
  count_success = 0;
  count_errors = a.count_errors + 1;
  success_since_at = none;
  errors_since_at = first_of_now a.errors_since_at now;
}

-- What `store` writes: the address, and the states of its results.
pub record Stored : Type 0 where
  pub addr : IpAddr
  pub states : List IpAddrState

-- The address that is found for the data, or a new one, with the next validation id.
unfoldable pub next_validation : ℕ → Str → ℕ → Option IpAddr → IpAddr
unfolding prepare new_addr
next_validation now ip port found =
    let a = elim found as (λ _. IpAddr) [
      | none ↦ record new_addr { ip = ip; port = port; validation_id = 0 }
      | some a ↦ a
    ] in
    prepare (record a { validation_id = a.validation_id + 1; last_checked_at = some now })

-- `store`, without the location: the judge sets no geo data. `save` gives a new address its id.
unfoldable pub store :
    (JudgeResult → Str)
    → (IpAddr → IpAddr)
    → ℕ
    → Str
    → ℕ
    → Option (List JudgeResult)
    → Option IpAddr
    → Stored
unfolding next_validation build_states count_result get_variants
store log_text save now ip port results found =
    let a = save (next_validation now ip port found) in
    elim results [
      | none ↦ record { addr = a; states = [] }
      | some rs ↦
          let (states, enabled, b) = build_states log_text a (get_variants rs) in
          record { addr = save (count_result enabled now b); states = states }
    ]

-- The test in `do`: failed proxies are left out where the options say so.
unfoldable pub is_stored : Bool → List JudgeResult → Bool
is_stored skip_failed rs =
    let has_success = any (λ r. not r.has_error) rs in
    (skip_failed && has_success) || not skip_failed

abbrev is_before : Option ℕ → ℕ → Bool
is_before none limit = true
is_before (some t) limit = ltb t limit

-- The query of `run`: what is due for another validation. The date is that many seconds ago;
-- `as_read` is the time that the storage reads in the text that `DateUtils` makes of a date.
unfoldable pub is_due : (ℕ → ℕ) → (now time_distance : ℕ) → IpAddr → Bool
is_due as_read now time_distance a =
    not a.blocked
    && (not a.to_delete && is_before a.last_checked_at (as_read (now - time_distance * 1000)))

unfoldable pub revalidate : (ℕ → ℕ) → (now time_distance limit : ℕ) → List IpAddr → List IpAddr
unfolding is_due
revalidate as_read now time_distance limit table =
    take limit (filter (is_due as_read now time_distance) table)
