-- ===== src/Validator/Counting.antt =====
-- `ProxyValidator`: what the counters of an address say, and when it is validated again.
use node_proxybroker.Prelude.{
  ℕ, zero, suc, ◌+◌, ◌-◌, ◌*◌, ◌≤◌, ◌≡◌, ◌∙◌, ap, refl, Bool, true, false, ◌||◌, Option, none, some,
  List, [], ◌∷◌, map, Str, arith, any, length,
}
use node_proxybroker.Entities.{
  IpAddr, IpAddrState, new_addr, prepare, add_protocol, add_source_protocol,
}
use node_proxybroker.Judge.Results.{JudgeResult, get_variants}
use node_proxybroker.Validator.{
  build_state, build_states, count_result, next_validation, store, is_enabled, is_due, first_of_now,
}

-- An address after validations, the last one first, each with its outcome and its time.
pub counted : List (Bool × ℕ) → IpAddr → IpAddr
counted [] a = a
counted ((ok, now) ∷ hs) a = count_result ok now (counted hs a)

-- The outcomes that are `b` in a row, from the last one back.
pub streak : Bool → List (Bool × ℕ) → ℕ
streak b [] = 0
streak true ((true, now) ∷ hs) = suc (streak true hs)
streak true ((false, now) ∷ hs) = 0
streak false ((true, now) ∷ hs) = 0
streak false ((false, now) ∷ hs) = suc (streak false hs)

-- The time of the `n`-th outcome from the last one back.
pub time_of : ℕ → List (Bool × ℕ) → Option ℕ
time_of zero hs = none
time_of (suc n) [] = none
time_of (suc zero) ((ok, now) ∷ hs) = some now
time_of (suc (suc n)) ((ok, now) ∷ hs) = time_of (suc n) hs

first_of_now-time_of :
    (n now : ℕ) (ok : Bool) (hs : List (Bool × ℕ))
    → n ≤ length hs
    → first_of_now (time_of n hs) now ≡ time_of (suc n) ((ok, now) ∷ hs)
unfolding time_of
first_of_now-time_of zero now ok hs le = refl
first_of_now-time_of (suc n) now ok hs le = there n hs le
  where
    there :
        (n : ℕ) (hs : List (Bool × ℕ))
        → suc n ≤ length hs
        → first_of_now (time_of (suc n) hs) now ≡ time_of (suc n) hs
    there n [] le = absurd (omega arith)
    there zero ((b, t) ∷ hs) le = refl
    there (suc n) ((b, t) ∷ hs) le = there n hs (omega arith)

streak-le : (b : Bool) (hs : List (Bool × ℕ)) → streak b hs ≤ length hs
unfolding streak
streak-le b [] = omega arith
streak-le true ((true, now) ∷ hs) = omega (arith, streak-le true hs)
streak-le true ((false, now) ∷ hs) = omega arith
streak-le false ((true, now) ∷ hs) = omega arith
streak-le false ((false, now) ∷ hs) = omega (arith, streak-le false hs)

-- After any validations of a new address, its counters are the lengths of the run of successes or
-- errors that it ends with, and the two dates are those on which that run began.
pub counted-streak :
    (hs : List (Bool × ℕ))
    → ((counted hs new_addr).count_success ≡ streak true hs)
      × ((counted hs new_addr).count_errors ≡ streak false hs)
      × ((counted hs new_addr).success_since_at ≡ time_of (streak true hs) hs)
      × ((counted hs new_addr).errors_since_at ≡ time_of (streak false hs) hs)
unfolding counted streak count_result new_addr time_of
counted-streak [] = (refl, refl, refl, refl)
counted-streak ((true, now) ∷ hs) =
    let (s, e, st, et) = counted-streak hs in
    (
      omega (arith, s),
      refl,
      ap (λ o. first_of_now o now) st
          ∙ first_of_now-time_of (streak true hs) now true hs (streak-le true hs),
      refl,
    )
counted-streak ((false, now) ∷ hs) =
    let (s, e, st, et) = counted-streak hs in
    (
      refl,
      omega (arith, e),
      refl,
      ap (λ o. first_of_now o now) et
          ∙ first_of_now-time_of (streak false hs) now false hs (streak-le false hs),
    )

-- The parts of what `build_states` gives.
abbrev pub states_of : List IpAddrState × Bool × IpAddr → List IpAddrState
states_of (states, enabled, a) = states

abbrev pub enabled_of : List IpAddrState × Bool × IpAddr → Bool
enabled_of (states, enabled, a) = enabled

abbrev pub addr_of : List IpAddrState × Bool × IpAddr → IpAddr
addr_of (states, enabled, a) = a

-- The states that are built are those of the results in their order, and one is enabled exactly if a
-- result has no error and a level.
pub build_states-enabled :
    (log_text : JudgeResult → Str) (a : IpAddr) (rs : List JudgeResult)
    → (enabled_of (build_states log_text a rs) ≡ any is_enabled rs)
      × (length (states_of (build_states log_text a rs)) ≡ length rs)
      × (map (λ (s : IpAddrState). s.enabled) (states_of (build_states log_text a rs))
          ≡ map is_enabled rs)
unfolding build_states build_state
build_states-enabled log_text a [] = (refl, refl, refl)
build_states-enabled log_text a (r ∷ rs) =
    let a' = (build_state log_text a r).1 in
    let (e, l, s) = build_states-enabled log_text (unfold build_state in a') rs in
    (ap (◌||◌ (is_enabled r)) e, ap suc l, ap (◌∷◌ (is_enabled r)) s)

build_state-last_checked_at :
    (log_text : JudgeResult → Str) (a : IpAddr) (r : JudgeResult)
    → (build_state log_text a r).1.last_checked_at ≡ a.last_checked_at
unfolding build_state add_protocol add_source_protocol
build_state-last_checked_at log_text a r = ground arith

build_states-last_checked_at :
    (log_text : JudgeResult → Str) (rs : List JudgeResult) (a : IpAddr)
    → (addr_of (build_states log_text a rs)).last_checked_at ≡ a.last_checked_at
unfolding build_states
build_states-last_checked_at log_text [] a = refl
build_states-last_checked_at log_text (r ∷ rs) a =
    build_states-last_checked_at log_text rs _ ∙ build_state-last_checked_at log_text a r

count_result-last_checked_at :
    (ok : Bool) (now : ℕ) (a : IpAddr) → (count_result ok now a).last_checked_at ≡ a.last_checked_at
unfolding count_result
count_result-last_checked_at true now a = refl
count_result-last_checked_at false now a = refl

next_validation-last_checked_at :
    (now : ℕ) (ip : Str) (port : ℕ) (found : Option IpAddr)
    → (next_validation now ip port found).last_checked_at ≡ some now
unfolding next_validation prepare
next_validation-last_checked_at now ip port none = ground arith
next_validation-last_checked_at now ip port (some a) = ground arith

store-last_checked_at :
    (log_text : JudgeResult → Str) (save : IpAddr → IpAddr) (now : ℕ) (ip : Str) (port : ℕ)
    (results : Option (List JudgeResult)) (found : Option IpAddr)
    → ((a : IpAddr) → (save a).last_checked_at ≡ a.last_checked_at)
    → (store log_text save now ip port results found).addr.last_checked_at ≡ some now
unfolding store
store-last_checked_at log_text save now ip port none found keeps =
    keeps _ ∙ next_validation-last_checked_at now ip port found
store-last_checked_at log_text save now ip port (some rs) found keeps =
    keeps _
    ∙ count_result-last_checked_at _ now _
    ∙ build_states-last_checked_at log_text (get_variants rs) _
    ∙ keeps _
    ∙ next_validation-last_checked_at now ip port found

fresh_not-is_due :
    (as_read : ℕ → ℕ) (now later time_distance : ℕ) (a : IpAddr)
    → ((t : ℕ) → as_read t ≤ t)
    → a.last_checked_at ≡ some now
    → later ≤ now + time_distance * 1000
    → is_due as_read later time_distance a ≡ false
unfolding is_due
fresh_not-is_due as_read now later time_distance a cut e soon =
    ground (arith, e, cut (later - time_distance * 1000))

-- An address that was just stored, with results or without, is not due again before the time
-- distance is over, if `save` keeps the date of the check and the storage reads the text of a date as
-- a time that is not later, such as that date cut to seconds.
pub store-is_due :
    (as_read : ℕ → ℕ) (log_text : JudgeResult → Str) (save : IpAddr → IpAddr) (now : ℕ) (ip : Str)
    (port : ℕ) (results : Option (List JudgeResult)) (found : Option IpAddr)
    (later time_distance : ℕ)
    → ((t : ℕ) → as_read t ≤ t)
    → ((a : IpAddr) → (save a).last_checked_at ≡ a.last_checked_at)
    → later ≤ now + time_distance * 1000
    → is_due as_read later time_distance (store log_text save now ip port results found).addr
      ≡ false
store-is_due as_read log_text save now ip port results found later time_distance cut keeps soon =
    fresh_not-is_due as_read now later time_distance _ cut
      (store-last_checked_at log_text save now ip port results found keeps) soon
