-- ===== src/Broker/Cycle.antt =====
-- A use of a proxy, from `next` to the log.
use node_proxybroker.Prelude.{
  ℕ, ◌≡◌, refl, sym, ap, ◌∙◌, Bool, true, false, Option, none, some, List, [], ◌∷◌, Str, codes,
  str_eq, is_some, any, find, Bool-cases, inl, inr, arith, if◌then◌else◌,
}
use node_proxybroker.Entities.{ProtocolType, http, https, same_protocol}
use node_proxybroker.Http.{Error, Headers}
use node_proxybroker.Rotator.Selector.{Selector, Value}
use node_proxybroker.Rotator.Pool.{
  ActiveAddr, take_active, is_eligible, matches, destination, is_hopeless, use_addr, update_odd,
  find_active_entry,
}
use node_proxybroker.Rotator.Pool.Entries.{find-any}
use node_proxybroker.Rotator.Log.{proxy_used}
use node_proxybroker.Server.Socket.{SocketEvent, new_handle, on_events}
use node_proxybroker.Server.Target.{
  Options, Url, UrlBase, get_target, get_header, select_proxy, chosen_url, target_url, chooser,
  at_url,
}
use node_proxybroker.Broker.{next_selector, rotator_choice}
use node_proxybroker.Broker.Asked.{next_selector-target_ssl}
use node_proxybroker.Broker.Entry.{is_entry, taken-is_entry}
use node_proxybroker.Server.Socket.Kept.{on_events-ssl}

find-holds {ℓ} : {A : Type ℓ} (p : A → Bool) (l : List A) (a : A) → find p l ≡ some a → p a ≡ true
find-holds p [] a e = absurd (ground (arith, e))
find-holds p (x ∷ l) a e = elim (Bool-cases (p x)) [
  | inl t ↦ let same : x ≡ a = ground (arith, t, e) in ap p (sym same) ∙ t
  | inr t ↦ find-holds p l a (ground (arith, t, e))
]

same_protocol-eq : (p q : ProtocolType) → same_protocol p q ≡ true → p ≡ q
same_protocol-eq http http e = refl
same_protocol-eq https https e = refl
same_protocol-eq http https e = absurd (ground (arith, e))
same_protocol-eq https http e = absurd (ground (arith, e))

-- An address that may be taken is one for the target protocol of the selector.
eligible-destination :
    (now : ℕ) (s : Selector) (a : ActiveAddr)
    → is_eligible now s a ≡ true
    → a.protocol_dest ≡ destination s.target_ssl
unfolding is_eligible matches
eligible-destination now s a e =
    same_protocol-eq a.protocol_dest (destination s.target_ssl) (ground (arith, e))

destination_if : (ssl : Bool) → destination ssl ≡ (if ssl then https else http)
destination_if true = refl
destination_if false = refl

abbrev base_of : ActiveAddr → UrlBase
base_of a = record {
  protocol = if same_protocol a.protocol_src http then codes "http" else codes "https";
  hostname = a.ip;
  port = some a.port;
}

rotator_choice-use_addr :
    (reuse now : ℕ) (a : ActiveAddr)
    → rotator_choice (use_addr now (update_odd reuse a)) ≡ rotator_choice a
unfolding rotator_choice use_addr update_odd
rotator_choice-use_addr reuse now a = ground arith

use_addr-ref : (reuse now : ℕ) (a : ActiveAddr) → (use_addr now (update_odd reuse a)).ref ≡ a.ref
unfolding use_addr update_odd
use_addr-ref reuse now a = ground arith

get_target-rotator :
    (url_parse : Str → Url) (o : Options) (headers : Headers) (a : ActiveAddr)
    → get_header select_proxy headers ≡ none
    → o.target ≡ chooser
    → get_target url_parse o headers (rotator_choice a) ≡ at_url (base_of a)
unfolding get_target target_url chosen_url rotator_choice
get_target-rotator url_parse o headers a n c = rw (n, get_target) (rw c refl)

taken-some :
    (order_by : List ActiveAddr → List ActiveAddr)
    → (reuse now : ℕ) (s : Selector) (l : List ActiveAddr) (a : ActiveAddr)
    → find (is_eligible now s) l ≡ some a
    → (take_active order_by reuse now s l).0 ≡ some (use_addr now (update_odd reuse a))
unfolding take_active
taken-some order_by reuse now s l a e = rw (e, take_active) refl

scheme-protocol :
    (p : ProtocolType)
    → (if str_eq (if same_protocol p http then codes "http" else codes "https") (codes "https")
        then https
        else http)
      ≡ p
unfolding str_eq
scheme-protocol http = refl
scheme-protocol https = refl

-- A use of a proxy, from the choice to the log, for a request that names no proxy of its own, at a
-- server whose target is the rotator. Let `a` be the first address of the active list that is eligible
-- for the request, and not hopeless. Then `a` is for the target protocol of the request; `next` gives
-- it, and it is the proxy that is connected to; what is logged once the new socket has seen any events
-- has its ip, its port and both its protocols; and the log finds an entry with these in the list that
-- `next` leaves, if `orderBy` loses no property that some address of its list has.
pub proxy_used-take_active :
    (x : Error → Error) (url_parse : Str → Url) (order_by : List ActiveAddr → List ActiveAddr)
    → ((p : ActiveAddr → Bool) (l : List ActiveAddr) → any p (order_by l) ≡ any p l)
    → (o : Options) (headers : Headers) (selects : List (Str × Value)) (ssl : Bool) (reuse now : ℕ)
      (l : List ActiveAddr) (a : ActiveAddr) (id opened : ℕ) (url : Option Str)
      (events : List (ℕ × SocketEvent))
    → get_header select_proxy headers ≡ none
    → o.target ≡ chooser
    → find (is_eligible now (next_selector ssl selects)) l ≡ some a
    → is_hopeless a ≡ false
    → (b : ActiveAddr) × (base : UrlBase) × let (taken, left) =
          take_active order_by reuse now (next_selector ssl selects) l in
        let used =
          proxy_used base (on_events x (new_handle id opened ssl o.forward_timeout url) events) in
        (taken ≡ some b)
        × (b.ref ≡ a.ref)
        × (a.protocol_dest ≡ (if ssl then https else http))
        × (get_target url_parse o headers (rotator_choice b) ≡ at_url base)
        × (used.ip ≡ a.ip)
        × (used.port ≡ some a.port)
        × (used.protocol ≡ a.protocol_src)
        × (used.protocol_dest ≡ a.protocol_dest)
        × (is_some (find_active_entry used.ip a.port used.protocol_dest left) ≡ true)
unfolding proxy_used find_active_entry new_handle
proxy_used-take_active x url_parse order_by keeps o headers selects ssl reuse now l a id opened url
      events n c e h =
    let s = next_selector ssl selects in
    let b = use_addr now (update_odd reuse a) in
    let handle = on_events x (new_handle id opened ssl o.forward_timeout url) events in
    let for_target : a.protocol_dest ≡ (if ssl then https else http) =
      eligible-destination now s a (find-holds (is_eligible now s) l a e)
      ∙ ap destination (next_selector-target_ssl ssl selects)
      ∙ destination_if ssl in
    let logged : (if handle.ssl then https else http) ≡ a.protocol_dest =
      ap (λ t. if t then https else http)
        (on_events-ssl x (new_handle id opened ssl o.forward_timeout url) events)
      ∙ sym for_target in
    let left = (take_active order_by reuse now s l).1 in
    (
      b,
      base_of a,
      (
        taken-some order_by reuse now s l a e,
        use_addr-ref reuse now a,
        for_target,
        ap (get_target url_parse o headers) (rotator_choice-use_addr reuse now a)
            ∙ get_target-rotator url_parse o headers a n c,
        refl,
        refl,
        scheme-protocol a.protocol_src,
        logged,
        ap (λ d. is_some (find_active_entry a.ip a.port d left)) logged
            ∙ find-any (is_entry a) left
            ∙ taken-is_entry order_by keeps reuse now s l a e h,
      ),
    )
