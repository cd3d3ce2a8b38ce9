-- ===== src/Validator/Protocols.antt =====
-- `ProxyValidator.buildState`: the protocols that a stored address supports.
use node_proxybroker.Prelude.{
  ◌≡◌, refl, ap, ◌∙◌, Bool, true, false, ◌&&◌, ◌||◌, List, [], ◌∷◌, Str, any, if◌then◌else◌, arith,
}
use node_proxybroker.Entities.{
  ProtocolType, same_protocol, IpAddr, add_protocol, supports_protocol, add_source_protocol,
  supports_source_protocol,
}
use node_proxybroker.Entities.Flags.{supports_protocol-add_remove}
use node_proxybroker.Judge.Results.{JudgeResult}
use node_proxybroker.Validator.{is_enabled, build_state, build_states}

-- The two kinds of protocols are kept apart.
dest_kept :
    (a : IpAddr) (src p : ProtocolType)
    → supports_protocol (add_source_protocol a src) p ≡ supports_protocol a p
unfolding supports_protocol add_source_protocol
dest_kept a src p = refl

src_kept :
    (a : IpAddr) (dest p : ProtocolType)
    → supports_source_protocol (add_protocol a dest) p ≡ supports_source_protocol a p
unfolding supports_source_protocol add_protocol
src_kept a dest p = refl

-- The protocols of an address after a result that is enabled, or is not.
added :
    (b : Bool) (a : IpAddr) (src dest p : ProtocolType)
    → (supports_protocol (if b then add_protocol (add_source_protocol a src) dest else a) p
        ≡ (supports_protocol a p || (b && same_protocol dest p)))
      × (supports_source_protocol (if b then add_protocol (add_source_protocol a src) dest else a) p
          ≡ (supports_source_protocol a p || (b && same_protocol src p)))
added false a src dest p = (ground arith, ground arith)
added true a src dest p =
    let (d, _, _, _) = supports_protocol-add_remove (add_source_protocol a src) dest p in
    let (_, _, s, _) = supports_protocol-add_remove a src p in
    (
      d ∙ ground (arith, dest_kept a src p),
      src_kept (add_source_protocol a src) dest p ∙ s ∙ ground arith,
    )

module _ (log_text : JudgeResult → Str) where
  build_state-added :
      (a : IpAddr) (r : JudgeResult)
      → (build_state log_text a r).1 ≡ (
          if is_enabled r
          then add_protocol (add_source_protocol a r.protocol_from) r.protocol_to
          else a)
  unfolding build_state
  build_state-added a r = refl

  build_state-supports :
      (a : IpAddr) (r : JudgeResult) (p : ProtocolType)
      → (supports_protocol (build_state log_text a r).1 p
          ≡ (supports_protocol a p || (is_enabled r && same_protocol r.protocol_to p)))
        × (supports_source_protocol (build_state log_text a r).1 p
            ≡ (supports_source_protocol a p || (is_enabled r && same_protocol r.protocol_from p)))
  build_state-supports a r p =
      let (d, s) = added (is_enabled r) a r.protocol_from r.protocol_to p in
      (
        ap (λ x. supports_protocol x p) (build_state-added a r) ∙ d,
        ap (λ x. supports_source_protocol x p) (build_state-added a r) ∙ s,
      )

  -- The results of a validation give an address just the protocols of those that are enabled: after
  -- them it supports a protocol exactly if it did before or an enabled result reached the judge by
  -- it, and has a source protocol exactly if it had it before or an enabled result came by it.
  pub build_states-supports :
      (a : IpAddr) (rs : List JudgeResult) (p : ProtocolType)
      → (supports_protocol (build_states log_text a rs).2 p
          ≡ (supports_protocol a p || any (λ r. is_enabled r && same_protocol r.protocol_to p) rs))
        × (supports_source_protocol (build_states log_text a rs).2 p ≡ (
            supports_source_protocol a p
            || any (λ r. is_enabled r && same_protocol r.protocol_from p) rs))
  unfolding build_states
  build_states-supports a [] p = (ground arith, ground arith)
  build_states-supports a (r ∷ rs) p =
      let (d, s) = build_states-supports (build_state log_text a r).1 rs p in
      let (e, t) = build_state-supports a r p in (ground (arith, d, e), ground (arith, s, t))
