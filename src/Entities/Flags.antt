-- ===== src/Entities/Flags.antt =====
-- `IpAddr`: the protocol flags against the protocols that they stand for.
use Prim.Native.Nat.{bit_and, bit_or, bit_xor}
use node_proxybroker.Prelude.{
  ℕ, ◌≡◌, Bool, false, not, ◌&&◌, ◌||◌, ◌==◌, arith, Bool-cases, inl, inr, bit_and-one, bit_and-two,
  bit_or-one, bit_or-two, bit_xor-one, bit_xor-two,
}
use node_proxybroker.Entities.{
  ProtocolType, http, https, flag, same_protocol, IpAddr, add_protocol, remove_protocol,
  supports_protocol, add_source_protocol, remove_source_protocol, supports_source_protocol,
  without_bits,
}

abbrev has_flag : ℕ → ProtocolType → Bool
has_flag x p = bit_and x (flag p) == flag p

has_flag-bit_or :
    (x : ℕ) (p q : ProtocolType)
    → has_flag (bit_or x (flag p)) q ≡ (same_protocol p q || has_flag x q)
has_flag-bit_or x http http = ground (arith, bit_and-one (bit_or x 1), bit_or-one x)
has_flag-bit_or x http https = ground (arith, bit_and-two (bit_or x 1), bit_and-two x, bit_or-one x)
has_flag-bit_or x https http = ground (arith, bit_and-one (bit_or x 2), bit_and-one x, bit_or-two x)
has_flag-bit_or x https https = ground (arith, bit_and-two (bit_or x 2), bit_or-two x)

has_flag-without_bits :
    (x : ℕ) (p q : ProtocolType)
    → has_flag (without_bits x (flag p)) q ≡ (not (same_protocol p q) && has_flag x q)
has_flag-without_bits x http http =
    ground (arith, bit_and-one (bit_xor x (bit_and x 1)), bit_xor-one x)
has_flag-without_bits x http https =
    ground (arith, bit_and-two (bit_xor x (bit_and x 1)), bit_and-two x, bit_xor-one x)
has_flag-without_bits x https http =
    ground (arith, bit_and-one (bit_xor x (bit_and x 2)), bit_and-one x, bit_xor-two x)
has_flag-without_bits x https https =
    ground (arith, bit_and-two (bit_xor x (bit_and x 2)), bit_xor-two x)

absent_flag :
    (x : ℕ) (p q : ProtocolType)
    → has_flag x p ≡ false
    → has_flag x q ≡ (not (same_protocol p q) && has_flag x q)
absent_flag x http http h = ground (arith, h)
absent_flag x http https h = ground arith
absent_flag x https http h = ground arith
absent_flag x https https h = ground (arith, h)

-- `removeSourceProtocol` looks first whether the flag is set.
remove_source_flag :
    (a : IpAddr) (p q : ProtocolType)
    → has_flag (remove_source_protocol a p).protocols_src q
      ≡ (not (same_protocol p q) && has_flag a.protocols_src q)
unfolding remove_source_protocol
remove_source_flag a p q = elim (Bool-cases (has_flag a.protocols_src p)) [
  | inl h ↦ rw (h, remove_source_protocol) (has_flag-without_bits a.protocols_src p q)
  | inr h ↦ rw (h, remove_source_protocol) (absent_flag a.protocols_src p q h)
]

-- Adding a protocol adds that one, and removing it removes that one, from those that an address
-- supports, and leaves the other as it was; the same holds of the source protocols.
pub supports_protocol-add_remove :
    (a : IpAddr) (p q : ProtocolType)
    → (supports_protocol (add_protocol a p) q ≡ (same_protocol p q || supports_protocol a q))
      × (supports_protocol (remove_protocol a p) q
          ≡ (not (same_protocol p q) && supports_protocol a q))
      × (supports_source_protocol (add_source_protocol a p) q
          ≡ (same_protocol p q || supports_source_protocol a q))
      × (supports_source_protocol (remove_source_protocol a p) q
          ≡ (not (same_protocol p q) && supports_source_protocol a q))
unfolding supports_protocol supports_source_protocol add_protocol remove_protocol
    add_source_protocol remove_source_protocol
supports_protocol-add_remove a p q = (
  has_flag-bit_or a.protocols_dest p q,
  has_flag-without_bits a.protocols_dest p q,
  has_flag-bit_or a.protocols_src p q,
  remove_source_flag a p q,
)
