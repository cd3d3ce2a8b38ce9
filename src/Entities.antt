-- ===== src/Entities.antt =====
-- src/entities: the stored records, with the protocol flags of `IpAddr`, and
-- src/libs/specific/ProtocolType.ts.
pub mod Flags
use Prim.Native.Nat.{bit_and, bit_or, bit_xor}
use node_proxybroker.Prelude.{
  ℕ, Bool, true, false, ◌&&◌, Option, none, [], ◌++◌, Str, codes, is_empty, if◌then◌else◌, ◌==◌,
  show_nat, ℤ,
}

pub data ProtocolType : Type 0 where
  http https : ProtocolType

-- The numbers of the enum.
abbrev pub flag : ProtocolType → ℕ
flag http = 1
flag https = 2

abbrev pub same_protocol : ProtocolType → ProtocolType → Bool
same_protocol http http = true
same_protocol https https = true
same_protocol _ _ = false

-- Dates are milliseconds; a null date is `none`.
pub record IpAddr : Type 0 where
  pub id : ℕ
  pub key : Str
  pub ip : Str
  pub port : ℕ
  pub validation_id : ℕ
  pub protocols_src : ℕ
  pub protocols_dest : ℕ
  pub blocked : Bool
  pub to_delete : Bool
  pub last_checked_at : Option ℕ
  pub count_errors : ℕ
  pub errors_since_at : Option ℕ
  pub count_success : ℕ
  pub success_since_at : Option ℕ

unfoldable pub new_addr : IpAddr
new_addr = record {
  id = 0;
  key = [];
  ip = [];
  port = 0;
  validation_id = 0;
  protocols_src = 0;
  protocols_dest = 0;
  blocked = false;
  to_delete = false;
  last_checked_at = none;
  count_errors = 0;
  errors_since_at = none;
  count_success = 0;
  success_since_at = none;
}

-- `_prepare`, before a record is written.
unfoldable pub prepare : IpAddr → IpAddr
prepare a = if is_empty a.key then record a { key = a.ip ++ (codes ":" ++ show_nat a.port) } else a

-- The bits of `x` that `m` has not: `x & ~m`.
abbrev pub without_bits : ℕ → ℕ → ℕ
without_bits x m = bit_xor x (bit_and x m)

unfoldable pub add_source_protocol : IpAddr → ProtocolType → IpAddr
add_source_protocol a p = record a { protocols_src = bit_or a.protocols_src (flag p) }

unfoldable pub remove_source_protocol : IpAddr → ProtocolType → IpAddr
remove_source_protocol a p =
    if bit_and a.protocols_src (flag p) == flag p
    then record a { protocols_src = without_bits a.protocols_src (flag p) }
    else a

unfoldable pub add_protocol : IpAddr → ProtocolType → IpAddr
add_protocol a p = record a { protocols_dest = bit_or a.protocols_dest (flag p) }

unfoldable pub remove_protocol : IpAddr → ProtocolType → IpAddr
remove_protocol a p = record a { protocols_dest = without_bits a.protocols_dest (flag p) }

unfoldable pub supports_protocol : IpAddr → ProtocolType → Bool
supports_protocol a p = bit_and a.protocols_dest (flag p) == flag p

unfoldable pub supports_source_protocol : IpAddr → ProtocolType → Bool
supports_source_protocol a p = bit_and a.protocols_src (flag p) == flag p

unfoldable pub supports_both : IpAddr → Bool
unfolding supports_protocol
supports_both a = supports_protocol a http && supports_protocol a https

pub record IpRotate : Type 0 where
  pub protocol_src : ProtocolType
  pub addr_id : ℕ
  pub successes : ℕ
  pub errors : ℕ
  pub duration : ℕ
  pub duration_average : ℕ
  pub inc : ℕ
  pub used : ℕ

unfoldable pub new_rotate : ProtocolType → ℕ → IpRotate
new_rotate p id = record {
  protocol_src = p;
  addr_id = id;
  successes = 0;
  errors = 0;
  duration = 0;
  duration_average = 0;
  inc = 0;
  used = 0;
}

pub record IpAddrState : Type 0 where
  pub enabled : Bool
  pub protocol_src : ProtocolType
  pub protocol_dest : ProtocolType
  pub addr_id : ℕ
  pub validation_id : ℕ
  pub level : ℤ
  pub start : ℕ
  pub stop : Option ℕ
  pub duration : Option ℕ
  pub error_code : Option Str
  pub error_message : Option Str
  pub log : Str
